-- ===== src/Orchestrator/Simple/Steps.antt =====
-- What one round of the loop does, from the lookup of the agent to the routing.
use general_agent_framework.Prelude.{
  ℕ, String, ◌+◌, ◌≡◌, refl, ◌⊎◌, inl, inr, true, Option, none, some, ◌∷◌, ◌++◌, [], arith, eq_iff,
  Bool-cases, subst, ◌∙◌,
}
use general_agent_framework.Prelude.Dict.{get}
use general_agent_framework.Outcome.{
  Outcome, Exception, returned, raised, ◌>>=◌, key_error, repr_message, Outcome-cases,
}
use general_agent_framework.Agents
use general_agent_framework.Agents.{Agent, AgentContext, AgentResult, agent_result, is_valid_result}
use general_agent_framework.Agents.Registry.{AgentRegistry, IsConsistent, exists, create}
use general_agent_framework.Orchestrator.State.{
  WorkflowTerminalReason, OrchestratorState, AgentRunRecord, to_agent_context,
}
use general_agent_framework.Orchestrator.Base.{
  Services, World, apply_result, new_record, build_agent_context, run_agent,
}
use general_agent_framework.Orchestrator.Simple.Rounds.{
  IsSettled, Applied, apply_result-Applied, Advances, Routed, dispatch-Routed, append_ne_nil,
}
use general_agent_framework.Orchestrator.Simple.{
  Flow, next, stop, dispatch, apply_and_dispatch, after_agent, agent_raised, stopped, call_agent,
  with_context, create_and_call, step_at, run_step, failed, exception_message, failure_result,
  unregistered, cleared,
}

-- The trail stays as it is.
abbrev pub Stays : OrchestratorState → OrchestratorState → World → World → Type 0
Stays s s' w w' =
    (s'.execution_path ≡ s.execution_path)
    × (s'.run_history ≡ s.run_history)
    × (w'.agent_calls ≡ w.agent_calls)

-- A round calls one registered agent, and goes on or settles the run; or it calls none and settles.
abbrev pub Stepped : Services → ℕ → OrchestratorState → World → Outcome Flow × World → Type 0
Stepped sv i s w (raised e, w') = Unit
Stepped sv i s w (returned (next s'), w') = (id : String) × Advances sv id i s s' w w'
Stepped sv i s w (returned (stop s'), w') =
    IsSettled s' × (((id : String) × Advances sv id i s s' w w') ⊎ Stays s s' w w')

abbrev Named : String → Outcome AgentResult → Type 0
Named id (raised e) = Unit
Named id (returned r) = r.agent_id ≡ id

abbrev Instance : String → Outcome Agent → Type 0
Instance id (raised e) = Unit
Instance id (returned a) = a.metadata.agent_id ≡ id

create-Instance : (r : AgentRegistry) (id : String) → IsConsistent r → Instance id (create r id)
unfolding create
create-Instance r id v = go (get id r.agent_classes) (v.class_id id)
  where
    go :
        (o : Option Agent)
        → ((c : Agent) → o ≡ some c → c.metadata.agent_id ≡ id)
        → Instance id (elim o [
          | some c ↦ returned c
          | none ↦ raised (record { class = key_error; text = repr_message (unregistered id) })
        ])
    go none e = tt
    go (some c) e = e c refl

-- `BaseAgent.run` returns only results of its own agent.
run-Named :
    (agent : Agent) (n : ℕ) (c : AgentContext)
    → Named agent.metadata.agent_id (Agents.run agent n c)
unfolding Agents.run
run-Named agent n c = grind (arith, eq_iff)

abbrev Failed : ℕ → String → OrchestratorState → Outcome OrchestratorState → Type 0
Failed i id s (raised e) = Unit
Failed i id s (returned s') =
    (rec : AgentRunRecord) × (rec.step_index ≡ i)
    × (rec.agent_id ≡ id)
    × (s'.execution_path ≡ s.execution_path ++ id ∷ [])
    × (s'.run_history ≡ s.run_history ++ rec ∷ [])
    × IsSettled s'

cleared-Failed :
    (i : ℕ) (id message : String) (s : OrchestratorState) (o : Outcome OrchestratorState)
    → Applied i
        (failure_result id message)
        (failed WorkflowTerminalReason.agent_exception (message ∷ []) s)
        o
    → Failed i id s (o >>= λ s'. returned (cleared s'))
unfolding failure_result new_record
cleared-Failed i id message s (raised e) h = tt
cleared-Failed i id message s (returned s') (path, history, status, reason, errors) = (
  new_record i (failure_result id message),
  refl,
  refl,
  path,
  history,
  rw (status, reason, errors) (append_ne_nil _ (message ∷ []) (λ h. cc)),
)

agent_raised-Failed :
    (i : ℕ) (id : String) (exc : Exception) (s : OrchestratorState)
    → Failed i id s (agent_raised i id exc s)
unfolding agent_raised agent_result
agent_raised-Failed i id exc s =
    let message = exception_message id exc in
    let r = failure_result id message in
    let before = failed WorkflowTerminalReason.agent_exception (message ∷ []) s in
    elim (Bool-cases (is_valid_result r)) [
      | inl e ↦ rw e (cleared-Failed i id message s _ (apply_result-Applied i r before))
      | inr e ↦ rw e tt
    ]

raised-Stepped :
    (sv : Services) (i : ℕ) (id : String) (s : OrchestratorState) (w w' : World)
    (o : Outcome OrchestratorState)
    → exists sv.registry id ≡ true
    → w'.agent_calls ≡ w.agent_calls + 1
    → Failed i id s o
    → Stepped sv i s w (stopped o, w')
unfolding stopped
raised-Stepped sv i id s w w' (raised e) known calls h = tt
raised-Stepped sv i id s w w' (returned s') known calls
      (rec, index, agent, path, history, settled) =
    (settled, inl (id, (rec, known, index, agent, path, history, calls)))

new_record-step_index : (i : ℕ) (r : AgentResult) → (new_record i r).step_index ≡ i
unfolding new_record
new_record-step_index i r = refl

new_record-agent_id : (i : ℕ) (r : AgentResult) → (new_record i r).agent_id ≡ r.agent_id
unfolding new_record
new_record-agent_id i r = refl

-- the routing of a result, behind `_apply_result`
route-Stepped :
    (sv : Services) (i : ℕ) (id : String) (r : AgentResult) (s s' : OrchestratorState)
    (w w' w'' : World) (o : Outcome Flow)
    → exists sv.registry id ≡ true
    → r.agent_id ≡ id
    → w'.agent_calls ≡ w.agent_calls + 1
    → Applied i r s (returned s')
    → Routed s' w' (o, w'')
    → Stepped sv i s w (o, w'')
route-Stepped sv i id r s s' w w' w'' (raised e) known named calls a h = tt
route-Stepped sv i id r s s' w w' w'' (returned (next t)) known named calls a h = (
  id,
  (new_record i r, known, new_record-step_index i r, new_record-agent_id i r ∙ named, cc, cc, cc),
)
route-Stepped sv i id r s s' w w' w'' (returned (stop t)) known named calls a h = (
  h.3,
  inl (
    id,
    (new_record i r, known, new_record-step_index i r, new_record-agent_id i r ∙ named, cc, cc, cc),
  ),
)

after_agent-Stepped :
    (sv : Services) (i : ℕ) (id : String) (o : Outcome AgentResult) (s : OrchestratorState)
    (w w' : World)
    → exists sv.registry id ≡ true
    → w'.agent_calls ≡ w.agent_calls + 1
    → Named id o
    → Stepped sv i s w (after_agent sv i id o s w')
unfolding after_agent
after_agent-Stepped sv i id (raised exc) s w w' known calls h =
    raised-Stepped sv i id s w w' (agent_raised i id exc s) known calls
      (agent_raised-Failed i id exc s)
after_agent-Stepped sv i id (returned r) s w w' known calls named =
    go (apply_result i r s) (apply_result-Applied i r s)
  where
    go :
        (o : Outcome OrchestratorState)
        → Applied i r s o
        → Stepped sv i s w (apply_and_dispatch sv r o w')
    go (raised e) a = tt
    go (returned s') a =
        let (o, w'') = dispatch sv r s' w' in
        route-Stepped sv i id r s s' w w' w'' o known named calls a (dispatch-Routed sv r s' w')

-- The context can be built, since there is a current agent.
build_agent_context_raises :
    (sv : Services) (s : OrchestratorState) {id : String} (exc : Exception)
    → s.current_agent_id ≡ some id
    → build_agent_context sv s ≡ raised exc
    → ⊥
unfolding build_agent_context to_agent_context
build_agent_context_raises sv s exc here e = ground arith

call_agent-Stepped :
    (sv : Services) (i : ℕ) (id : String) (agent : Agent) (s : OrchestratorState) (w : World)
    → s.current_agent_id ≡ some id
    → exists sv.registry id ≡ true
    → agent.metadata.agent_id ≡ id
    → Stepped sv i s w (call_agent sv i id agent s w)
unfolding call_agent run_agent
call_agent-Stepped sv i id agent s w here known named =
    elim (Outcome-cases (build_agent_context sv s)) [
      | inl (exc, e) ↦ absurd (build_agent_context_raises sv s exc here e)
      | inr (c, e) ↦
          rw (e, with_context)
            (after_agent-Stepped sv i id (Agents.run agent w.agent_calls c) s w _ known refl (
              subst (λ k. Named k (Agents.run agent w.agent_calls c)) named
                (run-Named agent w.agent_calls c)))
    ]

step_at-Stepped :
    (sv : Services) (i : ℕ) (current : Option String) (s : OrchestratorState) (w : World)
    → IsConsistent sv.registry
    → s.current_agent_id ≡ current
    → Stepped sv i s w (step_at sv i current s w)
unfolding step_at
step_at-Stepped sv i none s w v here = (tt, inr (refl, refl, refl))
step_at-Stepped sv i (some id) s w v here = elim (Bool-cases (exists sv.registry id)) [
  | inl known ↦ rw known (go known (create sv.registry id) (create-Instance sv.registry id v))
  | inr unknown ↦ rw unknown (append_ne_nil s.errors _ (λ h. cc), inr (refl, refl, refl))
]
  where
    go :
        exists sv.registry id ≡ true
        → (o : Outcome Agent) → Instance id o
        → Stepped sv i s w (create_and_call sv i id o s w)
    go known (raised e) h = tt
    go known (returned agent) h = call_agent-Stepped sv i id agent s w here known h

pub run_step-Stepped :
    (sv : Services) (i : ℕ) (s : OrchestratorState) (w : World)
    → IsConsistent sv.registry
    → Stepped sv i s w (run_step sv i s w)
unfolding run_step
run_step-Stepped sv i s w v = step_at-Stepped sv i s.current_agent_id s w v refl
