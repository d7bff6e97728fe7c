-- ===== src/Orchestrator/Simple/Progress.antt =====
-- The rounds of a run go on, or end it, without an exception, where the agents let them.
use general_agent_framework.Prelude.{
  ℕ, zero, suc, String, ◌+◌, ◌≤◌, ◌≡◌, refl, Bool, true, false, Option, none, some, List, [], ◌∷◌,
  arith, str_eq, Bool-cases, ◌⊎◌, inl, inr, if◌then◌else◌,
}
use general_agent_framework.Prelude.Dict.{get}
use general_agent_framework.Json.{Fields, obj, find, assign, find-assign, find-assign_self}
use general_agent_framework.Outcome.{Outcome, returned, raised, Exception}
use general_agent_framework.Agents.{
  Agent, AgentContext, AgentResult, agent_result, is_valid_result, is_next_id,
}
use general_agent_framework.Agents
use general_agent_framework.Agents.Registry.{AgentRegistry, exists, create}
use general_agent_framework.Orchestrator.SharedState.{record_agent_output}
use general_agent_framework.Orchestrator.State.{
  OrchestratorState, agent_run_record, WorkflowTerminalReason, WorkflowStatus,
}
use general_agent_framework.Orchestrator.Base.{
  Services, World, retrieved_refs, new_record, with_result, apply_result, build_agent_context,
  run_agent,
}
use general_agent_framework.Orchestrator.Session.{given}
use general_agent_framework.Orchestrator.Simple.{
  Flow, next, stop, completed, failed, cleared, exception_message, failure_result, agent_raised,
  dispatch, is_failed, asks_review, route, stopped, after_agent, step_at, run_step, after_round,
  loop,
}

-- `agent_outputs` is a dict whose knowledge section, if it is there, holds references that can be read.
abbrev pub HasOutputs : Fields → Type 0
HasOutputs shared =
    (d : Fields) × (find "agent_outputs" shared ≡ some (obj d))
    × ((refs : List String) × (retrieved_refs (find "knowledge_agent" d) ≡ returned refs))

-- `extraction` is a dict, if it is there.
abbrev pub HasRoom : Fields → Type 0
HasRoom memory =
    (find "extraction" memory ≡ none) ⊎ ((d : Fields) × (find "extraction" memory ≡ some (obj d)))

-- A run can go on from the state.
abbrev pub IsReady : OrchestratorState → Type 0
IsReady s = HasOutputs s.shared_state × HasRoom s.memory

-- A call of an agent that the orchestrator can record: a result without tool calls, whose
-- references, if there are some, can be read, or an exception whose message fits into a result.
abbrev pub IsRecordable : String → Outcome AgentResult → Type 0
IsRecordable id (returned r) =
    (r.tool_calls ≡ [])
    × ((refs : List String) × (retrieved_refs (some (obj r.output)) ≡ returned refs))
IsRecordable id (raised e) = is_valid_result (failure_result id (exception_message id e)) ≡ true

record_agent_output-HasOutputs :
    (shared : Fields) (id : String) (output : Fields) (refs : List String)
    → HasOutputs shared
    → retrieved_refs (some (obj output)) ≡ returned refs
    → (shared' : Fields) × (record_agent_output shared id output ≡ returned shared')
      × HasOutputs shared'
unfolding record_agent_output
record_agent_output-HasOutputs shared id output refs (d, at, (old, given)) new = (
  assign "agent_outputs" (obj (assign id (obj output) d)) shared,
  ground arith,
  (
    assign id (obj output) d,
    find-assign_self "agent_outputs" (obj (assign id (obj output) d)) shared,
    elim (Bool-cases (str_eq id "knowledge_agent")) [
      | inl q ↦ (refs, rw (find-assign id "knowledge_agent" (obj output) d, q) new)
      | inr q ↦ (old, rw (find-assign id "knowledge_agent" (obj output) d, q) given)
    ],
  ),
)

valid_record :
    (i : ℕ) (r : AgentResult)
    → 1 ≤ i
    → is_valid_result r ≡ true
    → agent_run_record (new_record i r) ≡ returned (new_record i r)
unfolding agent_run_record new_record is_valid_result is_next_id
valid_record i r pos valid = go r.next_agent_id refl
  where
    go :
        (o : Option String)
        → r.next_agent_id ≡ o
        → agent_run_record (new_record i r) ≡ returned (new_record i r)
    go none e = ground arith
    go (some id) e = ground arith

apply_result-IsReady :
    (i : ℕ) (r : AgentResult) (s : OrchestratorState) (refs : List String)
    → 1 ≤ i
    → is_valid_result r ≡ true
    → IsReady s
    → retrieved_refs (some (obj r.output)) ≡ returned refs
    → (s' : OrchestratorState) × (apply_result i r s ≡ returned s') × IsReady s'
unfolding apply_result with_result
apply_result-IsReady i r s refs pos valid ready given =
    let (shared, recorded, ready') =
      record_agent_output-HasOutputs s.shared_state r.agent_id r.output refs ready.0 given in
    (
      with_result r s (new_record i r) shared,
      rw (valid_record i r pos valid, recorded) refl,
      (ready', ready.1),
    )

-- a round that ends, and leaves the outputs as they must be
abbrev IsFlow : Outcome Flow × World → Type 0
IsFlow (o, w) =
    ((s : OrchestratorState) × (o ≡ returned (next s)) × IsReady s)
    ⊎ ((s : OrchestratorState) × (o ≡ returned (stop s)) × IsReady s)

dispatch-IsFlow :
    (sv : Services) (r : AgentResult) (s : OrchestratorState) (w : World)
    → r.tool_calls ≡ []
    → IsReady s
    → IsFlow (dispatch sv r s w)
unfolding dispatch route
dispatch-IsFlow sv r s w quiet ready =
    rw quiet (go (is_failed r.status) (asks_review r) r.next_agent_id)
  where
    go :
        (f a : Bool) (n : Option String)
        → IsFlow (
            if f
            then (returned (stop (cleared (failed WorkflowTerminalReason.agent_failed [] s))), w)
            else if a
            then (
              returned (
                  stop (record s {
                    status = WorkflowStatus.needs_human_review;
                    terminal_reason = some WorkflowTerminalReason.needs_human_review;
                  })),
              w,
            )
            else (returned (route n s), w))
    go true a n = inr (_, refl, ready)
    go false true n = inr (_, refl, ready)
    go false false none = inr (_, refl, ready)
    go false false (some id) = inl (_, refl, ready)

agent_raised-IsReady :
    (i : ℕ) (id : String) (e : Exception) (s : OrchestratorState)
    → 1 ≤ i
    → is_valid_result (failure_result id (exception_message id e)) ≡ true
    → IsReady s
    → (s' : OrchestratorState) × (agent_raised i id e s ≡ returned s') × IsReady s'
unfolding agent_raised agent_result failure_result retrieved_refs find
agent_raised-IsReady i id e s pos valid ready =
    let message = exception_message id e in
    let before = failed WorkflowTerminalReason.agent_exception (message ∷ []) s in
    let (s', applied, ready') =
      apply_result-IsReady i (failure_result id message) before [] pos valid ready refl in
    (cleared s', rw (valid, applied) refl, ready')

valid_run :
    (agent : Agent) (n : ℕ) (c : AgentContext) (r : AgentResult)
    → Agents.run agent n c ≡ returned r
    → is_valid_result r ≡ true
unfolding Agents.run
valid_run agent n c r h = go (agent.body n c) refl
  where
    go : (o : Outcome AgentResult) → agent.body n c ≡ o → is_valid_result r ≡ true
    go (raised e) q = ground arith
    go (returned x) q = ground arith

after_agent-IsFlow :
    (sv : Services) (i : ℕ) (id : String) (o : Outcome AgentResult) (s : OrchestratorState)
    (w : World)
    → 1 ≤ i
    → ((r : AgentResult) → o ≡ returned r → is_valid_result r ≡ true)
    → IsRecordable id o
    → IsReady s
    → IsFlow (after_agent sv i id o s w)
unfolding after_agent stopped
after_agent-IsFlow sv i id (raised e) s w pos valid short ready =
    let (s', done, ready') = agent_raised-IsReady i id e s pos short ready in
    inr (s', rw done refl, ready')
after_agent-IsFlow sv i id (returned r) s w pos valid (quiet, (refs, given)) ready =
    let (s', applied, ready') = apply_result-IsReady i r s refs pos (valid r refl) ready given in
    rw applied (dispatch-IsFlow sv r s' w quiet ready')

-- Every call of every registered agent can be recorded.
abbrev pub AreRecordable : Services → Type 0
AreRecordable sv =
    (id : String) (agent : Agent) (n : ℕ) (c : AgentContext)
    → create sv.registry id ≡ returned agent
    → IsRecordable id (Agents.run agent n c)

exists-create :
    (r : AgentRegistry) (id : String)
    → exists r id ≡ true
    → (agent : Agent) × (create r id ≡ returned agent)
unfolding exists create
exists-create r id h = go (get id r.agent_classes) refl
  where
    go :
        (o : Option Agent)
        → get id r.agent_classes ≡ o
        → (agent : Agent) × (create r id ≡ returned agent)
    go none e = ground arith
    go (some c) e = (c, ground arith)

context_built :
    (sv : Services) (s : OrchestratorState) (id : String)
    → s.current_agent_id ≡ some id
    → (c : AgentContext) × (build_agent_context sv s ≡ returned c)
unfolding build_agent_context
context_built sv s id e = go (build_agent_context sv s) refl
  where
    go :
        (o : Outcome AgentContext)
        → build_agent_context sv s ≡ o
        → (c : AgentContext) × (build_agent_context sv s ≡ returned c)
    go (raised x) q = ground arith
    go (returned c) q = (c, q)

run_step-IsFlow :
    (sv : Services) (i : ℕ) (s : OrchestratorState) (w : World)
    → AreRecordable sv
    → 1 ≤ i
    → IsReady s
    → IsFlow (run_step sv i s w)
unfolding run_step run_agent
run_step-IsFlow sv i s w all pos ready = go s.current_agent_id refl
  where
    go : (o : Option String) → s.current_agent_id ≡ o → IsFlow (step_at sv i o s w)
    go none e = inr (completed s, refl, ready)
    go (some id) e = elim (Bool-cases (exists sv.registry id)) [
      | inr q ↦ rw q (inr (_, refl, ready))
      | inl q ↦
          let (agent, made) = exists-create sv.registry id q in
          let (c, built) = context_built sv s id e in
          rw (q, made, built)
            (after_agent-IsFlow sv i id (Agents.run agent w.agent_calls c) s _ pos
              (valid_run agent w.agent_calls c) (all id agent w.agent_calls c made) ready)
    ]

pub loop-IsReady :
    (sv : Services) (left i : ℕ) (s : OrchestratorState) (w : World)
    → AreRecordable sv
    → 1 ≤ i
    → IsReady s
    → (s' : OrchestratorState) × ((loop sv left i s w).0 ≡ returned s') × IsReady s'
unfolding loop after_round
loop-IsReady sv zero i s w all pos ready = (_, refl, ready)
loop-IsReady sv (suc left) i s w all pos ready = elim (run_step-IsFlow sv i s w all pos ready) [
  | inl (t, e, ready') ↦
      let (s', done, last) =
        loop-IsReady sv left (i + 1) t (run_step sv i s w).1 all (omega arith) ready' in
      (s', rw e done, last)
  | inr (t, e, ready') ↦ (t, rw e refl, ready')
]
