-- ===== src/Orchestrator/Simple/Rounds.antt =====
-- What one round of the simple orchestrator leaves: the trail of the run and the final status.
use general_agent_framework.Prelude.{
  ℕ, String, ◌+◌, ◌≡◌, refl, ◌≢◌, inl, inr, Bool, true, false, not, ◌&&◌, str_eq, Option, none,
  some, List, [], ◌∷◌, ◌++◌, arith, Bool-cases,
}
use general_agent_framework.Json.{Value}
use general_agent_framework.Outcome.{Outcome, returned, raised}
use general_agent_framework.Agents.{Agent, AgentResult, PendingToolCall}
use general_agent_framework.Agents.Registry.{exists, create}
use general_agent_framework.Tools.{ToolCallRequest, ToolResult}
use general_agent_framework.Tools.Executor.{ToolExecutor}
use general_agent_framework.Orchestrator.State.{
  WorkflowStatus, WorkflowTerminalReason, OrchestratorState, AgentRunRecord, agent_run_record,
}
use general_agent_framework.Orchestrator.Json.{tool_result_json}
use general_agent_framework.Orchestrator.Base.{Services, World, apply_result, new_record}
use general_agent_framework.Orchestrator.Simple.Tools.{
  Calls, request_of, run_call, run_calls, after_call, tool_failed, tool_errors, execute_with,
  execute_pending_tools, owned_calls,
}
use general_agent_framework.Orchestrator.Simple.{
  Flow, next, stop, after_tools, route, dispatch, with_tools, is_failed, asks_review,
}

-- The status and the terminal reason fit each other, and only an agent's own failure may leave no
-- error message.
abbrev pub Settles : WorkflowStatus → Option WorkflowTerminalReason → List String → Type 0
Settles WorkflowStatus.completed (some WorkflowTerminalReason.natural_completion) errors = Unit
Settles WorkflowStatus.needs_human_review (some WorkflowTerminalReason.needs_human_review) errors =
    Unit
Settles WorkflowStatus.failed (some WorkflowTerminalReason.agent_failed) errors = Unit
Settles WorkflowStatus.failed (some WorkflowTerminalReason.natural_completion) errors = ⊥
Settles WorkflowStatus.failed (some WorkflowTerminalReason.needs_human_review) errors = ⊥
Settles WorkflowStatus.failed (some _) errors = errors ≢ []
Settles _ _ errors = ⊥

abbrev pub IsSettled : OrchestratorState → Type 0
IsSettled s = Settles s.status s.terminal_reason s.errors

-- A tool step leaves the trail alone, and it settles the run where it stops it.
abbrev Tooled : OrchestratorState → World → Outcome (Bool × OrchestratorState) × World → Type 0
Tooled s w (raised e, w') = Unit
Tooled s w (returned (go_on, s'), w') =
    (s'.execution_path ≡ s.execution_path)
    × (s'.run_history ≡ s.run_history)
    × (w'.agent_calls ≡ w.agent_calls)
    × (go_on ≡ false → IsSettled s')

abbrev Traced :
    OrchestratorState → World → Outcome (ToolResult × OrchestratorState) × World → Type 0
Traced s w (raised e, w') = Unit
Traced s w (returned (r, s'), w') =
    (s'.execution_path ≡ s.execution_path)
    × (s'.run_history ≡ s.run_history)
    × (w'.agent_calls ≡ w.agent_calls)

pub append_ne_nil {ℓ} : {A : Type ℓ} (xs ys : List A) → ys ≢ [] → xs ++ ys ≢ []
append_ne_nil [] ys n h = n h
append_ne_nil (x ∷ xs) ys n h = cc

run_call_trail :
    (ex : ToolExecutor) (agent : Agent) (owner : String) (c : ToolCallRequest)
    (s : OrchestratorState) (w : World)
    → Traced s w (run_call ex agent owner c s w)
unfolding run_call
run_call_trail ex agent owner c s w = ground arith

tool_errors-ne-nil :
    (request : ToolCallRequest) (result : ToolResult) → tool_errors request result ≢ []
unfolding tool_errors
tool_errors-ne-nil request result = ground arith

tool_failed_trail :
    (request : ToolCallRequest) (result : ToolResult) (executed : List Value)
    (s : OrchestratorState)
    → ((tool_failed request result executed s).execution_path ≡ s.execution_path)
      × ((tool_failed request result executed s).run_history ≡ s.run_history)
      × IsSettled (tool_failed request result executed s)
unfolding tool_failed
tool_failed_trail request result executed s =
    (refl, refl, append_ne_nil s.errors _ (tool_errors-ne-nil request result))

after_call-Tooled :
    (rest : Calls) (request : ToolCallRequest) (executed : List Value)
    (o : Outcome (ToolResult × OrchestratorState)) (s : OrchestratorState) (w w' : World)
    → ((x : List Value) (t : OrchestratorState) (v : World) → Tooled t v (rest x t v))
    → Traced s w (o, w')
    → Tooled s w (after_call rest request executed o w')
unfolding after_call
after_call-Tooled rest request executed (raised e) s w w' ih h = tt
after_call-Tooled rest request executed (returned (result, s')) s w w' ih h =
    let executed' = executed ++ tool_result_json result ∷ [] in
    ground (arith, ih executed' s' w', tool_failed_trail request result executed' s')

run_calls-Tooled :
    (ex : ToolExecutor) (agent : Agent) (owner : String) (cs : List PendingToolCall)
    (executed : List Value) (s : OrchestratorState) (w : World)
    → Tooled s w (run_calls ex agent owner cs executed s w)
unfolding run_calls
run_calls-Tooled ex agent owner [] executed s w = (refl, refl, refl, λ h. cc)
run_calls-Tooled ex agent owner (c ∷ cs) executed s w =
    let (o, w') = run_call ex agent owner (request_of c) s w in
    after_call-Tooled (run_calls ex agent owner cs) (request_of c) executed o s w w'
      (run_calls-Tooled ex agent owner cs) (run_call_trail ex agent owner (request_of c) s w)

execute_pending_tools-Tooled :
    (sv : Services) (owner : String) (cs : List PendingToolCall) (s : OrchestratorState) (w : World)
    → Tooled s w (execute_pending_tools sv owner cs s w)
unfolding execute_pending_tools
execute_pending_tools-Tooled sv owner cs s w = go sv.tool_executor
  where
    owned : (ex : ToolExecutor) (o : Outcome Agent) → Tooled s w (owned_calls ex o owner cs s w)
    owned ex (raised e) = tt
    owned ex (returned agent) = run_calls-Tooled ex agent owner cs [] s w

    go : (o : Option ToolExecutor) → Tooled s w (execute_with o sv owner cs s w)
    go none = (refl, refl, refl, λ _. append_ne_nil s.errors _ (λ h. cc))
    go (some ex) = elim (Bool-cases (not (str_eq owner "") && exists sv.registry owner)) [
      | inl e ↦ rw e (owned ex (create sv.registry owner))
      | inr e ↦ rw e (refl, refl, refl, λ _. append_ne_nil s.errors _ (λ h. cc))
    ]

-- What `_apply_result` appends, and what it leaves alone.
abbrev pub Applied : ℕ → AgentResult → OrchestratorState → Outcome OrchestratorState → Type 0
Applied i r s (raised e) = Unit
Applied i r s (returned s') =
    (s'.execution_path ≡ s.execution_path ++ r.agent_id ∷ [])
    × (s'.run_history ≡ s.run_history ++ new_record i r ∷ [])
    × (s'.status ≡ s.status)
    × (s'.terminal_reason ≡ s.terminal_reason)
    × (s'.errors ≡ s.errors ++ r.errors)

pub apply_result-Applied :
    (i : ℕ) (r : AgentResult) (s : OrchestratorState) → Applied i r s (apply_result i r s)
unfolding apply_result agent_run_record
apply_result-Applied i r s = ground arith

-- The agent `id` was called in round `i`: the trail grows by one entry of that agent.
abbrev pub Advances :
    Services → String → ℕ → OrchestratorState → OrchestratorState → World → World → Type 0
Advances sv id i s s' w w' =
    (rec : AgentRunRecord) × (exists sv.registry id ≡ true)
    × (rec.step_index ≡ i)
    × (rec.agent_id ≡ id)
    × (s'.execution_path ≡ s.execution_path ++ id ∷ [])
    × (s'.run_history ≡ s.run_history ++ rec ∷ [])
    × (w'.agent_calls ≡ w.agent_calls + 1)

-- After `_apply_result`, a round goes on or stops with the trail as it is.
abbrev pub Routed : OrchestratorState → World → Outcome Flow × World → Type 0
Routed s w (raised e, w') = Unit
Routed s w (returned (next s'), w') =
    (s'.execution_path ≡ s.execution_path)
    × (s'.run_history ≡ s.run_history)
    × (w'.agent_calls ≡ w.agent_calls)
Routed s w (returned (stop s'), w') =
    (s'.execution_path ≡ s.execution_path)
    × (s'.run_history ≡ s.run_history)
    × (w'.agent_calls ≡ w.agent_calls)
    × IsSettled s'

after_tools-Routed :
    (next_id : Option String) (o : Outcome (Bool × OrchestratorState)) (s : OrchestratorState)
    (w w' : World)
    → Tooled s w (o, w')
    → Routed s w (after_tools next_id o, w')
unfolding after_tools route
after_tools-Routed next_id (raised e) s w w' h = tt
after_tools-Routed none (returned (true, s')) s w w' h = (h.0, h.1, h.2, tt)
after_tools-Routed (some id) (returned (true, s')) s w w' h = (h.0, h.1, h.2)
after_tools-Routed next_id (returned (false, s')) s w w' h = (h.0, h.1, h.2, h.3 refl)

pub dispatch-Routed :
    (sv : Services) (r : AgentResult) (s : OrchestratorState) (w : World)
    → Routed s w (dispatch sv r s w)
unfolding dispatch route
dispatch-Routed sv r s w = elim (Bool-cases (is_failed r.status)) [
  | inl e ↦ rw e (refl, refl, refl, tt)
  | inr e ↦ rw e (elim (Bool-cases (asks_review r)) [
    | inl q ↦ rw q (refl, refl, refl, tt)
    | inr q ↦ rw q (tools r.next_agent_id r.tool_calls)
  ])
]
  where
    tools :
        (next_id : Option String) (cs : List PendingToolCall)
        → Routed s w (with_tools sv r.agent_id next_id cs s w)
    tools none [] = (refl, refl, refl, tt)
    tools (some id) [] = (refl, refl, refl)
    tools next_id (c ∷ cs) =
        let (o, w') = execute_pending_tools sv r.agent_id (c ∷ cs) s w in
        after_tools-Routed next_id o s w w'
          (execute_pending_tools-Tooled sv r.agent_id (c ∷ cs) s w)
