-- ===== src/Orchestrator/Graph/Rounds.antt =====
-- A round of the simple orchestrator beside the agent step of the graph and the tool step that may
-- follow it: `_execute_agent_step` of app/orchestrator/langgraph_runner.py and the body of the `for`
-- loop of app/orchestrator/runner.py.
use general_agent_framework.Prelude.{
  ℕ, suc, String, ◌≤◌, ◌≡◌, refl, ◌∙◌, min, false, ltb, Option, none, some, [], ◌∷◌, arith,
  Bool-cases, inl, inr,
}
use general_agent_framework.Json.{Fields}
use general_agent_framework.Outcome.{Outcome, returned, raised, Exception, ◌>>=◌}
use general_agent_framework.Agents.{Agent, AgentContext, AgentResult, agent_result}
use general_agent_framework.Agents.Registry.{exists, create}
use general_agent_framework.Orchestrator.State.{
  WorkflowStatus, WorkflowTerminalReason, OrchestratorState, AgentRunRecord, agent_run_record,
}
use general_agent_framework.Orchestrator.SharedState.{record_agent_output}
use general_agent_framework.Orchestrator.Base.{
  Services, World, build_agent_context, run_agent, apply_result, new_record, with_result,
}
use general_agent_framework.Orchestrator.Simple.{
  Flow, next, stop, dispatch, agent_raised, stopped, failed, cleared, exception_message,
  failure_result, apply_and_dispatch, after_agent, with_context, call_agent, create_and_call,
  step_at, run_step,
}
use general_agent_framework.Orchestrator.Graph.{GraphState, settled}
use general_agent_framework.Orchestrator.Graph.AgentStep.{
  dispatched, raised_in_agent, after_run, run_in_context, run_created, agent_step_at,
}
use general_agent_framework.Orchestrator.Graph.Engine.{route_after_agent_step}
use general_agent_framework.Orchestrator.Graph.Nodes.{GoesOn, Follows, ran, dispatch-Follows}

module _ (sv : Services) (max_graph_steps i : ℕ) where
  abbrev Applied : OrchestratorState → Outcome OrchestratorState → Type 0
  Applied s (raised e) = Unit
  Applied s (returned s') = GoesOn s s'

  apply_result-Applied : (r : AgentResult) (s : OrchestratorState) → Applied s (apply_result i r s)
  unfolding apply_result with_result
  apply_result-Applied r s = ground arith

  abbrev Agrees : ℕ → OrchestratorState → Outcome Flow × World → Outcome GraphState × World → Type 0
  Agrees fuel s o g = Follows sv max_graph_steps i fuel s o (ran sv max_graph_steps i (suc fuel) g)

  -- An exception's result is recorded before the failure here, and after it there.
  failed_result-Agrees :
      (fuel : ℕ) (r : AgentResult) (message : String) (rec : Outcome AgentRunRecord)
      (shared : Outcome Fields) (s : OrchestratorState) (w : World)
      → Agrees fuel s
          (
            stopped (
                (rec >>= λ x. shared >>= λ d. returned (
                  with_result r
                    (failed WorkflowTerminalReason.agent_exception (message ∷ []) s)
                    x
                    d))
                >>= λ s'. returned (cleared s')),
            w,
          )
          (
            (rec >>= λ x. shared >>= λ d. returned (with_result r s x d)) >>= λ s'.
                returned
                  (settled i (cleared (failed WorkflowTerminalReason.agent_exception [] s'))),
            w,
          )
  unfolding stopped with_result route_after_agent_step
  failed_result-Agrees fuel r message (raised e) shared s w = refl
  failed_result-Agrees fuel r message (returned x) (raised e) s w = refl
  failed_result-Agrees fuel r message (returned x) (returned d) s w = (_, refl, refl)

  raised-Agrees :
      (fuel : ℕ) (id : String) (exc : Exception) (s : OrchestratorState) (w : World)
      → Agrees fuel s (stopped (agent_raised i id exc s), w) (raised_in_agent i id exc s, w)
  unfolding agent_raised raised_in_agent stopped apply_result
  raised-Agrees fuel id exc s w =
      built (agent_result (failure_result id (exception_message id exc)))
    where
      m : String
      m = exception_message id exc

      built :
          (o : Outcome AgentResult)
          → Agrees fuel s
              (
                stopped (
                    o >>= λ r.
                    apply_result i r (failed WorkflowTerminalReason.agent_exception (m ∷ []) s)
                    >>= λ s'. returned (cleared s')),
                w,
              )
              (
                o >>= λ r. apply_result i r s >>= λ s'.
                    returned
                      (settled i (cleared (failed WorkflowTerminalReason.agent_exception [] s'))),
                w,
              )
      built (raised e) = refl
      built (returned r) =
          failed_result-Agrees fuel r m (agent_run_record (new_record i r))
            (record_agent_output s.shared_state r.agent_id r.output) s w

  Follows-since :
      (fuel : ℕ) (s t : OrchestratorState) (o : Outcome Flow × World)
      (x : Option (Outcome GraphState × World))
      → GoesOn s t
      → Follows sv max_graph_steps i fuel t o x
      → Follows sv max_graph_steps i fuel s o x
  Follows-since fuel s t (raised e, w) x on h = h
  Follows-since fuel s t (returned (stop s'), w) x on h = h
  Follows-since fuel s t (returned (next s'), w) x on (rest, enough, e, kept, named) =
      (rest, enough, e, (kept.0 ∙ on.0, kept.1 ∙ on.1), named)

  dispatched-Agrees :
      (fuel : ℕ) (r : AgentResult) (o : Outcome OrchestratorState) (s : OrchestratorState)
      (w : World)
      → s.status ≡ WorkflowStatus.running
      → Applied s o
      → Agrees fuel s (apply_and_dispatch sv r o w) (o >>= λ s'. returned (dispatched i r s'), w)
  unfolding apply_and_dispatch
  dispatched-Agrees fuel r (raised e) s w on kept = refl
  dispatched-Agrees fuel r (returned s') s w on kept =
      Follows-since fuel s s' (dispatch sv r s' w) _ kept
        (dispatch-Follows sv max_graph_steps i fuel r s' w (kept.0 ∙ on))

  after_run-Agrees :
      (fuel : ℕ) (id : String) (o : Outcome AgentResult) (s : OrchestratorState) (w : World)
      → s.status ≡ WorkflowStatus.running
      → Agrees fuel s (after_agent sv i id o s w) (after_run i id o s, w)
  unfolding after_agent after_run
  after_run-Agrees fuel id (raised exc) s w on = raised-Agrees fuel id exc s w
  after_run-Agrees fuel id (returned r) s w on =
      dispatched-Agrees fuel r (apply_result i r s) s w on (apply_result-Applied r s)

  created-Agrees :
      (fuel : ℕ) (id : String) (o : Outcome Agent) (s : OrchestratorState) (w : World)
      → s.status ≡ WorkflowStatus.running
      → Agrees fuel s (create_and_call sv i id o s w) (run_created sv i id o s w)
  unfolding create_and_call call_agent run_created with_context run_in_context
  created-Agrees fuel id (raised e) s w on = refl
  created-Agrees fuel id (returned agent) s w on = called (build_agent_context sv s)
    where
      called :
          (o : Outcome AgentContext)
          → Agrees fuel s (with_context sv i id agent o s w) (run_in_context i id agent o s w)
      called (raised exc) = after_run-Agrees fuel id (raised exc) s w on
      called (returned c) = let (o, w') = run_agent agent c w in after_run-Agrees fuel id o s w' on

  -- A round of the loop, and the nodes for it, give the same.
  pub round-Follows :
      (fuel : ℕ) (s : OrchestratorState) (w : World)
      → s.status ≡ WorkflowStatus.running
      → i ≤ min s.max_steps max_graph_steps
      → Agrees fuel s
          (run_step sv i s w)
          (agent_step_at sv max_graph_steps i s.current_agent_id s w)
  unfolding run_step step_at agent_step_at route_after_agent_step
  round-Follows fuel s w on within = at s.current_agent_id
    where
      under : ltb (min s.max_steps max_graph_steps) i ≡ false
      under = ground arith

      at :
          (o : Option String)
          → Agrees fuel s (step_at sv i o s w) (agent_step_at sv max_graph_steps i o s w)
      at none = (_, refl, refl)
      at (some id) = elim (Bool-cases (exists sv.registry id)) [
        | inl q ↦ rw (under, q) (created-Agrees fuel id (create sv.registry id) s w on)
        | inr q ↦ rw (under, q) (_, refl, refl)
      ]
