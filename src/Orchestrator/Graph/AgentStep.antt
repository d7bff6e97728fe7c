-- ===== src/Orchestrator/Graph/AgentStep.antt =====
-- The node `agent_step` of the graph: `_execute_agent_step` of app/orchestrator/langgraph_runner.py.
use general_agent_framework.Prelude.{
  ℕ, String, ◌+◌, min, Option, none, some, List, [], ◌∷◌, ltb, if◌then◌else◌,
}
use general_agent_framework.Outcome.{Outcome, returned, raised, ◌>>=◌, Exception}
use general_agent_framework.Agents.{Agent, AgentContext, AgentResult, PendingToolCall, agent_result}
use general_agent_framework.Agents.Registry.{exists, create}
use general_agent_framework.Orchestrator.State.{
  WorkflowStatus, WorkflowTerminalReason, OrchestratorState,
}
use general_agent_framework.Orchestrator.Base.{
  Services, World, build_agent_context, run_agent, apply_result,
}
use general_agent_framework.Orchestrator.Simple.{
  completed, failed, cleared, exhausted, exception_message, failure_result, is_failed, asks_review,
  unregistered,
}
use general_agent_framework.Orchestrator.Graph.{GraphState, settled, with_calls, onward}

unfoldable pub dispatched_calls :
    ℕ → String → Option String → List PendingToolCall → OrchestratorState → GraphState
unfolding onward
dispatched_calls i owner next_id [] s = settled i (onward next_id s)
dispatched_calls i owner next_id (c ∷ cs) s = with_calls i owner next_id (c ∷ cs) s

-- what follows `_apply_result` on a result that the agent returned
unfoldable pub dispatched : ℕ → AgentResult → OrchestratorState → GraphState
unfolding dispatched_calls
dispatched i r s =
    if is_failed r.status
    then settled i (cleared (failed WorkflowTerminalReason.agent_failed [] s))
    else if asks_review r
    then settled i (
        cleared (record s {
          status = WorkflowStatus.needs_human_review;
          terminal_reason = some WorkflowTerminalReason.needs_human_review;
        }))
    else dispatched_calls i r.agent_id r.next_agent_id r.tool_calls s

-- The handler of an agent's exception; building the result validates it, outside any handler.
unfoldable pub raised_in_agent : ℕ → String → Exception → OrchestratorState → Outcome GraphState
unfolding agent_result
raised_in_agent i agent_id exc s =
    let message = exception_message agent_id exc in
    agent_result (failure_result agent_id message) >>= λ r. apply_result i r s >>= λ s'.
    returned (settled i (cleared (failed WorkflowTerminalReason.agent_exception [] s')))

-- `agent.run` gave this outcome
unfoldable pub after_run : ℕ → String → Outcome AgentResult → OrchestratorState → Outcome GraphState
unfolding raised_in_agent dispatched
after_run i agent_id (raised exc) s = raised_in_agent i agent_id exc s
after_run i agent_id (returned r) s = apply_result i r s >>= λ s'. returned (dispatched i r s')

-- The context is built inside the `try`, so that its exception is the agent's.
unfoldable pub run_in_context :
    ℕ
    → String
    → Agent
    → Outcome AgentContext
    → OrchestratorState
    → World
    → Outcome GraphState × World
unfolding after_run
run_in_context i agent_id agent (raised exc) s w = (after_run i agent_id (raised exc) s, w)
run_in_context i agent_id agent (returned context) s w =
    let (o, w') = run_agent agent context w in (after_run i agent_id o s, w')

unfoldable pub run_created :
    Services → ℕ → String → Outcome Agent → OrchestratorState → World → Outcome GraphState × World
unfolding run_in_context
run_created sv i agent_id (raised e) s w = (raised e, w)
run_created sv i agent_id (returned agent) s w =
    run_in_context i agent_id agent (build_agent_context sv s) s w

unfoldable pub agent_step_at :
    Services → ℕ → ℕ → Option String → OrchestratorState → World → Outcome GraphState × World
unfolding run_created
agent_step_at sv max_graph_steps i none s w = (returned (settled i (completed s)), w)
agent_step_at sv max_graph_steps i (some agent_id) s w =
    if ltb (min s.max_steps max_graph_steps) i
    then (returned (settled i (exhausted s)), w)
    else if exists sv.registry agent_id
    then run_created sv i agent_id (create sv.registry agent_id) s w
    else (
      returned (
          settled i
            (failed WorkflowTerminalReason.agent_not_registered (unregistered agent_id ∷ []) s)),
      w,
    )

-- `_execute_agent_step`
unfoldable pub execute_agent_step : Services → ℕ → GraphState → World → Outcome GraphState × World
unfolding agent_step_at
execute_agent_step sv max_graph_steps g w =
    let s = g.orchestrator_state in
    agent_step_at sv max_graph_steps (g.step_index + 1) s.current_agent_id s w
