-- ===== src/Orchestrator/Graph/ToolStep.antt =====
-- The node `tool_step` of the graph: `_execute_tool_step` of app/orchestrator/langgraph_runner.py. The
-- loop over the tool calls is, statement for statement, that of the simple orchestrator.
use Prim.Native.String.{◌++◌ as append}
use general_agent_framework.Prelude.{
  ℕ, String, Bool, true, false, not, ◌&&◌, Option, none, some, List, [], ◌∷◌, str_eq, if◌then◌else◌,
}
use general_agent_framework.Outcome.{Outcome, returned, raised}
use general_agent_framework.Agents.{Agent, PendingToolCall}
use general_agent_framework.Agents.Registry.{exists, create}
use general_agent_framework.Tools.Executor.{ToolExecutor}
use general_agent_framework.Orchestrator.State.{
  WorkflowStatus, WorkflowTerminalReason, OrchestratorState,
}
use general_agent_framework.Orchestrator.Base.{Services, World}
use general_agent_framework.Orchestrator.Simple.Tools.{tool_failure, run_calls}
use general_agent_framework.Orchestrator.Graph.{GraphState, settled, onward}

-- the end of the tool step
unfoldable pub after_calls :
    ℕ → Option String → Outcome (Bool × OrchestratorState) → Outcome GraphState
unfolding onward
after_calls i next_id (raised e) = raised e
after_calls i next_id (returned (true, s)) = returned (settled i (onward next_id s))
after_calls i next_id (returned (false, s)) = returned (settled i s)

unfoldable pub call_tools :
    ToolExecutor
    → Outcome Agent
    → ℕ
    → String
    → Option String
    → List PendingToolCall
    → OrchestratorState
    → World
    → Outcome GraphState × World
unfolding after_calls
call_tools ex (raised e) i owner next_id calls s w = (raised e, w)
call_tools ex (returned agent) i owner next_id calls s w =
    let (o, w') = run_calls ex agent owner calls [] s w in (after_calls i next_id o, w')

abbrev owner_missing : String → String
owner_missing owner = append "Agent '" (append owner "' is not registered for tool execution.")

-- what `f"{tool_owner_agent_id}"` prints
abbrev owner_text : Option String → String
owner_text none = "None"
owner_text (some owner) = owner

no_owner : ℕ → Option String → OrchestratorState → GraphState
no_owner i owner s = settled i (
    tool_failure WorkflowTerminalReason.tool_owner_not_registered
      (owner_missing (owner_text owner) ∷ []) s)

-- the check of the owner, and the calls
unfoldable pub tool_step_for :
    Services
    → ToolExecutor
    → ℕ
    → Option String
    → Option String
    → List PendingToolCall
    → OrchestratorState
    → World
    → Outcome GraphState × World
unfolding call_tools no_owner tool_failure
tool_step_for sv ex i none next_id calls s w = (returned (no_owner i none s), w)
tool_step_for sv ex i (some owner) next_id calls s w =
    if not (str_eq owner "") && exists sv.registry owner
    then call_tools ex (create sv.registry owner) i owner next_id calls s w
    else (returned (no_owner i (some owner) s), w)

-- the check of the executor
unfoldable pub tool_step_with :
    Services
    → Option ToolExecutor
    → ℕ
    → Option String
    → Option String
    → List PendingToolCall
    → OrchestratorState
    → World
    → Outcome GraphState × World
unfolding tool_step_for tool_failure
tool_step_with sv none i owner next_id calls s w = (
  returned (
      settled i (
        tool_failure WorkflowTerminalReason.tool_executor_unavailable
          ("LangGraph tool_step requires a configured ToolExecutor." ∷ []) s)),
  w,
)
tool_step_with sv (some ex) i owner next_id calls s w =
    tool_step_for sv ex i owner next_id calls s w

-- Nothing is pending: the branch sets no terminal reason.
unfoldable pub without_calls : Option String → OrchestratorState → OrchestratorState
without_calls none s = record s { status = WorkflowStatus.completed; current_agent_id = none }
without_calls (some id) s = record s { current_agent_id = some id }

unfoldable pub tool_step_calls :
    Services
    → ℕ
    → Option String
    → Option String
    → List PendingToolCall
    → OrchestratorState
    → World
    → Outcome GraphState × World
unfolding tool_step_with without_calls
tool_step_calls sv i owner next_id [] s w = (returned (settled i (without_calls next_id s)), w)
tool_step_calls sv i owner next_id (c ∷ cs) s w =
    tool_step_with sv sv.tool_executor i owner next_id (c ∷ cs) s w

-- `_execute_tool_step`
unfoldable pub execute_tool_step : Services → GraphState → World → Outcome GraphState × World
unfolding tool_step_calls
execute_tool_step sv g w =
    tool_step_calls sv g.step_index g.tool_owner_agent_id g.pending_next_agent_id
      g.pending_tool_calls g.orchestrator_state w
