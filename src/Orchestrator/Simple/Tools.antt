-- ===== src/Orchestrator/Simple/Tools.antt =====
-- The tool calls of a result: `_execute_pending_tools` of app/orchestrator/runner.py. A pending call
-- and a tool request declare the same fields with the same bounds, so the second validation passes.
use Prim.Native.String.{◌++◌ as append}
use general_agent_framework.Prelude.{
  String, Bool, true, false, ◌&&◌, not, Option, none, some, List, [], ◌∷◌, ◌++◌, str_eq,
  if◌then◌else◌,
}
use general_agent_framework.Json.{Value, Fields}
use general_agent_framework.Outcome.{Outcome, returned, raised}
use general_agent_framework.Agents.{Agent, PendingToolCall}
use general_agent_framework.Agents.Registry.{exists, create}
use general_agent_framework.Tools.{ToolExecutionStatus, ToolContext, ToolCallRequest, ToolResult}
use general_agent_framework.Tools.Executor.{ToolExecutor, execute}
use general_agent_framework.Orchestrator.SharedState.{append_tool_result, set_last_tool_results}
use general_agent_framework.Orchestrator.State.{
  WorkflowStatus, WorkflowTerminalReason, OrchestratorState,
}
use general_agent_framework.Orchestrator.Json.{tool_result_json, tool_status_value}
use general_agent_framework.Orchestrator.Base.{Services, World}

-- a failure of the tool step: it also clears `current_agent_id`
unfoldable pub tool_failure :
    WorkflowTerminalReason → List String → OrchestratorState → OrchestratorState
tool_failure reason messages s = record s {
  status = WorkflowStatus.failed;
  terminal_reason = some reason;
  current_agent_id = none;
  errors = s.errors ++ messages;
}

-- `result.errors or [...]`
unfoldable pub tool_errors : ToolCallRequest → ToolResult → List String
tool_errors request result = elim result.errors [
  | [] ↦
      append "Tool '" (
        append request.tool_name
          (append "' finished with status '" (append (tool_status_value result.status) "'.")))
      ∷ []
  | e ∷ es ↦ e ∷ es
]

abbrev pub is_success : ToolExecutionStatus → Bool
is_success ToolExecutionStatus.success = true
is_success _ = false

-- The context shares the nested dicts of the state, so it shows the results appended so far.
abbrev pub tool_context : String → OrchestratorState → ToolContext
tool_context owner s = record {
  request_id = s.request_id;
  agent_id = owner;
  session_id = s.session_id;
  trace_id = s.trace_id;
  shared_state = s.shared_state;
}

abbrev pub request_of : PendingToolCall → ToolCallRequest
request_of c = record { tool_name = c.tool_name; arguments = c.arguments }

abbrev pub with_shared : Fields → OrchestratorState → OrchestratorState
with_shared d s = record s { shared_state = d }

-- the state after the call of a tool that returned a result that is no success
unfoldable pub tool_failed :
    ToolCallRequest → ToolResult → List Value → OrchestratorState → OrchestratorState
unfolding tool_failure tool_errors
tool_failed request result executed s =
    let s' = tool_failure WorkflowTerminalReason.tool_failed (tool_errors request result) s in
    with_shared (set_last_tool_results s'.shared_state executed) s'

-- One call: the list of payloads so far, and the state with the new one appended.
unfoldable pub run_call :
    ToolExecutor
    → Agent
    → String
    → ToolCallRequest
    → OrchestratorState
    → World
    → Outcome (ToolResult × OrchestratorState) × World
run_call ex agent owner request s w =
    let (o, t) = execute ex agent request (tool_context owner s) w.tools in
    (
      elim o [
        | raised e ↦ raised e
        | returned result ↦
            elim (append_tool_result s.shared_state owner (tool_result_json result)) [
              | raised e ↦ raised e
              | returned d ↦ returned (result, with_shared d s)
            ]
      ],
      record w { tools = t },
    )

abbrev pub Calls : Type 0
Calls = List Value → OrchestratorState → World → Outcome (Bool × OrchestratorState) × World

-- the rest of the loop's body, after `execute`, with the further rounds
unfoldable pub after_call :
    Calls
    → ToolCallRequest
    → List Value
    → Outcome (ToolResult × OrchestratorState)
    → World
    → Outcome (Bool × OrchestratorState) × World
unfolding tool_failed
after_call rest request executed (raised e) w = (raised e, w)
after_call rest request executed (returned (result, s)) w =
    let executed' = executed ++ tool_result_json result ∷ [] in
    if is_success result.status
    then rest executed' s w
    else (returned (false, tool_failed request result executed' s), w)

unfoldable pub run_calls : ToolExecutor → Agent → String → List PendingToolCall → Calls
unfolding after_call
run_calls ex agent owner [] executed s w =
    (returned (true, with_shared (set_last_tool_results s.shared_state executed) s), w)
run_calls ex agent owner (c ∷ cs) executed s w =
    let (o, w') = run_call ex agent owner (request_of c) s w in
    after_call (run_calls ex agent owner cs) (request_of c) executed o w'

unfoldable pub owned_calls :
    ToolExecutor
    → Outcome Agent
    → String
    → List PendingToolCall
    → OrchestratorState
    → World
    → Outcome (Bool × OrchestratorState) × World
unfolding run_calls
owned_calls ex (raised e) owner calls s w = (raised e, w)
owned_calls ex (returned agent) owner calls s w = run_calls ex agent owner calls [] s w

unfoldable pub execute_with :
    Option ToolExecutor
    → Services
    → String
    → List PendingToolCall
    → OrchestratorState
    → World
    → Outcome (Bool × OrchestratorState) × World
unfolding owned_calls tool_failure
execute_with none sv owner calls s w = (
  returned (
    false,
    tool_failure WorkflowTerminalReason.tool_executor_unavailable
        ("Simple orchestrator tool step requires a configured ToolExecutor." ∷ []) s,
  ),
  w,
)
execute_with (some ex) sv owner calls s w =
    if not (str_eq owner "") && exists sv.registry owner
    then owned_calls ex (create sv.registry owner) owner calls s w
    else (
      returned (
        false,
        tool_failure WorkflowTerminalReason.tool_owner_not_registered
            (append "Agent '" (append owner "' is not registered for tool execution.") ∷ []) s,
      ),
      w,
    )

unfoldable pub execute_pending_tools :
    Services
    → String
    → List PendingToolCall
    → OrchestratorState
    → World
    → Outcome (Bool × OrchestratorState) × World
unfolding execute_with
execute_pending_tools sv = execute_with sv.tool_executor sv
