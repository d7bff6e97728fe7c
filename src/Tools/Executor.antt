-- ===== src/Tools/Executor.antt =====
-- The tool executor: app/tools/executor.py. The tracer, which only observes, is left out.
use Prim.Native.String.{◌++◌ as append}
use general_agent_framework.Prelude.{
  ℕ, String, ◌+◌, Bool, true, false, some, List, [], ◌∷◌, ◌++◌, if◌then◌else◌,
}
use general_agent_framework.Json.{Fields, end, field, str}
use general_agent_framework.Outcome.{
  Outcome, returned, raised, Exception, ExceptionClass, key_error, timeout_error, timeout_subclass,
  class_name,
}
use general_agent_framework.Agents.{Agent, can_use_tool}
use general_agent_framework.Tools
use general_agent_framework.Tools.{
  ToolExecutionStatus, ToolErrorCategory, ToolContext, ToolCallRequest, ToolResult, tool_result,
  ToolRegistry, Tool, create,
}

-- One row of the tool call log, which `save_tool_call_result` writes.
pub record ToolCallLog : Type 0 where
  pub tool_context : ToolContext
  pub tool_request : ToolCallRequest
  pub tool_result : ToolResult

-- What the executor changes: how many tools have run, and the log.
pub record ToolWorld : Type 0 where
  pub calls : ℕ
  pub log : List ToolCallLog

pub record ToolExecutor : Type 0 where
  pub registry : ToolRegistry
  pub runtime_record_service : Bool

abbrev quoted : String → String → String → String
quoted before name after = append before (append name after)

unfoldable pub denied_result : Agent → ToolCallRequest → ToolResult
denied_result agent request = record {
  tool_name = request.tool_name;
  status = ToolExecutionStatus.denied;
  content = end;
  message =
      append (quoted "Agent '" agent.metadata.agent_id "' is not allowed to use tool '")
        (append request.tool_name "'.");
  errors = "tool_permission_denied" ∷ [];
  error_category = some ToolErrorCategory.policy_denied;
  retryable = false;
  error_detail = some "agent permission denied by tool allowlist";
  metrics = end;
}

exception_metrics : Exception → Fields
exception_metrics exc = field "exception_class" (str (class_name exc.class)) end

unfoldable pub not_registered_result : ToolCallRequest → Exception → ToolResult
unfolding exception_metrics
not_registered_result request exc = record {
  tool_name = request.tool_name;
  status = ToolExecutionStatus.failed;
  content = end;
  message = quoted "Tool '" request.tool_name "' is not registered.";
  errors = "tool_not_registered" ∷ [];
  error_category = some ToolErrorCategory.configuration;
  retryable = false;
  error_detail = some exc.text;
  metrics = exception_metrics exc;
}

timeout_result : ToolCallRequest → Exception → ToolResult
unfolding exception_metrics
timeout_result request exc = record {
  tool_name = request.tool_name;
  status = ToolExecutionStatus.timeout;
  content = end;
  message = quoted "Tool '" request.tool_name "' timed out.";
  errors = "tool_timeout" ∷ [];
  error_category = some ToolErrorCategory.timeout;
  retryable = true;
  error_detail = some exc.text;
  metrics = exception_metrics exc;
}

exception_result : ToolCallRequest → Exception → ToolResult
unfolding exception_metrics
exception_result request exc = record {
  tool_name = request.tool_name;
  status = ToolExecutionStatus.failed;
  content = end;
  message = quoted "Tool '" request.tool_name "' failed with an internal exception.";
  errors = "tool_execution_exception" ∷ [];
  error_category = some ToolErrorCategory.execution_exception;
  retryable = false;
  error_detail = some (append (class_name exc.class) (append ": " exc.text));
  metrics = exception_metrics exc;
}

-- the two `except` clauses around `tool.run`, by the exception's class
unfoldable pub handled_as : ToolCallRequest → Exception → ExceptionClass → ToolResult
unfolding timeout_result exception_result
handled_as request exc timeout_error = timeout_result request exc
handled_as request exc (timeout_subclass n) = timeout_result request exc
handled_as request exc _ = exception_result request exc

unfoldable pub handled : ToolCallRequest → Exception → ToolResult
unfolding handled_as
handled request exc = handled_as request exc exc.class

unfoldable pub contained : ToolCallRequest → Outcome ToolResult → Outcome ToolResult
unfolding tool_result
contained request (returned r) = returned r
contained request (raised exc) = tool_result (handled request exc)

-- the `try` around `tool.run`
unfoldable pub run_tool : Tool → ℕ → ToolContext → ToolCallRequest → Outcome ToolResult
unfolding contained
run_tool tool n context request = contained request (Tools.run tool n context request.arguments)

unfoldable pub record_tool_call :
    ToolExecutor → ToolContext → ToolCallRequest → ToolResult → ToolWorld → ToolWorld
record_tool_call ex context request result w =
    if ex.runtime_record_service
    then record w {
      log =
          w.log
          ++ record { tool_context = context; tool_request = request; tool_result = result } ∷ [];
    }
    else w

-- A result that was built is logged and returned; where its constructor raises, nothing is logged.
unfoldable pub finish :
    ToolExecutor
    → ToolContext
    → ToolCallRequest
    → Outcome ToolResult
    → ToolWorld
    → Outcome ToolResult × ToolWorld
unfolding record_tool_call
finish ex context request (returned r) w = (returned r, record_tool_call ex context request r w)
finish ex context request (raised e) w = (raised e, w)

-- the `except KeyError` around the lookup, by the exception's class
unfoldable pub uncreated :
    ToolExecutor
    → ToolContext
    → ToolCallRequest
    → Exception
    → ExceptionClass
    → ToolWorld
    → Outcome ToolResult × ToolWorld
unfolding finish not_registered_result tool_result
uncreated ex context request exc key_error w =
    finish ex context request (tool_result (not_registered_result request exc)) w
uncreated ex context request exc _ w = (raised exc, w)

-- the lookup gave this outcome: a tool that was created runs
unfoldable pub execute_tool :
    ToolExecutor
    → ToolContext
    → ToolCallRequest
    → Outcome Tool
    → ToolWorld
    → Outcome ToolResult × ToolWorld
unfolding run_tool finish uncreated
execute_tool ex context request (returned tool) w =
    finish ex context request (run_tool tool w.calls context request)
      (record w { calls = w.calls + 1 })
execute_tool ex context request (raised exc) w = uncreated ex context request exc exc.class w

unfoldable pub execute :
    ToolExecutor
    → Agent
    → ToolCallRequest
    → ToolContext
    → ToolWorld
    → Outcome ToolResult × ToolWorld
unfolding can_use_tool denied_result finish execute_tool tool_result
execute ex agent request context w =
    if can_use_tool agent request.tool_name
    then execute_tool ex context request (create ex.registry request.tool_name) w
    else finish ex context request (tool_result (denied_result agent request)) w
