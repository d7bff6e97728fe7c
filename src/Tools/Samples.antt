-- ===== src/Tools/Samples.antt =====
-- An agent that may use one tool, and a registry that holds it: examples of the executor's theorems.
use general_agent_framework.Prelude.{◌≡◌, refl, true, none, some, [], ◌∷◌, ◌&&◌, if◌then◌else◌}
use general_agent_framework.Prelude.Dict.{get, put}
use general_agent_framework.Json.{null, end, num, field}
use general_agent_framework.Outcome.{Exception, returned, raised, timeout_error}
use general_agent_framework.Agents.{Agent, AgentKind, can_use_tool}
use general_agent_framework.Tools
use general_agent_framework.Tools.{
  ToolClass, ToolRegistry, ToolContext, ToolCallRequest, ToolResult, Tool, register, create,
  is_valid_tool_result,
}
use general_agent_framework.Tools.Executor.{ToolWorld, ToolExecutor, execute, handled}
use general_agent_framework.Tools.Naming.{IsConsistent, register-IsConsistent, Names, execute-Names}
use general_agent_framework.Tools.Calls.{
  Logs, execute-Logs, is_returned, execute-calls, Reported, execute-Reported,
}

abbrev slow : ToolClass
slow = record {
  metadata = record {
    tool_name = "slow_tool";
    description = "";
    version = "0.1.0";
    timeout_seconds = 30;
    tags = [];
  };
  body =
      λ config n context arguments. raised (record { class = timeout_error; text = "no answer" });
}

abbrev agent : Agent
agent = record {
  metadata = record {
    agent_id = "executor_agent";
    agent_name = "executor";
    agent_role = "test";
    agent_kind = AgentKind.system;
    description = "";
    version = "0.1.0";
    allowed_tools = "slow_tool" ∷ [];
    llm_profile = null;
    tags = [];
  };
  body = λ n c. raised (record { class = timeout_error; text = "" });
}

abbrev nothing : ToolRegistry
nothing = record { tool_classes = []; tool_metadata = []; tool_configs = [] }

abbrev registry : ToolRegistry
registry = record {
  tool_classes = ("slow_tool", slow) ∷ [];
  tool_metadata = ("slow_tool", slow.metadata) ∷ [];
  tool_configs = ("slow_tool", field "retries" (num 2) end) ∷ [];
}

nothing-IsConsistent : IsConsistent nothing
unfolding get
nothing-IsConsistent = record { class_name = λ k c h. cc; class_config = λ k c h. cc }

register-slow : register slow (some (field "retries" (num 2) end)) nothing ≡ returned registry
unfolding register get put
register-slow = refl

registry-IsConsistent : IsConsistent registry
registry-IsConsistent =
    register-IsConsistent slow (some (field "retries" (num 2) end)) nothing registry
      nothing-IsConsistent register-slow

abbrev executor : ToolExecutor
executor = record { registry = registry; runtime_record_service = true }

abbrev request : ToolCallRequest
request = record { tool_name = "slow_tool"; arguments = end }

abbrev context : ToolContext
context = record {
  request_id = "request-1";
  agent_id = "executor_agent";
  session_id = none;
  trace_id = none;
  shared_state = end;
}

abbrev world : ToolWorld
world = record { calls = 0; log = [] }

execute-Names_example : Names "slow_tool" (execute executor agent request context world).0
execute-Names_example = execute-Names executor agent request context world registry-IsConsistent

execute-Logs_example : Logs context request world (execute executor agent request context world)
execute-Logs_example = execute-Logs executor agent request context world refl

execute-calls_example :
    (execute executor agent request context world).1.calls
    ≡ (if can_use_tool agent "slow_tool" && is_returned (create registry "slow_tool") then 1 else 0)
execute-calls_example = execute-calls executor agent request context world

abbrev timed_out : Exception
timed_out = record { class = timeout_error; text = "no answer" }

execute-Reported_example :
    (r : ToolResult) × ((execute executor agent request context world).0 ≡ returned r)
    × Reported request timed_out r
unfolding can_use_tool create get is_valid_tool_result handled Tools.run
execute-Reported_example =
    execute-Reported executor agent request context world
      (record { class = slow; config = field "retries" (num 2) end }) timed_out refl refl refl refl
