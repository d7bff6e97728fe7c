-- ===== src/Orchestrator/Samples.antt =====
-- Small runs: a planner that hands over to an executor, which calls a tool. The module holds the
-- tests and the examples of the orchestrator's theorems.
use general_agent_framework.Prelude.{
  String, ◌≡◌, refl, true, false, Option, none, some, List, [], ◌∷◌,
}
use general_agent_framework.Json.{Value, Fields, null, str, arr, obj, nil, end, field, find}
use general_agent_framework.Outcome.{Outcome, returned, raised}
use general_agent_framework.Agents.{
  Agent, AgentKind, AgentMetadata, AgentExecutionStatus, AgentResult, PendingToolCall,
}
use general_agent_framework.Agents
use general_agent_framework.Agents.Registry.{
  AgentRegistry, IsConsistent, empty, register_many, register, exists, create, empty-IsConsistent,
  register-IsConsistent, register_many-IsConsistent,
}
use general_agent_framework.Tools
use general_agent_framework.Tools.{ToolClass, ToolExecutionStatus, ToolRegistry}
use general_agent_framework.Orchestrator.State.{OrchestratorState, WorkflowStatus}
use general_agent_framework.Orchestrator.Base.{Services, World}
use general_agent_framework.Orchestrator.Simple.{run}
use general_agent_framework.Orchestrator.Simple.Runs.{Ends}
use general_agent_framework.Orchestrator.Simple.Endings.{run-Ends}
use general_agent_framework.Prelude.Dict.{get, put}
use general_agent_framework.Prelude.{◌||◌}
use general_agent_framework.Orchestrator.SharedState.{normalize_shared_state}
use general_agent_framework.Orchestrator.Sections.{HasSections, normalize_shared_state-idempotent}
use general_agent_framework.Agents.{contains}
use general_agent_framework.Json.{cons}
use general_agent_framework.Json.Reading.{truthy}
use general_agent_framework.Orchestrator.Base.{knowledge_refs_in}
use general_agent_framework.Orchestrator.References.{NoRepeats, sync_knowledge_refs-NoRepeats}
use general_agent_framework.Orchestrator.Turns.{Persists, persist-Persists}
use general_agent_framework.Orchestrator.Simple.{run_step}
use general_agent_framework.Orchestrator.Session.{load_context, persist_session_context}
use general_agent_framework.Orchestrator.Base.{
  build_agent_context, run_agent, apply_result, create_human_review_if_needed, sync_knowledge_refs,
  persist_runtime_records,
}
use general_agent_framework.Orchestrator.State.{agent_run_record}
use general_agent_framework.Orchestrator.SharedState.{
  record_agent_output, append_tool_result, set_last_tool_results,
}
use general_agent_framework.Json.{assign, update}
use general_agent_framework.Orchestrator.Simple.Tools.{execute_pending_tools, run_call}
use general_agent_framework.Tools.Executor.{execute}
use general_agent_framework.Tools.{is_valid_tool_result}
use general_agent_framework.Memory.{MemoryService, load_session_context}

abbrev pub metadata : String → List String → AgentMetadata
metadata id tools = record {
  agent_id = id;
  agent_name = id;
  agent_role = "test";
  agent_kind = AgentKind.system;
  description = "";
  version = "0.1.0";
  allowed_tools = tools;
  llm_profile = null;
  tags = [];
}

abbrev pub result : String → Option String → List PendingToolCall → AgentResult
result id next_id calls = record {
  agent_id = id;
  status = AgentExecutionStatus.success;
  summary = "done";
  output = field "ok" (Value.bool true) end;
  messages = [];
  tool_calls = calls;
  next_agent_id = next_id;
  requires_human = false;
  errors = [];
  metrics = end;
}

abbrev pub planner : Agent
planner = record {
  metadata = metadata "planner_agent" [];
  body = λ n c. returned (result "planner_agent" (some "executor_agent") []);
}

abbrev pub executor : Agent
executor = record {
  metadata = metadata "executor_agent" ("echo_tool" ∷ []);
  body = λ n c. returned (
      result "executor_agent" none
        (record { tool_name = "echo_tool"; arguments = field "text" (str "hi") end } ∷ []));
}

abbrev pub agents : AgentRegistry
agents = record {
  agent_classes = ("planner_agent", planner) ∷ ("executor_agent", executor) ∷ [];
  agent_metadata = ("planner_agent", planner.metadata) ∷ ("executor_agent", executor.metadata) ∷ [];
}

register_many-agents :
    register_many (planner ∷ executor ∷ []) empty ≡ (returned (planner ∷ executor ∷ []), agents)
unfolding register_many get put register
register_many-agents = refl

pub agents-IsConsistent : IsConsistent agents
unfolding register get put
agents-IsConsistent =
    register-IsConsistent executor _ agents
      (register-IsConsistent planner empty
        (record {
          agent_classes = ("planner_agent", planner) ∷ [];
          agent_metadata = ("planner_agent", planner.metadata) ∷ [];
        })
        empty-IsConsistent refl)
      refl

abbrev pub echo : ToolClass
echo = record {
  metadata = record {
    tool_name = "echo_tool";
    description = "";
    version = "0.1.0";
    timeout_seconds = 30;
    tags = [];
  };
  body = λ config n context arguments. returned (record {
    tool_name = "echo_tool";
    status = ToolExecutionStatus.success;
    content = arguments;
    message = "";
    errors = [];
    error_category = none;
    retryable = false;
    error_detail = none;
    metrics = end;
  });
}

abbrev pub tools : ToolRegistry
tools = record {
  tool_classes = ("echo_tool", echo) ∷ [];
  tool_metadata = ("echo_tool", echo.metadata) ∷ [];
  tool_configs = ("echo_tool", end) ∷ [];
}

abbrev memory : MemoryService
memory = record {
  session_history_limit = 20;
  recall = λ user project. nil;
  extract = λ user assistant. returned 0;
  clock = λ n. n;
  before = λ a b. false;
}

abbrev pub services : Services
services = record {
  registry = agents;
  llm_service = false;
  memory_service = some memory;
  human_review_service = true;
  uuid = λ n. "review-0";
  runtime_record_service = true;
  workflow_run_service = true;
  tool_executor = some (record { registry = tools; runtime_record_service = true });
}

abbrev pub world : World
world = record {
  agent_calls = 0;
  tools = record { calls = 0; log = [] };
  messages = [];
  reviews = record {
    rows = [];
    broker = record { queues = []; max_queue_size = 100; next_name = 0 };
    ids = 0;
  };
  runtime_records = [];
  workflow_runs = [];
}

abbrev shared : Fields
shared = field "agent_outputs" (obj end) (
    field "tool_results" (obj end)
      (field "last_tool_results" (arr nil) (field "review_context" (obj end) end)))

abbrev pub fresh : OrchestratorState
fresh = record {
  request_id = "request-1";
  initial_agent_id = "planner_agent";
  session_id = some "session-1";
  user_id = none;
  project_key = "default";
  workflow_id = none;
  trace_id = none;
  input_text = some "hello";
  structured_input = end;
  shared_state = shared;
  memory = end;
  knowledge_refs = [];
  current_agent_id = none;
  status = WorkflowStatus.pending;
  terminal_reason = none;
  execution_path = [];
  run_history = [];
  final_result = none;
  errors = [];
  max_steps = 10;
  llm_profile = none;
}

abbrev cited : OrchestratorState
cited = record fresh {
  shared_state =
      field "agent_outputs"
        (obj (
          field "knowledge_agent"
            (obj (field "knowledge_refs" (arr (cons (str "kb:1") (cons (str "kb:2") nil))) end))
            end))
        end;
  knowledge_refs = "kb:2" ∷ [];
}

abbrev merged : OrchestratorState
merged = record cited { knowledge_refs = "kb:2" ∷ "kb:1" ∷ [] }

sync_knowledge_refs-NoRepeats_example :
    NoRepeats ("kb:2" ∷ "kb:1" ∷ [])
    × ((x : String)
        → contains x ("kb:2" ∷ "kb:1" ∷ [])
          ≡ (contains x ("kb:2" ∷ []) || contains x ("kb:1" ∷ "kb:2" ∷ [])))
unfolding sync_knowledge_refs knowledge_refs_in find contains truthy
sync_knowledge_refs-NoRepeats_example =
    sync_knowledge_refs-NoRepeats cited merged ("kb:1" ∷ "kb:2" ∷ []) refl refl

persist-Persists_example :
    Persists "session-1" "request-1" [] (persist_session_context services fresh world).1.messages
persist-Persists_example = persist-Persists services memory "session-1" fresh world refl refl

abbrev solo : Agent
solo = record {
  metadata = metadata "planner_agent" [];
  body = λ n c. returned (result "planner_agent" none []);
}

abbrev alone : Services
alone = record services {
  registry = record {
    agent_classes = ("planner_agent", solo) ∷ [];
    agent_metadata = ("planner_agent", solo.metadata) ∷ [];
  };
}

register_many-IsConsistent_example :
    IsConsistent (register_many (planner ∷ executor ∷ planner ∷ []) empty).1
register_many-IsConsistent_example =
    register_many-IsConsistent (planner ∷ executor ∷ planner ∷ []) empty empty-IsConsistent

normalize_shared_state-idempotent_example :
    HasSections (normalize_shared_state (field "tool_results" (str "none") end))
    × (normalize_shared_state (normalize_shared_state (field "tool_results" (str "none") end))
        ≡ normalize_shared_state (field "tool_results" (str "none") end))
normalize_shared_state-idempotent_example =
    normalize_shared_state-idempotent (field "tool_results" (str "none") end)

run-Ends_example : Ends services 0 10 (run services fresh world)
run-Ends_example = run-Ends services fresh world agents-IsConsistent refl refl

outcome_path : Outcome OrchestratorState → List String
outcome_path (returned s) = s.execution_path
outcome_path (raised e) = e.text ∷ []

-- opens the code that a run goes through
unfoldable pub program : Unit {0}
unfolding run get run_step load_context exists create build_agent_context run_agent Agents.run
    Agents.is_valid_result apply_result agent_run_record record_agent_output find assign
    execute_pending_tools run_call execute is_valid_tool_result append_tool_result
    set_last_tool_results persist_session_context create_human_review_if_needed sync_knowledge_refs
    persist_runtime_records update load_session_context
program = tt

run-path : outcome_path (run services fresh world).0 ≡ "planner_agent" ∷ "executor_agent" ∷ []
unfolding program outcome_path Tools.create Tools.run
run-path = refl
