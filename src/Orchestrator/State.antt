-- ===== src/Orchestrator/State.antt =====
-- The state of a workflow run: app/orchestrator/state.py. The times of a run record are left out,
-- since nothing reads them but the log tables.
use general_agent_framework.Prelude.{
  ℕ, String, Bool, ◌&&◌, Option, none, some, List, leb, if◌then◌else◌,
}
use general_agent_framework.Json.{Value, Fields}
use general_agent_framework.Outcome.{Outcome, returned, raised, validation_error, value_error}
use general_agent_framework.Agents.{AgentContext, AgentExecutionStatus, AgentResult, has_length}
use general_agent_framework.Orchestrator.SharedState.{normalize_shared_state}

pub data WorkflowStatus : Type 0 where
  pending running completed failed needs_human_review : WorkflowStatus

pub data WorkflowTerminalReason : Type 0 where
  natural_completion agent_failed agent_exception agent_not_registered max_steps_exceeded
        needs_human_review tool_failed tool_executor_unavailable tool_owner_not_registered :
      WorkflowTerminalReason

pub record AgentRunRecord : Type 0 where
  pub step_index : ℕ
  pub agent_id : String
  pub status : AgentExecutionStatus
  pub summary : String
  pub next_agent_id : Option String
  pub output : Fields
  pub errors : List String

optional_length : Option String → Bool
unfolding has_length
optional_length none = Bool.true
optional_length (some s) = has_length 0 64 s

-- The constructor `AgentRunRecord(...)`, which validates its fields.
unfoldable pub agent_run_record : AgentRunRecord → Outcome AgentRunRecord
unfolding has_length optional_length
agent_run_record r =
    if leb 1 r.step_index
      && has_length 3 64 r.agent_id
      && has_length 0 2000 r.summary
      && optional_length r.next_agent_id
    then returned r
    else raised (record { class = validation_error; text = "AgentRunRecord" })

pub record OrchestratorState : Type 0 where
  pub request_id : String
  pub initial_agent_id : String
  pub session_id : Option String
  pub user_id : Option String
  pub project_key : String
  pub workflow_id : Option String
  pub trace_id : Option String
  pub input_text : Option String
  pub structured_input : Fields
  pub shared_state : Fields
  pub memory : Fields
  pub knowledge_refs : List String
  pub current_agent_id : Option String
  pub status : WorkflowStatus
  pub terminal_reason : Option WorkflowTerminalReason
  pub execution_path : List String
  pub run_history : List AgentRunRecord
  pub final_result : Option AgentResult
  pub errors : List String
  pub max_steps : ℕ
  pub llm_profile : Option Value

-- `_normalize_protocol_state`, the validator that runs after construction
unfoldable pub normalize_protocol_state : OrchestratorState → OrchestratorState
normalize_protocol_state s = record s { shared_state = normalize_shared_state s.shared_state }

-- The context is built without the LLM service, which `_build_agent_context` adds.
unfoldable pub to_agent_context : OrchestratorState → Outcome AgentContext
to_agent_context s = elim s.current_agent_id [
  | none ↦ raised (record {
    class = value_error;
    text = "current_agent_id must be set before building context.";
  })
  | some _ ↦ returned (record {
    request_id = s.request_id;
    session_id = s.session_id;
    user_id = s.user_id;
    workflow_id = s.workflow_id;
    trace_id = s.trace_id;
    input_text = s.input_text;
    structured_input = s.structured_input;
    shared_state = s.shared_state;
    memory = s.memory;
    knowledge_refs = s.knowledge_refs;
    llm_profile = s.llm_profile;
    llm_service = Bool.false;
  })
]
