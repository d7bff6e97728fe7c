-- ===== src/Orchestrator/Construct.antt =====
-- The constructor of the state, and the request that a run begins with: `OrchestratorState(...)` of
-- app/orchestrator/state.py, `WorkflowRunRequest` of app/schemas/api.py with its `model_dump`,
-- `build_orchestrator_state` of app/tasks/workflow_tasks.py, and the state that `run_workflow` of
-- app/api/routes/workflows.py builds. A model profile is kept as its JSON.
pub mod Requests
use general_agent_framework.Prelude.{
  ℕ, String, Bool, true, ◌&&◌, Option, none, some, List, [], leb, if◌then◌else◌,
}
use general_agent_framework.Json.{
  Value, Fields, null, str, num, arr, obj, end, field, find, texts, text_or_null,
}
use general_agent_framework.Json.Reading.{
  text_field, optional_text, dict_or_empty, texts_or_empty, number_or, optional_value,
}
use general_agent_framework.Outcome.{
  Outcome, returned, raised, ◌>>=◌, validation_error, key_error, repr_key,
}
use general_agent_framework.Agents.{has_length}
use general_agent_framework.Orchestrator.State.{
  WorkflowStatus, OrchestratorState, normalize_protocol_state,
}

optional_length : Option String → Bool
unfolding has_length
optional_length none = true
optional_length (some s) = has_length 0 128 s

-- the bounds on the fields that a caller gives
is_valid_state : OrchestratorState → Bool
unfolding has_length optional_length
is_valid_state s =
    has_length 1 128 s.request_id
    && has_length 3 64 s.initial_agent_id
    && optional_length s.session_id
    && optional_length s.user_id
    && has_length 0 128 s.project_key
    && optional_length s.workflow_id
    && optional_length s.trace_id
    && leb 1 s.max_steps
    && leb s.max_steps 100

-- The constructor, which validates the fields and then runs the validator.
unfoldable pub orchestrator_state : OrchestratorState → Outcome OrchestratorState
unfolding is_valid_state
orchestrator_state s =
    if is_valid_state s
    then returned (normalize_protocol_state s)
    else raised (record { class = validation_error; text = "OrchestratorState" })

-- the defaults of the fields
abbrev pub defaults : OrchestratorState
defaults = record {
  request_id = "";
  initial_agent_id = "";
  session_id = none;
  user_id = none;
  project_key = "default";
  workflow_id = none;
  trace_id = none;
  input_text = none;
  structured_input = end;
  shared_state = end;
  memory = end;
  knowledge_refs = [];
  current_agent_id = none;
  status = WorkflowStatus.pending;
  terminal_reason = none;
  execution_path = [];
  run_history = [];
  final_result = none;
  errors = [];
  max_steps = 10;
  llm_profile = none;
}

pub record WorkflowRunRequest : Type 0 where
  pub request_id : String
  pub initial_agent_id : String
  pub session_id : Option String
  pub user_id : Option String
  pub workflow_id : Option String
  pub trace_id : Option String
  pub input_text : Option String
  pub structured_input : Fields
  pub shared_state : Fields
  pub memory : Fields
  pub knowledge_refs : List String
  pub max_steps : ℕ
  pub llm_profile : Option Fields

unfoldable pub profile_json : Option Fields → Value
profile_json none = null
profile_json (some p) = obj p

-- `request.model_dump(mode="json")`
unfoldable pub model_dump : WorkflowRunRequest → Fields
unfolding profile_json
model_dump r = field "request_id" (str r.request_id) (
    field "initial_agent_id" (str r.initial_agent_id) (
      field "session_id" (text_or_null r.session_id) (
        field "user_id" (text_or_null r.user_id) (
          field "workflow_id" (text_or_null r.workflow_id) (
            field "trace_id" (text_or_null r.trace_id) (
              field "input_text" (text_or_null r.input_text) (
                field "structured_input" (obj r.structured_input) (
                  field "shared_state" (obj r.shared_state) (
                    field "memory" (obj r.memory) (
                      field "knowledge_refs" (arr (texts r.knowledge_refs)) (
                        field "max_steps" (num r.max_steps)
                          (field "llm_profile" (profile_json r.llm_profile) end))))))))))))

-- `request[name]`
unfoldable pub required : String → Fields → Outcome String
unfolding text_field
required name d = elim (find name d) [
  | none ↦ raised (record { class = key_error; text = repr_key name })
  | some v ↦ text_field name v
]

-- `build_orchestrator_state`
unfoldable pub build_orchestrator_state : Fields → Outcome OrchestratorState
unfolding required
build_orchestrator_state d = required "request_id" d >>= λ request_id.
    required "initial_agent_id" d >>= λ initial_agent_id.
    optional_text "session_id" d >>= λ session_id. optional_text "user_id" d >>= λ user_id.
    optional_text "workflow_id" d >>= λ workflow_id. optional_text "trace_id" d >>= λ trace_id.
    optional_text "input_text" d >>= λ input_text.
    dict_or_empty "structured_input" d >>= λ structured_input.
    dict_or_empty "shared_state" d >>= λ shared_state. dict_or_empty "memory" d >>= λ memory.
    texts_or_empty "knowledge_refs" d >>= λ knowledge_refs.
    number_or 10 "max_steps" d >>= λ max_steps. orchestrator_state (record defaults {
      request_id = request_id;
      initial_agent_id = initial_agent_id;
      session_id = session_id;
      user_id = user_id;
      workflow_id = workflow_id;
      trace_id = trace_id;
      input_text = input_text;
      structured_input = structured_input;
      shared_state = shared_state;
      memory = memory;
      knowledge_refs = knowledge_refs;
      max_steps = max_steps;
      llm_profile = optional_value "llm_profile" d;
    })

unfoldable pub profile_value : Option Fields → Option Value
profile_value none = none
profile_value (some p) = some (obj p)

-- the state of `run_workflow`, for the user who is logged in
unfoldable pub requested_state : WorkflowRunRequest → String → Outcome OrchestratorState
unfolding profile_value
requested_state r user_id = orchestrator_state (record defaults {
  request_id = r.request_id;
  initial_agent_id = r.initial_agent_id;
  session_id = r.session_id;
  user_id = some user_id;
  workflow_id = r.workflow_id;
  trace_id = r.trace_id;
  input_text = r.input_text;
  structured_input = r.structured_input;
  shared_state = r.shared_state;
  memory = r.memory;
  knowledge_refs = r.knowledge_refs;
  max_steps = r.max_steps;
  llm_profile = profile_value r.llm_profile;
})
