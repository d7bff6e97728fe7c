-- ===== src/Orchestrator/Construct/Requests.antt =====
-- The two ways in agree: `run_workflow_async` and `run_workflow_task` hand on the state that
-- `run_workflow` of app/api/routes/workflows.py builds.
use general_agent_framework.Prelude.{String, ◌≤◌, ◌≡◌, refl, Option, none, some, arith}
use general_agent_framework.Json.{Fields, find}
use general_agent_framework.Json.Reading.{optional_value}
use general_agent_framework.Json.Found.{
  optional_text-some, dict_or_empty-some, texts_or_empty-some, number_or-some,
}
use general_agent_framework.Orchestrator.Construct.{
  WorkflowRunRequest, profile_json, profile_value, model_dump, build_orchestrator_state,
  requested_state,
}

module _ (name : String) (d : Fields) where
  optional_value-some :
      (p : Option Fields)
      → find name d ≡ some (profile_json p)
      → optional_value name d ≡ profile_value p
  unfolding optional_value profile_json profile_value
  optional_value-some none e = ground arith
  optional_value-some (some f) e = ground arith

-- A request that was sent to the queue as JSON is read back as the state that the synchronous
-- endpoint builds for the same user: the same state, or the same validation error.
pub build_orchestrator_state-model_dump :
    (r : WorkflowRunRequest) (user_id : String)
    → 1 ≤ r.max_steps
    → build_orchestrator_state (model_dump (record r { user_id = some user_id }))
      ≡ requested_state r user_id
unfolding build_orchestrator_state model_dump find requested_state
build_orchestrator_state-model_dump r user_id pos =
    let d = model_dump (record r { user_id = some user_id }) in
    rw
      (
        optional_text-some "session_id" d r.session_id refl,
        optional_text-some "user_id" d (some user_id) refl,
        optional_text-some "workflow_id" d r.workflow_id refl,
        optional_text-some "trace_id" d r.trace_id refl,
        optional_text-some "input_text" d r.input_text refl,
        dict_or_empty-some "structured_input" d r.structured_input refl,
        dict_or_empty-some "shared_state" d r.shared_state refl,
        dict_or_empty-some "memory" d r.memory refl,
        texts_or_empty-some "knowledge_refs" d r.knowledge_refs refl,
        number_or-some "max_steps" d 10 r.max_steps pos refl,
        optional_value-some "llm_profile" d r.llm_profile refl,
      )
      refl
