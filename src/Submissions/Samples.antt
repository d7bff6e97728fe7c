-- ===== src/Submissions/Samples.antt =====
-- A request on its way through the ledger, a worker and the endpoints. The module holds the tests and
-- the examples of the theorems on the ledger.
use general_agent_framework.Prelude.{
  ◌≤◌, ◌≡◌, refl, true, false, none, some, [], ◌∷◌, All, length, arith,
}
use general_agent_framework.Json.{Fields, end, find, texts}
use general_agent_framework.Json.Reading.{
  optional_text, dict_or_empty, texts_or_empty, number_or, optional_value,
}
use general_agent_framework.Outcome.{Outcome, returned, raised}
use general_agent_framework.Orchestrator.State.{
  WorkflowStatus, OrchestratorState, normalize_protocol_state,
}
use general_agent_framework.Orchestrator.Samples.{world}
use general_agent_framework.Orchestrator.Construct.{
  WorkflowRunRequest, orchestrator_state, defaults, model_dump, build_orchestrator_state,
  requested_state,
}
use general_agent_framework.Orchestrator.Construct.Requests.{build_orchestrator_state-model_dump}
use general_agent_framework.Submissions.{
  AsyncResult, Backend, status_message, apply_async_result, list_submissions,
}
use general_agent_framework.Submissions.Repository.{
  AsyncWorkflowSubmissionRecord, Table, Filters, get_by_task_id,
}
use general_agent_framework.Submissions.Worker.{
  run_payload, review_id, find_finished_run, ran_task, Orchestrator, run_workflow_task,
}
use general_agent_framework.Submissions.Api.{
  Queue, User, run_workflow_async, list_async_workflow_submissions, of_payload,
}
use general_agent_framework.Submissions.Refresh.{apply_async_result_lem}
use general_agent_framework.Submissions.Pages.{list_submissions-owned}
use general_agent_framework.Submissions.Keys.{keys, Unique}
use general_agent_framework.Submissions.Ledger.{submitted, listed, nothing, then, Reachable-Unique}
use general_agent_framework.Submissions.Polling.{
  told, outcome_status, IsTask, poll-told, refresh-failed_run, status-run_payload,
}

abbrev request : WorkflowRunRequest
request = record {
  request_id = "request-1";
  initial_agent_id = "planner_agent";
  session_id = none;
  user_id = some "somebody";
  workflow_id = none;
  trace_id = none;
  input_text = some "hello";
  structured_input = end;
  shared_state = end;
  memory = end;
  knowledge_refs = "kb:1" ∷ [];
  max_steps = 5;
  llm_profile = none;
}

build_orchestrator_state-model_dump_example :
    build_orchestrator_state (model_dump (record request { user_id = some "user-1" }))
    ≡ requested_state request "user-1"
build_orchestrator_state-model_dump_example =
    build_orchestrator_state-model_dump request "user-1" (omega arith)

abbrev row : AsyncWorkflowSubmissionRecord
row = record {
  task_id = "task-1";
  request_id = "request-1";
  session_id = none;
  user_id = some "user-1";
  initial_agent_id = "planner_agent";
  task_name = "workflow.run";
  queue_name = "celery";
  status = "pending";
  message = "workflow submitted to async queue";
  result_payload = none;
  traceback = none;
  metadata_payload = end;
}

abbrev user : User
user = record { id = "user-1"; is_admin = false }

abbrev queue : Queue
queue = record { reachable = true; probe_error = none; default_queue = "celery" }

abbrev everything : Filters
everything = record { status = none; request_id = none; session_id = none; user_id = none }

abbrev failed_run : OrchestratorState
failed_run = record defaults {
  request_id = "request-1";
  initial_agent_id = "planner_agent";
  status = WorkflowStatus.failed;
}

abbrev lost : Fields
lost = elim (run_payload failed_run) [ returned d ↦ d | raised e ↦ end ]

abbrev success_of : Fields → AsyncResult
success_of d = record { status = "success"; result = some d; traceback = none }

abbrev backend : Backend
backend task_id = success_of lost

row-IsTask : IsTask "task-1" (row ∷ []) row
unfolding get_by_task_id
row-IsTask = (refl, refl, refl)

refresh-failed_run_example :
    (r' : AsyncWorkflowSubmissionRecord) × (get_by_task_id "task-1"
        (ran_task "task-1" (returned failed_run) (row ∷ [])).1
      ≡ some r')
    × (r'.status ≡ "failure")
    × ((apply_async_result (success_of lost) r').1.status ≡ "success")
unfolding run_payload review_id find ran_task
refresh-failed_run_example =
    refresh-failed_run "task-1" failed_run lost (row ∷ []) row (success_of lost) row-IsTask refl
      refl (refl, refl)

-- an orchestrator whose runs fail
abbrev orchestrate : Orchestrator
orchestrate s w = (returned (record s { status = WorkflowStatus.failed }), w)

abbrev state : OrchestratorState
state = elim (requested_state request "user-1") [ returned s ↦ s | raised e ↦ defaults ]

abbrev sent : Fields
sent = model_dump (record request { user_id = some "user-1" })

abbrev answer : Outcome Fields
answer = (run_workflow_task orchestrate "task-1" sent (row ∷ []) world).0.0

abbrev reported : AsyncResult
reported = elim answer [
  | returned d ↦ success_of d
  | raised e ↦ record { status = "failure"; result = none; traceback = some e.text }
]

poll-told_example :
    (r' : AsyncWorkflowSubmissionRecord) × (get_by_task_id "task-1"
        (run_workflow_task orchestrate "task-1" sent (row ∷ []) world).0.1
      ≡ some r')
    × (told r' ≡ some (outcome_status answer))
    × (told (apply_async_result reported r').1 ≡ told r')
unfolding run_workflow_task build_orchestrator_state requested_state model_dump find
    find_finished_run run_payload review_id optional_text dict_or_empty texts_or_empty texts
    number_or orchestrator_state optional_value normalize_protocol_state
poll-told_example =
    poll-told orchestrate "task-1" sent state (row ∷ []) world row reported row-IsTask refl
      (refl, refl)

status-run_payload_example : of_payload (some lost) ≡ WorkflowStatus.failed
unfolding run_payload review_id find
status-run_payload_example = status-run_payload failed_run lost refl

apply_async_result_lem_example :
    ((apply_async_result (success_of lost) row).1.status ≡ "success")
    × ((apply_async_result (success_of lost) row).1.message ≡ status_message "success")
    × ((apply_async_result (success_of lost) row).0 ≡ false
        → (apply_async_result (success_of lost) row).1 ≡ row)
    × ((apply_async_result (success_of lost) (apply_async_result (success_of lost) row).1).1
        ≡ (apply_async_result (success_of lost) row).1)
apply_async_result_lem_example = apply_async_result_lem (success_of lost) row

list_submissions-owned_example :
    (length
        (list_submissions backend
          (record everything { user_id = some "user-1" })
          20
          0
          true
          (row ∷ [])).0.items
      ≤ 20)
    × All
        (λ r. r.user_id ≡ some "user-1")
        (list_submissions backend
          (record everything { user_id = some "user-1" })
          20
          0
          true
          (row ∷ [])).0.items
list_submissions-owned_example =
    list_submissions-owned backend (record everything { user_id = some "user-1" }) 20 0 true
      (row ∷ []) "user-1" refl

abbrev submitted_table : Table
submitted_table = (run_workflow_async queue request user "task-1" []).1

Reachable-Unique_example :
    Unique
      (keys (list_async_workflow_submissions backend queue user everything 20 0 submitted_table).1)
Reachable-Unique_example = Reachable-Unique (
    then (then nothing (submitted queue request user "task-1"))
      (listed backend queue user everything 20 0))
