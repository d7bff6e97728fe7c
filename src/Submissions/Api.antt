-- ===== src/Submissions/Api.antt =====
-- The endpoints of the ledger: app/api/routes/workflows.py. An `HTTPException` prints its status code
-- and its detail. What asks Redis and the task queue is a parameter. A stored status is in lower case.
use Prim.Native.String.{◌++◌ as append}
use general_agent_framework.Prelude.{
  ℕ, String, Bool, not, ◌||◌, Option, none, some, str_eq, is_some, if◌then◌else◌,
}
use general_agent_framework.Json.{Value, Fields, str, find}
use general_agent_framework.Outcome.{Outcome, returned, raised, other}
use general_agent_framework.Orchestrator.State.{WorkflowStatus}
use general_agent_framework.Orchestrator.Construct.{WorkflowRunRequest, model_dump}
use general_agent_framework.Submissions.{
  AsyncResult, Backend, create_submission, get_submission, refresh_submission_status, Listing,
  list_submissions,
}
use general_agent_framework.Submissions.Repository.{
  AsyncWorkflowSubmissionRecord, Table, Filters, get_by_request_id,
}

-- `WorkflowStatus(value)`
unfoldable pub workflow_status : String → Option WorkflowStatus
workflow_status v =
    if str_eq v "pending"
    then some WorkflowStatus.pending
    else if str_eq v "running"
    then some WorkflowStatus.running
    else if str_eq v "completed"
    then some WorkflowStatus.completed
    else if str_eq v "failed"
    then some WorkflowStatus.failed
    else if str_eq v "needs_human_review"
    then some WorkflowStatus.needs_human_review
    else none

unfoldable pub or_completed : Option WorkflowStatus → WorkflowStatus
or_completed none = WorkflowStatus.completed
or_completed (some s) = s

-- the status of a payload, of `result_payload.get("status")`
unfoldable pub payload_status : Option Value → WorkflowStatus
unfolding workflow_status or_completed
payload_status none = WorkflowStatus.completed
payload_status (some (str v)) = or_completed (workflow_status v)
payload_status (some v) = WorkflowStatus.completed

unfoldable pub of_payload : Option Fields → WorkflowStatus
unfolding payload_status
of_payload none = WorkflowStatus.completed
of_payload (some d) = payload_status (find "status" d)

-- `_derive_workflow_status`
unfoldable pub derive_workflow_status : String → Option Fields → Option WorkflowStatus
unfolding of_payload
derive_workflow_status queue_status result_payload =
    if str_eq queue_status "pending"
    then some WorkflowStatus.pending
    else if str_eq queue_status "received"
        || str_eq queue_status "started"
        || str_eq queue_status "retry"
    then some WorkflowStatus.running
    else if str_eq queue_status "failure"
    then some WorkflowStatus.failed
    else if str_eq queue_status "success"
    then some (of_payload result_payload)
    else none

pub record User : Type 0 where
  pub id : String
  pub is_admin : Bool

http : {A : Type 0} → String → Outcome A
http text = raised (record { class = other "HTTPException"; text = text })

-- What `WorkflowTaskStatusResponse` says of a task; `row` has the columns that are copied.
pub record TaskStatus : Type 0 where
  pub task_id : String
  pub row : Option AsyncWorkflowSubmissionRecord
  pub status : String
  pub workflow_status : Option WorkflowStatus
  pub result : Option Fields
  pub traceback : Option String

-- the answer on a row that is there
unfoldable pub row_status : AsyncWorkflowSubmissionRecord → TaskStatus
unfolding derive_workflow_status
row_status r = record {
  task_id = r.task_id;
  row = some r;
  status = r.status;
  workflow_status = derive_workflow_status r.status r.result_payload;
  result = r.result_payload;
  traceback = r.traceback;
}

-- the answer on a task that only the queue knows
unfoldable pub queue_status : String → AsyncResult → TaskStatus
unfolding derive_workflow_status
queue_status task_id c = record {
  task_id = task_id;
  row = none;
  status = c.status;
  workflow_status = derive_workflow_status c.status c.result;
  result = if str_eq c.status "success" then c.result else none;
  traceback = if str_eq c.status "failure" then c.traceback else none;
}

-- What the queue's Redis does, and `send_task`.
pub record Queue : Type 0 where
  pub reachable : Bool
  pub probe_error : Option String
  pub default_queue : String

abbrev redis_unavailable : String
redis_unavailable =
    "Redis is not reachable. Start the Redis server before using async workflow submission."

unavailable : Option String → String
unavailable none = redis_unavailable
unavailable (some error) = append redis_unavailable (append " Probe failed: " error)

-- a task that was sent
pub record Message : Type 0 where
  pub task_id : String
  pub request : Fields

-- the rest of `run_workflow_async`, once the probe and the ledger were asked: the row, the message
-- that was sent, and the ledger
unfoldable pub submit :
    Queue
    → WorkflowRunRequest
    → String
    → Table
    → (Outcome AsyncWorkflowSubmissionRecord × Option Message) × Table
submit queue request task_id table =
    let (o, table') = create_submission request task_id "workflow.run" queue.default_queue table in
    ((o, some (record { task_id = task_id; request = model_dump request })), table')

-- `run_workflow_async`, for the user who is logged in, with the `task_id` that `uuid4` gives
unfoldable pub run_workflow_async :
    Queue
    → WorkflowRunRequest
    → User
    → String
    → Table
    → (Outcome AsyncWorkflowSubmissionRecord × Option Message) × Table
unfolding http unavailable submit
run_workflow_async queue request user task_id table =
    if not queue.reachable
    then ((http (append "503: " (unavailable queue.probe_error)), none), table)
    else if is_some (get_by_request_id request.request_id table)
    then (
      (
        http (
            append "409: request_id already exists in async workflow task center. "
              "Use a new request_id before resubmitting."),
        none,
      ),
      table,
    )
    else submit queue (record request { user_id = some user.id }) task_id table

-- `effective_user_id` of `list_async_workflow_submissions`
abbrev pub effective_user_id : User → Option String → Option String
effective_user_id user user_id = if user.is_admin then user_id else some user.id

-- `list_async_workflow_submissions`, before its rows are written as responses
unfoldable pub list_async_workflow_submissions :
    Backend → Queue → User → Filters → ℕ → ℕ → Table → Listing × Table
list_async_workflow_submissions backend queue user f limit offset table =
    list_submissions backend (record f { user_id = effective_user_id user f.user_id }) limit offset
      queue.reachable table

-- the answer, once the ledger was refreshed
unfoldable pub polled :
    Backend → User → String → Outcome AsyncWorkflowSubmissionRecord → Outcome TaskStatus
unfolding row_status queue_status http
polled backend user task_id (returned r) = returned (row_status r)
polled backend user task_id (raised e) =
    if user.is_admin
    then returned (queue_status task_id (backend task_id))
    else http "404: Async submission was not found."

-- the answer without the queue
unfoldable pub stored : Outcome AsyncWorkflowSubmissionRecord → Outcome TaskStatus
unfolding row_status http
stored (returned r) = returned (row_status r)
stored (raised e) = http (append "503: " redis_unavailable)

-- `get_workflow_task_status`
unfoldable pub get_workflow_task_status :
    Backend → Queue → User → String → Table → Outcome TaskStatus × Table
unfolding polled stored
get_workflow_task_status backend queue user task_id table =
    if queue.reachable
    then (let (o, table') = refresh_submission_status backend task_id table in
        (polled backend user task_id o, table'))
    else (stored (get_submission task_id table), table)
