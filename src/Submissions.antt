-- ===== src/Submissions.antt =====
-- The ledger of asynchronous workflows: app/services/async_workflow_submission_service.py. The queue is
-- a library, so that what it knows of a task is a parameter, `Backend`.
pub mod Repository
pub mod Worker
pub mod Api
pub mod Refresh
pub mod Pages
pub mod Keys
pub mod Ledger
pub mod Polling
mod Samples
use Prim.Native.String.{◌++◌ as append}
use general_agent_framework.Prelude.{
  ℕ, String, ◌+◌, Bool, true, false, not, ◌&&◌, ◌||◌, Option, none, some, List, [], ◌∷◌, map,
  length, take, drop, str_eq, is_some, if◌then◌else◌,
}
use general_agent_framework.Json.{Fields, obj}
use general_agent_framework.Json.Reading.{value_eq}
use general_agent_framework.Outcome.{Outcome, returned, raised, other}
use general_agent_framework.Orchestrator.Session.{or_text}
use general_agent_framework.Orchestrator.Construct.{WorkflowRunRequest, model_dump}
use Repository.{
  AsyncWorkflowSubmissionRecord, Table, get_by_task_id, get_by_request_id, add, modify, Filters,
  is_column, matches, select,
}

-- One reading of Celery's `AsyncResult`: `status` in lower case, and `result` where it is a dict.
pub record AsyncResult : Type 0 where
  pub status : String
  pub result : Option Fields
  pub traceback : Option String

abbrev pub Backend : Type 0
Backend = String → AsyncResult

-- `create_submission`
unfoldable pub create_submission :
    WorkflowRunRequest
    → String
    → String
    → String
    → Table
    → Outcome AsyncWorkflowSubmissionRecord × Table
unfolding add
create_submission request task_id task_name queue_name table =
    add
      (record {
        task_id = task_id;
        request_id = request.request_id;
        session_id = request.session_id;
        user_id = request.user_id;
        initial_agent_id = request.initial_agent_id;
        task_name = task_name;
        queue_name = queue_name;
        status = "pending";
        message = "workflow submitted to async queue";
        result_payload = none;
        traceback = none;
        metadata_payload = model_dump request;
      })
      table

-- `_status_message`
unfoldable pub status_message : String → String
status_message status =
    if str_eq status "pending"
    then "workflow is pending in async queue"
    else if str_eq status "received"
    then "workflow has been received by worker"
    else if str_eq status "started"
    then "workflow execution started by worker"
    else if str_eq status "retry"
    then "workflow execution is being retried"
    else if str_eq status "success"
    then "workflow completed successfully"
    else if str_eq status "failure"
    then "workflow execution failed"
    else append "workflow status is " status

-- a row, behind `changed`
abbrev pub Marked : Type 0
Marked = Bool × AsyncWorkflowSubmissionRecord

unfoldable pub put_status : String → Marked → Marked
put_status status (changed, r) =
    if str_eq r.status status then (changed, r) else (true, record r { status = status })

unfoldable pub put_message : String → Marked → Marked
put_message message (changed, r) =
    if str_eq r.message message then (changed, r) else (true, record r { message = message })

abbrev pub same_payload : Option Fields → Fields → Bool
same_payload none d = false
same_payload (some c) d = value_eq (obj c) (obj d)

unfoldable pub put_payload : Fields → Marked → Marked
put_payload d (changed, r) =
    if same_payload r.result_payload d
    then (changed, r)
    else (true, record r { result_payload = some d })

unfoldable pub clear_traceback : Marked → Marked
clear_traceback (changed, r) =
    if is_some r.traceback then (true, record r { traceback = none }) else (changed, r)

abbrev same_traceback : Option String → String → Bool
same_traceback none t = false
same_traceback (some s) t = str_eq s t

unfoldable pub put_traceback : String → Marked → Marked
put_traceback traceback (changed, r) =
    if same_traceback r.traceback traceback
    then (changed, r)
    else (true, record r { traceback = some traceback })

unfoldable pub put_success : Option Fields → Marked → Marked
unfolding put_payload clear_traceback
put_success none m = m
put_success (some d) m = clear_traceback (put_payload d m)

unfoldable pub put_result : AsyncResult → Marked → Marked
unfolding put_success put_traceback or_text
put_result c m =
    if str_eq c.status "success"
    then put_success c.result m
    else if str_eq c.status "failure"
    then put_traceback (or_text c.traceback) m
    else m

-- `_apply_async_result`: the row, behind whether it was changed
unfoldable pub apply_async_result : AsyncResult → AsyncWorkflowSubmissionRecord → Marked
unfolding put_status put_message put_result
apply_async_result c r =
    put_result c (put_message (status_message c.status) (put_status c.status (false, r)))

abbrev missing : String
missing = "Async workflow submission was not found."

-- `get_submission`
unfoldable pub found : Option AsyncWorkflowSubmissionRecord → Outcome AsyncWorkflowSubmissionRecord
found none = raised (record { class = other "NotFoundError"; text = missing })
found (some r) = returned r

unfoldable pub get_submission : String → Table → Outcome AsyncWorkflowSubmissionRecord
unfolding found
get_submission task_id table = found (get_by_task_id task_id table)

-- `refresh_submission_status`
unfoldable pub refresh_found :
    Backend
    → String
    → Option AsyncWorkflowSubmissionRecord
    → Table
    → Outcome AsyncWorkflowSubmissionRecord × Table
unfolding found
refresh_found backend task_id none table = (found none, table)
refresh_found backend task_id (some r) table =
    let c = backend task_id in
    (returned (apply_async_result c r).1, modify task_id (λ x. (apply_async_result c x).1) table)

unfoldable pub refresh_submission_status :
    Backend → String → Table → Outcome AsyncWorkflowSubmissionRecord × Table
unfolding refresh_found
refresh_submission_status backend task_id table =
    refresh_found backend task_id (get_by_task_id task_id table) table

abbrev pub is_pending : String → Bool
is_pending status =
    str_eq status "pending"
    || str_eq status "received"
    || str_eq status "started"
    || str_eq status "retry"

-- a row of the page, behind whether it was changed
unfoldable pub refresh_item : Backend → AsyncWorkflowSubmissionRecord → Marked
refresh_item backend r =
    if is_pending r.status then apply_async_result (backend r.task_id) r else (false, r)

-- the loop over the page: `dirty`, and the rows
unfoldable pub refresh_items : Backend → Table → Bool × Table
refresh_items backend [] = (false, [])
refresh_items backend (r ∷ rs) =
    let (changed, r') = refresh_item backend r in
    let (dirty, rs') = refresh_items backend rs in (changed || dirty, r' ∷ rs')

-- `commit` of the rows of a page
unfoldable pub write : Table → Table → Table
unfolding modify
write [] table = table
write (r ∷ rs) table = write rs (modify r.task_id (λ x. r) table)

pub record Listing : Type 0 where
  pub items : Table
  pub total : ℕ
  pub limit : ℕ
  pub offset : ℕ
  pub filters : Filters

unfoldable pub page : Filters → ℕ → ℕ → Table → Table
unfolding select
page f limit offset table = take limit (drop offset (select f table))

-- `list_submissions`
unfoldable pub list_submissions : Backend → Filters → ℕ → ℕ → Bool → Table → Listing × Table
list_submissions backend f limit offset refresh_statuses table =
    let items = page f limit offset table in
    let (dirty, fresh) = if refresh_statuses then refresh_items backend items else (false, items) in
    (
      record {
        items = fresh;
        total = length (select f table);
        limit = limit;
        offset = offset;
        filters = f;
      },
      if dirty then write fresh table else table,
    )
