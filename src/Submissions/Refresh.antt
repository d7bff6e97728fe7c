-- ===== src/Submissions/Refresh.antt =====
-- The refresh of a row from the queue, and of a page of rows: `_apply_async_result`, and the loop of
-- `list_submissions`, of app/services/async_workflow_submission_service.py.
use general_agent_framework.Prelude.{
  String, ◌≡◌, refl, sym, ap, ◌∙◌, Bool, false, Option, none, some, arith, eq_iff,
}
use general_agent_framework.Json.{Fields}
use general_agent_framework.Orchestrator.Session.{or_text}
use general_agent_framework.Submissions.{
  AsyncResult, Backend, status_message, Marked, put_status, put_message, put_payload,
  clear_traceback, put_traceback, put_success, put_result, apply_async_result, refresh_item,
}
use general_agent_framework.Submissions.Repository.{AsyncWorkflowSubmissionRecord}

-- A step of the refresh marks each row that it changes.
abbrev Honest : Marked → Marked → Type 0
Honest m m' = m'.0 ≡ false → m' ≡ m

put_status-Honest : (status : String) (m : Marked) → Honest m (put_status status m)
unfolding put_status
put_status-Honest status m h = ground arith

put_message-Honest : (message : String) (m : Marked) → Honest m (put_message message m)
unfolding put_message
put_message-Honest message m h = ground arith

put_result-Honest : (c : AsyncResult) (m : Marked) → Honest m (put_result c m)
unfolding put_result put_success put_payload clear_traceback put_traceback
put_result-Honest c m h = ground arith

unchanged :
    (c : AsyncResult) (r : AsyncWorkflowSubmissionRecord)
    → (apply_async_result c r).0 ≡ false
    → (apply_async_result c r).1 ≡ r
unfolding apply_async_result
unchanged c r h =
    let message = status_message c.status in
    let a = put_status c.status (false, r) in
    let b = put_message message a in
    let from_result = put_result-Honest c b h in
    let from_message = put_message-Honest message a (sym (ap (λ m. m.0) from_result) ∙ h) in
    let from_status =
      put_status-Honest c.status (false, r)
        (sym (ap (λ m. m.0) from_message) ∙ sym (ap (λ m. m.0) from_result) ∙ h) in
    ap (λ m. m.1) (from_result ∙ from_message ∙ from_status)

-- the second time, the status and the message are there
there :
    (status message : String) (changed : Bool) (r : AsyncWorkflowSubmissionRecord)
    → r.status ≡ status
    → r.message ≡ message
    → put_message message (put_status status (changed, r)) ≡ (changed, r)
unfolding put_status put_message
there status message changed r at on =
    ground (arith, eq_iff r.status status, eq_iff r.message message)

given :
    (status message : String) (m : Marked)
    → ((put_message message (put_status status m)).1.status ≡ status)
      × ((put_message message (put_status status m)).1.message ≡ message)
unfolding put_status put_message
given status message m = ground (arith, eq_iff m.1.status status, eq_iff m.1.message message)

left_alone :
    (c : AsyncResult) (m : Marked)
    → ((put_result c m).1.status ≡ m.1.status) × ((put_result c m).1.message ≡ m.1.message)
unfolding put_result put_success put_payload clear_traceback put_traceback
left_alone c m = ground arith

success_twice :
    (o : Option Fields) (changed : Bool) (m : Marked)
    → (put_success o (changed, (put_success o m).1)).1 ≡ (put_success o m).1
unfolding put_success put_payload clear_traceback
success_twice none changed m = refl
success_twice (some d) changed m = ground arith

failure_twice :
    (traceback : String) (changed : Bool) (m : Marked)
    → (put_traceback traceback (changed, (put_traceback traceback m).1)).1
      ≡ (put_traceback traceback m).1
unfolding put_traceback
failure_twice traceback changed m = ground arith

put_result_twice :
    (c : AsyncResult) (changed : Bool) (m : Marked)
    → (put_result c (changed, (put_result c m).1)).1 ≡ (put_result c m).1
unfolding put_result
put_result_twice c changed m =
    ground (arith, success_twice c.result changed m, failure_twice (or_text c.traceback) changed m)

idempotent :
    (c : AsyncResult) (r : AsyncWorkflowSubmissionRecord)
    → (apply_async_result c (apply_async_result c r).1).1 ≡ (apply_async_result c r).1
unfolding apply_async_result
idempotent c r =
    let message = status_message c.status in
    let m = put_message message (put_status c.status (false, r)) in
    let on = given c.status message (false, r) in
    let kept = left_alone c m in
    rw (there c.status message false (put_result c m).1 (kept.0 ∙ on.0) (kept.1 ∙ on.1))
      (put_result_twice c false m)

-- After a refresh, the row has the queue's status and the message for it; a row that was not marked
-- as changed is the row as it was, and a second refresh from the same reading gives the same row.
pub apply_async_result_lem :
    (c : AsyncResult) (r : AsyncWorkflowSubmissionRecord)
    → ((apply_async_result c r).1.status ≡ c.status)
      × ((apply_async_result c r).1.message ≡ status_message c.status)
      × ((apply_async_result c r).0 ≡ false → (apply_async_result c r).1 ≡ r)
      × ((apply_async_result c (apply_async_result c r).1).1 ≡ (apply_async_result c r).1)
unfolding apply_async_result
apply_async_result_lem c r =
    let message = status_message c.status in
    let m = put_message message (put_status c.status (false, r)) in
    let on = given c.status message (false, r) in
    let kept = left_alone c m in (kept.0 ∙ on.0, kept.1 ∙ on.1, unchanged c r, idempotent c r)

-- the keys of a row
abbrev pub SameKeys : AsyncWorkflowSubmissionRecord → AsyncWorkflowSubmissionRecord → Type 0
SameKeys r r' = (r'.task_id ≡ r.task_id) × (r'.request_id ≡ r.request_id) × (r'.user_id ≡ r.user_id)

pub apply_async_result-SameKeys :
    (c : AsyncResult) (r : AsyncWorkflowSubmissionRecord) → SameKeys r (apply_async_result c r).1
unfolding apply_async_result put_status put_message put_result put_success put_payload
    clear_traceback put_traceback
apply_async_result-SameKeys c r = ground arith

pub refresh_item-SameKeys :
    (backend : Backend) (r : AsyncWorkflowSubmissionRecord) → SameKeys r (refresh_item backend r).1
unfolding refresh_item
refresh_item-SameKeys backend r = ground (arith, apply_async_result-SameKeys (backend r.task_id) r)
