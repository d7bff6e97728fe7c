-- ===== src/Submissions/Ledger.antt =====
-- The states that the ledger goes through: the endpoints of app/api/routes/workflows.py and the task
-- of app/tasks/workflow_tasks.py change it, one at a time.
use general_agent_framework.Prelude.{
  ℕ, String, ◌≡◌, refl, ◌∙◌, sym, subst, Bool, true, false, Option, none, some, [], All, is_some,
  arith, Bool-cases, inl, inr,
}
use general_agent_framework.Prelude.Dict.{get}
use general_agent_framework.Json.{Fields}
use general_agent_framework.Outcome.{Outcome, returned, raised, Exception}
use general_agent_framework.Orchestrator.State.{OrchestratorState}
use general_agent_framework.Orchestrator.Base.{World}
use general_agent_framework.Orchestrator.Construct.{WorkflowRunRequest, build_orchestrator_state}
use general_agent_framework.Submissions.{
  Backend, create_submission, refresh_submission_status, refresh_found, refresh_item, refresh_items,
  page, list_submissions, apply_async_result,
}
use general_agent_framework.Submissions.Repository.{
  AsyncWorkflowSubmissionRecord, Table, Filters, get_by_task_id, get_by_request_id, matches,
}
use general_agent_framework.Submissions.Worker.{
  updated, update_async_submission, find_finished_run, failure_message, is_failed, failed_task,
  settle_task, run_payload, ran_task, Orchestrator, run_unless_finished, run_built,
  run_workflow_task,
}
use general_agent_framework.Submissions.Api.{
  Queue, User, submit, effective_user_id, run_workflow_async, get_workflow_task_status,
  list_async_workflow_submissions,
}
use general_agent_framework.Submissions.Refresh.{apply_async_result-SameKeys, refresh_item-SameKeys}
use general_agent_framework.Submissions.Keys.{
  keys, Unique, keys-modify, keys-write, keyed, keys-add, Keeps,
}
use general_agent_framework.Submissions.Pages.{All-refresh_items, All-page}

update-Keeps :
    (task_id status message : String) (payload : Option Fields) (trace : Option String)
    (table : Table)
    → Keeps table (update_async_submission task_id status message payload trace table)
unfolding update_async_submission updated
update-Keeps task_id status message payload trace table =
    ground
      (arith, keys-modify task_id (updated status message payload trace) table (λ r. (refl, refl)))

failed_task-Keeps :
    (task_id : String) (e : Exception) (table : Table) → Keeps table (failed_task task_id e table).1
unfolding failed_task
failed_task-Keeps task_id e table =
    update-Keeps task_id "failure" "workflow execution failed" none (some e.text) table

settle_task-Keeps :
    (task_id : String) (s : OrchestratorState) (o : Outcome Fields) (table : Table)
    → Keeps table (settle_task task_id s o table).1
unfolding settle_task
settle_task-Keeps task_id s (raised e) table = failed_task-Keeps task_id e table
settle_task-Keeps task_id s (returned d) table = elim (Bool-cases (is_failed s.status)) [
  | inl q ↦ rw q (update-Keeps task_id "failure" (failure_message s) (some d) none table)
  | inr q ↦
      rw q (update-Keeps task_id "success" "workflow completed successfully" (some d) none table)
]

ran_task-Keeps :
    (task_id : String) (o : Outcome OrchestratorState) (table : Table)
    → Keeps table (ran_task task_id o table).1
unfolding ran_task
ran_task-Keeps task_id (raised e) table = failed_task-Keeps task_id e table
ran_task-Keeps task_id (returned s) table = settle_task-Keeps task_id s (run_payload s) table

run_unless_finished-Keeps :
    (orchestrate : Orchestrator) (task_id : String) (s : OrchestratorState) (o : Option Fields)
    (table : Table) (w : World)
    → Keeps table (run_unless_finished orchestrate task_id s o table w).0.1
unfolding run_unless_finished
run_unless_finished-Keeps orchestrate task_id s (some d) table w =
    update-Keeps task_id "success" "workflow skipped: request_id already has a finished run"
      (some d) none table
run_unless_finished-Keeps orchestrate task_id s none table w =
    ran_task-Keeps task_id (orchestrate s w).0 (
      update_async_submission task_id "started" "workflow execution started by worker" none none
        table)
    ∙ update-Keeps task_id "started" "workflow execution started by worker" none none table

run_workflow_task-Keeps :
    (orchestrate : Orchestrator) (task_id : String) (request : Fields) (table : Table) (w : World)
    → Keeps table (run_workflow_task orchestrate task_id request table w).0.1
unfolding run_workflow_task run_built
run_workflow_task-Keeps orchestrate task_id request table w =
    built (build_orchestrator_state request)
  where
    built :
        (o : Outcome OrchestratorState) → Keeps table (run_built orchestrate task_id o table w).0.1
    built (raised e) = refl
    built (returned s) =
        run_unless_finished-Keeps orchestrate task_id s
          (find_finished_run s.request_id w.workflow_runs) table w

refresh-Keeps :
    (backend : Backend) (task_id : String) (table : Table)
    → Keeps table (refresh_submission_status backend task_id table).1
unfolding refresh_submission_status refresh_found
refresh-Keeps backend task_id table = at (get_by_task_id task_id table)
  where
    at :
        (o : Option AsyncWorkflowSubmissionRecord)
        → Keeps table (refresh_found backend task_id o table).1
    at none = refl
    at (some r) =
        keys-modify task_id (λ x. (apply_async_result (backend task_id) x).1) table
          (λ x. let same = apply_async_result-SameKeys (backend task_id) x in (same.0, same.1))

-- The ledger has the row's request under the row's task.
abbrev Keyed : Table → AsyncWorkflowSubmissionRecord → Type 0
Keyed table y = get y.task_id (keys table) ≡ some y.request_id

refresh_item-Keyed :
    (backend : Backend) (table : Table) (r : AsyncWorkflowSubmissionRecord)
    → Keyed table r
    → Keyed table (refresh_item backend r).1
refresh_item-Keyed backend table r at =
    let (same_task, same_request, same_user) = refresh_item-SameKeys backend r in
    rw (same_task, same_request) at

fresh-Keyed :
    (backend : Backend) (f : Filters) (limit offset : ℕ) (table : Table)
    → Unique (keys table)
    → All (Keyed table) (refresh_items backend (page f limit offset table)).1
fresh-Keyed backend f limit offset table unique =
    All-refresh_items backend (λ r. (matches f r ≡ true) × Keyed table r) (Keyed table)
      (page f limit offset table) (λ r h. refresh_item-Keyed backend table r h.1)
      (All-page (Keyed table) f limit offset table (keyed table unique))

list-Keeps :
    (backend : Backend) (f : Filters) (limit offset : ℕ) (refresh : Bool) (table : Table)
    → Unique (keys table)
    → Keeps table (list_submissions backend f limit offset refresh table).1
unfolding list_submissions
list-Keeps backend f limit offset false table unique = refl
list-Keeps backend f limit offset true table unique =
    let (dirty, fresh) = refresh_items backend (page f limit offset table) in
    elim (Bool-cases dirty) [
      | inr q ↦ rw q refl
      | inl q ↦ rw q (keys-write fresh table (fresh-Keyed backend f limit offset table unique))
    ]

-- One call of the application, and the ledger before and after it.
pub data Step : Table → Table → Type 0 where
  submitted :
      (queue : Queue) (request : WorkflowRunRequest) (user : User) (task_id : String)
      {table : Table}
      → Step table (run_workflow_async queue request user task_id table).1
  worked :
      (orchestrate : Orchestrator) (task_id : String) (request : Fields) (w : World) {table : Table}
      → Step table (run_workflow_task orchestrate task_id request table w).0.1
  polled :
      (backend : Backend) (queue : Queue) (user : User) (task_id : String) {table : Table}
      → Step table (get_workflow_task_status backend queue user task_id table).1
  listed :
      (backend : Backend) (queue : Queue) (user : User) (f : Filters) (limit offset : ℕ)
      {table : Table}
      → Step table (list_async_workflow_submissions backend queue user f limit offset table).1

pub data Reachable : Table → Type 0 where
  nothing : Reachable []
  then : {table table' : Table} → Reachable table → Step table table' → Reachable table'

create-Unique :
    (request : WorkflowRunRequest) (task_id task_name queue_name : String) (table : Table)
    → Unique (keys table)
    → Unique (keys (create_submission request task_id task_name queue_name table).1)
unfolding create_submission
create-Unique request task_id task_name queue_name table unique = keys-add _ table unique

submitted-Unique :
    (queue : Queue) (request : WorkflowRunRequest) (user : User) (task_id : String) (table : Table)
    → Unique (keys table)
    → Unique (keys (run_workflow_async queue request user task_id table).1)
unfolding run_workflow_async submit
submitted-Unique queue request user task_id table unique = elim (Bool-cases queue.reachable) [
  | inr q ↦ rw q unique
  | inl q ↦ rw q (elim (Bool-cases (is_some (get_by_request_id request.request_id table))) [
    | inl e ↦ rw e unique
    | inr e ↦ rw e (
        create-Unique (record request { user_id = some user.id }) task_id "workflow.run"
          queue.default_queue table unique)
  ])
]

polled-Keeps :
    (backend : Backend) (queue : Queue) (user : User) (task_id : String) (table : Table)
    → Keeps table (get_workflow_task_status backend queue user task_id table).1
unfolding get_workflow_task_status
polled-Keeps backend queue user task_id table = elim (Bool-cases queue.reachable) [
  | inl q ↦ rw q (refresh-Keeps backend task_id table)
  | inr q ↦ rw q refl
]

kept : (table table' : Table) → Keeps table table' → Unique (keys table) → Unique (keys table')
kept table table' e unique = subst Unique (sym e) unique

step-Unique :
    {table table' : Table} → Step table table' → Unique (keys table) → Unique (keys table')
unfolding list_async_workflow_submissions
step-Unique (submitted queue request user task_id {table}) unique =
    submitted-Unique queue request user task_id table unique
step-Unique (worked orchestrate task_id request w {table}) unique =
    kept table _ (run_workflow_task-Keeps orchestrate task_id request table w) unique
step-Unique (polled backend queue user task_id {table}) unique =
    kept table _ (polled-Keeps backend queue user task_id table) unique
step-Unique (listed backend queue user f limit offset {table}) unique =
    kept table _
      (list-Keeps backend (record f { user_id = effective_user_id user f.user_id }) limit offset
        queue.reachable table unique)
      unique

-- However the endpoints and the workers take turns, no two rows of the ledger share a task or a
-- request.
pub Reachable-Unique : {table : Table} → Reachable table → Unique (keys table)
Reachable-Unique nothing = tt
Reachable-Unique (then reached step) = step-Unique step (Reachable-Unique reached)
