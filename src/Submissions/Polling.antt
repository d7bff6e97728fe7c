-- ===== src/Submissions/Polling.antt =====
-- The worker, the queue and the endpoint on one task: what a poll says before and after the ledger
-- was refreshed.
use general_agent_framework.Prelude.{
  String, ◌≡◌, refl, sym, ◌∙◌, subst, false, Option, none, some, [], ◌∷◌, arith, str_eq, eq_iff,
  Bool-cases, inl, inr,
}
use general_agent_framework.Json.{Value, Fields, find}
use general_agent_framework.Outcome.{Outcome, returned, raised, Exception, ◌>>=◌}
use general_agent_framework.Orchestrator.State.{WorkflowStatus, OrchestratorState}
use general_agent_framework.Orchestrator.Json.{workflow_status_value}
use general_agent_framework.Orchestrator.Base.{World}
use general_agent_framework.Orchestrator.Construct.{build_orchestrator_state}
use general_agent_framework.Submissions.{
  AsyncResult, put_status, put_message, put_payload, clear_traceback, put_traceback, put_success,
  put_result, apply_async_result,
}
use general_agent_framework.Submissions.Repository.{
  AsyncWorkflowSubmissionRecord, Table, get_by_task_id, modify,
}
use general_agent_framework.Submissions.Worker.{
  updated, update_async_submission, review_id, find_finished_run, run_payload, run_fields,
  failure_message, is_failed, failed_task, settle_task, ran_task, Orchestrator, run_unless_finished,
  run_built, run_workflow_task,
}
use general_agent_framework.Submissions.Api.{
  workflow_status, or_completed, payload_status, of_payload, derive_workflow_status,
}

-- what a client is told of a row
abbrev pub told : AsyncWorkflowSubmissionRecord → Option WorkflowStatus
told r = derive_workflow_status r.status r.result_payload

-- the status that a task's outcome stands for
abbrev pub outcome_status : Outcome Fields → WorkflowStatus
outcome_status (raised e) = WorkflowStatus.failed
outcome_status (returned d) = of_payload (some d)

-- What Celery reports of a task that has ended.
abbrev pub Reported : Outcome Fields → AsyncResult → Type 0
Reported (raised e) c = c.status ≡ "failure"
Reported (returned d) c = (c.status ≡ "success") × (c.result ≡ some d)

-- a task that has a row in the ledger
abbrev pub IsTask : String → Table → AsyncWorkflowSubmissionRecord → Type 0
IsTask task_id table r =
    (str_eq task_id "" ≡ false)
    × (str_eq task_id "None" ≡ false)
    × (get_by_task_id task_id table ≡ some r)

pub get-modify :
    (task_id : String) (f : AsyncWorkflowSubmissionRecord → AsyncWorkflowSubmissionRecord)
    (table : Table) (r : AsyncWorkflowSubmissionRecord)
    → ((x : AsyncWorkflowSubmissionRecord) → (f x).task_id ≡ x.task_id)
    → get_by_task_id task_id table ≡ some r
    → get_by_task_id task_id (modify task_id f table) ≡ some (f r)
unfolding get_by_task_id modify
get-modify task_id f [] r keeps at = ground arith
get-modify task_id f (x ∷ xs) r keeps at = ground (arith, keeps x, get-modify task_id f xs r keeps)

update-IsTask :
    (task_id status message : String) (payload : Option Fields) (trace : Option String)
    (table : Table) (r : AsyncWorkflowSubmissionRecord)
    → IsTask task_id table r
    → IsTask task_id
        (update_async_submission task_id status message payload trace table)
        (updated status message payload trace r)
unfolding update_async_submission updated
update-IsTask task_id status message payload trace table r (filled, known, at) =
    rw (filled, known)
      (refl, refl, get-modify task_id (updated status message payload trace) table r (λ x. refl) at)

-- a row that says the outcome of its task
abbrev Says : Outcome Fields → AsyncWorkflowSubmissionRecord → Type 0
Says (raised e) r = r.status ≡ "failure"
Says (returned d) r = (r.result_payload ≡ some d) × (told r ≡ some (of_payload (some d)))

Says-told :
    (o : Outcome Fields) (r : AsyncWorkflowSubmissionRecord)
    → Says o r
    → told r ≡ some (outcome_status o)
unfolding derive_workflow_status
Says-told (raised e) r says = rw says refl
Says-told (returned d) r says = says.1

poll_raised :
    (c : AsyncResult) (r : AsyncWorkflowSubmissionRecord)
    → c.status ≡ "failure"
    → (apply_async_result c r).1.status ≡ "failure"
unfolding apply_async_result put_status put_message put_result put_traceback
poll_raised c r failed = ground (arith, eq_iff r.status "failure")

poll_returned :
    (c : AsyncResult) (d : Fields) (r : AsyncWorkflowSubmissionRecord)
    → c.status ≡ "success"
    → c.result ≡ some d
    → r.result_payload ≡ some d
    → ((apply_async_result c r).1.status ≡ "success")
      × ((apply_async_result c r).1.result_payload ≡ some d)
unfolding apply_async_result put_status put_message put_result put_success put_payload
    clear_traceback
poll_returned c d r ended given has = ground (arith, eq_iff r.status "success")

polled-told :
    (o : Outcome Fields) (c : AsyncResult) (r : AsyncWorkflowSubmissionRecord)
    → Says o r
    → Reported o c
    → told (apply_async_result c r).1 ≡ some (outcome_status o)
unfolding derive_workflow_status
polled-told (raised e) c r says ended = rw (poll_raised c r ended) refl
polled-told (returned d) c r says ended =
    let (success, kept) = poll_returned c d r ended.0 ended.1 says.0 in rw (success, kept) refl

-- The task has a row that says its outcome.
abbrev Written : String → Outcome Fields × Table → Type 0
Written task_id (o, table) =
    (r : AsyncWorkflowSubmissionRecord) × (get_by_task_id task_id table ≡ some r) × Says o r

status-workflow_status :
    (s : WorkflowStatus) → or_completed (workflow_status (workflow_status_value s)) ≡ s
unfolding or_completed workflow_status
status-workflow_status WorkflowStatus.pending = refl
status-workflow_status WorkflowStatus.running = refl
status-workflow_status WorkflowStatus.completed = refl
status-workflow_status WorkflowStatus.failed = refl
status-workflow_status WorkflowStatus.needs_human_review = refl

status-run_fields :
    (s : OrchestratorState) (id : Value) → of_payload (some (run_fields s id)) ≡ s.status
unfolding run_fields of_payload payload_status find
status-run_fields s id = status-workflow_status s.status

-- The status that a run's payload stands for is the run's.
pub status-run_payload :
    (s : OrchestratorState) (d : Fields)
    → run_payload s ≡ returned d
    → of_payload (some d) ≡ s.status
unfolding run_payload
status-run_payload s d h = go (review_id s.memory) h
  where
    go :
        (o : Outcome Value)
        → (o >>= λ id. returned (run_fields s id)) ≡ returned d
        → of_payload (some d) ≡ s.status
    go (raised e) h = ground arith
    go (returned id) h = ground (arith, status-run_fields s id)

module _ (task_id : String) where
  failed_task-Written :
      (e : Exception) (table : Table) (r : AsyncWorkflowSubmissionRecord)
      → IsTask task_id table r
      → Written task_id (failed_task task_id e table)
  unfolding failed_task updated
  failed_task-Written e table r task =
      let (filled, known, at) =
        update-IsTask task_id "failure" "workflow execution failed" none (some e.text) table r
          task in
      (_, at, refl)

  settle_task-Written :
      (s : OrchestratorState) (o : Outcome Fields) (table : Table)
      (r : AsyncWorkflowSubmissionRecord)
      → ((d : Fields) → o ≡ returned d → of_payload (some d) ≡ s.status)
      → IsTask task_id table r
      → Written task_id (settle_task task_id s o table)
  unfolding settle_task derive_workflow_status updated
  settle_task-Written s (raised e) table r status task = failed_task-Written e table r task
  settle_task-Written s (returned d) table r status task = elim (Bool-cases (is_failed s.status)) [
    | inl q ↦
        let (filled, known, at) =
          update-IsTask task_id "failure" (failure_message s) (some d) none table r task in
        rw q (_, at, (refl, ground (arith, status d refl)))
    | inr q ↦
        let (filled, known, at) =
          update-IsTask task_id "success" "workflow completed successfully" (some d) none table r
            task in
        rw q (_, at, (refl, refl))
  ]

  ran_task-Written :
      (o : Outcome OrchestratorState) (table : Table) (r : AsyncWorkflowSubmissionRecord)
      → IsTask task_id table r
      → Written task_id (ran_task task_id o table)
  unfolding ran_task
  ran_task-Written (raised e) table r task = failed_task-Written e table r task
  ran_task-Written (returned s) table r task =
      settle_task-Written s (run_payload s) table r (status-run_payload s) task

  run_unless_finished-Written :
      (orchestrate : Orchestrator) (s : OrchestratorState) (o : Option Fields) (table : Table)
      (w : World) (r : AsyncWorkflowSubmissionRecord)
      → IsTask task_id table r
      → Written task_id (run_unless_finished orchestrate task_id s o table w).0
  unfolding run_unless_finished derive_workflow_status updated
  run_unless_finished-Written orchestrate s (some d) table w r task =
      let (filled, known, at) =
        update-IsTask task_id "success" "workflow skipped: request_id already has a finished run"
          (some d) none table r task in
      (_, at, (refl, refl))
  run_unless_finished-Written orchestrate s none table w r task =
      ran_task-Written (orchestrate s w).0 _ _ (
        update-IsTask task_id "started" "workflow execution started by worker" none none table r
          task)

run_workflow_task-Written :
    (orchestrate : Orchestrator) (task_id : String) (request : Fields) (s : OrchestratorState)
    (table : Table) (w : World) (r : AsyncWorkflowSubmissionRecord)
    → IsTask task_id table r
    → build_orchestrator_state request ≡ returned s
    → Written task_id (run_workflow_task orchestrate task_id request table w).0
unfolding run_workflow_task run_built
run_workflow_task-Written orchestrate task_id request s table w r task built = rw built (
    run_unless_finished-Written task_id orchestrate s
      (find_finished_run s.request_id w.workflow_runs) table w r task)

-- Once the task of a row has ended, the row, and its refresh from what Celery reports of the task,
-- tell a client the same workflow status: the one that the task's outcome stands for.
pub poll-told :
    (orchestrate : Orchestrator) (task_id : String) (request : Fields) (s : OrchestratorState)
    (table : Table) (w : World) (r : AsyncWorkflowSubmissionRecord) (c : AsyncResult)
    → IsTask task_id table r
    → build_orchestrator_state request ≡ returned s
    → Reported (run_workflow_task orchestrate task_id request table w).0.0 c
    → (r' : AsyncWorkflowSubmissionRecord) × (get_by_task_id task_id
          (run_workflow_task orchestrate task_id request table w).0.1
        ≡ some r')
      × (told r'
          ≡ some (outcome_status (run_workflow_task orchestrate task_id request table w).0.0))
      × (told (apply_async_result c r').1 ≡ told r')
poll-told orchestrate task_id request s table w r c task built ended =
    let done = (run_workflow_task orchestrate task_id request table w).0 in
    let (r', at, says) =
      run_workflow_task-Written orchestrate task_id request s table w r task built in
    (
      r',
      at,
      Says-told done.0 r' says,
      polled-told done.0 c r' says ended ∙ sym (Says-told done.0 r' says),
    )

ran_failed :
    (task_id : String) (t : OrchestratorState) (d : Fields) (table : Table)
    → t.status ≡ WorkflowStatus.failed
    → run_payload t ≡ returned d
    → ran_task task_id (returned t) table ≡ (
      returned d,
      update_async_submission task_id "failure" (failure_message t) (some d) none table,
    )
unfolding ran_task settle_task
ran_failed task_id t d table lost paid = ground arith

-- A run that ended failed is a failure in the ledger, as the worker writes it there, and a success
-- from the next refresh on, since Celery reports its task as a success.
pub refresh-failed_run :
    (task_id : String) (t : OrchestratorState) (d : Fields) (table : Table)
    (r : AsyncWorkflowSubmissionRecord) (c : AsyncResult)
    → IsTask task_id table r
    → t.status ≡ WorkflowStatus.failed
    → run_payload t ≡ returned d
    → Reported (ran_task task_id (returned t) table).0 c
    → (r' : AsyncWorkflowSubmissionRecord) × (get_by_task_id task_id
          (ran_task task_id (returned t) table).1
        ≡ some r')
      × (r'.status ≡ "failure")
      × ((apply_async_result c r').1.status ≡ "success")
unfolding updated
refresh-failed_run task_id t d table r c task lost paid ended =
    let e = ran_failed task_id t d table lost paid in
    let reported = subst (λ x. Reported x.0 c) e ended in
    let (filled, known, at) =
      update-IsTask task_id "failure" (failure_message t) (some d) none table r task in
    let r' = updated "failure" (failure_message t) (some d) none r in
    rw e (r', at, refl, (poll_returned c d r' reported.0 reported.1 refl).0)
