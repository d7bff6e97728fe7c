-- ===== src/Submissions/Worker.antt =====
-- The task of the worker, app/tasks/workflow_tasks.py, with the record of a run that it looks up:
-- `build_record_from_state` of app/services/workflow_run_service.py. The worker has a database, and
-- the orchestrator of its runtime stack is a parameter. `format_exc` is the text of the exception.
use Prim.Native.String.{◌++◌ as append, count}
use general_agent_framework.Prelude.{
  ℕ, zero, suc, ◌-◌, String, Bool, true, false, ◌||◌, Option, none, some, List, [], ◌∷◌, str_eq,
  if◌then◌else◌,
}
use general_agent_framework.Json.{Value, Fields, null, bool, str, arr, obj, end, field, find, texts}
use general_agent_framework.Outcome.{Outcome, returned, raised, ◌>>=◌, Exception, attribute_error}
use general_agent_framework.Agents.{AgentResult}
use general_agent_framework.Orchestrator.State.{
  WorkflowStatus, WorkflowTerminalReason, OrchestratorState,
}
use general_agent_framework.Orchestrator.Json.{
  workflow_status_value, reason_value, reason_json, agent_result_json,
}
use general_agent_framework.Orchestrator.Base.{World, awaits_review}
use general_agent_framework.Orchestrator.Session.{join_errors}
use general_agent_framework.Orchestrator.Construct.{build_orchestrator_state}
use general_agent_framework.Submissions.Repository.{AsyncWorkflowSubmissionRecord, Table, modify}

-- the assignments of `_update_async_submission`
unfoldable pub updated :
    String
    → String
    → Option Fields
    → Option String
    → AsyncWorkflowSubmissionRecord
    → AsyncWorkflowSubmissionRecord
updated status message result_payload traceback_text r = record r {
  status = status;
  message = message;
  result_payload = elim result_payload [ none ↦ r.result_payload | some d ↦ some d ];
  traceback = elim traceback_text [
    | some t ↦ some t
    | none ↦ elim result_payload [ none ↦ r.traceback | some d ↦ none ]
  ];
}

-- `_update_async_submission`; a task without a row is passed over
unfoldable pub update_async_submission :
    String → String → String → Option Fields → Option String → Table → Table
unfolding updated
update_async_submission task_id status message result_payload traceback_text table =
    if str_eq task_id "" || str_eq task_id "None"
    then table
    else modify task_id (updated status message result_payload traceback_text) table

-- `state.memory.get("human_review", {}).get("review_id")`
unfoldable pub review_id : Fields → Outcome Value
review_id memory = elim (find "human_review" memory) [
  | none ↦ returned null
  | some (obj d) ↦ returned (elim (find "review_id" d) [ none ↦ null | some v ↦ v ])
  | some _ ↦ raised (record { class = attribute_error; text = "get" })
]

final_result_json : Option AgentResult → Value
final_result_json none = null
final_result_json (some r) = agent_result_json r

-- the outcome of a run that is stored already: `build_record_from_state`, then `_find_finished_run`
unfoldable pub finished_run : OrchestratorState → Outcome Fields
unfolding review_id
finished_run s = review_id s.memory >>= λ id. returned (
    field "request_id" (str s.request_id) (
      field "status" (str (workflow_status_value s.status)) (
        field "terminal_reason" (reason_json s.terminal_reason) (
          field "review_id" (if awaits_review s.status then id else null) (
            field "execution_path" (arr (texts s.execution_path)) (
              field "errors" (arr (texts s.errors))
                (field "final_result" null (field "duplicate" (bool true) end))))))))

-- `_find_finished_run` among the runs that were stored. A state without a record has no row.
unfoldable pub find_finished_run : String → List OrchestratorState → Option Fields
unfolding finished_run
find_finished_run request_id [] = none
find_finished_run request_id (s ∷ ss) =
    let rest = find_finished_run request_id ss in
    if str_eq s.request_id request_id
    then elim (finished_run s) [ returned d ↦ some d | raised e ↦ rest ]
    else rest

-- what the task returns of a run, with the id of its review
unfoldable pub run_fields : OrchestratorState → Value → Fields
unfolding final_result_json
run_fields s id = field "request_id" (str s.request_id) (
    field "status" (str (workflow_status_value s.status)) (
      field "terminal_reason" (reason_json s.terminal_reason) (
        field "review_id" id (
          field "execution_path" (arr (texts s.execution_path)) (
            field "errors" (arr (texts s.errors))
              (field "final_result" (final_result_json s.final_result) end))))))

unfoldable pub run_payload : OrchestratorState → Outcome Fields
run_payload s = review_id s.memory >>= λ id. returned (run_fields s id)

drop_chars : ℕ → String → String
drop_chars zero s = s
drop_chars (suc n) String.[] = String.[]
drop_chars (suc n) (String.◌∷◌ c s) = drop_chars n s

-- `s[-n:]`
abbrev last_chars : ℕ → String → String
last_chars n s = drop_chars (count s - n) s

unknown_reason : Option WorkflowTerminalReason → String
unknown_reason none = "unknown"
unknown_reason (some r) = reason_value r

unfoldable pub failure_message : OrchestratorState → String
unfolding drop_chars unknown_reason join_errors
failure_message s =
    let digest = last_chars 500 (join_errors s.errors) in
    let message =
      append "workflow ended with status failed (terminal_reason="
        (append (unknown_reason s.terminal_reason) ")") in
    if str_eq digest "" then message else append message (append ": " digest)

abbrev pub is_failed : WorkflowStatus → Bool
is_failed WorkflowStatus.failed = true
is_failed _ = false

-- the handler: the ledger has the traceback, and the exception goes on
unfoldable pub failed_task : String → Exception → Table → Outcome Fields × Table
unfolding update_async_submission
failed_task task_id e table = (
  raised e,
  update_async_submission task_id "failure" "workflow execution failed" none (some e.text) table,
)

-- the ledger after a run with this payload
unfoldable pub settle_task :
    String → OrchestratorState → Outcome Fields → Table → Outcome Fields × Table
unfolding failed_task update_async_submission failure_message
settle_task task_id s (raised e) table = failed_task task_id e table
settle_task task_id s (returned d) table = (
  returned d,
  if is_failed s.status
      then update_async_submission task_id "failure" (failure_message s) (some d) none table
      else update_async_submission task_id "success" "workflow completed successfully" (some d) none
          table,
)

-- The orchestrator gave this outcome.
unfoldable pub ran_task : String → Outcome OrchestratorState → Table → Outcome Fields × Table
unfolding settle_task run_payload
ran_task task_id (raised e) table = failed_task task_id e table
ran_task task_id (returned s) table = settle_task task_id s (run_payload s) table

abbrev pub Orchestrator : Type 0
Orchestrator = OrchestratorState → World → Outcome OrchestratorState × World

-- the rest of the task, once the stored runs were asked
unfoldable pub run_unless_finished :
    Orchestrator
    → String
    → OrchestratorState
    → Option Fields
    → Table
    → World
    → (Outcome Fields × Table) × World
unfolding update_async_submission ran_task
run_unless_finished orchestrate task_id s (some duplicate) table w = (
  (
    returned duplicate,
    update_async_submission task_id "success"
        "workflow skipped: request_id already has a finished run" (some duplicate) none table,
  ),
  w,
)
run_unless_finished orchestrate task_id s none table w =
    let started =
      update_async_submission task_id "started" "workflow execution started by worker" none none
        table in
    let (o, w') = orchestrate s w in (ran_task task_id o started, w')

unfoldable pub run_built :
    Orchestrator
    → String
    → Outcome OrchestratorState
    → Table
    → World
    → (Outcome Fields × Table) × World
unfolding run_unless_finished find_finished_run
run_built orchestrate task_id (raised e) table w = ((raised e, table), w)
run_built orchestrate task_id (returned s) table w =
    run_unless_finished orchestrate task_id s (find_finished_run s.request_id w.workflow_runs) table
      w

-- `run_workflow_task`
unfoldable pub run_workflow_task :
    Orchestrator → String → Fields → Table → World → (Outcome Fields × Table) × World
unfolding run_built
run_workflow_task orchestrate task_id request table w =
    run_built orchestrate task_id (build_orchestrator_state request) table w
