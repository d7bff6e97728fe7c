-- ===== src/Review.antt =====
-- Human reviews: app/services/human_review_service.py over
-- app/repositories/human_review_repository.py and app/models/human_review.py. The table is the
-- list of its rows, whose `id` and `request_id` are unique; a time is a number. `uuid` is the
-- sequence of the ids that `uuid4` gives.
pub mod Broker
pub mod Decisions
pub mod Delivery
pub mod Finality
pub mod Continuation
pub mod Links
pub mod Roundtrip
mod Samples
use Prim.Native.String.{◌++◌ as append}
use general_agent_framework.Prelude.{
  ℕ, suc, String, ◌+◌, Bool, true, false, ◌||◌, Option, none, some, List, [], ◌∷◌, ◌++◌, str_eq,
  if◌then◌else◌,
}
use general_agent_framework.Json.{
  Value, Fields, null, num, str, arr, obj, end, field, find, texts, text_or_null,
}
use general_agent_framework.Outcome.{
  Outcome, returned, raised, other, key_error, repr_message, value_error, attribute_error,
}
use general_agent_framework.Agents.{AgentResult}
use general_agent_framework.Orchestrator.State.{OrchestratorState}
use general_agent_framework.Orchestrator.Json.{
  workflow_status_value, reason_json, agent_result_json, history_json,
}
use Broker.{ReviewEventBroker, created, decided, publish}

pub data ReviewStatus : Type 0 where
  pending approved rejected expired : ReviewStatus

abbrev pub review_status_value : ReviewStatus → String
review_status_value pending = "pending"
review_status_value approved = "approved"
review_status_value rejected = "rejected"
review_status_value expired = "expired"

abbrev pub not_found : String → String
not_found review_id = append "Review task '" (append review_id "' was not found.")

abbrev pub already : String → ReviewStatus → String
already review_id status = append "Review task '" (
    append review_id (append "' is already in status '" (append (review_status_value status) "'.")))

pub record HumanReviewTask : Type 0 where
  pub id : String
  pub request_id : String
  pub session_id : Option String
  pub user_id : Option String
  pub status : ReviewStatus
  pub agent_id : String
  pub summary : String
  pub payload : Fields
  pub decided_by : Option String
  pub decision_note : String
  pub decided_at : Option ℕ
  pub source_review_id : Value
  pub continuation_request_id : Option String
  pub continuation_status : Option String
  pub continuation_terminal_reason : Value
  pub continuation_run_at : Option ℕ

-- The table, the broker, and the number of ids given out.
pub record ReviewStore : Type 0 where
  pub rows : List HumanReviewTask
  pub broker : ReviewEventBroker
  pub ids : ℕ

-- `HumanReviewRepository.get`
unfoldable pub get : String → List HumanReviewTask → Option HumanReviewTask
get review_id [] = none
get review_id (t ∷ ts) = if str_eq t.id review_id then some t else get review_id ts

-- writes the fields of a loaded row back to its row
unfoldable pub replace : HumanReviewTask → List HumanReviewTask → List HumanReviewTask
replace t [] = []
replace t (r ∷ rs) = if str_eq r.id t.id then t ∷ rs else r ∷ replace t rs

-- a row that clashes with the primary key or the unique `request_id`
unfoldable pub clashes : String → String → List HumanReviewTask → Bool
clashes id request_id [] = false
clashes id request_id (t ∷ ts) =
    str_eq t.id id || str_eq t.request_id request_id || clashes id request_id ts

-- `state.memory.get("human_review", {}).get("source_review_id")`
unfoldable pub source_review_id : Fields → Outcome Value
source_review_id memory = elim (find "human_review" memory) [
  | none ↦ returned null
  | some (obj d) ↦ returned (elim (find "source_review_id" d) [ none ↦ null | some v ↦ v ])
  | some _ ↦ raised (record { class = attribute_error; text = "get" })
]

result_agent_id : Option AgentResult → Option String → String
result_agent_id (some r) current = r.agent_id
result_agent_id none (some a) = a
result_agent_id none none = ""

result_summary : Option AgentResult → String
result_summary (some r) = r.summary
result_summary none = ""

result_json : Option AgentResult → Value
result_json none = null
result_json (some r) = agent_result_json r

unfoldable pub profile_json : Option Value → Value
profile_json none = null
profile_json (some p) = p

-- the snapshot of the run that the review carries
unfoldable pub review_payload : OrchestratorState → Fields
unfolding result_json profile_json
review_payload s = field "workflow_id" (text_or_null s.workflow_id) (
    field "trace_id" (text_or_null s.trace_id) (
      field "project_key" (str s.project_key) (
        field "initial_agent_id" (str s.initial_agent_id) (
          field "current_agent_id" (text_or_null s.current_agent_id) (
            field "input_text" (text_or_null s.input_text) (
              field "structured_input" (obj s.structured_input) (
                field "knowledge_refs" (arr (texts s.knowledge_refs)) (
                  field "workflow_status" (str (workflow_status_value s.status)) (
                    field "terminal_reason" (reason_json s.terminal_reason) (
                      field "max_steps" (num s.max_steps) (
                        field "execution_path" (arr (texts s.execution_path)) (
                          field "final_result" (result_json s.final_result) (
                            field "run_history" (arr (history_json s.run_history)) (
                              field "errors" (arr (texts s.errors)) (
                                field "shared_state" (obj s.shared_state) (
                                  field "memory" (obj s.memory) (
                                    field "llm_profile" (profile_json s.llm_profile)
                                      end)))))))))))))))))

unfoldable pub new_task : String → OrchestratorState → Value → HumanReviewTask
unfolding result_agent_id result_summary review_payload
new_task id s source = record {
  id = id;
  request_id = s.request_id;
  session_id = s.session_id;
  user_id = s.user_id;
  status = pending;
  agent_id = result_agent_id s.final_result s.current_agent_id;
  summary = result_summary s.final_result;
  payload = review_payload s;
  decided_by = none;
  decision_note = "";
  decided_at = none;
  source_review_id = source;
  continuation_request_id = none;
  continuation_status = none;
  continuation_terminal_reason = null;
  continuation_run_at = none;
}

-- `add`, `commit` and the event. A clash raises `IntegrityError` and adds nothing.
unfoldable pub add_task : HumanReviewTask → ReviewStore → Outcome HumanReviewTask × ReviewStore
add_task t store =
    if clashes t.id t.request_id store.rows
    then (raised (record { class = other "IntegrityError"; text = t.request_id }), store)
    else (
      returned t,
      record store {
        rows = store.rows ++ t ∷ [];
        broker = publish (created t.id t.request_id (review_status_value t.status)) store.broker;
      },
    )

-- the rest of `create_from_state`, once `source_review_id` was read
unfoldable pub add_sourced :
    (ℕ → String)
    → OrchestratorState
    → ℕ
    → Outcome Value
    → ReviewStore
    → Outcome HumanReviewTask × ReviewStore
add_sourced uuid s n (raised e) store = (raised e, store)
add_sourced uuid s n (returned source) store = add_task (new_task (uuid n) s source) store

unfoldable pub create_from_state :
    (ℕ → String) → OrchestratorState → ReviewStore → Outcome HumanReviewTask × ReviewStore
unfolding add_sourced
create_from_state uuid s store =
    add_sourced uuid s store.ids (source_review_id s.memory) (record store { ids = store.ids + 1 })

abbrev pub is_pending : ReviewStatus → Bool
is_pending pending = true
is_pending _ = false

-- `update_decision`, on the loaded row
unfoldable pub decided_task :
    HumanReviewTask → ReviewStatus → Option String → String → ℕ → HumanReviewTask
decided_task t status decided_by note now = record t {
  status = status;
  decided_by = decided_by;
  decision_note = note;
  decided_at = some now;
}

-- the rest of `_decide`, on the row that was found
unfoldable pub decide_row :
    String
    → ReviewStatus
    → Option String
    → String
    → ℕ
    → ReviewStore
    → Option HumanReviewTask
    → Outcome HumanReviewTask × ReviewStore
decide_row review_id status decided_by note now store none =
    (raised (record { class = key_error; text = repr_message (not_found review_id) }), store)
decide_row review_id status decided_by note now store (some t) =
    if is_pending t.status
    then (
      returned (decided_task t status decided_by note now),
      record store {
        rows = replace (decided_task t status decided_by note now) store.rows;
        broker = publish (decided t.id t.request_id (review_status_value status)) store.broker;
      },
    )
    else (raised (record { class = value_error; text = already review_id t.status }), store)

unfoldable pub decide :
    String
    → ReviewStatus
    → Option String
    → String
    → ℕ
    → ReviewStore
    → Outcome HumanReviewTask × ReviewStore
unfolding decide_row
decide review_id status decided_by note now store =
    decide_row review_id status decided_by note now store (get review_id store.rows)

unfoldable pub approve :
    String → Option String → String → ℕ → ReviewStore → Outcome HumanReviewTask × ReviewStore
unfolding decide
approve review_id = decide review_id approved

unfoldable pub reject :
    String → Option String → String → ℕ → ReviewStore → Outcome HumanReviewTask × ReviewStore
unfolding decide
reject review_id = decide review_id rejected

-- the review with the link to the run that continued it
unfoldable pub continued_task : HumanReviewTask → OrchestratorState → ℕ → HumanReviewTask
continued_task t result now = record t {
  continuation_request_id = some result.request_id;
  continuation_status = some (workflow_status_value result.status);
  continuation_terminal_reason = reason_json result.terminal_reason;
  continuation_run_at = some now;
}

-- the link, on the row that was found; `assert updated is not None` is the raise
unfoldable pub continue_row :
    OrchestratorState
    → ℕ
    → ReviewStore
    → Option HumanReviewTask
    → Outcome HumanReviewTask × ReviewStore
continue_row result now store none =
    (raised (record { class = other "AssertionError"; text = "" }), store)
continue_row result now store (some t) = (
  returned (continued_task t result now),
  record store { rows = replace (continued_task t result now) store.rows },
)

unfoldable pub record_continuation :
    String → OrchestratorState → ℕ → ReviewStore → Outcome HumanReviewTask × ReviewStore
unfolding continue_row
record_continuation review_id result now store =
    continue_row result now store (get review_id store.rows)
