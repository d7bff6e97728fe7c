-- ===== src/Review/Samples.antt =====
-- A review that is approved: examples of the theorems on reviews.
use general_agent_framework.Prelude.{◌≡◌, refl, none, some, List, [], ◌∷◌, arith, All, inl, true}
use general_agent_framework.Json.{end, null, field, bool, str, find, remove}
use general_agent_framework.Review.{
  ReviewStatus, HumanReviewTask, ReviewStore, get, decide, approve, create_from_state,
  source_review_id, add_task, clashes, new_task, decided_task, review_payload,
}
use general_agent_framework.Orchestrator.State.{WorkflowStatus, OrchestratorState}
use general_agent_framework.Orchestrator.Construct.{defaults}
use general_agent_framework.Review.Continuation.{
  ReviewContinuationRequest, human_review, build_continuation_state,
}
use general_agent_framework.Review.Roundtrip.{Continues, build_continuation_state-create_from_state}
use general_agent_framework.Review.Broker.{
  ReviewEvent, Queue, ReviewEventBroker, created, decided, publish, find_queue,
}
use general_agent_framework.Review.Decisions.{Decides, decide-Decides}
use general_agent_framework.Review.Delivery.{
  publish_all, accepted, publish_all-accepted, IsBounded, publish-IsBounded,
}
use general_agent_framework.Review.Finality.{Event, happen_all, SameDecision, happen_all-final}

abbrev queue : Queue
queue = record { name = 7; events = [] }

abbrev broker : ReviewEventBroker
broker = record { queues = queue ∷ []; max_queue_size = 1; next_name = 8 }

abbrev task : HumanReviewTask
task = record {
  id = "review-0";
  request_id = "request-1";
  session_id = none;
  user_id = none;
  status = ReviewStatus.approved;
  agent_id = "planner_agent";
  summary = "";
  payload = end;
  decided_by = some "user-1";
  decision_note = "fine";
  decided_at = some 5;
  source_review_id = null;
  continuation_request_id = none;
  continuation_status = none;
  continuation_terminal_reason = null;
  continuation_run_at = none;
}

abbrev store : ReviewStore
store = record { rows = task ∷ []; broker = broker; ids = 1 }

abbrev events : List ReviewEvent
events = created "review-0" "request-1" "pending" ∷ decided "review-0" "request-1" "approved" ∷ []

publish_all-accepted_example :
    find_queue 7 (publish_all events broker).queues
    ≡ some (record queue { events = accepted 1 [] events })
unfolding find_queue
publish_all-accepted_example = publish_all-accepted 7 events broker queue (omega arith) refl

publish-IsBounded_example :
    All (IsBounded 1) (publish (created "review-0" "request-1" "pending") broker).queues
publish-IsBounded_example =
    publish-IsBounded (created "review-0" "request-1" "pending") broker (omega arith)
      (omega arith, tt)

decide-Decides_example :
    Decides "review-0" ReviewStatus.rejected none "" 9 store
      (get "review-0" store.rows)
      (decide "review-0" ReviewStatus.rejected none "" 9 store)
decide-Decides_example = decide-Decides "review-0" ReviewStatus.rejected none "" 9 store

attempts : List Event
attempts = Event.reject_by "review-0" none "no" 9 ∷ Event.approve_by "review-1" none "" 10 ∷ []

happen_all-final_example :
    (u : HumanReviewTask) × (get "review-0" (happen_all (λ n. "review-1") attempts store).rows
      ≡ some u)
    × SameDecision task u
unfolding get
happen_all-final_example =
    happen_all-final (λ n. "review-1") "review-0" task attempts store refl (λ h. cc)

abbrev stopped : OrchestratorState
stopped = record defaults {
  request_id = "request-1";
  session_id = some "session-1";
  initial_agent_id = "planner_agent";
  structured_input = field "requires_human" (bool true) (field "goal" (str "ship") end);
  status = WorkflowStatus.needs_human_review;
  knowledge_refs = "kb:1" ∷ [];
}

abbrev continuation : ReviewContinuationRequest
continuation = record {
  request_id = none;
  agent_id = "executor_agent";
  input_text = "go on";
  structured_input = end;
}

abbrev empty_store : ReviewStore
empty_store = record { rows = []; broker = broker; ids = 1 }

-- the review of the run that stopped
abbrev created_task : HumanReviewTask
created_task = record {
  id = "review-1";
  request_id = "request-1";
  session_id = some "session-1";
  user_id = none;
  status = ReviewStatus.pending;
  agent_id = "";
  summary = "";
  payload = review_payload stopped;
  decided_by = none;
  decision_note = "";
  decided_at = none;
  source_review_id = null;
  continuation_request_id = none;
  continuation_status = none;
  continuation_terminal_reason = null;
  continuation_run_at = none;
}

abbrev reviewed_store : ReviewStore
reviewed_store = record store { rows = task ∷ created_task ∷ [] }

abbrev approved_task : HumanReviewTask
approved_task = record created_task {
  status = ReviewStatus.approved;
  decided_by = some "user-2";
  decision_note = "fine";
  decided_at = some 7;
}

build_continuation_state-create_from_state_example :
    Continues stopped created_task
      (some "user-2")
      "fine"
      continuation
      end
      (build_continuation_state approved_task continuation)
unfolding human_review find remove create_from_state get approve source_review_id add_task clashes
    new_task decided_task
build_continuation_state-create_from_state_example =
    build_continuation_state-create_from_state (λ n. "review-1") stopped empty_store created_task
      "review-1" (some "user-2") "fine" 7 reviewed_store approved_task continuation end refl refl
      refl (omega arith) refl (inl refl) refl refl
