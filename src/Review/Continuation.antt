-- ===== src/Review/Continuation.antt =====
-- The run that continues an approved review: `build_continuation_state` of
-- app/services/human_review_service.py, `ReviewContinuationRequest` of app/schemas/api.py, and the
-- endpoint `approve_review` of app/api/routes/reviews.py. Where a value of the snapshot is no dict but
-- must be one, the class of the exception is not told apart.
use Prim.Native.String.{◌++◌ as append}
use general_agent_framework.Prelude.{String, Option, none, some, if◌then◌else◌}
use general_agent_framework.Json.{
  Value, Fields, null, str, obj, end, field, find, assign, remove, update, text_or_null,
}
use general_agent_framework.Json.Reading.{
  truthy, optional_text, texts_or_empty, number_or, optional_value,
}
use general_agent_framework.Outcome.{Outcome, returned, raised, ◌>>=◌, attribute_error}
use general_agent_framework.Orchestrator.SharedState.{set_review_context}
use general_agent_framework.Orchestrator.State.{OrchestratorState}
use general_agent_framework.Orchestrator.Session.{given}
use general_agent_framework.Orchestrator.Construct.{orchestrator_state, defaults}
use general_agent_framework.Review.{HumanReviewTask}

pub record ReviewContinuationRequest : Type 0 where
  pub request_id : Option String
  pub agent_id : String
  pub input_text : String
  pub structured_input : Fields

-- a value that a method of dicts is called on
as_dict : Value → Outcome Fields
as_dict (obj d) = returned d
as_dict v = raised (record { class = attribute_error; text = "dict" })

-- `snapshot.get(name) or {}`
unfoldable pub section : String → Fields → Outcome Fields
unfolding as_dict truthy
section name snapshot = elim (find name snapshot) [
  | none ↦ returned end
  | some v ↦ if truthy v then as_dict v else returned end
]

abbrev or_null : Option Value → Value
or_null none = null
or_null (some v) = v

-- the notes on the review that the agents read
unfoldable pub review_context : HumanReviewTask → ReviewContinuationRequest → Fields
review_context t c = field "source_review_id" (str t.id) (
    field "source_request_id" (str t.request_id) (
      field "source_workflow_id" (or_null (find "workflow_id" t.payload)) (
        field "source_trace_id" (or_null (find "trace_id" t.payload)) (
          field "source_agent_id" (str t.agent_id) (
            field "source_workflow_status" (or_null (find "workflow_status" t.payload)) (
              field "source_terminal_reason" (or_null (find "terminal_reason" t.payload)) (
                field "approved_by" (text_or_null t.decided_by) (
                  field "decision_note" (str t.decision_note)
                    (field "resumed_agent_id" (str c.agent_id) end)))))))))

-- `memory.setdefault("human_review", {})`
unfoldable pub human_review : Fields → Outcome Fields
unfolding as_dict
human_review memory = elim (find "human_review" memory) [ none ↦ returned end | some v ↦ as_dict v ]

-- `if previous_review_id is not None`
unfoldable pub with_previous : Option Value → Fields → Fields
with_previous none d = d
with_previous (some null) d = d
with_previous (some v) d = assign "previous_review_id" v d

-- the links of the new run to the review
unfoldable pub linked : HumanReviewTask → Fields → Fields
unfolding with_previous
linked t d = with_previous (find "review_id" d) (
    assign "source_request_id" (str t.request_id)
      (assign "source_review_id" (str t.id) (remove "review_id" d)))

unfoldable pub or_text : String → Option String → String
or_text default o = elim (given o) [ none ↦ default | some s ↦ s ]

-- `continuation.request_id or f"{task.id}-continuation"`
unfoldable pub continuation_id : HumanReviewTask → ReviewContinuationRequest → String
unfolding or_text
continuation_id t c = or_text (append t.id "-continuation") c.request_id

-- `build_continuation_state`
unfoldable pub build_continuation_state :
    HumanReviewTask → ReviewContinuationRequest → Outcome OrchestratorState
unfolding or_text continuation_id
build_continuation_state t c = section "structured_input" t.payload >>= λ structured_input.
    section "shared_state" t.payload >>= λ shared_state. section "memory" t.payload >>= λ memory.
    human_review memory >>= λ reviewed. optional_text "workflow_id" t.payload >>= λ workflow_id.
    optional_text "trace_id" t.payload >>= λ trace_id.
    optional_text "project_key" t.payload >>= λ project_key.
    texts_or_empty "knowledge_refs" t.payload >>= λ knowledge_refs.
    number_or 10 "max_steps" t.payload >>= λ max_steps. orchestrator_state (record defaults {
      request_id = continuation_id t c;
      initial_agent_id = c.agent_id;
      session_id = t.session_id;
      user_id = t.user_id;
      workflow_id = workflow_id;
      trace_id = trace_id;
      project_key = or_text "default" project_key;
      input_text = some c.input_text;
      structured_input = update (remove "requires_human" structured_input) c.structured_input;
      shared_state = set_review_context shared_state (review_context t c);
      memory = assign "human_review" (obj (linked t reviewed)) memory;
      knowledge_refs = knowledge_refs;
      max_steps = max_steps;
      llm_profile = optional_value "llm_profile" t.payload;
    })
