-- ===== src/Review/Links.antt =====
-- What the run that continues a review knows of the review: its own id, the notes for its agents and the
-- links in its memory, which `build_continuation_state` of app/services/human_review_service.py makes.
use Prim.Native.String.{◌++◌ as append}
use general_agent_framework.Prelude.{
  ℕ, String, ◌≡◌, refl, ◌∙◌, false, Option, none, some, List, [], ◌∷◌, arith, str_eq, eq_iff, ◌⊎◌,
  inl, inr, if◌then◌else◌,
}
use general_agent_framework.Json.{
  Value, Fields, null, str, num, other_num, bool, arr, obj, end, field, find, remove, text_or_null,
  find-assign,
}
use general_agent_framework.Agents.{contains}
use general_agent_framework.Orchestrator.Json.{workflow_status_value, reason_json}
use general_agent_framework.Orchestrator.State.{OrchestratorState}
use general_agent_framework.Orchestrator.Session.{given}
use general_agent_framework.Review.{ReviewStatus, HumanReviewTask, review_payload}
use general_agent_framework.Review.Decisions.{IsDecided}
use general_agent_framework.Review.Continuation.{
  ReviewContinuationRequest, review_context, linked, or_text, with_previous, continuation_id,
}

-- the id of the new run: the given one, or one that is made of the id of the review
abbrev pub IsContinuationId : String → Option String → String → Type 0
IsContinuationId id request_id r =
    (given request_id ≡ some r) ⊎ ((given request_id ≡ none) × (r ≡ append id "-continuation"))

pub continuation_id-IsContinuationId :
    (t : HumanReviewTask) (c : ReviewContinuationRequest)
    → IsContinuationId t.id c.request_id (continuation_id t c)
unfolding continuation_id or_text
continuation_id-IsContinuationId t c = go (given c.request_id) refl
  where
    go :
        (o : Option String)
        → given c.request_id ≡ o
        → IsContinuationId t.id c.request_id (continuation_id t c)
    go none e = inr (e, rw (e, continuation_id, or_text) refl)
    go (some r) e = inl (e ∙ rw (e, continuation_id, or_text) refl)

-- What the notes on the review say: where it comes from, who approved it, and who goes on.
abbrev pub AreNotes :
    OrchestratorState
    → HumanReviewTask
    → Option String
    → String
    → ReviewContinuationRequest
    → Fields
    → Type 0
AreNotes s u by note c notes =
    (find "source_review_id" notes ≡ some (str u.id))
    × (find "source_request_id" notes ≡ some (str s.request_id))
    × (find "source_workflow_id" notes ≡ some (text_or_null s.workflow_id))
    × (find "source_trace_id" notes ≡ some (text_or_null s.trace_id))
    × (find "source_agent_id" notes ≡ some (str u.agent_id))
    × (find "source_workflow_status" notes ≡ some (str (workflow_status_value s.status)))
    × (find "source_terminal_reason" notes ≡ some (reason_json s.terminal_reason))
    × (find "approved_by" notes ≡ some (text_or_null by))
    × (find "decision_note" notes ≡ some (str note))
    × (find "resumed_agent_id" notes ≡ some (str c.agent_id))

pub review_context-AreNotes :
    (s : OrchestratorState) (u t : HumanReviewTask) (by : Option String) (note : String) (now : ℕ)
    (c : ReviewContinuationRequest)
    → t.payload ≡ review_payload s
    → t.request_id ≡ s.request_id
    → IsDecided u ReviewStatus.approved by note now t
    → AreNotes s u by note c (review_context t c)
unfolding review_context review_payload find
review_context-AreNotes s u t by note now c payload request done =
    let (_, is_by, is_note, _, is_id, _, _, _, is_agent, _, _, _, _, _, _, _) = done in
    rw (payload, request, is_by, is_note, is_id, is_agent)
      (refl, refl, refl, refl, refl, refl, refl, refl, refl, refl)

find-remove : (k j : String) (d : Fields) → str_eq k j ≡ false → find j (remove k d) ≡ find j d
unfolding find remove
find-remove k j end n = refl
find-remove k j (field i w d) n =
    ground (arith, eq_iff i k, eq_iff i j, eq_iff k j, find-remove k j d)

-- the keys of the links
abbrev pub link_names : List String
link_names = "source_review_id" ∷ "source_request_id" ∷ "review_id" ∷ "previous_review_id" ∷ []

-- the review before this one, if the dict of links names one
unfoldable pub previous : Option Value → Option Value → Option Value
previous none old = old
previous (some null) old = old
previous (some v) old = some v

-- The links to the review: its id and its request, and the review before it in place of itself. What
-- else the dict held stays.
abbrev pub AreLinks : OrchestratorState → String → Fields → Fields → Type 0
AreLinks s id reviewed links =
    (find "source_review_id" links ≡ some (str id))
    × (find "source_request_id" links ≡ some (str s.request_id))
    × (find "review_id" links ≡ none)
    × (find "previous_review_id" links
        ≡ previous (find "review_id" reviewed) (find "previous_review_id" reviewed))
    × ((j : String) → contains j link_names ≡ false → find j links ≡ find j reviewed)

find-with_previous :
    (j : String) (o : Option Value) (d : Fields)
    → find j (with_previous o d)
      ≡ (if str_eq "previous_review_id" j then previous o (find j d) else find j d)
unfolding with_previous previous
find-with_previous j none d = ground arith
find-with_previous j (some null) d = ground arith
find-with_previous j (some (obj x)) d = find-assign _ j _ d
find-with_previous j (some (arr x)) d = find-assign _ j _ d
find-with_previous j (some (str x)) d = find-assign _ j _ d
find-with_previous j (some (num x)) d = find-assign _ j _ d
find-with_previous j (some (other_num x)) d = find-assign _ j _ d
find-with_previous j (some (bool x)) d = find-assign _ j _ d

-- each key of the links
find-linked :
    (t : HumanReviewTask) (j : String) (d : Fields)
    → find j (linked t d) ≡ (
        let old =
          if str_eq "source_request_id" j
          then some (str t.request_id)
          else if str_eq "source_review_id" j
          then some (str t.id)
          else find j (remove "review_id" d) in
        if str_eq "previous_review_id" j then previous (find "review_id" d) old else old)
unfolding linked
find-linked t j d = simp (find-with_previous, find-assign)

pub linked-AreLinks :
    (s : OrchestratorState) (t : HumanReviewTask) (reviewed : Fields)
    → t.request_id ≡ s.request_id
    → find "review_id" (remove "review_id" reviewed) ≡ none
    → AreLinks s t.id reviewed (linked t reviewed)
unfolding contains
linked-AreLinks s t reviewed request once = (
  find-linked t "source_review_id" reviewed,
  find-linked t "source_request_id" reviewed ∙ rw request refl,
  find-linked t "review_id" reviewed ∙ once,
  find-linked t "previous_review_id" reviewed
      ∙ rw (find-remove "review_id" "previous_review_id" reviewed refl) refl,
  λ j n. ground (arith, find-linked t j reviewed, find-remove "review_id" j reviewed),
)
