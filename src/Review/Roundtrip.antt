-- ===== src/Review/Roundtrip.antt =====
-- From a run to its review and back: the snapshot that `create_from_state` writes, and the state that
-- `build_continuation_state` reads from it, in app/services/human_review_service.py.
use general_agent_framework.Prelude.{
  ℕ, subst, ◌∙◌, String, ◌≤◌, ◌≡◌, refl, false, Option, none, some, arith, str_eq, ◌⊎◌, inl, inr,
}
use general_agent_framework.Json.{Value, Fields, obj, end, field, find, assign, remove, update}
use general_agent_framework.Json.Reading.{truthy, optional_value}
use general_agent_framework.Json.Found.{optional_text-some, texts_or_empty-some, number_or-some}
use general_agent_framework.Outcome.{Outcome, returned, raised}
use general_agent_framework.Orchestrator.SharedState.{set_review_context}
use general_agent_framework.Orchestrator.State.{OrchestratorState}
use general_agent_framework.Orchestrator.Construct.{orchestrator_state, defaults}
use general_agent_framework.Review.{
  ReviewStatus, ReviewStore, HumanReviewTask, review_payload, profile_json, create_from_state,
  add_sourced, add_task, new_task, source_review_id, approve, decide, get,
}
use general_agent_framework.Review.Links.{
  IsContinuationId, AreNotes, AreLinks, continuation_id-IsContinuationId, review_context-AreNotes,
  linked-AreLinks,
}
use general_agent_framework.Review.Decisions.{Decides, IsDecided, decide-Decides}
use general_agent_framework.Review.Continuation.{
  ReviewContinuationRequest, section, review_context, human_review, linked, or_text,
  continuation_id, build_continuation_state,
}

section-some :
    (name : String) (d f : Fields) → find name d ≡ some (obj f) → section name d ≡ returned f
unfolding section truthy
section-some name d end e = ground arith
section-some name d (field k v f) e = ground arith

-- a profile is a dict, if there is one
abbrev pub IsProfile : Option Value → Type 0
IsProfile p = (p ≡ none) ⊎ ((d : Fields) × (p ≡ some (obj d)))

profile-some :
    (name : String) (d : Fields) (p : Option Value)
    → IsProfile p
    → find name d ≡ some (profile_json p)
    → optional_value name d ≡ p
unfolding optional_value profile_json
profile-some name d p (inl is) e = ground arith
profile-some name d p (inr (f, is)) e = ground arith

named : (default name : String) → str_eq name "" ≡ false → or_text default (some name) ≡ name
unfolding or_text
named default name filled = ground arith

-- the state of a continuation, by the functions that make its notes and its links
rebuilt :
    (s : OrchestratorState) (t : HumanReviewTask) (c : ReviewContinuationRequest)
    (reviewed : Fields)
    → t.payload ≡ review_payload s
    → t.session_id ≡ s.session_id
    → t.user_id ≡ s.user_id
    → 1 ≤ s.max_steps
    → str_eq s.project_key "" ≡ false
    → IsProfile s.llm_profile
    → human_review s.memory ≡ returned reviewed
    → build_continuation_state t c
      ≡ orchestrator_state (record defaults {
        request_id = continuation_id t c;
        initial_agent_id = c.agent_id;
        session_id = s.session_id;
        user_id = s.user_id;
        workflow_id = s.workflow_id;
        trace_id = s.trace_id;
        project_key = s.project_key;
        input_text = some c.input_text;
        structured_input = update (remove "requires_human" s.structured_input) c.structured_input;
        shared_state = set_review_context s.shared_state (review_context t c);
        memory = assign "human_review" (obj (linked t reviewed)) s.memory;
        knowledge_refs = s.knowledge_refs;
        max_steps = s.max_steps;
        llm_profile = s.llm_profile;
      })
unfolding build_continuation_state review_payload find
rebuilt s t c reviewed payload session user steps project profile memory =
    let d = review_payload s in
    rw
      (
        payload,
        session,
        user,
        section-some "structured_input" d s.structured_input refl,
        section-some "shared_state" d s.shared_state refl,
        section-some "memory" d s.memory refl,
        memory,
        optional_text-some "workflow_id" d s.workflow_id refl,
        optional_text-some "trace_id" d s.trace_id refl,
        optional_text-some "project_key" d (some s.project_key) refl,
        texts_or_empty-some "knowledge_refs" d s.knowledge_refs refl,
        number_or-some "max_steps" d 10 s.max_steps steps refl,
        profile-some "llm_profile" d s.llm_profile profile refl,
        named "default" s.project_key project,
      )
      refl

-- What the review that a run creates keeps of it.
abbrev Snapshot : OrchestratorState → HumanReviewTask → Type 0
Snapshot s t =
    (t.payload ≡ review_payload s)
    × (t.request_id ≡ s.request_id)
    × (t.session_id ≡ s.session_id)
    × (t.user_id ≡ s.user_id)

created-Snapshot :
    (uuid : ℕ → String) (s : OrchestratorState) (store : ReviewStore) (u : HumanReviewTask)
    → (create_from_state uuid s store).0 ≡ returned u
    → Snapshot s u
unfolding create_from_state add_sourced add_task new_task
created-Snapshot uuid s store u e = go (source_review_id s.memory) refl
  where
    go : (o : Outcome Value) → source_review_id s.memory ≡ o → Snapshot s u
    go (raised x) q = ground arith
    go (returned v) q = (ground arith, ground arith, ground arith, ground arith)

-- An approval that returns gives the review that was found, with the decision.
approved-IsDecided :
    (id : String) (by : Option String) (note : String) (now : ℕ) (store : ReviewStore)
    (u t : HumanReviewTask)
    → get id store.rows ≡ some u
    → (approve id by note now store).0 ≡ returned t
    → IsDecided u ReviewStatus.approved by note now t
unfolding approve
approved-IsDecided id by note now store u t found e =
    go (get id store.rows) found (decide-Decides id ReviewStatus.approved by note now store)
  where
    go :
        (o : Option HumanReviewTask)
        → o ≡ some u
        → Decides id ReviewStatus.approved by note now store o
            (decide id ReviewStatus.approved by note now store)
        → IsDecided u ReviewStatus.approved by note now t
    go none q h = cc
    go (some v) q (inl (_, r, _)) = cc
    go (some v) q (inr (_, (t', r, _, done), _)) =
        let same : t' ≡ t = cc in
        let found : v ≡ u = cc in
        subst (λ x. IsDecided x ReviewStatus.approved by note now t) found
          (subst (IsDecided v ReviewStatus.approved by note now) same done)

-- The state that continues the review of a run, as what it is made of.
abbrev pub Continues :
    OrchestratorState
    → HumanReviewTask
    → Option String
    → String
    → ReviewContinuationRequest
    → Fields
    → Outcome OrchestratorState
    → Type 0
Continues s u by note c reviewed o =
    (request_id : String) × (notes : Fields) × (links : Fields) × (o
      ≡ orchestrator_state (record defaults {
        request_id = request_id;
        initial_agent_id = c.agent_id;
        session_id = s.session_id;
        user_id = s.user_id;
        workflow_id = s.workflow_id;
        trace_id = s.trace_id;
        project_key = s.project_key;
        input_text = some c.input_text;
        structured_input = update (remove "requires_human" s.structured_input) c.structured_input;
        shared_state = assign "review_context" (obj notes) s.shared_state;
        memory = assign "human_review" (obj links) s.memory;
        knowledge_refs = s.knowledge_refs;
        max_steps = s.max_steps;
        llm_profile = s.llm_profile;
      }))
    × IsContinuationId u.id c.request_id request_id
    × AreNotes s u by note c notes
    × AreLinks s u.id reviewed links

-- Where a review is created from a state, and an approval finds it as it was created, the state of the
-- continuation is built of that state: its session, user, workflow, trace and project keys, references,
-- step bound and profile; its input without `requires_human` and with the input of the continuation on
-- top; its shared state with notes on the review, which name its source, who approved it with which
-- note, and the agent that goes on; and its memory, where the links name the review, its request and,
-- if there was one, the review before, and what else they held stays. The steps are at least 1, the
-- project key is not empty, the profile is a dict if there is one, and the links are one, without a key
-- that is there twice.
pub build_continuation_state-create_from_state :
    (uuid : ℕ → String) (s : OrchestratorState) (before : ReviewStore) (u : HumanReviewTask)
    (id : String) (by : Option String) (note : String) (now : ℕ) (store : ReviewStore)
    (t : HumanReviewTask) (c : ReviewContinuationRequest) (reviewed : Fields)
    → (create_from_state uuid s before).0 ≡ returned u
    → get id store.rows ≡ some u
    → (approve id by note now store).0 ≡ returned t
    → 1 ≤ s.max_steps
    → str_eq s.project_key "" ≡ false
    → IsProfile s.llm_profile
    → human_review s.memory ≡ returned reviewed
    → find "review_id" (remove "review_id" reviewed) ≡ none
    → Continues s u by note c reviewed (build_continuation_state t c)
unfolding set_review_context
build_continuation_state-create_from_state uuid s before u id by note now store t c reviewed made
      found approved steps project profile memory once =
    let (payload, request, session, user) = created-Snapshot uuid s before u made in
    let done = approved-IsDecided id by note now store u t found approved in
    let (_, _, _, _, is_id, is_request, is_session, is_user, _, _, is_payload, _, _, _, _, _) =
      done in
    let kept = is_payload ∙ payload in
    (
      continuation_id t c,
      review_context t c,
      linked t reviewed,
      rebuilt s t c reviewed kept (is_session ∙ session) (is_user ∙ user) steps project profile
          memory,
      subst (λ i. IsContinuationId i c.request_id (continuation_id t c)) is_id
          (continuation_id-IsContinuationId t c),
      review_context-AreNotes s u t by note now c kept (is_request ∙ request) done,
      subst (λ i. AreLinks s i reviewed (linked t reviewed)) is_id
          (linked-AreLinks s t reviewed (is_request ∙ request) once),
    )
