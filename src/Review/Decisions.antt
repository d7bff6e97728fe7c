-- ===== src/Review/Decisions.antt =====
-- Decisions on reviews: what each attempt does, and that a decision is final.
use general_agent_framework.Prelude.{
  ℕ, String, ◌≡◌, refl, ◌≢◌, ◌⊎◌, inl, inr, false, Option, none, some, List, [], ◌∷◌, arith, eq_iff,
  sym, subst, ◌∙◌,
}
use general_agent_framework.Outcome.{
  Outcome, returned, raised, key_error, repr_message, value_error,
}
use general_agent_framework.Review.{
  ReviewStatus, pending, approved, rejected, expired, HumanReviewTask, ReviewStore, get, replace,
  decide, is_pending, not_found, already, decided_task, decide_row,
}

pub get-replace_self :
    (t : HumanReviewTask) (rs : List HumanReviewTask) {r : HumanReviewTask}
    → get t.id rs ≡ some r
    → get t.id (replace t rs) ≡ some t
unfolding get replace
get-replace_self t [] e = cc
get-replace_self t (x ∷ rs) {r} e =
    ground (arith, eq_iff x.id t.id, eq_iff t.id t.id, get-replace_self t rs {r = r})

pub get-replace_ne :
    (t : HumanReviewTask) (j : String) (rs : List HumanReviewTask)
    → t.id ≢ j
    → get j (replace t rs) ≡ get j rs
unfolding get replace
get-replace_ne t j [] n = refl
get-replace_ne t j (x ∷ rs) n =
    ground (arith, eq_iff x.id t.id, eq_iff x.id j, eq_iff t.id j, get-replace_ne t j rs)

pub get-id :
    (k : String) (rs : List HumanReviewTask) (t : HumanReviewTask) → get k rs ≡ some t → t.id ≡ k
unfolding get
get-id k [] t e = cc
get-id k (x ∷ rs) t e = ground (arith, eq_iff x.id k, get-id k rs t)

-- The row carries the decision, and is else as it was.
abbrev pub IsDecided :
    HumanReviewTask → ReviewStatus → Option String → String → ℕ → HumanReviewTask → Type 0
IsDecided t status by note now t' =
    (t'.status ≡ status)
    × (t'.decided_by ≡ by)
    × (t'.decision_note ≡ note)
    × (t'.decided_at ≡ some now)
    × (t'.id ≡ t.id)
    × (t'.request_id ≡ t.request_id)
    × (t'.session_id ≡ t.session_id)
    × (t'.user_id ≡ t.user_id)
    × (t'.agent_id ≡ t.agent_id)
    × (t'.summary ≡ t.summary)
    × (t'.payload ≡ t.payload)
    × (t'.source_review_id ≡ t.source_review_id)
    × (t'.continuation_request_id ≡ t.continuation_request_id)
    × (t'.continuation_status ≡ t.continuation_status)
    × (t'.continuation_terminal_reason ≡ t.continuation_terminal_reason)
    × (t'.continuation_run_at ≡ t.continuation_run_at)

-- What a decision on the review found under the id does.
abbrev pub Decides :
    String
    → ReviewStatus
    → Option String
    → String
    → ℕ
    → ReviewStore
    → Option HumanReviewTask
    → Outcome HumanReviewTask × ReviewStore
    → Type 0
Decides id status by note now store none (o, store') =
    (o ≡ raised (record { class = key_error; text = repr_message (not_found id) }))
    × (store' ≡ store)
Decides id status by note now store (some t) (o, store') =
    ((t.status ≢ pending)
      × (o ≡ raised (record { class = value_error; text = already id t.status }))
      × (store' ≡ store))
    ⊎ ((t.status ≡ pending)
        × ((t' : HumanReviewTask) × (o ≡ returned t')
            × (get id store'.rows ≡ some t')
            × IsDecided t status by note now t')
        × ((j : String) → id ≢ j → get j store'.rows ≡ get j store.rows))

status-cases : (s : ReviewStatus) → (s ≡ pending) ⊎ ((s ≢ pending) × (is_pending s ≡ false))
status-cases pending = inl refl
status-cases approved = inr (λ h. cc, refl)
status-cases rejected = inr (λ h. cc, refl)
status-cases expired = inr (λ h. cc, refl)

decided_task-id :
    (t : HumanReviewTask) (status : ReviewStatus) (by : Option String) (note : String) (now : ℕ)
    → (decided_task t status by note now).id ≡ t.id
unfolding decided_task
decided_task-id t status by note now = refl

decided_task-IsDecided :
    (t : HumanReviewTask) (status : ReviewStatus) (by : Option String) (note : String) (now : ℕ)
    → IsDecided t status by note now (decided_task t status by note now)
unfolding decided_task
decided_task-IsDecided t status by note now =
    (refl, refl, refl, refl, refl, refl, refl, refl, refl, refl, refl, refl, refl, refl, refl, refl)

decide_row-Decides :
    (id : String) (status : ReviewStatus) (by : Option String) (note : String) (now : ℕ)
    (store : ReviewStore) (o : Option HumanReviewTask)
    → get id store.rows ≡ o
    → Decides id status by note now store o (decide_row id status by note now store o)
unfolding decide_row decided_task
decide_row-Decides id status by note now store none e = (refl, refl)
decide_row-Decides id status by note now store (some t) e = elim (status-cases t.status) [
  | inr (n, f) ↦ inl (n, rw f refl, rw f refl)
  | inl p ↦
      let t' = decided_task t status by note now in
      let done = decided_task-IsDecided t status by note now in
      let same : t'.id ≡ id = decided_task-id t status by note now ∙ get-id id store.rows t e in
      inr (
        p,
        (
          t',
          rw p refl,
          rw p (
              subst (λ k. get k store.rows ≡ some t → get k (replace t' store.rows) ≡ some t') same
                (get-replace_self t' store.rows) e),
          done,
        ),
        λ j n. rw p (get-replace_ne t' j store.rows (λ q. n (sym same ∙ q))),
      )
]

-- A decision on an unknown review raises `KeyError` and changes nothing; on a review that is not
-- pending it raises `ValueError` and changes nothing; on a pending review it returns the row with
-- the decision, its author, note and time, and else as it was, which is then found under the id, and
-- every other review is as it was.
pub decide-Decides :
    (id : String) (status : ReviewStatus) (by : Option String) (note : String) (now : ℕ)
    (store : ReviewStore)
    → Decides id status by note now store (get id store.rows) (decide id status by note now store)
unfolding decide
decide-Decides id status by note now store =
    decide_row-Decides id status by note now store (get id store.rows) refl
