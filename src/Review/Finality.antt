-- ===== src/Review/Finality.antt =====
-- A decision is final: no later call changes it.
use general_agent_framework.Prelude.{
  ℕ, String, ◌+◌, ◌≡◌, refl, ◌≢◌, inl, inr, Option, none, some, List, [], ◌∷◌, ◌++◌, arith, eq_iff,
  str_eq, Bool-cases, sym, subst, ap, ◌∙◌,
}
use general_agent_framework.Outcome.{Outcome, returned, raised}
use general_agent_framework.Json.{Value}
use general_agent_framework.Orchestrator.State.{OrchestratorState}
use general_agent_framework.Review.Decisions.{
  get-replace_self, get-replace_ne, get-id, Decides, decide-Decides,
}
use general_agent_framework.Review.{
  ReviewStatus, pending, approved, rejected, HumanReviewTask, ReviewStore, get, replace, clashes,
  source_review_id, new_task, add_task, create_from_state, decide, approve, reject, continued_task,
  continue_row, record_continuation, add_sourced,
}

-- What may happen to the review table: a run asks for a review, somebody decides, or a continuation
-- is linked. Each event is a call with its arguments, whatever it returns or raises.
pub data Event : Type 0 where
  create : OrchestratorState → Event
  approve_by reject_by : String → Option String → String → ℕ → Event
  continue_with : String → OrchestratorState → ℕ → Event

unfoldable pub happen : (ℕ → String) → Event → ReviewStore → ReviewStore
happen uuid (create s) store = (create_from_state uuid s store).1
happen uuid (approve_by id by note now) store = (approve id by note now store).1
happen uuid (reject_by id by note now) store = (reject id by note now store).1
happen uuid (continue_with id result now) store = (record_continuation id result now store).1

unfoldable pub happen_all : (ℕ → String) → List Event → ReviewStore → ReviewStore
happen_all uuid [] store = store
happen_all uuid (e ∷ es) store = happen_all uuid es (happen uuid e store)

-- Two versions of a review carry the same decision.
abbrev pub SameDecision : HumanReviewTask → HumanReviewTask → Type 0
SameDecision t u =
    (u.status ≡ t.status)
    × (u.decided_by ≡ t.decided_by)
    × (u.decision_note ≡ t.decision_note)
    × (u.decided_at ≡ t.decided_at)
    × (u.payload ≡ t.payload)

-- The review found under the id is a version of `t`.
abbrev Keeps : String → HumanReviewTask → List HumanReviewTask → Type 0
Keeps k t rows = (u : HumanReviewTask) × (get k rows ≡ some u) × SameDecision t u

found-Keeps :
    (k : String) (t : HumanReviewTask) (rows : List HumanReviewTask)
    → get k rows ≡ some t
    → Keeps k t rows
found-Keeps k t rows e = (t, e, (refl, refl, refl, refl, refl))

get-append :
    (k : String) (rs : List HumanReviewTask) (x t : HumanReviewTask)
    → get k rs ≡ some t
    → get k (rs ++ x ∷ []) ≡ some t
unfolding get
get-append k [] x t e = cc
get-append k (r ∷ rs) x t e = ground (arith, get-append k rs x t)

add_task-Keeps :
    (k : String) (t new : HumanReviewTask) (store : ReviewStore)
    → get k store.rows ≡ some t
    → Keeps k t (add_task new store).1.rows
unfolding add_task
add_task-Keeps k t new store e = elim (Bool-cases (clashes new.id new.request_id store.rows)) [
  | inl c ↦ rw c (found-Keeps k t store.rows e)
  | inr c ↦ rw c (found-Keeps k t _ (get-append k store.rows new t e))
]

create-Keeps :
    (uuid : ℕ → String) (k : String) (t : HumanReviewTask) (s : OrchestratorState)
    (store : ReviewStore)
    → get k store.rows ≡ some t
    → Keeps k t (create_from_state uuid s store).1.rows
unfolding create_from_state
create-Keeps uuid k t s store e = go (source_review_id s.memory)
  where
    store' : ReviewStore
    store' = record store { ids = store.ids + 1 }

    go : (o : Outcome Value) → Keeps k t (add_sourced uuid s store.ids o store').1.rows
    go (raised x) = found-Keeps k t store.rows e
    go (returned source) = add_task-Keeps k t (new_task (uuid store.ids) s source) store' e

some_inj : {a b : HumanReviewTask} → some a ≡ some b → a ≡ b
some_inj e = cc

found_same :
    (id k : String) (rows : List HumanReviewTask) (t u : HumanReviewTask)
    → id ≡ k
    → get k rows ≡ some t
    → get id rows ≡ some u
    → t ≡ u
found_same id k rows t u q e f = some_inj (sym e ∙ ap (λ j. get j rows) (sym q) ∙ f)

decide-Keeps :
    (id : String) (status : ReviewStatus) (by : Option String) (note : String) (now : ℕ)
    (k : String) (t : HumanReviewTask) (store : ReviewStore)
    → get k store.rows ≡ some t
    → t.status ≢ pending
    → Keeps k t (decide id status by note now store).1.rows
decide-Keeps id status by note now k t store e n =
    let (o, store') = decide id status by note now store in
    go (get id store.rows) refl o store' (decide-Decides id status by note now store)
  where
    go :
        (found : Option HumanReviewTask)
        → get id store.rows ≡ found
        → (o : Outcome HumanReviewTask) (store' : ReviewStore)
        → Decides id status by note now store found (o, store')
        → Keeps k t store'.rows
    go none f o store' (_, same) = rw same (found-Keeps k t store.rows e)
    go (some u) f o store' (inl (_, _, same)) = rw same (found-Keeps k t store.rows e)
    go (some u) f o store' (inr (p, _, others)) = found-Keeps k t store'.rows (
        others k (λ q.
          n (ap (λ (x : HumanReviewTask). x.status) (found_same id k store.rows t u q e f) ∙ p))
        ∙ e)

continued_task-id :
    (u : HumanReviewTask) (result : OrchestratorState) (now : ℕ)
    → u.id ≡ (continued_task u result now).id
unfolding continued_task
continued_task-id u result now = refl

continued_task-SameDecision :
    (u : HumanReviewTask) (result : OrchestratorState) (now : ℕ)
    → SameDecision u (continued_task u result now)
unfolding continued_task
continued_task-SameDecision u result now = (refl, refl, refl, refl, refl)

continued-Keeps :
    (u : HumanReviewTask) (result : OrchestratorState) (now : ℕ) (k : String) (t : HumanReviewTask)
    (rows : List HumanReviewTask)
    → u.id ≡ k
    → get k rows ≡ some t
    → get k rows ≡ some u
    → Keeps k t (replace (continued_task u result now) rows)
continued-Keeps u result now k t rows q e f =
    let u' = continued_task u result now in
    let same : u'.id ≡ k = sym (continued_task-id u result now) ∙ q in
    (
      u',
      subst (λ j. get j (replace u' rows) ≡ some u') same
          (get-replace_self u' rows (subst (λ j. get j rows ≡ some u) (sym same) f)),
      subst (λ x. SameDecision x u') (sym (some_inj (sym e ∙ f)))
          (continued_task-SameDecision u result now),
    )

continue-Keeps :
    (id : String) (result : OrchestratorState) (now : ℕ) (k : String) (t : HumanReviewTask)
    (store : ReviewStore)
    → get k store.rows ≡ some t
    → Keeps k t (record_continuation id result now store).1.rows
unfolding record_continuation
continue-Keeps id result now k t store e = go (get id store.rows) refl
  where
    go :
        (found : Option HumanReviewTask)
        → get id store.rows ≡ found
        → Keeps k t (continue_row result now store found).1.rows
    go none f = found-Keeps k t store.rows e
    go (some u) f = elim (Bool-cases (str_eq u.id k)) [
      | inl q ↦
          (continued-Keeps u result now k t store.rows ((eq_iff u.id k).0 q) e (
            subst (λ j. get j store.rows ≡ some u)
              (sym (get-id id store.rows u f) ∙ (eq_iff u.id k).0 q) f))
      | inr q ↦ found-Keeps k t _ (
          get-replace_ne (continued_task u result now) k store.rows
            (λ h. cc ((eq_iff u.id k).1 (continued_task-id u result now ∙ h)))
          ∙ e)
    ]

happen-Keeps :
    (uuid : ℕ → String) (k : String) (t : HumanReviewTask) (e : Event) (store : ReviewStore)
    → get k store.rows ≡ some t
    → t.status ≢ pending
    → Keeps k t (happen uuid e store).rows
unfolding happen approve reject
happen-Keeps uuid k t (create s) store e n = create-Keeps uuid k t s store e
happen-Keeps uuid k t (approve_by id by note now) store e n =
    decide-Keeps id approved by note now k t store e n
happen-Keeps uuid k t (reject_by id by note now) store e n =
    decide-Keeps id rejected by note now k t store e n
happen-Keeps uuid k t (continue_with id result now) store e n =
    continue-Keeps id result now k t store e

-- Once a review is no longer pending, whatever reviews are asked for, decisions tried and
-- continuations linked later, it is still found under its id with the same status, author, note
-- and time of the decision and the same snapshot of the run.
pub happen_all-final :
    (uuid : ℕ → String) (k : String) (t : HumanReviewTask) (es : List Event) (store : ReviewStore)
    → get k store.rows ≡ some t
    → t.status ≢ pending
    → (u : HumanReviewTask) × (get k (happen_all uuid es store).rows ≡ some u) × SameDecision t u
unfolding happen_all
happen_all-final uuid k t [] store e n = found-Keeps k t store.rows e
happen_all-final uuid k t (x ∷ es) store e n =
    let (u, found, same) = happen-Keeps uuid k t x store e n in
    let (v, last, same') =
      happen_all-final uuid k u es (happen uuid x store) found (λ p. n (sym (same.0) ∙ p)) in
    (
      v,
      last,
      (same'.0 ∙ same.0, same'.1 ∙ same.1, same'.2 ∙ same.2, same'.3 ∙ same.3, same'.4 ∙ same.4),
    )
