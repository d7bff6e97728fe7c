-- ===== src/Submissions/Keys.antt =====
-- The keys of the ledger's rows, `task_id` and `request_id`, which are unique in
-- app/models/async_workflow_submission.py.
use general_agent_framework.Prelude.{
  String, ◌≡◌, refl, ◌∙◌, sym, subst, false, ◌||◌, none, some, [], ◌∷◌, All, is_some, All-imp,
  arith, str_eq, eq_iff, Bool-cases, inl, inr,
}
use text.Mathlib.TextPositions.{eq_refl}
use general_agent_framework.Prelude.Dict.{Dict, get}
use general_agent_framework.Submissions.{write}
use general_agent_framework.Submissions.Repository.{
  AsyncWorkflowSubmissionRecord, Table, get_by_task_id, get_by_request_id, add, modify,
}

-- the two keys of each row
abbrev pub keys : Table → Dict String
keys [] = []
keys (r ∷ rs) = (r.task_id, r.request_id) ∷ keys rs

-- No two rows share a task or a request.
abbrev pub Unique : Dict String → Type 0
Unique [] = Unit
Unique ((task_id, request_id) ∷ ks) =
    (get task_id ks ≡ none) × All (λ k. str_eq k.1 request_id ≡ false) ks × Unique ks

pub keys-modify :
    (task_id : String) (f : AsyncWorkflowSubmissionRecord → AsyncWorkflowSubmissionRecord)
    (table : Table)
    → ((r : AsyncWorkflowSubmissionRecord)
        → ((f r).task_id ≡ r.task_id) × ((f r).request_id ≡ r.request_id))
    → keys (modify task_id f table) ≡ keys table
unfolding modify
keys-modify task_id f [] same = refl
keys-modify task_id f (r ∷ rs) same = ground (arith, same r, keys-modify task_id f rs same)

-- a row that is written in the place of one with its keys
keys-modify_row :
    (y : AsyncWorkflowSubmissionRecord) (table : Table)
    → get y.task_id (keys table) ≡ some y.request_id
    → keys (modify y.task_id (λ x. y) table) ≡ keys table
unfolding modify get
keys-modify_row y [] at = refl
keys-modify_row y (r ∷ rs) at = ground (arith, eq_iff r.task_id y.task_id, keys-modify_row y rs)

pub keys-write :
    (ys table : Table)
    → All (λ y. get y.task_id (keys table) ≡ some y.request_id) ys
    → keys (write ys table) ≡ keys table
unfolding write
keys-write [] table at = refl
keys-write (y ∷ ys) table at =
    let e = keys-modify_row y table at.0 in
    keys-write ys (modify y.task_id (λ x. y) table)
      (subst (λ ks. All (λ y'. get y'.task_id ks ≡ some y'.request_id) ys) (sym e) at.1)
    ∙ e

pub keyed :
    (table : Table)
    → Unique (keys table)
    → All (λ y. get y.task_id (keys table) ≡ some y.request_id) table
unfolding get
keyed [] unique = tt
keyed (r ∷ rs) (fresh, apart, rest) = (
  rw (eq_refl r.task_id) refl,
  All-imp (λ y. get y.task_id (keys rs) ≡ some y.request_id) _ rs
      (λ y at. ground (arith, eq_iff r.task_id y.task_id)) (keyed rs rest),
)

get-keys :
    (task_id : String) (table : Table)
    → is_some (get_by_task_id task_id table) ≡ false
    → get task_id (keys table) ≡ none
unfolding get get_by_task_id
get-keys task_id [] h = refl
get-keys task_id (r ∷ rs) h = ground (arith, get-keys task_id rs)

apart-keys :
    (request_id : String) (table : Table)
    → is_some (get_by_request_id request_id table) ≡ false
    → All (λ k. str_eq k.1 request_id ≡ false) (keys table)
unfolding get_by_request_id
apart-keys request_id [] h = tt
apart-keys request_id (r ∷ rs) h = elim (Bool-cases (str_eq r.request_id request_id)) [
  | inl e ↦ absurd (ground arith)
  | inr e ↦ (e, apart-keys request_id rs (ground arith))
]

pub keys-add :
    (r : AsyncWorkflowSubmissionRecord) (table : Table)
    → Unique (keys table)
    → Unique (keys (add r table).1)
unfolding add
keys-add r table unique =
    elim (Bool-cases (
      is_some (get_by_task_id r.task_id table) || is_some (get_by_request_id r.request_id table))) [
        | inl e ↦ rw e unique
        | inr e ↦ rw e (
          get-keys r.task_id table (ground arith),
          apart-keys r.request_id table (ground arith),
          unique,
        )
      ]

-- A change that keeps the keys of the ledger.
abbrev pub Keeps : Table → Table → Type 0
Keeps table table' = keys table' ≡ keys table
