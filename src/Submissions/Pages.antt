-- ===== src/Submissions/Pages.antt =====
-- A page of the ledger: `list_submissions` of app/services/async_workflow_submission_service.py and of
-- app/repositories/async_workflow_submission_repository.py.
use general_agent_framework.Prelude.{
  ℕ, String, ◌≤◌, ◌≡◌, refl, ◌∙◌, Bool, true, false, Option, none, some, [], ◌∷◌, drop, length, All,
  All-take, All-drop, All-imp, length-take, arith, eq_iff, Bool-cases, inl, inr,
}
use general_agent_framework.Submissions.{
  Backend, refresh_item, refresh_items, page, list_submissions,
}
use general_agent_framework.Submissions.Repository.{
  AsyncWorkflowSubmissionRecord, Table, Filters, matches, is_column, select,
}
use general_agent_framework.Submissions.Refresh.{refresh_item-SameKeys}

length-refresh_items :
    (backend : Backend) (rs : Table) → length (refresh_items backend rs).1 ≡ length rs
unfolding refresh_items
length-refresh_items backend [] = refl
length-refresh_items backend (r ∷ rs) = omega (arith, length-refresh_items backend rs)

-- What holds of a refreshed row holds of each row of a refreshed page.
pub All-refresh_items :
    (backend : Backend) (P Q : AsyncWorkflowSubmissionRecord → Type 0) (rs : Table)
    → ((r : AsyncWorkflowSubmissionRecord) → P r → Q (refresh_item backend r).1)
    → All P rs
    → All Q (refresh_items backend rs).1
unfolding refresh_items
All-refresh_items backend P Q [] step h = tt
All-refresh_items backend P Q (r ∷ rs) step h =
    (step r h.0, All-refresh_items backend P Q rs step h.1)

pub All-select :
    (P : AsyncWorkflowSubmissionRecord → Type 0) (f : Filters) (rs : Table)
    → All P rs
    → All (λ r. (matches f r ≡ true) × P r) (select f rs)
unfolding select
All-select P f [] h = tt
All-select P f (r ∷ rs) h = elim (Bool-cases (matches f r)) [
  | inl e ↦ rw e ((e, h.0), All-select P f rs h.1)
  | inr e ↦ rw e (All-select P f rs h.1)
]

pub All-page :
    (P : AsyncWorkflowSubmissionRecord → Type 0) (f : Filters) (limit offset : ℕ) (table : Table)
    → All P table
    → All (λ r. (matches f r ≡ true) × P r) (page f limit offset table)
unfolding page
All-page P f limit offset table h =
    All-take (λ r. (matches f r ≡ true) × P r) limit (drop offset (select f table))
      (All-drop (λ r. (matches f r ≡ true) × P r) offset (select f table) (All-select P f table h))

given_column :
    {id : String} (column : Option String) → is_column (some id) column ≡ true → column ≡ some id
given_column {id} none h = ground arith
given_column {id} (some v) h = ground (arith, eq_iff v id)

of_filter :
    (f : Filters) (r : AsyncWorkflowSubmissionRecord) (id : String)
    → f.user_id ≡ some id
    → matches f r ≡ true
    → r.user_id ≡ some id
of_filter f r id of_user h = given_column r.user_id (ground arith)

All-true : (rs : Table) → All (λ r. Unit {0}) rs
All-true [] = tt
All-true (r ∷ rs) = (tt, All-true rs)

length-page :
    (f : Filters) (limit offset : ℕ) (table : Table) → length (page f limit offset table) ≤ limit
unfolding page
length-page f limit offset table = omega (arith, length-take limit (drop offset (select f table)))

-- A listing has at most `limit` rows, and each is of the user that the filter names; with a refresh
-- or without one.
pub list_submissions-owned :
    (backend : Backend) (f : Filters) (limit offset : ℕ) (refresh : Bool) (table : Table)
    (id : String)
    → f.user_id ≡ some id
    → (length (list_submissions backend f limit offset refresh table).0.items ≤ limit)
      × All
          (λ r. r.user_id ≡ some id)
          (list_submissions backend f limit offset refresh table).0.items
unfolding list_submissions
list_submissions-owned backend f limit offset true table id of_user =
    let rows = All-page (λ r. Unit {0}) f limit offset table (All-true table) in
    (
      omega (
        arith,
        length-refresh_items backend (page f limit offset table),
        length-page f limit offset table,
      ),
      All-refresh_items backend (λ r. (matches f r ≡ true) × Unit {0}) (λ r. r.user_id ≡ some id)
          (page f limit offset table)
          (λ r h. (refresh_item-SameKeys backend r).2 ∙ of_filter f r id of_user h.0) rows,
    )
list_submissions-owned backend f limit offset false table id of_user = (
  length-page f limit offset table,
  All-imp (λ r. (matches f r ≡ true) × Unit {0}) (λ r. r.user_id ≡ some id)
      (page f limit offset table) (λ r h. of_filter f r id of_user h.0)
      (All-page (λ r. Unit {0}) f limit offset table (All-true table)),
)
