-- ===== src/Memory/Durable/Recall.antt =====
-- What the queries of the memory table give, and what is recalled: app/repositories/memory_repository.py
-- and `_recall_for` of app/services/memory_service.py.
use general_agent_framework.Prelude.{
  ℕ, suc, String, ◌≡◌, refl, inl, inr, true, ◌&&◌, Option, none, some, List, [], ◌∷◌, str_eq, min,
  ◌++◌, length, drop, All, All-imp, All-take, All-drop, length-take, if◌then◌else◌, Bool-cases,
  arith, eq_iff,
}
use general_agent_framework.Orchestrator.Session.{given}
use general_agent_framework.Memory.Durable.{
  MemoryEntry, Settings, insert, ordered, is_column, where_, list_memories, recall_memories,
  recall_user, recall_for, ranks_before,
}

All-insert :
    (P : MemoryEntry → Type 0) (a : MemoryEntry) (as_ : List MemoryEntry)
    → P a
    → All P as_
    → All P (insert a as_)
unfolding insert
All-insert P a [] p h = (p, tt)
All-insert P a (b ∷ bs) p h = elim (Bool-cases (ranks_before a b)) [
  | inl e ↦ rw e (p, h)
  | inr e ↦ rw e (h.0, All-insert P a bs p h.1)
]

pub All-ordered :
    (P : MemoryEntry → Type 0) (as_ : List MemoryEntry) → All P as_ → All P (ordered as_)
unfolding ordered
All-ordered P [] h = tt
All-ordered P (a ∷ as_) h = All-insert P a (ordered as_) h.0 (All-ordered P as_ h.1)

-- a row that the conditions let through
abbrev pub Passes : Option String → Option String → Option String → MemoryEntry → Type 0
Passes scope scope_key memory_type a =
    (is_column scope a.scope ≡ true)
    × (is_column scope_key a.scope_key ≡ true)
    × (is_column memory_type a.memory_type ≡ true)

pub All-where :
    (P : MemoryEntry → Type 0) (scope scope_key memory_type : Option String)
    (as_ : List MemoryEntry)
    → All P as_
    → All (λ a. Passes scope scope_key memory_type a × P a) (where_ scope scope_key memory_type as_)
unfolding where_
All-where P scope scope_key memory_type [] h = tt
All-where P scope scope_key memory_type (a ∷ as_) h =
    elim (Bool-cases (
      is_column scope a.scope
      && is_column scope_key a.scope_key
      && is_column memory_type a.memory_type)) [
        | inl e ↦ rw e (
          ((ground arith, ground arith, ground arith), h.0),
          All-where P scope scope_key memory_type as_ h.1,
        )
        | inr e ↦ rw e (All-where P scope scope_key memory_type as_ h.1)
      ]

pub All-list_memories :
    (P : MemoryEntry → Type 0) (scope scope_key memory_type : Option String) (limit offset : ℕ)
    (table : List MemoryEntry)
    → All P table
    → All
        (λ a. Passes scope scope_key memory_type a × P a)
        (list_memories scope scope_key memory_type limit offset table)
unfolding list_memories
All-list_memories P scope scope_key memory_type limit offset table h =
    let Q : MemoryEntry → Type 0 = λ a. Passes scope scope_key memory_type a × P a in
    let rows = where_ scope scope_key memory_type table in
    All-take Q limit (drop offset (ordered rows)) (
      All-drop Q offset (ordered rows)
        (All-ordered Q rows (All-where P scope scope_key memory_type table h)))

pub All-true : (as_ : List MemoryEntry) → All (λ a. Unit {0}) as_
All-true [] = tt
All-true (a ∷ as_) = (tt, All-true as_)

-- Whose memory a row is.
abbrev pub Belongs : String → String → MemoryEntry → Type 0
Belongs scope key a = (a.scope ≡ scope) × (a.scope_key ≡ key)

recall_memories-Belongs :
    (scope key : String) (limit : ℕ) (table : List MemoryEntry)
    → All (Belongs scope key) (recall_memories scope key limit table)
unfolding recall_memories
recall_memories-Belongs scope key limit table =
    let rows = where_ (some scope) (some key) none table in
    All-take (Belongs scope key) limit (ordered rows) (
      All-ordered (Belongs scope key) rows (
        All-imp _ (Belongs scope key) rows
          (λ a h.
            (ground (arith, h, eq_iff a.scope scope), ground (arith, h, eq_iff a.scope_key key)))
          (All-where (λ a. Unit {0}) (some scope) (some key) none table (All-true table))))

-- The number of rows of the scope and the key.
unfoldable pub owned : String → String → List MemoryEntry → ℕ
owned scope key [] = 0
owned scope key (a ∷ as_) =
    let rest = owned scope key as_ in
    if str_eq a.scope scope && str_eq a.scope_key key then suc rest else rest

length-insert :
    (a : MemoryEntry) (as_ : List MemoryEntry) → length (insert a as_) ≡ suc (length as_)
unfolding insert
length-insert a [] = refl
length-insert a (b ∷ bs) = ground (arith, length-insert a bs)

length-ordered : (as_ : List MemoryEntry) → length (ordered as_) ≡ length as_
unfolding ordered
length-ordered [] = refl
length-ordered (a ∷ as_) = ground (arith, length-insert a (ordered as_), length-ordered as_)

length-where :
    (scope key : String) (as_ : List MemoryEntry)
    → length (where_ (some scope) (some key) none as_) ≡ owned scope key as_
unfolding where_ owned
length-where scope key [] = refl
length-where scope key (a ∷ as_) = ground (arith, length-where scope key as_)

-- A share of the table is of the rows of the scope and the key, and it has all of them, or `limit`.
abbrev pub IsShare : String → String → ℕ → List MemoryEntry → List MemoryEntry → Type 0
IsShare scope key limit table as_ =
    All (Belongs scope key) as_ × (length as_ ≡ min limit (owned scope key table))

recall_memories-IsShare :
    (scope key : String) (limit : ℕ) (table : List MemoryEntry)
    → IsShare scope key limit table (recall_memories scope key limit table)
unfolding recall_memories
recall_memories-IsShare scope key limit table =
    let rows = where_ (some scope) (some key) none table in
    (
      recall_memories-Belongs scope key limit table,
      omega (
        arith,
        length-take limit (ordered rows),
        length-ordered rows,
        length-where scope key table,
      ),
    )

-- What is recalled of a user: nothing, where there is none.
abbrev pub IsUserShare : Option String → ℕ → List MemoryEntry → List MemoryEntry → Type 0
IsUserShare none limit table as_ = as_ ≡ []
IsUserShare (some u) limit table as_ = IsShare "user" u limit table as_

recall_user-IsUserShare :
    (o : Option String) (limit : ℕ) (table : List MemoryEntry)
    → IsUserShare o limit table (recall_user o limit table)
unfolding recall_user
recall_user-IsUserShare none limit table = refl
recall_user-IsUserShare (some u) limit table = recall_memories-IsShare "user" u limit table

-- Shares of the three scopes, one after the other.
abbrev pub Recalled :
    Settings → Option String → String → List MemoryEntry → List MemoryEntry → Type 0
Recalled settings user_id project_key table as_ =
    (us : List MemoryEntry) × (ps : List MemoryEntry) × (gs : List MemoryEntry) × (as_
      ≡ us ++ ps ++ gs)
    × IsUserShare (given user_id) settings.recall_limit table us
    × IsShare "project" project_key settings.recall_limit table ps
    × IsShare "global" "global" settings.recall_limit table gs

-- The recall gives first the user's memories, if there is a user, then those of the project, then those
-- for everyone. Each of the three holds only rows of its scope and key, and as many as the table has of
-- them, but at most `recall_limit`.
pub recall_for-Recalled :
    (settings : Settings) (user_id : Option String) (project_key : String)
    (table : List MemoryEntry)
    → Recalled settings user_id project_key table (recall_for settings user_id project_key table)
unfolding recall_for
recall_for-Recalled settings user_id project_key table =
    let limit = settings.recall_limit in
    (
      recall_user (given user_id) limit table,
      recall_memories "project" project_key limit table,
      recall_memories "global" "global" limit table,
      refl,
      recall_user-IsUserShare (given user_id) limit table,
      recall_memories-IsShare "project" project_key limit table,
      recall_memories-IsShare "global" "global" limit table,
    )
