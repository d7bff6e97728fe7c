-- ===== src/Memory/Durable/Scopes.antt =====
-- What `add_memory` of app/services/memory_service.py keeps of the table, and what it returns.
use general_agent_framework.Prelude.{
  ℕ, String, ◌+◌, ◌≤◌, ◌≡◌, refl, true, false, Option, none, some, List, [], ◌∷◌, length, All,
  All-append, length-append, Bool-cases, inl, inr, arith, str_eq, eq_iff, if◌then◌else◌,
}
use general_agent_framework.Json.{Value, Fields}
use general_agent_framework.Outcome.{Outcome, returned, raised}
use general_agent_framework.Memory.Durable.{
  MemoryEntry, Wording, Settings, find_among, find_duplicate, list_memories, update_row,
}
use general_agent_framework.Memory.Durable.Metadata.{merged_meta}
use general_agent_framework.Memory.Durable.Merge.{
  NewMemory, merged_entry, Stored, write_merged, merge_into, is_scope, is_source, insert_row,
  add_unless, add_keyed, add_memory,
}
use general_agent_framework.Memory.Durable.Recall.{Passes, All-list_memories}

-- A row has a scope and a key, and a global one has the global key.
abbrev pub IsScoped : MemoryEntry → Type 0
IsScoped a =
    (is_scope a.scope ≡ true)
    × (str_eq a.scope_key "" ≡ false)
    × (str_eq a.scope "global" ≡ true → a.scope_key ≡ "global")

-- The row that a call returns is one for what was given.
abbrev pub Answers : NewMemory → MemoryEntry → Type 0
Answers new a =
    (a.memory_type ≡ new.memory_type) × (a.scope ≡ new.scope) × (new.importance ≤ a.importance)

-- The call stored something, or raised an exception and changed nothing.
abbrev pub Stores : NewMemory → List MemoryEntry → Stored → Type 0
Stores new table (raised e, table') = table' ≡ table
Stores new table (returned a, table') =
    All IsScoped table' × IsScoped a × Answers new a × (length table' ≤ length table + 1)

All-find_among :
    (P : MemoryEntry → Type 0) (wording : Wording) (target : String) (as_ : List MemoryEntry)
    (a : MemoryEntry) (ratio : Value)
    → All P as_
    → find_among wording target as_ ≡ some (a, ratio)
    → P a
unfolding find_among
All-find_among P wording target [] a ratio h e = ground arith
All-find_among P wording target (b ∷ bs) a ratio h e =
    ground (arith, h, All-find_among P wording target bs a ratio h.1)

All-update_row :
    (P : MemoryEntry → Type 0) (id : String) (b : MemoryEntry) (as_ : List MemoryEntry)
    → P b
    → All P as_
    → All P (update_row id (λ a. b) as_)
unfolding update_row
All-update_row P id b [] p h = tt
All-update_row P id b (a ∷ as_) p h = elim (Bool-cases (str_eq a.id id)) [
  | inl e ↦ rw e (p, h.1)
  | inr e ↦ rw e (h.0, All-update_row P id b as_ p h.1)
]

length-update_row :
    (id : String) (f : MemoryEntry → MemoryEntry) (as_ : List MemoryEntry)
    → length (update_row id f as_) ≡ length as_
unfolding update_row
length-update_row id f [] = refl
length-update_row id f (a ∷ as_) = ground (arith, length-update_row id f as_)

-- a row that passed the conditions of the search for a duplicate
abbrev Duplicates : NewMemory → MemoryEntry → Type 0
Duplicates new a =
    Passes (some new.scope) (some new.scope_key) (some new.memory_type) a × IsScoped a

write_merged-Stores :
    (a : MemoryEntry) (new : NewMemory) (o : Outcome Fields) (table : List MemoryEntry)
    → Duplicates new a
    → All IsScoped table
    → Stores new table (write_merged a new o table)
unfolding write_merged merged_entry
write_merged-Stores a new (raised e) table dup all = refl
write_merged-Stores a new (returned meta) table (passes, scoped) all = (
  All-update_row IsScoped a.id (merged_entry a new meta) table scoped all,
  scoped,
  (
    ground (arith, passes, eq_iff a.memory_type new.memory_type),
    ground (arith, passes, eq_iff a.scope new.scope),
    omega arith,
  ),
  omega (arith, length-update_row a.id (λ x. merged_entry a new meta) table),
)

abbrev IsKeyed : NewMemory → Type 0
IsKeyed new =
    (is_scope new.scope ≡ true)
    × (str_eq new.scope_key "" ≡ false)
    × (str_eq new.scope "global" ≡ true → new.scope_key ≡ "global")

add_unless-Stores :
    (wording : Wording) (id : String) (now : ℕ) (new : NewMemory) (o : Option (MemoryEntry × Value))
    (table : List MemoryEntry)
    → IsKeyed new
    → ((a : MemoryEntry) (ratio : Value) → o ≡ some (a, ratio) → Duplicates new a)
    → All IsScoped table
    → Stores new table (add_unless wording id now new o table)
unfolding add_unless insert_row merge_into
add_unless-Stores wording id now new none table keyed dup all = (
  All-append IsScoped table _ all (keyed, tt),
  keyed,
  (refl, refl, omega arith),
  omega (arith, length-append table (_ ∷ [])),
)
add_unless-Stores wording id now new (some (a, ratio)) table keyed dup all =
    write_merged-Stores a new (merged_meta wording new.metadata_payload ratio a.metadata_payload)
      table (dup a ratio refl) all

found-Duplicates :
    (settings : Settings) (wording : Wording) (new : NewMemory) (table : List MemoryEntry)
    (a : MemoryEntry) (ratio : Value)
    → All IsScoped table
    → (if settings.merge_duplicates
        then find_duplicate wording new.memory_type new.scope new.scope_key new.content table
        else none)
      ≡ some (a, ratio)
    → Duplicates new a
unfolding find_duplicate
found-Duplicates settings wording new table a ratio all e =
    let rows =
      list_memories (some new.scope) (some new.scope_key) (some new.memory_type) 200 0 table in
    let target = wording.normalize_content new.content in
    let found : find_among wording target rows ≡ some (a, ratio) = ground arith in
    All-find_among (Duplicates new) wording target rows a ratio
      (All-list_memories IsScoped (some new.scope) (some new.scope_key) (some new.memory_type) 200 0
        table all)
      found

add_keyed-Stores :
    (settings : Settings) (wording : Wording) (id : String) (now : ℕ) (new : NewMemory)
    (table : List MemoryEntry)
    → IsKeyed new
    → All IsScoped table
    → Stores new table (add_keyed settings wording id now new table)
unfolding add_keyed
add_keyed-Stores settings wording id now new table keyed all =
    add_unless-Stores wording id now new _ table keyed
      (λ a ratio e. found-Duplicates settings wording new table a ratio all e) all

rekeyed :
    (new : NewMemory) (key : String) (table : List MemoryEntry) (x : Stored)
    → Stores (record new { scope_key = key }) table x
    → Stores new table x
rekeyed new key table (raised e, t) h = h
rekeyed new key table (returned a, t) h = h

-- Whatever is given, `add_memory` either raises an exception and leaves the table alone, or returns a
-- row of the type and the scope given, with at least the importance given, adding at most one row to
-- the table; and each row has a scope and a key, the global ones the global key, where each had them
-- before.
pub add_memory-Stores :
    (settings : Settings) (wording : Wording) (id : String) (now : ℕ) (new : NewMemory)
    (table : List MemoryEntry)
    → All IsScoped table
    → Stores new table (add_memory settings wording id now new table)
unfolding add_memory
add_memory-Stores settings wording id now new table all = elim (Bool-cases (is_scope new.scope)) [
  | inr a ↦ rw a refl
  | inl a ↦ elim (Bool-cases (is_source new.source)) [
    | inr b ↦ rw (a, b) refl
    | inl b ↦ elim (Bool-cases (str_eq new.scope "global")) [
      | inl c ↦ everyone a b c
      | inr c ↦ elim (Bool-cases (str_eq new.scope_key "")) [
        | inl d ↦ rw (a, b, c, d) refl
        | inr d ↦
            rw (a, b, c, d)
              (add_keyed-Stores settings wording id now new table (a, d, λ e. ground arith) all)
      ]
    ]
  ]
]
  where
    everyone :
        is_scope new.scope ≡ true
        → is_source new.source ≡ true
        → str_eq new.scope "global" ≡ true
        → Stores new table (add_memory settings wording id now new table)
    everyone a b c =
        rw (a, b, c)
          (rekeyed new "global" table _ (
            add_keyed-Stores settings wording id now (record new { scope_key = "global" }) table
              (a, refl, λ e. refl) all))
