-- ===== src/Memory/Durable.antt =====
-- The durable memories: `add_memory` with its merge, the edits, and the recall, of
-- app/services/memory_service.py over app/repositories/memory_repository.py and
-- app/models/memory_entry.py. The table is the list of its rows; a time is a number, and rows that a
-- query orders alike come in the order of the table. `unicodedata`, `re` and `difflib` enter through
-- `Wording`.
pub mod Merge
pub mod Metadata
pub mod Recall
pub mod Scopes
mod Samples
use general_agent_framework.Prelude.{
  ℕ, String, ◌+◌, Bool, true, false, not, ◌&&◌, ◌||◌, Option, none, some, List, [], ◌∷◌, ◌++◌, ◌==◌,
  max, ltb, leb, length, take, drop, count, str_eq, if◌then◌else◌,
}
use general_agent_framework.Outcome.{Outcome}
use general_agent_framework.Json.{
  Value, Fields, Items, null, num, str, arr, nil, cons, end, field, find, assign, remove, snoc,
}
use general_agent_framework.Json.Reading.{value_eq}
use general_agent_framework.Outcome.{Outcome, returned, raised, ◌>>=◌, value_error, type_error}
use general_agent_framework.Orchestrator.Base.{distinct}
use general_agent_framework.Orchestrator.Session.{given}

pub record MemoryEntry : Type 0 where
  pub id : String
  pub memory_type : String
  pub scope : String
  pub scope_key : String
  pub content : String
  pub source : String
  pub importance : ℕ
  pub tags : List String
  pub metadata_payload : Fields
  pub created_at : ℕ

-- The key that `_normalize_content` makes of a text, and the similarity of two keys where it reaches
-- the threshold of the settings; and `int(v) + 1` of a text or of a number that is not natural.
pub record Wording : Type 0 where
  pub normalize_content : String → String
  pub similarity : String → String → Option Value
  pub incremented : Value → Outcome Value

-- the settings
pub record Settings : Type 0 where
  pub merge_duplicates : Bool
  pub recall_limit : ℕ

-- `ORDER BY importance DESC, created_at DESC`
abbrev pub ranks_before : MemoryEntry → MemoryEntry → Bool
ranks_before a b =
    ltb b.importance a.importance || a.importance == b.importance && leb b.created_at a.created_at

unfoldable pub insert : MemoryEntry → List MemoryEntry → List MemoryEntry
insert a [] = a ∷ []
insert a (b ∷ bs) = let rest = insert a bs in if ranks_before a b then a ∷ b ∷ bs else b ∷ rest

unfoldable pub ordered : List MemoryEntry → List MemoryEntry
unfolding insert
ordered [] = []
ordered (a ∷ as_) = insert a (ordered as_)

abbrev pub is_column : Option String → String → Bool
is_column none column = true
is_column (some v) column = str_eq column v

-- `WHERE`, by the scope, its key and the type
unfoldable pub where_ :
    Option String → Option String → Option String → List MemoryEntry → List MemoryEntry
where_ scope scope_key memory_type [] = []
where_ scope scope_key memory_type (a ∷ as_) =
    let rest = where_ scope scope_key memory_type as_ in
    if is_column scope a.scope
      && is_column scope_key a.scope_key
      && is_column memory_type a.memory_type
    then a ∷ rest
    else rest

-- `list_memories` of the repository, without the total
unfoldable pub list_memories :
    Option String → Option String → Option String → ℕ → ℕ → List MemoryEntry → List MemoryEntry
unfolding where_ ordered
list_memories scope scope_key memory_type limit offset table =
    take limit (drop offset (ordered (where_ scope scope_key memory_type table)))

-- `recall_memories` of the repository, of any type
unfoldable pub recall_memories : String → String → ℕ → List MemoryEntry → List MemoryEntry
unfolding where_ ordered
recall_memories scope scope_key limit table =
    take limit (ordered (where_ (some scope) (some scope_key) none table))

unfoldable pub recall_user : Option String → ℕ → List MemoryEntry → List MemoryEntry
unfolding recall_memories
recall_user none limit table = []
recall_user (some user_id) limit table = recall_memories "user" user_id limit table

-- `_recall_for`
unfoldable pub recall_for : Settings → Option String → String → List MemoryEntry → List MemoryEntry
unfolding recall_user recall_memories
recall_for settings user_id project_key table =
    recall_user (given user_id) settings.recall_limit table
    ++ recall_memories "project" project_key settings.recall_limit table
    ++ recall_memories "global" "global" settings.recall_limit table

-- the repository's `update_memory`, on the row of the id
unfoldable pub update_row :
    String → (MemoryEntry → MemoryEntry) → List MemoryEntry → List MemoryEntry
update_row id f [] = []
update_row id f (a ∷ as_) = if str_eq a.id id then f a ∷ as_ else a ∷ update_row id f as_

-- `delete_memory`
unfoldable pub delete_memory : String → List MemoryEntry → List MemoryEntry
delete_memory id [] = []
delete_memory id (a ∷ as_) =
    let rest = delete_memory id as_ in if str_eq a.id id then rest else a ∷ rest

-- the loop of `_find_duplicate` over the candidates
unfoldable pub find_among : Wording → String → List MemoryEntry → Option (MemoryEntry × Value)
find_among wording target [] = none
find_among wording target (a ∷ as_) =
    let key = wording.normalize_content a.content in
    let rest = find_among wording target as_ in
    if str_eq key ""
    then rest
    else if str_eq key target
    then some (a, Value.other_num "1.0")
    else elim (wording.similarity key target) [ some ratio ↦ some (a, ratio) | none ↦ rest ]

-- `_find_duplicate`
unfoldable pub find_duplicate :
    Wording → String → String → String → String → List MemoryEntry → Option (MemoryEntry × Value)
unfolding find_among
find_duplicate wording memory_type scope scope_key content table =
    if str_eq (wording.normalize_content content) ""
    then none
    else find_among wording (wording.normalize_content content)
        (list_memories (some scope) (some scope_key) (some memory_type) 200 0 table)
