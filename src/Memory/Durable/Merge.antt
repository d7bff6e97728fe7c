-- ===== src/Memory/Durable/Merge.antt =====
-- The merge of a duplicate, and `add_memory`, of app/services/memory_service.py. The table is what is
-- committed: a merge that raises leaves its changes of the row in the session, without a commit.
use Prim.Native.String.{◌++◌ as append}
use general_agent_framework.Prelude.{
  ℕ, String, Bool, not, ◌||◌, Option, none, some, List, [], ◌∷◌, ◌++◌, max, ltb, count, str_eq,
  if◌then◌else◌,
}
use general_agent_framework.Json.{Value, Fields}
use general_agent_framework.Outcome.{Outcome, returned, raised, value_error}
use general_agent_framework.Orchestrator.Base.{distinct}
use general_agent_framework.Memory.Durable.Metadata.{merged_meta}
use general_agent_framework.Memory.Durable.{
  MemoryEntry, Wording, Settings, find_duplicate, update_row,
}

-- what a caller of `add_memory` gives
pub record NewMemory : Type 0 where
  pub memory_type : String
  pub content : String
  pub scope : String
  pub scope_key : String
  pub source : String
  pub importance : ℕ
  pub tags : List String
  pub metadata_payload : Fields

unfoldable pub merged_entry : MemoryEntry → NewMemory → Fields → MemoryEntry
merged_entry e new meta = record e {
  content = if ltb (count e.content) (count new.content) then new.content else e.content;
  importance = max e.importance new.importance;
  tags = distinct [] (e.tags ++ new.tags);
  metadata_payload = meta;
}

-- the rows of a call that may raise, and its result
abbrev pub Stored : Type 0
Stored = Outcome MemoryEntry × List MemoryEntry

-- `_merge_into`
unfoldable pub write_merged : MemoryEntry → NewMemory → Outcome Fields → List MemoryEntry → Stored
unfolding merged_entry
write_merged e new (raised x) table = (raised x, table)
write_merged e new (returned meta) table =
    (returned (merged_entry e new meta), update_row e.id (λ a. merged_entry e new meta) table)

unfoldable pub merge_into : Wording → MemoryEntry → NewMemory → Value → List MemoryEntry → Stored
unfolding write_merged merged_meta
merge_into wording e new similarity table =
    write_merged e new (merged_meta wording new.metadata_payload similarity e.metadata_payload)
      table

abbrev pub is_scope : String → Bool
is_scope s = str_eq s "user" || str_eq s "project" || str_eq s "global"

abbrev pub is_source : String → Bool
is_source s = str_eq s "user" || str_eq s "llm" || str_eq s "manual"

bad_scope : String → String
bad_scope s =
    append "Invalid memory scope '" (append s "'; expected one of ['user', 'project', 'global'].")

bad_source : String → String
bad_source s =
    append "Invalid memory source '" (append s "'; expected one of ['user', 'llm', 'manual'].")

unfoldable pub insert_row : String → ℕ → NewMemory → List MemoryEntry → Stored
insert_row id now new table =
    let e : MemoryEntry = record {
      id = id;
      memory_type = new.memory_type;
      scope = new.scope;
      scope_key = new.scope_key;
      content = new.content;
      source = new.source;
      importance = new.importance;
      tags = new.tags;
      metadata_payload = new.metadata_payload;
      created_at = now;
    } in
    (returned e, table ++ e ∷ [])

unfoldable pub add_unless :
    Wording → String → ℕ → NewMemory → Option (MemoryEntry × Value) → List MemoryEntry → Stored
unfolding merge_into insert_row
add_unless wording id now new none table = insert_row id now new table
add_unless wording id now new (some (e, similarity)) table =
    merge_into wording e new similarity table

-- once scope and source are valid, and the key of a global memory is set
unfoldable pub add_keyed : Settings → Wording → String → ℕ → NewMemory → List MemoryEntry → Stored
unfolding add_unless
add_keyed settings wording id now new table =
    add_unless wording id now new
      (if settings.merge_duplicates
        then find_duplicate wording new.memory_type new.scope new.scope_key new.content table
        else none)
      table

-- `add_memory`, with the id of `uuid4` and the time
unfoldable pub add_memory : Settings → Wording → String → ℕ → NewMemory → List MemoryEntry → Stored
unfolding add_keyed bad_scope bad_source
add_memory settings wording id now new table =
    if not (is_scope new.scope)
    then (raised (record { class = value_error; text = bad_scope new.scope }), table)
    else if not (is_source new.source)
    then (raised (record { class = value_error; text = bad_source new.source }), table)
    else if str_eq new.scope "global"
    then add_keyed settings wording id now (record new { scope_key = "global" }) table
    else if str_eq new.scope_key ""
    then (
      raised (record {
        class = value_error;
        text = "scope_key is required for user/project memories.";
      }),
      table,
    )
    else add_keyed settings wording id now new table
