-- ===== src/Memory/Durable/Samples.antt =====
-- A table of two memories. The module holds the tests and the examples of the theorems on the durable
-- memories.
use general_agent_framework.Prelude.{
  ℕ, String, ◌≡◌, refl, true, none, some, List, [], ◌∷◌, map, arith,
}
use general_agent_framework.Json.{end}
use general_agent_framework.Outcome.{returned}
use general_agent_framework.Memory.Durable.{MemoryEntry, Wording, Settings, recall_for}
use general_agent_framework.Memory.Durable.Merge.{NewMemory, add_memory}
use general_agent_framework.Memory.Durable.Recall.{Recalled, recall_for-Recalled}
use general_agent_framework.Memory.Durable.Scopes.{Stores, add_memory-Stores}

abbrev settings : Settings
settings = record { merge_duplicates = true; recall_limit = 2 }

abbrev wording : Wording
wording = record {
  normalize_content = λ s. s;
  similarity = λ a b. none;
  incremented = λ v. returned v;
}

abbrev entry : String → String → String → ℕ → MemoryEntry
entry id scope key importance = record {
  id = id;
  memory_type = "fact";
  scope = scope;
  scope_key = key;
  content = id;
  source = "manual";
  importance = importance;
  tags = [];
  metadata_payload = end;
  created_at = 1;
}

abbrev table : List MemoryEntry
table =
    entry "likes tea" "user" "user-1" 3
    ∷ entry "likes coffee" "user" "user-2" 5
    ∷ entry "be brief" "global" "global" 1
    ∷ entry "deploys on Friday" "project" "default" 4
    ∷ []

recalled :
    map (λ a. a.id) (recall_for settings (some "user-1") "default" table)
    ≡ "likes tea" ∷ "deploys on Friday" ∷ "be brief" ∷ []
unfolding recall_for
recalled = refl

recall_for-Recalled_example :
    Recalled settings
      (some "user-1")
      "default"
      table
      (recall_for settings (some "user-1") "default" table)
recall_for-Recalled_example = recall_for-Recalled settings (some "user-1") "default" table

abbrev new : NewMemory
new = record {
  memory_type = "fact";
  content = "be brief";
  scope = "global";
  scope_key = "";
  source = "llm";
  importance = 4;
  tags = "style" ∷ [];
  metadata_payload = end;
}

add_memory-Stores_example : Stores new table (add_memory settings wording "memory-9" 2 new table)
add_memory-Stores_example = add_memory-Stores settings wording "memory-9" 2 new table (
  (refl, refl, λ e. ground arith),
  (
    (refl, refl, λ e. ground arith),
    ((refl, refl, λ e. refl), ((refl, refl, λ e. ground arith), tt)),
  ),
)
