-- ===== src/Memory/Durable/Metadata.antt =====
-- The metadata of a merged memory: the part of `_merge_into` of app/services/memory_service.py that
-- builds `merged_meta`. Where a value that stands in place of a list does not allow what is done with it,
-- the exception is the one of Python.
use Prim.Native.String.{◌++◌ as append}
use Prim.Native.Char.{code}
use general_agent_framework.Prelude.{
  String, ◌+◌, Bool, true, false, ◌||◌, ◌&&◌, ◌==◌, none, some, str_eq, if◌then◌else◌,
}
use general_agent_framework.Json.{
  Value, Fields, Items, null, str, num, other_num, bool, arr, obj, nil, cons, end, field, find,
  assign, remove, snoc, texts,
}
use general_agent_framework.Json.Reading.{value_eq}
use general_agent_framework.Agents.{contains}
use general_agent_framework.Outcome.{Outcome, returned, raised, ◌>>=◌, type_error, attribute_error}
use general_agent_framework.Orchestrator.Base.{characters, names}
use general_agent_framework.Memory.Durable.{Wording}

-- `value in list`
unfoldable is_item : Value → Items → Bool
is_item v nil = false
is_item v (cons w ws) = value_eq v w || is_item v ws

-- whether a text starts with `p`, and whether it has `p` somewhere
starts_with : String → String → Bool
starts_with String.[] s = true
starts_with (String.◌∷◌ c p) String.[] = false
starts_with (String.◌∷◌ c p) (String.◌∷◌ d s) = code c == code d && starts_with p s

is_substring : String → String → Bool
unfolding starts_with
is_substring p String.[] = str_eq p ""
is_substring p (String.◌∷◌ c s) = starts_with p (String.◌∷◌ c s) || is_substring p s

no_method : Outcome Value
no_method = raised (record { class = attribute_error; text = "insert" })

no_membership : Outcome Value
no_membership = raised (record { class = type_error; text = "in" })

-- `if v not in xs: xs.insert(0, v)`. A text and a dict have a membership test, but no `insert`.
unfoldable pub inserted : Value → Value → Outcome Value
unfolding is_item is_substring names no_method no_membership
inserted v (arr xs) = returned (arr (if is_item v xs then xs else cons v xs))
inserted (str k) (str t) = if is_substring k t then returned (str t) else no_method
inserted v (str t) = no_membership
inserted (str k) (obj d) = if contains k (names d) then returned (obj d) else no_method
inserted (obj e) (obj d) = no_membership
inserted (arr xs) (obj d) = no_membership
inserted v (obj d) = no_method
inserted v xs = no_membership

-- `merged_meta.setdefault(name, [])`: what is there then
unfoldable pub default_list : String → Fields → Value
default_list name meta = elim (find name meta) [ none ↦ arr nil | some v ↦ v ]

-- a key of one request or session becomes the first of its list
unfoldable pub migrated : String → String → Fields → Outcome Fields
unfolding inserted default_list
migrated key name meta = elim (find key meta) [
  | none ↦ returned meta
  | some null ↦ returned (remove key meta)
  | some v ↦
      inserted v (default_list name meta) >>= λ xs. returned (assign name xs (remove key meta))
]

-- `list(v)`
unfoldable pub as_list : Value → Outcome Items
unfolding characters names
as_list (arr xs) = returned xs
as_list (str t) = returned (texts (characters t))
as_list (obj d) = returned (texts (names d))
as_list v = raised (record { class = type_error; text = "iterable" })

-- `seen`, with `v` at its end unless it is there; what was no list stays where `v` is in it
unfoldable pub with_seen : Value → Value → Outcome Value
unfolding is_item as_list
with_seen v old =
    as_list old >>= λ seen. returned (if is_item v seen then old else arr (snoc seen v))

-- one item of the new metadata
unfoldable pub with_item : String → Value → Fields → Outcome Fields
unfolding default_list with_seen
with_item key v meta =
    if str_eq key "request_id" || str_eq key "session_id"
    then (with_seen v (default_list (append key "s") meta) >>= λ xs.
        returned (assign (append key "s") xs meta))
    else returned (assign key v meta)

unfoldable pub with_items : Fields → Fields → Outcome Fields
unfolding with_item
with_items end meta = returned meta
with_items (field k v new) meta = with_item k v meta >>= λ meta'. with_items new meta'

-- `int(v) + 1`, where `int` of a text or of a number that is not natural is the library's
unfoldable pub incremented : Wording → Value → Outcome Value
incremented wording (num n) = returned (num (n + 1))
incremented wording (bool b) = returned (num (if b then 2 else 1))
incremented wording (str t) = wording.incremented (str t)
incremented wording (other_num t) = wording.incremented (other_num t)
incremented wording v = raised (record { class = type_error; text = "int" })

unfoldable pub counted : Wording → Fields → Outcome Fields
unfolding incremented
counted wording meta =
    incremented wording (elim (find "merge_count" meta) [ none ↦ num 0 | some v ↦ v ]) >>= λ n.
    returned (assign "merge_count" n meta)

unfoldable pub merged_meta : Wording → Fields → Value → Fields → Outcome Fields
unfolding migrated with_items counted
merged_meta wording new similarity meta = migrated "request_id" "request_ids" meta >>= λ a.
    migrated "session_id" "session_ids" a >>= λ b. with_items new b >>= λ c.
    counted wording c >>= λ d. returned (assign "last_merge_similarity" similarity d)
