-- ===== src/Json.antt =====
-- The values of the program's `dict[str, Any]` fields, which all hold JSON: shared state, memory,
-- agent outputs and payloads. `deepcopy` of such a value is the value itself here, since values
-- are not shared.
pub mod Reading
pub mod Found
use general_agent_framework.Prelude.{
  ℕ, String, ◌≡◌, refl, Bool, Option, none, some, List, [], ◌∷◌, arith, str_eq, eq_iff,
  if◌then◌else◌,
}
use text.Mathlib.TextPositions.{eq_refl}

-- `num` is a natural number; any other number is kept as the text that Python prints for it.
mutual
  pub data Value : Type 0 where
    obj : Fields → Value
    arr : Items → Value
    str : String → Value
    num : ℕ → Value
    other_num : String → Value
    bool : Bool → Value
    null : Value

  pub data Fields : Type 0 where
    end : Fields
    field : String → Value → Fields → Fields

  pub data Items : Type 0 where
    nil : Items
    cons : Value → Items → Items

-- `d.get(k)`
unfoldable pub find : String → Fields → Option Value
find k end = none
find k (field j v d) = if str_eq j k then some v else find k d

-- `d[k] = v`, which keeps the place of a key that is there
unfoldable pub assign : String → Value → Fields → Fields
assign k v end = field k v end
assign k v (field j w d) = if str_eq j k then field j v d else field j w (assign k v d)

-- `d.pop(k, None)`, without the value
unfoldable pub remove : String → Fields → Fields
remove k end = end
remove k (field j w d) = if str_eq j k then d else field j w (remove k d)

-- `{**d, **e}` and `d.update(e)`
unfoldable pub update : Fields → Fields → Fields
unfolding assign
update d end = d
update d (field k v e) = update (assign k v d) e

-- `xs.append(v)`
unfoldable pub snoc : Items → Value → Items
snoc nil v = cons v nil
snoc (cons x xs) v = cons x (snoc xs v)

unfoldable pub items : List Value → Items
items [] = nil
items (x ∷ xs) = cons x (items xs)

unfoldable pub texts : List String → Items
texts [] = nil
texts (x ∷ xs) = cons (str x) (texts xs)

-- `x if isinstance(x, dict) else {}` of a `dict.get`
abbrev pub obj_or_empty : Option Value → Fields
obj_or_empty (some (obj d)) = d
obj_or_empty _ = end

-- `list(x) if isinstance(x, list) else []` of a `dict.get`
abbrev pub arr_or_empty : Option Value → Items
arr_or_empty (some (arr xs)) = xs
arr_or_empty _ = nil

-- an optional text, as JSON
abbrev pub text_or_null : Option String → Value
text_or_null none = null
text_or_null (some s) = str s

pub find-assign :
    (k j : String) (v : Value) (d : Fields)
    → find j (assign k v d) ≡ (if str_eq k j then some v else find j d)
unfolding find assign
find-assign k j v end = refl
find-assign k j v (field i w d) =
    ground (arith, eq_iff k j, eq_iff i k, eq_iff i j, find-assign k j v d)

pub find-assign_self : (k : String) (v : Value) (d : Fields) → find k (assign k v d) ≡ some v
find-assign_self k v d = simp (find-assign, eq_refl)
