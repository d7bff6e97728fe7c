-- ===== src/Json/Reading.antt =====
-- Reading of JSON values as the program does: Python's truth and equality of a value, and the fields
-- of a model that pydantic builds. Pydantic's conversions of a value of another type are left out: it
-- raises here.
use general_agent_framework.Prelude.{
  ℕ, zero, suc, String, ◌+◌, Bool, true, false, not, ◌&&◌, ◌||◌, Option, none, some, List, [], ◌∷◌,
  ◌==◌, str_eq, if◌then◌else◌,
}
use general_agent_framework.Json.{
  Value, Fields, Items, obj, arr, str, num, other_num, bool, null, end, field, nil, cons, find,
}
use general_agent_framework.Outcome.{Outcome, returned, raised, ◌>>=◌, validation_error}

-- `bool(v)`
unfoldable pub truthy : Value → Bool
truthy (obj end) = false
truthy (obj (field k v d)) = true
truthy (arr nil) = false
truthy (arr (cons v xs)) = true
truthy (str s) = not (str_eq s "")
truthy (num zero) = false
truthy (num (suc n)) = true
truthy (other_num t) = not (str_eq t "0.0" || str_eq t "-0.0")
truthy (bool b) = b
truthy null = false

unfoldable size : Fields → ℕ
size end = 0
size (field k v d) = size d + 1

-- `v == w`: dicts regardless of the order of their keys. A number that is not natural is compared by
-- its text, so that `1.0 == 1` is left out.
unfoldable mutual
  unfolding size

  pub value_eq : Value → Value → Bool
  value_eq (obj d) (obj e) = size d == size e && is_within d e
  value_eq (arr xs) (arr ys) = items_eq xs ys
  value_eq (str s) (str t) = str_eq s t
  value_eq (num n) (num m) = n == m
  value_eq (num n) (bool b) = n == (if b then 1 else 0)
  value_eq (bool b) (num m) = (if b then 1 else 0) == m
  value_eq (other_num s) (other_num t) = str_eq s t
  value_eq (bool true) (bool b) = b
  value_eq (bool false) (bool b) = not b
  value_eq null null = true
  value_eq v w = false

  pub items_eq : Items → Items → Bool
  items_eq nil nil = true
  items_eq (cons x xs) (cons y ys) = value_eq x y && items_eq xs ys
  items_eq xs ys = false

  pub is_within : Fields → Fields → Bool
  is_within end e = true
  is_within (field k v d) e =
      elim (find k e) [ none ↦ false | some w ↦ value_eq v w ] && is_within d e

invalid : {A : Type 0} → String → Outcome A
invalid name = raised (record { class = validation_error; text = name })

-- a field `str`
unfoldable pub text_field : String → Value → Outcome String
unfolding invalid
text_field name (str s) = returned s
text_field name v = invalid name

-- a field `str | None`, of `d.get(name)`
unfoldable pub optional_text : String → Fields → Outcome (Option String)
unfolding invalid
optional_text name d = elim (find name d) [
  | none ↦ returned none
  | some null ↦ returned none
  | some (str s) ↦ returned (some s)
  | some v ↦ invalid name
]

dict_value : String → Value → Outcome Fields
unfolding invalid
dict_value name (obj d) = returned d
dict_value name v = invalid name

-- a field `dict[str, Any]`, of `d.get(name) or {}`
unfoldable pub dict_or_empty : String → Fields → Outcome Fields
unfolding dict_value truthy
dict_or_empty name d = elim (find name d) [
  | none ↦ returned end
  | some v ↦ if truthy v then dict_value name v else returned end
]

unfoldable pub texts_value : String → Items → Outcome (List String)
unfolding text_field
texts_value name nil = returned []
texts_value name (cons v xs) =
    text_field name v >>= λ s. texts_value name xs >>= λ ss. returned (s ∷ ss)

list_value : String → Value → Outcome (List String)
unfolding texts_value invalid
list_value name (arr xs) = texts_value name xs
list_value name v = invalid name

-- a field `list[str]`, of `d.get(name) or []`
unfoldable pub texts_or_empty : String → Fields → Outcome (List String)
unfolding list_value truthy
texts_or_empty name d = elim (find name d) [
  | none ↦ returned []
  | some v ↦ if truthy v then list_value name v else returned []
]

number_value : String → Value → Outcome ℕ
unfolding invalid
number_value name (num n) = returned n
number_value name v = invalid name

-- a field `int`, of `d.get(name) or default`
unfoldable pub number_or : ℕ → String → Fields → Outcome ℕ
unfolding number_value truthy
number_or default name d = elim (find name d) [
  | none ↦ returned default
  | some v ↦ if truthy v then number_value name v else returned default
]

-- an optional model, of `d.get(name)`, kept as its JSON
unfoldable pub optional_value : String → Fields → Option Value
optional_value name d = elim (find name d) [ none ↦ none | some null ↦ none | some v ↦ some v ]
