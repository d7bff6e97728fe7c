-- ===== src/Json/Found.antt =====
-- What the readings of a field give where the field is there.
use general_agent_framework.Prelude.{
  ℕ, zero, suc, String, ◌≤◌, ◌≡◌, refl, Option, none, some, List, [], ◌∷◌, arith,
}
use general_agent_framework.Json.{Fields, num, arr, obj, end, field, find, texts, text_or_null}
use general_agent_framework.Json.Reading.{
  truthy, text_field, optional_text, dict_or_empty, texts_value, texts_or_empty, number_or,
}
use general_agent_framework.Outcome.{returned}

texts_value-texts : (name : String) (ss : List String) → texts_value name (texts ss) ≡ returned ss
unfolding texts_value texts text_field
texts_value-texts name [] = refl
texts_value-texts name (s ∷ ss) = rw (texts_value-texts name ss) refl

module _ (name : String) (d : Fields) where
  pub optional_text-some :
      (o : Option String) → find name d ≡ some (text_or_null o) → optional_text name d ≡ returned o
  unfolding optional_text
  optional_text-some none e = ground arith
  optional_text-some (some s) e = ground arith

  pub dict_or_empty-some :
      (f : Fields) → find name d ≡ some (obj f) → dict_or_empty name d ≡ returned f
  unfolding dict_or_empty truthy
  dict_or_empty-some end e = ground arith
  dict_or_empty-some (field k v f) e = ground arith

  pub texts_or_empty-some :
      (ss : List String) → find name d ≡ some (arr (texts ss)) → texts_or_empty name d ≡ returned ss
  unfolding texts_or_empty truthy texts
  texts_or_empty-some [] e = ground arith
  texts_or_empty-some (s ∷ ss) e = ground (arith, texts_value-texts name (s ∷ ss))

  pub number_or-some :
      (default n : ℕ) → 1 ≤ n → find name d ≡ some (num n) → number_or default name d ≡ returned n
  unfolding number_or truthy
  number_or-some default zero pos e = absurd (omega arith)
  number_or-some default (suc n) pos e = ground arith
