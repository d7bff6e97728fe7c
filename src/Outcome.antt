-- ===== src/Outcome.antt =====
-- Exceptions as values. A call returns, or raises an exception that the caller may handle. Only
-- subclasses of Python's `Exception` are modelled: a cancellation passes every handler anyway.
use Prim.Native.String.{◌++◌ as append}
use general_agent_framework.Prelude.{String, Bool, true, false, ◌≡◌, refl, ◌⊎◌, inl, inr}

-- The classes that a handler of the program tells apart; `timeout_subclass` names a subclass of
-- `TimeoutError`, and `other` any other class. A subclass of another class of them is not told apart.
pub data ExceptionClass : Type 0 where
  key_error value_error type_error attribute_error timeout_error validation_error : ExceptionClass
  timeout_subclass other : String → ExceptionClass

-- `text` is what `str` gives.
pub record Exception : Type 0 where
  pub class : ExceptionClass
  pub text : String

pub data Outcome {ℓ} (A : Type ℓ) : Type ℓ where
  returned : A → Outcome A
  raised : Exception → Outcome A

-- `str` of a `KeyError` is the `repr` of its argument. The program's messages hold an apostrophe, so
-- that double quotes enclose them, and the bare keys hold none; the escapes of a double quote, a
-- backslash or an unprintable character are left out.
abbrev pub repr_message : String → String
repr_message message = append "\"" (append message "\"")

abbrev pub repr_key : String → String
repr_key key = append "'" (append key "'")

-- `type(exc).__name__`
pub class_name : ExceptionClass → String
class_name key_error = "KeyError"
class_name value_error = "ValueError"
class_name type_error = "TypeError"
class_name attribute_error = "AttributeError"
class_name timeout_error = "TimeoutError"
class_name validation_error = "ValidationError"
class_name (timeout_subclass n) = n
class_name (other n) = n

-- `except TimeoutError`
abbrev pub is_timeout : ExceptionClass → Bool
is_timeout timeout_error = true
is_timeout (timeout_subclass n) = true
is_timeout _ = false

module _ {ℓ κ} {A : Type ℓ} {B : Type κ} where
  infixl 5 ◌>>=◌
  abbrev pub ◌>>=◌ : Outcome A → (A → Outcome B) → Outcome B
  returned a >>= f = f a
  raised e >>= f = raised e

pub Outcome-cases {ℓ} :
    {A : Type ℓ} (o : Outcome A) → ((e : Exception) × (o ≡ raised e)) ⊎ ((a : A) × (o ≡ returned a))
Outcome-cases (returned a) = inr (a, refl)
Outcome-cases (raised e) = inl (e, refl)
