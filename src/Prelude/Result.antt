-- ===== src/Prelude/Result.antt =====
-- Python exceptions as values: what is raised carries its class and its text.
use Prim.Native.String.{String}
use mathlib.Core.Path.{◌≡◌, refl}
use mathlib.Core.Bool.{Bool, true, false}

-- The exception classes that the program raises, catches or lets through.
pub data Kind : Type 0 where
  value_error json_decode_error unicode_decode_error permission_error attribute_error : Kind
  type_error integrity_error multiple_results_found timeout_error runtime_error : Kind
  git_command_error assertion_error file_not_found_error os_error database_error : Kind

pub record Exception : Type 0 where
  pub kind : Kind
  pub message : String

abbrev pub exception : Kind → String → Exception
exception k m = record { kind = k; message = m }

-- `except ValueError`: JSONDecodeError and UnicodeDecodeError are subclasses of ValueError.
abbrev pub is_value_error : Kind → Bool
is_value_error Kind.value_error = true
is_value_error Kind.json_decode_error = true
is_value_error Kind.unicode_decode_error = true
is_value_error _ = false

pub data Result {ℓ} (A : Type ℓ) : Type ℓ where
  ok : A → Result A
  err : Exception → Result A

abbrev pub raise {ℓ} : {A : Type ℓ} → Kind → String → Result A
raise k m = err (exception k m)

module _ {ℓ κ} {A : Type ℓ} {B : Type κ} where
  infixl 10 ◌>>=◌
  abbrev pub ◌>>=◌ : Result A → (A → Result B) → Result B
  err x >>= rest = err x
  ok value >>= rest = rest value

module _ {ℓ} {B : Type ℓ} where
  infixl 10 ◌>>◌
  abbrev pub ◌>>◌ : Result (Unit {0}) → Result B → Result B
  first >> second = first >>= λ _. second

pub bind_result {ℓ κ ρ} :
    {A : Type ℓ} {B : Type κ} {C : Type ρ} (m : Result A) (f : A → Result B) {b : B}
    → (m >>= f) ≡ ok b
    → ((a : A) → m ≡ ok a → f a ≡ ok b → C)
    → C
bind_result (ok a) f h k = k a refl h
bind_result (err e) f h k = cc
