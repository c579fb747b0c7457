-- ===== src/Prelude/Maybe.antt =====
-- Chains of early `return None`: the monad of Option.
use mathlib.Core.Path.{◌≡◌, refl}
use mathlib.Core.Bool.{Bool, true, false}
use mathlib.Core.Option.{Option, none, some}

module _ {ℓ κ} {A : Type ℓ} {B : Type κ} where
  infixl 10 ◌>>=◌
  abbrev pub ◌>>=◌ : Option A → (A → Option B) → Option B
  none >>= rest = none
  some value >>= rest = rest value

module _ {ℓ} {B : Type ℓ} where
  infixl 10 ◌>>◌
  abbrev pub ◌>>◌ : Option (Unit {0}) → Option B → Option B
  first >> second = first >>= λ _. second

-- `if not test: return None`
abbrev pub guard : Bool → Option (Unit {0})
guard true = some tt
guard false = none

pub guard-eq-some : (b : Bool) {u : Unit {0}} → guard b ≡ some u → b ≡ true
guard-eq-some true h = refl
guard-eq-some false h = cc

-- The same with the value bound by a function, which keeps a long chain of such steps small.
pub bind_some {ℓ κ ρ} :
    {A : Type ℓ} {B : Type κ} {C : Type ρ} (m : Option A) (f : A → Option B) {b : B}
    → (m >>= f) ≡ some b
    → ((a : A) → m ≡ some a → f a ≡ some b → C)
    → C
bind_some none f h k = cc
bind_some (some a) f h k = k a refl h
