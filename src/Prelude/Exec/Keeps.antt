-- ===== src/Prelude/Exec/Keeps.antt =====
-- Methods that keep a predicate of the state, however they end.
use mathlib.Core.Path.{◌≡◌, subst}
use mathlib.Core.Bool.{Bool, true, false}
use partha_prime_agent.Prelude.Result.{Result, ok, err, Exception}
use partha_prime_agent.Prelude.Tests.{if◌then◌else◌}
use partha_prime_agent.Prelude.Exec.{Exec, pure, lift, ◌>>=◌, bind_cases, try, recover}

pub record Keeps {ℓ κ ρ} {S : Type ℓ} {A : Type κ} (I : S → Type ρ) (m : Exec S A)
    : Type (ℓ ⊔ ρ) where
  pub apply : (s : S) → I s → I (m s).1

module _ {ℓ κ ρ σ} {S : Type ℓ} {A : Type κ} {B : Type σ} (I : S → Type ρ) where
  -- The rest may use that the first step returned.
  pub Keeps-bind_ok :
      (m : Exec S A) (f : A → Exec S B)
      → Keeps I m
      → ((a : A) (s u : S) → m s ≡ (ok a, u) → Keeps I (f a))
      → Keeps I (m >>= f)
  Keeps-bind_ok m f first rest = record {
    apply = λ s h.
        bind_cases (λ o. I o.1) m f s
          (λ a u e.
            (rest a s u e).apply u (subst (λ (o : Result A × S). I o.1) e (first.apply s h)))
          (λ x u e. subst (λ (o : Result A × S). I o.1) e (first.apply s h));
  }

  pub Keeps-bind :
      (m : Exec S A) (f : A → Exec S B) → Keeps I m → ((a : A) → Keeps I (f a)) → Keeps I (m >>= f)
  Keeps-bind m f first rest = Keeps-bind_ok m f first (λ a s u e. rest a)

module _ {ℓ κ ρ} {S : Type ℓ} {A : Type κ} (I : S → Type ρ) where
  pub Keeps-pure : (a : A) → Keeps I (pure {S = S} a)
  Keeps-pure a = record { apply = λ s i. i }

  pub Keeps-lift : (r : Result A) → Keeps I (lift {S = S} r)
  Keeps-lift r = record { apply = λ s i. i }

  pub Keeps-if : (b : Bool) (m k : Exec S A) → Keeps I m → Keeps I k → Keeps I (if b then m else k)
  Keeps-if true m k x y = x
  Keeps-if false m k x y = y

  Keeps-recover :
      (r : Result A) (handler : Exception → Exec S A)
      → ((x : Exception) → Keeps I (handler x))
      → Keeps I (recover r handler)
  Keeps-recover (ok a) handler h = record { apply = λ s i. i }
  Keeps-recover (err x) handler h = record { apply = (h x).apply }

  pub Keeps-try :
      (m : Exec S A) (handler : Exception → Exec S A)
      → Keeps I m
      → ((x : Exception) → Keeps I (handler x))
      → Keeps I (try m handler)
  Keeps-try m handler first second = record {
    apply = λ s i. (Keeps-recover (m s).0 handler second).apply (m s).1 (first.apply s i);
  }
