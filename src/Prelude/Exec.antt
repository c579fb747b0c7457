-- ===== src/Prelude/Exec.antt =====
-- Methods that change a state and may raise: what was changed before a raise stays changed.
pub mod Keeps
use mathlib.Core.Path.{◌≡◌, refl}
use partha_prime_agent.Prelude.Result.{Result, ok, err, Exception}

abbrev pub Exec {ℓ κ} : Type ℓ → Type κ → Type (ℓ ⊔ κ)
Exec S A = S → Result A × S

module _ {ℓ κ} {S : Type ℓ} {A : Type κ} where
  abbrev pub pure : A → Exec S A
  pure a s = (ok a, s)

  abbrev pub lift : Result A → Exec S A
  lift r s = (r, s)

  abbrev pub gets : (S → A) → Exec S A
  gets f s = (ok (f s), s)

module _ {ℓ κ ρ} {S : Type ℓ} {A : Type κ} {B : Type ρ} where
  abbrev pub continue : Result A → (A → Exec S B) → Exec S B
  continue (ok a) f s = f a s
  continue (err e) f s = (err e, s)

  infixl 10 ◌>>=◌
  abbrev pub ◌>>=◌ : Exec S A → (A → Exec S B) → Exec S B
  ◌>>=◌ m f s = continue (m s).0 f (m s).1

module _ {ℓ κ} {S : Type ℓ} {B : Type κ} where
  infixl 10 ◌>>◌
  abbrev pub ◌>>◌ : Exec S (Unit {0}) → Exec S B → Exec S B
  m >> k = m >>= λ _. k

abbrev pub modify {ℓ} : {S : Type ℓ} → (S → S) → Exec S (Unit {0})
modify f s = (ok tt, f s)

-- `try: m; except Exception as e: handler(e)`
module _ {ℓ κ} {S : Type ℓ} {A : Type κ} where
  abbrev pub recover : Result A → (Exception → Exec S A) → Exec S A
  recover (ok a) f s = (ok a, s)
  recover (err e) f s = f e s

  abbrev pub try : Exec S A → (Exception → Exec S A) → Exec S A
  try m f s = recover (m s).0 f (m s).1

module _ {ℓ κ ρ σ} {S : Type ℓ} {A : Type κ} {B : Type ρ} where
  continue-ok :
      {C : Type σ} (r : Result A) (u : S) (f : A → Exec S B) {b : B} {t : S}
      → continue r f u ≡ (ok b, t)
      → ((a : A) → r ≡ ok a → f a u ≡ (ok b, t) → C)
      → C
  continue-ok (ok a) u f h k = k a refl h
  continue-ok (err x) u f h k = cc

  -- A chain that returns was a step that returned, and a rest that returned from its state.
  pub bind_ok :
      {C : Type σ} (m : Exec S A) (f : A → Exec S B) (s : S) {b : B} {t : S}
      → (m >>= f) s ≡ (ok b, t)
      → ((a : A) (u : S) → m s ≡ (ok a, u) → f a u ≡ (ok b, t) → C)
      → C
  bind_ok m f s h k = continue-ok (m s).0 (m s).1 f h (λ a e. k a (m s).1 (λ i. (e i, (m s).1)))

  continue-cases :
      (P : Result B × S → Type σ) (r : Result A) (u : S) (f : A → Exec S B)
      → ((a : A) → r ≡ ok a → P (f a u))
      → ((x : Exception) → r ≡ err x → P (err x, u))
      → P (continue r f u)
  continue-cases P (ok a) u f k l = k a refl
  continue-cases P (err x) u f k l = l x refl

  -- A chain ends as its first step raises, or as its rest does from the state of that step.
  pub bind_cases :
      (P : Result B × S → Type σ) (m : Exec S A) (f : A → Exec S B) (s : S)
      → ((a : A) (u : S) → m s ≡ (ok a, u) → P (f a u))
      → ((x : Exception) (u : S) → m s ≡ (err x, u) → P (err x, u))
      → P ((m >>= f) s)
  bind_cases P m f s k l =
      continue-cases P (m s).0 (m s).1 f (λ a e. k a (m s).1 (λ i. (e i, (m s).1)))
        (λ x e. l x (m s).1 (λ i. (e i, (m s).1)))

-- A step that returns is followed by the rest from its state.
pub then-returned :
    {S B : Type 0} (m : Exec S (Unit {0})) (k : Exec S B) (s : S)
    → (m s).0 ≡ ok tt
    → (m >> k) s ≡ k (m s).1
then-returned m k s e = rw e refl
