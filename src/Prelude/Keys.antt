-- ===== src/Prelude/Keys.antt =====
-- Columns of keys: which keys stand in one, and that each stands there once.
use Prim.Native.Nat.{ℕ, suc, ◌<◌}
use mathlib.Core.Path.{◌≡◌, refl, ap}
use mathlib.Core.Bool.{Bool, true, false, ◌||◌}
use mathlib.Core.Option.{Option, none, some}
use mathlib.Core.List.{List, [], ◌∷◌, ◌++◌, map}
use native.Mathlib.Omega.{arith}
use partha_prime_agent.Prelude.Tests.{Eq, ◌==◌, nat_eq}
use partha_prime_agent.Prelude.Lists.{any, any-append, All}

module _ {ℓ} {K : Type ℓ} ⦃e : Eq K⦄ where
  abbrev pub is_key : K → List K → Bool
  is_key k ks = any (λ j. j == k) ks

  abbrev pub Known : List K → K → Type 0
  Known ks k = is_key k ks ≡ true

  -- A reference that may be missing.
  abbrev pub KnownIf : List K → Option K → Type 0
  KnownIf ks none = Unit
  KnownIf ks (some k) = Known ks k

  abbrev pub Distinct : List K → Type 0
  Distinct [] = Unit
  Distinct (k ∷ ks) = (is_key k ks ≡ false) × Distinct ks

  -- The test of a row's column is a test of the column.
  pub any-is_key {κ} :
      {A : Type κ} (key : A → K) (k : K) (rows : List A)
      → any (λ r. key r == k) rows ≡ is_key k (map key rows)
  any-is_key key k [] = refl
  any-is_key key k (r ∷ rows) = ap (λ b. key r == k || b) (any-is_key key k rows)

  eq_comm : (j k : K) → (k == j) ≡ false → (j == k) ≡ false
  eq_comm j k h = ground (arith, e.same_iff j k, e.same_iff k j)

  pub Distinct-snoc :
      (ks : List K) (k : K) → Distinct ks → is_key k ks ≡ false → Distinct (ks ++ (k ∷ []))
  Distinct-snoc [] k d new = (refl, tt)
  Distinct-snoc (j ∷ ks) k d new = (
    ground (arith, any-append (λ i. i == j) ks (k ∷ []), eq_comm k j),
    Distinct-snoc ks k d.1 (ground arith),
  )

  pub Known-snoc : (ks : List K) (k j : K) → Known ks j → Known (ks ++ (k ∷ [])) j
  Known-snoc ks k j h = ground (arith, any-append (λ i. i == j) ks (k ∷ []))

  pub Known-last : (ks : List K) (k : K) → Known (ks ++ (k ∷ [])) k
  Known-last ks k = ground (arith, any-append (λ i. i == k) ks (k ∷ []), e.same_iff k k)

  pub KnownIf-snoc :
      (ks : List K) (k : K) (o : Option K) → KnownIf ks o → KnownIf (ks ++ (k ∷ [])) o
  KnownIf-snoc ks k none h = tt
  KnownIf-snoc ks k (some j) h = Known-snoc ks k j h

module _ {ℓ κ} {A : Type ℓ} where
  pub All-snoc : (P : A → Type κ) (xs : List A) (x : A) → All P xs → P x → All P (xs ++ (x ∷ []))
  All-snoc P [] x h p = (p, tt)
  All-snoc P (y ∷ xs) x h p = (h.0, All-snoc P xs x h.1 p)

  pub All-imp : (P Q : A → Type κ) (xs : List A) → ((a : A) → P a → Q a) → All P xs → All Q xs
  All-imp P Q [] f h = tt
  All-imp P Q (x ∷ xs) f h = (f x h.0, All-imp P Q xs f h.1)

  pub All-append : (P : A → Type κ) (xs ys : List A) → All P xs → All P ys → All P (xs ++ ys)
  All-append P [] ys h k = k
  All-append P (x ∷ xs) ys h k = (h.0, All-append P xs ys h.1 k)

  -- One element, and the others without it.
  pub All-drop :
      (P : A → Type κ) (xs : List A) (y : A) (ys : List A)
      → All P (xs ++ (y ∷ ys))
      → All P (xs ++ ys) × P y
  All-drop P [] y ys h = (h.1, h.0)
  All-drop P (x ∷ xs) y ys h = let (rest, p) = All-drop P xs y ys h.1 in ((h.0, rest), p)

-- A primary key: no value twice, and all of them taken from the supply.
abbrev pub Keyed : ℕ → List ℕ → Type 0
Keyed n ks = All (λ k. k < n) ks × Distinct ks

not_below : (n : ℕ) (ks : List ℕ) → All (λ k. k < n) ks → is_key n ks ≡ false
not_below n [] h = refl
not_below n (k ∷ ks) h = ground (arith, not_below n ks h.1)

pub Keyed-suc : (n : ℕ) (ks : List ℕ) → Keyed n ks → Keyed (suc n) ks
Keyed-suc n ks h = (All-imp (λ k. k < n) (λ k. k < suc n) ks (λ k p. omega arith) h.0, h.1)

pub Keyed-snoc : (n : ℕ) (ks : List ℕ) → Keyed n ks → Keyed (suc n) (ks ++ (n ∷ []))
Keyed-snoc n ks h = (
  All-snoc (λ k. k < suc n) ks n (Keyed-suc n ks h).0 (omega arith),
  Distinct-snoc ks n h.1 (not_below n ks h.0),
)
