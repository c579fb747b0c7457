-- ===== src/Prelude/Task/Gather.antt =====
-- What `gather` returns, for every schedule.
use Prim.Native.Nat.{ℕ, zero, suc}
use mathlib.Core.Path.{◌≡◌, refl, subst}
use mathlib.Core.Logic.{inl, inr}
use mathlib.Core.Option.{some}
use mathlib.Core.List.{List, [], ◌∷◌}
use partha_prime_agent.Prelude.Result.{Result, ok, err, Exception}
use partha_prime_agent.Prelude.Exec.{bind_cases}
use partha_prime_agent.Prelude.Tests.{Option-cases}
use partha_prime_agent.Prelude.Task.{Task, done, step, run_task, advance, raised, run_all, gather}
use partha_prime_agent.Prelude.Task.Ends.{Ends, Ends-run, Ends-move, at_once}

-- The value is good, or the exception is one that is allowed.
pub data Outcome {ℓ ρ τ} {A : Type ℓ} (Good : A → Type ρ) (Bad : Exception → Type τ)
    : Result A → Type (ℓ ⊔ ρ ⊔ τ) where
  good : (a : A) → Good a → Outcome Good Bad (ok a)
  bad : (x : Exception) → Bad x → Outcome Good Bad (err x)

module _ {ℓ ρ τ} {A : Type ℓ} {Good : A → Type ρ} {Bad : Exception → Type τ} where
  pub good_of : {a : A} → Outcome Good Bad (ok a) → Good a
  good_of (good _ g) = g

  pub bad_of : {x : Exception} → Outcome Good Bad (err x) → Bad x
  bad_of (bad _ b) = b

pub outcome_of {ℓ τ} :
    {A : Type ℓ} {Bad : Exception → Type τ} (r : Result A)
    → ((x : Exception) → r ≡ err x → Bad x)
    → Outcome (λ a. Unit {0}) Bad r
outcome_of (ok a) h = good a tt
outcome_of (err x) h = bad x (h x refl)

-- Two lists of one length, related place by place.
pub data Zip {ℓ κ ρ} {X : Type ℓ} {A : Type κ} (R : X → A → Type ρ)
    : List X → List A → Type (ℓ ⊔ κ ⊔ ρ) where
  nil : Zip R [] []
  cons :
      (x : X) (a : A) (xs : List X) (rest : List A)
      → R x a
      → Zip R xs rest
      → Zip R (x ∷ xs) (a ∷ rest)

module _ {ℓ κ ρ σ τ} {S : Type ℓ} {A : Type κ} {X : Type σ} (Good : X → A → Type ρ)
    (Bad : Exception → Type τ) where
  abbrev pub Tasks : List X → List (Task S A) → Type (ℓ ⊔ κ ⊔ ρ ⊔ σ ⊔ τ)
  Tasks = Zip (λ x t. Ends (Outcome (Good x) Bad) t)

  advance-Tasks :
      (n : ℕ) (xs : List X) (ts : List (Task S A)) (s : S)
      → Tasks xs ts
      → Tasks xs (advance n ts s).0
  unfolding advance
  advance-Tasks n xs ts s nil = nil
  advance-Tasks zero xs ts s (cons x t xs' ts' h hs) =
      cons _ _ _ _ (Ends-move (Outcome (Good x) Bad) t h s) hs
  advance-Tasks (suc n) xs ts s (cons _ t xs' ts' h hs) =
      cons _ _ _ _ h (advance-Tasks n xs' ts' s hs)

  raised-Bad :
      (xs : List X) (ts : List (Task S A)) (x : Exception)
      → Tasks xs ts
      → raised ts ≡ some x
      → Bad x
  unfolding raised
  raised-Bad xs ts x nil e = cc
  raised-Bad xs ts x (cons _ (done (ok a)) xs' ts' h hs) e = raised-Bad xs' ts' x hs e
  raised-Bad xs ts x (cons _ (done (err y)) xs' ts' (at_once _ (bad _ b)) hs) e =
      let same : y ≡ x = cc in subst Bad same b
  raised-Bad xs ts x (cons _ (step f k) xs' ts' h hs) e = raised-Bad xs' ts' x hs e

  run_all-Outcome :
      (xs : List X) (ts : List (Task S A)) (s : S)
      → Tasks xs ts
      → Outcome (Zip Good xs) Bad (run_all ts s).0
  unfolding run_all
  run_all-Outcome xs ts s nil = good _ nil
  run_all-Outcome xs ts s (cons x t xs' ts' h hs) =
      bind_cases (λ o. Outcome (Zip Good (x ∷ xs')) Bad o.0) (run_task t) _ s
        (λ a u e.
          bind_cases (λ o. Outcome (Zip Good (x ∷ xs')) Bad o.0) (run_all ts') _ u
            (λ rest v e'. good _ (
              cons _ _ _ _
                (good_of (
                  subst (λ (o : Result A × S). Outcome (Good x) Bad o.0) e
                    (Ends-run (Outcome (Good x) Bad) t h s)))
                (good_of (
                  subst (λ (o : Result (List A) × S). Outcome (Zip Good xs') Bad o.0) e'
                    (run_all-Outcome xs' ts' u hs)))))
            (λ y v e'. bad _ (
              bad_of (
                subst (λ (o : Result (List A) × S). Outcome (Zip Good xs') Bad o.0) e'
                  (run_all-Outcome xs' ts' u hs)))))
        (λ y u e. bad _ (
          bad_of (
            subst (λ (o : Result A × S). Outcome (Good x) Bad o.0) e
              (Ends-run (Outcome (Good x) Bad) t h s))))

  -- If every end of every task is good or allowed, then `gather` returns a good value for every
  -- task, in their order, or raises an exception that is allowed.
  pub gather-Outcome :
      (schedule : List ℕ) (xs : List X) (ts : List (Task S A)) (s : S)
      → Tasks xs ts
      → Outcome (Zip Good xs) Bad (gather schedule ts s).0
  unfolding gather
  gather-Outcome [] xs ts s h = elim (Option-cases (raised ts)) [
    | inl none_yet ↦ rw none_yet (run_all-Outcome xs ts s h)
    | inr (x, e) ↦ rw e (bad x (raised-Bad xs ts x h e))
  ]
  gather-Outcome (n ∷ schedule) xs ts s h = elim (Option-cases (raised ts)) [
    | inl none_yet ↦ rw none_yet (gather-Outcome schedule xs _ _ (advance-Tasks n xs ts s h))
    | inr (x, e) ↦ rw e (bad x (raised-Bad xs ts x h e))
  ]
