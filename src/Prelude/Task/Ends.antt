-- ===== src/Prelude/Task/Ends.antt =====
-- What holds of every end of a task, whatever the others do to the state in between.
use mathlib.Core.Bool.{Bool, true, false}
use partha_prime_agent.Prelude.Result.{Result, ok, err, Exception}
use partha_prime_agent.Prelude.Tests.{if◌then◌else◌}
use partha_prime_agent.Prelude.Exec.{Exec}
use partha_prime_agent.Prelude.Task.{Task, done, step, call, try_task, bind_task, run_task, move}

-- Every way through the task ends in a result that satisfies Q.
pub data Ends {ℓ κ ρ} {S : Type ℓ} {A : Type κ} (Q : Result A → Type ρ)
    : Task S A → Type (ℓ ⊔ κ ⊔ ρ) where
  at_once : (r : Result A) → Q r → Ends Q (done r)
  later : (f : S → S) (k : S → Task S A) → ((s : S) → Ends Q (k s)) → Ends Q (step f k)

module _ {ℓ κ ρ} {S : Type ℓ} {A : Type κ} (Q : Result A → Type ρ) where
  pub Ends-call : (m : Exec S A) → ((s : S) → Q (m s).0) → Ends Q (call m)
  Ends-call m h = later _ _ (λ s. at_once _ (h s))

  pub Ends-if : (b : Bool) (t u : Task S A) → Ends Q t → Ends Q u → Ends Q (if b then t else u)
  Ends-if true t u x y = x
  Ends-if false t u x y = y

  pub Ends-run : (t : Task S A) → Ends Q t → (s : S) → Q (run_task t s).0
  unfolding run_task
  Ends-run (done r) (at_once _ q) s = q
  Ends-run (step f k) (later _ _ h) s = Ends-run (k s) (h s) (f s)

  pub Ends-move : (t : Task S A) → Ends Q t → (s : S) → Ends Q (move t s).0
  Ends-move (done r) h s = h
  Ends-move (step f k) (later _ _ h) s = h s

  -- Whatever is raised is handled.
  pub Ends-try :
      (t : Task S A) (handler : Exception → Task S A) (R : Result A → Type ρ)
      → Ends R t
      → ((a : A) → R (ok a) → Q (ok a))
      → ((x : Exception) → Ends Q (handler x))
      → Ends Q (try_task t handler)
  unfolding try_task
  Ends-try (done (ok a)) handler R (at_once _ q) good handled = at_once _ (good a q)
  Ends-try (done (err x)) handler R (at_once _ q) good handled = handled x
  Ends-try (step f k) handler R (later _ _ h) good handled =
      later _ _ (λ s. Ends-try (k s) handler R (h s) good handled)

module _ {ℓ κ ρ σ} {S : Type ℓ} {A : Type κ} {B : Type σ} where
  -- The rest may use what holds of the value that it gets.
  pub Ends-bind :
      (R : Result A → Type ρ) (Q : Result B → Type ρ) (t : Task S A) (f : A → Task S B)
      → Ends R t
      → ((x : Exception) → R (err x) → Q (err x))
      → ((a : A) → R (ok a) → Ends Q (f a))
      → Ends Q (bind_task t f)
  unfolding bind_task
  Ends-bind R Q (done (ok a)) f (at_once _ q) stop rest = rest a q
  Ends-bind R Q (done (err x)) f (at_once _ q) stop rest = at_once _ (stop x q)
  Ends-bind R Q (step g k) f (later _ _ h) stop rest =
      later _ _ (λ s. Ends-bind R Q (k s) f (h s) stop rest)

pub Ends-Unit {ℓ κ} : {S : Type ℓ} {A : Type κ} (t : Task S A) → Ends (λ (r : Result A). Unit {0}) t
Ends-Unit (done r) = at_once r tt
Ends-Unit (step f k) = later f k (λ s. Ends-Unit (k s))
