-- ===== src/Prelude/Task.antt =====
-- Coroutines: what a task does between two points at which another task may run, and what it does
-- after. `gather` awaits several of them, in whatever order they are woken.
pub mod Ends
pub mod Gather
pub mod Undisturbed
use Prim.Native.Nat.{ℕ, zero, suc}
use mathlib.Core.Option.{Option, none, some}
use mathlib.Core.List.{List, [], ◌∷◌}
use partha_prime_agent.Prelude.Result.{Result, ok, err, Exception}
use partha_prime_agent.Prelude.Exec.{Exec, pure, lift, ◌>>=◌ as ◌and_then◌}

-- A task is done, or changes the state and goes on in a way that may depend on what was there.
pub data Task {ℓ κ} (S : Type ℓ) (A : Type κ) : Type (ℓ ⊔ κ) where
  done : Result A → Task S A
  step : (S → S) → (S → Task S A) → Task S A

module _ {ℓ κ} {S : Type ℓ} {A : Type κ} where
  -- One call that is not interrupted.
  abbrev pub call : Exec S A → Task S A
  call m = step (λ s. (m s).1) (λ s. done (m s).0)

  abbrev pub return : A → Task S A
  return a = done (ok a)

  -- `try: m; except Exception as e: handler(e)`
  abbrev pub recover_task : Result A → (Exception → Task S A) → Task S A
  recover_task (ok a) handler = done (ok a)
  recover_task (err x) handler = handler x

  unfoldable pub try_task : Task S A → (Exception → Task S A) → Task S A
  try_task (done r) handler = recover_task r handler
  try_task (step f k) handler = step f (λ s. try_task (k s) handler)

  -- Alone, from where it is.
  unfoldable pub run_task : Task S A → Exec S A
  run_task (done r) s = (r, s)
  run_task (step f k) s = run_task (k s) (f s)

module _ {ℓ κ ρ} {S : Type ℓ} {A : Type κ} {B : Type ρ} where
  abbrev pub continue_task : Result A → (A → Task S B) → Task S B
  continue_task (ok a) f = f a
  continue_task (err x) f = done (err x)

  unfoldable pub bind_task : Task S A → (A → Task S B) → Task S B
  bind_task (done r) f = continue_task r f
  bind_task (step g k) f = step g (λ s. bind_task (k s) f)

  infixl 10 ◌>>=◌
  abbrev pub ◌>>=◌ : Task S A → (A → Task S B) → Task S B
  ◌>>=◌ = bind_task

module _ {ℓ κ} {S : Type ℓ} {B : Type κ} where
  infixl 10 ◌>>◌
  abbrev pub ◌>>◌ : Task S (Unit {0}) → Task S B → Task S B
  m >> k = bind_task m (λ _. k)

module _ {ℓ κ} {S : Type ℓ} {A : Type κ} where
  -- One task moves on to its next point; a task that is done stays.
  abbrev pub move : Task S A → S → Task S A × S
  move (done r) s = (done r, s)
  move (step f k) s = (k s, f s)

  unfoldable pub advance : ℕ → List (Task S A) → S → List (Task S A) × S
  advance n [] s = ([], s)
  advance zero (t ∷ ts) s = let moved = move t s in (moved.0 ∷ ts, moved.1)
  advance (suc n) (t ∷ ts) s = let moved = advance n ts s in (t ∷ moved.0, moved.1)

  -- The exception of the first task, in the order of the list, that has raised.
  unfoldable pub raised : List (Task S A) → Option Exception
  raised [] = none
  raised (done (err x) ∷ ts) = some x
  raised (t ∷ ts) = raised ts

  -- The tasks one after another.
  unfoldable pub run_all : List (Task S A) → Exec S (List A)
  unfolding run_task
  run_all [] = pure []
  run_all (t ∷ ts) = (run_task t) and_then λ a. (run_all ts) and_then λ rest. pure (a ∷ rest)

  abbrev pub finish : Option Exception → Exec S (List A) → Exec S (List A)
  finish none rest = rest
  finish (some x) rest = lift (err x)

  -- `list(await asyncio.gather(*tasks))`: the schedule says which task is woken next; when it is
  -- used up, the tasks that are left run in order. Every interleaving has such a schedule. The
  -- first exception is raised at once.
  unfoldable pub gather : List ℕ → List (Task S A) → Exec S (List A)
  unfolding advance raised run_all
  gather [] tasks s = finish (raised tasks) (run_all tasks) s
  gather (n ∷ schedule) tasks s =
      let moved = advance n tasks s in
      finish (raised tasks) (λ _. gather schedule moved.0 moved.1) s
