-- ===== src/Prelude/Task/Undisturbed.antt =====
-- Tasks each of whose steps keeps a predicate of the state, and so any interleaving of them.
use Prim.Native.Nat.{ℕ, zero, suc}
use mathlib.Core.Bool.{Bool, true, false}
use mathlib.Core.Option.{Option, none, some}
use mathlib.Core.List.{List, [], ◌∷◌}
use partha_prime_agent.Prelude.Result.{Result, ok, err, Exception}
use partha_prime_agent.Prelude.Exec.{Exec}
use partha_prime_agent.Prelude.Exec.Keeps.{Keeps, Keeps-bind, Keeps-pure}
use partha_prime_agent.Prelude.Lists.{All}
use partha_prime_agent.Prelude.Tests.{if◌then◌else◌}
use partha_prime_agent.Prelude.Task.{
  Task, done, step, call, try_task, recover_task, run_task, bind_task, continue_task, move, advance,
  raised, run_all, gather, finish,
}

pub data TaskKeeps {ℓ κ ρ} {S : Type ℓ} {A : Type κ} (I : S → Type ρ)
    : Task S A → Type (ℓ ⊔ κ ⊔ ρ) where
  stays : (r : Result A) → TaskKeeps I (done r)
  moves :
      (f : S → S) (k : S → Task S A)
      → ((s : S) → I s → I (f s))
      → ((s : S) → TaskKeeps I (k s))
      → TaskKeeps I (step f k)

module _ {ℓ κ ρ} {S : Type ℓ} {A : Type κ} (I : S → Type ρ) where
  pub TaskKeeps-call : (m : Exec S A) → Keeps I m → TaskKeeps I (call m)
  TaskKeeps-call m h = moves _ _ (λ s i. h.apply s i) (λ s. stays _)

  pub TaskKeeps-if :
      (b : Bool) (t u : Task S A) → TaskKeeps I t → TaskKeeps I u → TaskKeeps I (if b then t else u)
  TaskKeeps-if true t u x y = x
  TaskKeeps-if false t u x y = y

  TaskKeeps-recover :
      (r : Result A) (handler : Exception → Task S A)
      → ((x : Exception) → TaskKeeps I (handler x))
      → TaskKeeps I (recover_task r handler)
  TaskKeeps-recover (ok a) handler h = stays (ok a)
  TaskKeeps-recover (err x) handler h = h x

  pub TaskKeeps-try :
      (t : Task S A) (handler : Exception → Task S A)
      → TaskKeeps I t
      → ((x : Exception) → TaskKeeps I (handler x))
      → TaskKeeps I (try_task t handler)
  unfolding try_task
  TaskKeeps-try (done r) handler first h = TaskKeeps-recover r handler h
  TaskKeeps-try (step f k) handler (moves _ _ kept rest) h =
      moves f _ kept (λ s. TaskKeeps-try (k s) handler (rest s) h)

  pub Keeps-run : (t : Task S A) → TaskKeeps I t → Keeps I (run_task t)
  unfolding run_task
  Keeps-run (done r) h = record { apply = λ s i. i }
  Keeps-run (step f k) (moves _ _ kept rest) = record {
    apply = λ s i. (Keeps-run (k s) (rest s)).apply (f s) (kept s i);
  }

  move-kept :
      (t : Task S A) → TaskKeeps I t → (s : S) → I s → TaskKeeps I (move t s).0 × I (move t s).1
  move-kept (done r) h s i = (h, i)
  move-kept (step f k) (moves _ _ kept rest) s i = (rest s, kept s i)

  advance-kept :
      (n : ℕ) (ts : List (Task S A))
      → All (TaskKeeps I) ts
      → (s : S) → I s
      → All (TaskKeeps I) (advance n ts s).0 × I (advance n ts s).1
  unfolding advance
  advance-kept n [] h s i = (tt, i)
  advance-kept zero (t ∷ ts) h s i = let (t', i') = move-kept t h.0 s i in ((t', h.1), i')
  advance-kept (suc n) (t ∷ ts) h s i =
      let (ts', i') = advance-kept n ts h.1 s i in ((h.0, ts'), i')

  Keeps-all : (ts : List (Task S A)) → All (TaskKeeps I) ts → Keeps I (run_all ts)
  unfolding run_all
  Keeps-all [] h = Keeps-pure I []
  Keeps-all (t ∷ ts) h =
      Keeps-bind I (run_task t) _ (Keeps-run t h.0)
        (λ a. Keeps-bind I (run_all ts) _ (Keeps-all ts h.1) (λ rest. Keeps-pure I (a ∷ rest)))

  finished :
      (o : Option Exception) (m : Exec S (List A)) (s : S) → I s → I (m s).1 → I (finish o m s).1
  finished none m s i j = j
  finished (some x) m s i j = i

  -- Whatever the order in which the tasks are woken.
  pub Keeps-gather :
      (schedule : List ℕ) (ts : List (Task S A))
      → All (TaskKeeps I) ts
      → Keeps I (gather schedule ts)
  unfolding gather
  Keeps-gather [] ts h = record {
    apply = λ s i. finished (raised ts) (run_all ts) s i ((Keeps-all ts h).apply s i);
  }
  Keeps-gather (n ∷ schedule) ts h = record {
    apply = λ s i.
        let (ts', i') = advance-kept n ts h s i in
        let rest : Exec S (List A) = λ _. gather schedule (advance n ts s).0 (advance n ts s).1 in
        finished (raised ts) rest s i ((Keeps-gather schedule (advance n ts s).0 ts').apply _ i');
  }

module _ {ℓ κ ρ σ} {S : Type ℓ} {A : Type κ} {B : Type ρ} (I : S → Type σ) where
  TaskKeeps-continue :
      (r : Result A) (f : A → Task S B)
      → ((a : A) → TaskKeeps I (f a))
      → TaskKeeps I (continue_task r f)
  TaskKeeps-continue (ok a) f h = h a
  TaskKeeps-continue (err x) f h = stays (err x)

  pub TaskKeeps-bind :
      (t : Task S A) (f : A → Task S B)
      → TaskKeeps I t
      → ((a : A) → TaskKeeps I (f a))
      → TaskKeeps I (bind_task t f)
  unfolding bind_task
  TaskKeeps-bind (done r) f first h = TaskKeeps-continue r f h
  TaskKeeps-bind (step g k) f (moves _ _ kept rest) h =
      moves g _ kept (λ s. TaskKeeps-bind (k s) f (rest s) h)
