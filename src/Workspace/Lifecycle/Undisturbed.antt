-- ===== src/Workspace/Lifecycle/Undisturbed.antt =====
-- Machines whose operations leave a predicate alone, the processes aside.
use partha_prime_agent.Prelude.{ℕ, String}
use partha_prime_agent.Prelude.Exec.Keeps.{Keeps}
use partha_prime_agent.Paths.{FilePath}
use partha_prime_agent.Workspace.State.{Machine, World, asks, changes, sleep}

pub record Undisturbed {S : Type 0} (M : Machine S) (I : World S → Type 0) : Type 0 where
  pub mkdir : (p : FilePath) → Keeps I (asks (M.mkdir p))
  pub rmtree : (p : FilePath) → Keeps I (changes (M.rmtree p))
  pub write_text : (p : FilePath) (text : String) → Keeps I (asks (M.write_text p text))
  pub chmod : (p : FilePath) → Keeps I (asks (M.chmod p))
  pub mkdtemp : Keeps I (asks M.mkdtemp)
  pub disk_free : (p : FilePath) → Keeps I (asks (M.disk_free p))
  pub tree_size : (p : FilePath) → Keeps I (asks (M.tree_size p))
  pub waits : (n : ℕ) → Keeps I (sleep n)

-- A predicate that does not look at what the machine keeps.
pub undisturbed :
    {S : Type 0} (M : Machine S) (I : World S → Type 0)
    → ((w : World S) (o : S) → I w → I (record w { outside = o }))
    → ((n : ℕ) → Keeps I (sleep n))
    → Undisturbed M I
undisturbed M I elsewhere wait = record {
  mkdir = λ p. record { apply = λ s i. elsewhere s (M.mkdir p s.outside).1 i };
  rmtree = λ p. record { apply = λ s i. elsewhere s (M.rmtree p s.outside) i };
  write_text = λ p text. record { apply = λ s i. elsewhere s (M.write_text p text s.outside).1 i };
  chmod = λ p. record { apply = λ s i. elsewhere s (M.chmod p s.outside).1 i };
  mkdtemp = record { apply = λ s i. elsewhere s (M.mkdtemp s.outside).1 i };
  disk_free = λ p. record { apply = λ s i. elsewhere s (M.disk_free p s.outside).1 i };
  tree_size = λ p. record { apply = λ s i. elsewhere s (M.tree_size p s.outside).1 i };
  waits = wait;
}
