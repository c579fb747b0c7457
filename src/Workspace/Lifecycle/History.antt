-- ===== src/Workspace/Lifecycle/History.antt =====
-- The statuses that a workspace goes through, as they are audited.
use partha_prime_agent.Prelude.{ℕ, suc, zero, String, List, [], ◌∷◌, ◌++◌, ◌≡◌}
use partha_prime_agent.Prelude.Result.{Result, ok, err}
use partha_prime_agent.Prelude.Exec.{Exec}
use partha_prime_agent.Prelude.Exec.Keeps.{Keeps}
use partha_prime_agent.Enums.{WorkspaceStatus}
use partha_prime_agent.Paths.{FilePath}
use partha_prime_agent.Platform.{Platform}
use partha_prime_agent.Scm.{PullRequestEvent, ScmProvider}
use partha_prime_agent.Workspace.State.{Machine, Config, World}
use partha_prime_agent.Workspace.Lifecycle.{Prepared}
use partha_prime_agent.Workspace.Lifecycle.Undisturbed.{Undisturbed}

-- One change of status: forward, to failure, and to removal after it.
pub data Follows : WorkspaceStatus → WorkspaceStatus → Type 0 where
  clone : Follows WorkspaceStatus.created WorkspaceStatus.cloning
  fetch : Follows WorkspaceStatus.cloning WorkspaceStatus.ready
  compare : Follows WorkspaceStatus.ready WorkspaceStatus.ready
  give_up : (status : WorkspaceStatus) → Follows status WorkspaceStatus.failed
  clean : Follows WorkspaceStatus.failed WorkspaceStatus.cleaned

-- The statuses after one, up to the last.
pub data Life : WorkspaceStatus → List WorkspaceStatus → WorkspaceStatus → Type 0 where
  ends : (status : WorkspaceStatus) → Life status [] status
  goes :
      (status status' last : WorkspaceStatus) (later : List WorkspaceStatus)
      → Follows status status'
      → Life status' later last
      → Life status (status' ∷ later) last

-- What is audited while a workspace is filled.
abbrev stages : List WorkspaceStatus
stages = WorkspaceStatus.cloning ∷ WorkspaceStatus.ready ∷ WorkspaceStatus.ready ∷ []

abbrev take {ℓ} : {A : Type ℓ} → ℕ → List A → List A
take zero xs = []
take (suc n) [] = []
take (suc n) (x ∷ xs) = x ∷ take n xs

-- What a stage adds to the history: all of its statuses, or the first few if it raises.
abbrev Adds {ℓ} :
    {S : Type 0} {A : Type ℓ}
    → List WorkspaceStatus
    → List WorkspaceStatus
    → Result A × World S
    → Type 0
Adds h whole (ok a, t) = t.history ≡ h ++ whole
Adds h whole (err x, t) = (n : ℕ) × (t.history ≡ h ++ take n whole)

module _ {S : Type 0} (P : Platform) (M : Machine S) (C : Config) where
  module _ (provider : ScmProvider) (event : PullRequestEvent) (run_id : String)
      (dir : FilePath) where
    abbrev SameHistory : List WorkspaceStatus → World S → Type 0
    SameHistory h w = w.history ≡ h

  -- The status in which a preparation leaves its workspace.
  abbrev pub left : Result Prepared → WorkspaceStatus
  left (ok a) = WorkspaceStatus.ready
  left (err x) = WorkspaceStatus.cleaned

  abbrev pub Lived : List WorkspaceStatus → Result Prepared × World S → Type 0
  Lived h out =
      (later : List WorkspaceStatus) × (out.1.history ≡ h ++ (WorkspaceStatus.created ∷ later))
      × Life WorkspaceStatus.created later (left out.0)
