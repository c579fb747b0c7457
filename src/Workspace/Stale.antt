-- ===== src/Workspace/Stale.antt =====
-- The sweep over workspaces whose retention is over.
pub mod Prune
pub mod Sweep
use partha_prime_agent.Prelude.{
  ℕ, zero, suc, ◌+◌, ◌*◌, String, Bool, true, false, Option, none, some, List, [], ◌∷◌, length, not,
  ltb, ◌||◌, ◌==◌, if◌then◌else◌,
}
use partha_prime_agent.Prelude.Exec.{Exec, pure, ◌>>=◌, ◌>>◌}
use partha_prime_agent.Json.{ℤ, pos, negsuc}
use partha_prime_agent.Paths.{FilePath, path_eq}
use partha_prime_agent.Platform.{Platform}
use partha_prime_agent.Workspace.State.{Machine, Config, World, asks, looks}
use partha_prime_agent.Workspace.Lifecycle.{cleanup_workspace}

abbrev pub drop_last : List String → List String
drop_last [] = []
drop_last (p ∷ []) = []
drop_last (p ∷ q ∷ ps) = let rest = drop_last (q ∷ ps) in p ∷ rest

-- `path.parent`
abbrev pub parent : FilePath → FilePath
parent p = record { root = p.root; parts = drop_last p.parts }

-- `(now - mtime).total_seconds() < retention_hours * 3600`, in whole seconds
abbrev pub is_retained : ℕ → ℤ → ℕ → Bool
is_retained now (pos hours) mtime = ltb now (mtime + hours * 3600)
is_retained now (negsuc hours) mtime = ltb (now + suc hours * 3600) mtime

-- `retention_hours if retention_hours is not None else self.retention_hours`
abbrev pub hours_or : Option ℤ → ℤ → ℤ
hours_or none default = default
hours_or (some hours) default = hours

module _ {S : Type 0} (P : Platform) (M : Machine S) (C : Config) where
  -- Where the loop of `_prune_empty_parents` stops.
  abbrev pub stops_at : FilePath → S → Bool
  stops_at current s =
      current == C.workspace_root || (not (M.exists current s) || not (M.is_empty current s))

  -- The loop, at most so many times.
  unfoldable pub prune : ℕ → FilePath → Exec (World S) (Unit {0})
  prune zero current = pure tt
  prune (suc fuel) current = do
    stop ← looks (stops_at current)
    let rest = asks (M.rmdir current) >> prune fuel (parent current)
    if stop then pure tt else rest

  -- A path has no more parents than parts.
  unfoldable pub prune_empty_parents : FilePath → Exec (World S) (Unit {0})
  unfolding prune
  prune_empty_parents path = prune (length path.parts) path

  module _ (now : ℕ) (retention_hours : ℤ) where
    abbrev pub is_kept : Option ℕ → Bool
    is_kept none = true
    is_kept (some mtime) = is_retained now retention_hours mtime

    -- Whether the loop passes a path over: no directory, vanished, or retained.
    abbrev pub is_passed : FilePath → S → Bool
    is_passed path s = not (M.is_dir path s) || is_kept (M.mtime path s)

    -- The body of the loop, and whether the path was cleaned.
    unfoldable pub reap : FilePath → Exec (World S) Bool
    unfolding cleanup_workspace prune_empty_parents
    reap path = do
      passed ← looks (is_passed path)
      if passed
          then pure false
          else (cleanup_workspace P M C path >> (prune_empty_parents (parent path) >> pure true))

    unfoldable pub sweep : List FilePath → Exec (World S) (List FilePath)
    unfolding reap
    sweep [] = pure []
    sweep (path ∷ paths) = do
      taken ← reap path
      cleaned ← sweep paths
      pure (if taken then path ∷ cleaned else cleaned)

  -- The clock stands at `now` during the sweep.
  unfoldable pub cleanup_stale_workspaces : ℕ → Option ℤ → Exec (World S) (List FilePath)
  unfolding sweep
  cleanup_stale_workspaces now retention_hours = do
    there ← looks (M.exists C.workspace_root)
    if there
        then (do found ← looks M.glob; sweep now (hours_or retention_hours C.retention_hours) found)
        else pure []
