-- ===== src/Workspace/Fetch.antt =====
-- The steps of a preparation that fetch and check commits, and the limits on space.
use partha_prime_agent.Prelude.{
  ℕ, suc, zero, ◌*◌, String, Bool, true, false, Option, none, [], ◌∷◌, string_eq, ltb,
  if◌then◌else◌,
}
use partha_prime_agent.Prelude.Result.{Result, ok, err, Kind, raise, ◌>>=◌ as ◌then◌}
use partha_prime_agent.Prelude.Exec.{Exec, pure, lift, ◌>>=◌, ◌>>◌}
use partha_prime_agent.Json.{ℤ, pos, negsuc}
use partha_prime_agent.Paths.{FilePath, path_str, ◌/◌}
use partha_prime_agent.Platform.{Platform}
use partha_prime_agent.Scanners.Execution.{Run, completed, timed_out, file_not_found, raises}
use partha_prime_agent.Workspace.State.{Machine, Config, World, asks, starts}
use partha_prime_agent.Workspace.Git.{
  git_argv, is_zero, run_git_command, run_network_git_command, with_askpass,
}

abbrev pub megabytes : ℕ → ℕ
megabytes n = n * (1024 * 1024)

module _ {S : Type 0} (P : Platform) (M : Machine S) (C : Config) where
  -- Whether a setting is more than zero.
  abbrev pub is_positive : ℤ → Bool
  is_positive (pos zero) = false
  is_positive (pos (suc n)) = true
  is_positive (negsuc n) = false

  -- The tests on sizes; a limit of zero or less is none.
  abbrev pub below_limit : ℤ → ℕ → String → Exec (World S) (Unit {0})
  below_limit (pos zero) free message = pure tt
  below_limit (pos limit) free message =
      if ltb free (megabytes limit) then lift (raise Kind.value_error message) else pure tt
  below_limit (negsuc n) free message = pure tt

  unfoldable pub ensure_disk_space_available : FilePath → Exec (World S) (Unit {0})
  ensure_disk_space_available workspace_path =
      if is_positive C.max_workspace_size_mb
      then (do
        free ← asks (M.disk_free workspace_path)
        below_limit C.max_workspace_size_mb free "insufficient_disk_space")
      else pure tt

  abbrev pub above_limit : ℤ → ℕ → String → Exec (World S) (Unit {0})
  above_limit (pos limit) size message =
      if ltb (megabytes limit) size then lift (raise Kind.value_error message) else pure tt
  above_limit (negsuc n) size message = pure tt

  unfoldable pub ensure_workspace_size_limit : FilePath → Exec (World S) (Unit {0})
  ensure_workspace_size_limit workspace_path =
      if is_positive C.max_workspace_size_mb
      then (do
        size ← asks (M.tree_size workspace_path)
        above_limit C.max_workspace_size_mb size "workspace_too_large")
      else pure tt

  abbrev pub verified : Run → Result (Unit {0})
  verified (completed out errors code) =
      if is_zero code then ok tt else raise Kind.value_error "commit_not_found"
  verified timed_out = raise Kind.timeout_error "git_command_timed_out"
  verified (file_not_found text) = raise Kind.file_not_found_error text
  verified (raises x) = err x

  unfoldable pub verify_commit_exists : FilePath → String → Exec (World S) (Unit {0})
  unfolding git_argv
  verify_commit_exists workspace_path sha = do
    r ← starts M.run_process (record {
      argv =
          git_argv ("git" ∷ "-C" ∷ path_str workspace_path ∷ "rev-parse" ∷ "--verify" ∷ sha ∷ []);
      cwd = none;
      extra_env = ("GIT_TERMINAL_PROMPT", "0") ∷ [];
      timeout = none;
    })
    lift (verified r)

  unfoldable pub clone_source_commit :
      String → FilePath → String → Option String → String → Exec (World S) (Unit {0})
  unfolding run_git_command run_network_git_command
  clone_source_commit clone_url workspace_path source_sha access_token access_username = do
    _ ← run_git_command P M C ("git" ∷ "init" ∷ []) workspace_path C.clone_timeout []
    _ ←
        run_git_command P M C ("git" ∷ "remote" ∷ "add" ∷ "origin" ∷ clone_url ∷ []) workspace_path
          C.clone_timeout []
    _ ← with_askpass P M C access_token access_username (λ extra_env.
        run_network_git_command P M C ("git" ∷ "fetch" ∷ "--depth=1" ∷ "origin" ∷ source_sha ∷ [])
          workspace_path C.clone_timeout extra_env)
    pure tt

  unfoldable pub fetch_target_commit :
      FilePath → String → Option String → String → Exec (World S) (Unit {0})
  unfolding run_network_git_command
  fetch_target_commit workspace_path target_sha access_token access_username = do
    _ ← with_askpass P M C access_token access_username (λ extra_env.
        run_network_git_command P M C ("git" ∷ "fetch" ∷ "--depth=1" ∷ "origin" ∷ target_sha ∷ [])
          workspace_path C.fetch_timeout extra_env)
    pure tt

  unfoldable pub checkout_source_detached : FilePath → String → Exec (World S) (Unit {0})
  unfolding run_git_command
  checkout_source_detached workspace_path source_sha = do
    _ ←
        run_git_command P M C ("git" ∷ "checkout" ∷ "--detach" ∷ source_sha ∷ []) workspace_path
          C.clone_timeout []
    pure tt

  unfoldable pub generate_diff : FilePath → String → String → Exec (World S) FilePath
  unfolding run_git_command
  generate_diff workspace_path target_sha source_sha = do
    result ←
        run_git_command P M C ("git" ∷ "diff" ∷ "--unified=20" ∷ target_sha ∷ source_sha ∷ [])
          workspace_path C.clone_timeout []
    asks (M.write_text (workspace_path / "diff.patch") result)
    pure (workspace_path / "diff.patch")
