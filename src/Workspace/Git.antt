-- ===== src/Workspace/Git.antt =====
-- Running git: arguments, failures, retries and the helper for passwords.
pub mod Retry
use partha_prime_agent.Prelude.{
  ℕ, suc, zero, String, Bool, true, false, Option, none, some, List, [], ◌∷◌, ◌++◌, ◌<>◌, ◌==◌,
  string_eq, truthy, if◌then◌else◌, str_or,
}
use partha_prime_agent.Prelude.Result.{Result, ok, err, Exception, Kind, raise}
use partha_prime_agent.Prelude.Exec.{Exec, pure, lift, ◌>>=◌, ◌>>◌}
use partha_prime_agent.Json.{ℤ, pos, negsuc}
use partha_prime_agent.Paths.{FilePath, path_str, ◌/◌}
use partha_prime_agent.Platform.{Platform}
use partha_prime_agent.Redaction.{redact_secrets}
use partha_prime_agent.Scanners.Execution.{Env, Run, completed, timed_out, file_not_found, raises}
use partha_prime_agent.Scanners.Adapters.Common.{strip}
use partha_prime_agent.Workspace.State.{
  Command, Machine, Config, World, asks, changes, sleep, starts,
}

-- `_git_argv`
unfoldable pub git_argv : List String → List String
git_argv [] = []
git_argv (program ∷ arguments) =
    if program == "git"
    then "git" ∷ "-c" ∷ "credential.helper=" ∷ arguments
    else program ∷ arguments

abbrev pub askpass_script : String
askpass_script =
    "#!/bin/sh\ncase \"$1\" in\n    Username*) printf '%s' \"${GIT_ASKPASS_USERNAME:-x-access-token}\" ;;\n    *) printf '%s' \"$GIT_ASKPASS_TOKEN\" ;;\nesac\n"

-- `except (TimeoutError, GitCommandError)`
abbrev pub is_transient : Kind → Bool
is_transient Kind.timeout_error = true
is_transient Kind.git_command_error = true
is_transient _ = false

abbrev pub is_zero : ℤ → Bool
is_zero (pos zero) = true
is_zero z = false

module _ {S : Type 0} (P : Platform) (M : Machine S) (C : Config) where
  -- The outcome of a process that is run with `check=True`.
  unfoldable pub git_result : Run → Result String
  unfolding redact_secrets strip
  git_result (completed out errors code) =
      if is_zero code
      then ok (redact_secrets P.is_word out)
      else raise Kind.git_command_error
          ("git_command_failed: " <> strip (redact_secrets P.is_word errors))
  git_result timed_out = raise Kind.timeout_error "git_command_timed_out"
  git_result (file_not_found text) = raise Kind.runtime_error "git_not_available"
  git_result (raises x) = err x

  -- `_run_git_command`; the environment is the process's own with these variables.
  unfoldable pub run_git_command : List String → FilePath → ℕ → Env → Exec (World S) String
  run_git_command command cwd timeout extra_env = do
    r ← starts M.run_process (record {
      argv = git_argv command;
      cwd = some cwd;
      extra_env = ("GIT_TERMINAL_PROMPT", "0") ∷ extra_env;
      timeout = some timeout;
    })
    lift (git_result r)

  -- `try: return await m except (TimeoutError, GitCommandError) as exc: handler(exc)`
  abbrev pub transient : Result String → (Exception → Exec (World S) String) → Exec (World S) String
  transient (ok out) handler = pure out
  transient (err x) handler = if is_transient x.kind then handler x else lift (err x)

  abbrev pub try_transient :
      Exec (World S) String → (Exception → Exec (World S) String) → Exec (World S) String
  try_transient m handler w = transient (m w).0 handler (m w).1

  -- The loop, with the number of retries that are left; `attempt` counts those made.
  unfoldable pub retry : ℕ → ℕ → Exec (World S) String → Exec (World S) String
  retry zero attempt m = try_transient m (λ x. lift (err x))
  retry (suc left) attempt m =
      try_transient m (λ x. sleep (suc attempt) >> retry left (suc attempt) m)

  -- With a negative number of retries the body never runs, and the assertion fails.
  unfoldable pub run_with_retries : ℤ → Exec (World S) String → Exec (World S) String
  unfolding retry
  run_with_retries (pos retries) m = retry retries 0 m
  run_with_retries (negsuc n) m = lift (raise Kind.assertion_error "")

  unfoldable pub run_network_git_command : List String → FilePath → ℕ → Env → Exec (World S) String
  unfolding run_with_retries
  run_network_git_command command cwd timeout extra_env =
      run_with_retries C.max_network_retries (run_git_command command cwd timeout extra_env)

  -- `try: m finally: cleanup`
  abbrev pub finally : {A : Type 0} → Exec (World S) A → (S → S) → Exec (World S) A
  finally m cleanup w = ((m w).0, (changes cleanup (m w).1).1)

  abbrev pub askpass_body :
      {A : Type 0} → FilePath → String → String → (Env → Exec (World S) A) → Exec (World S) A
  askpass_body askpass_path token username body = do
    asks (M.write_text askpass_path askpass_script)
    asks (M.chmod askpass_path)
    body (
        ("GIT_ASKPASS", path_str askpass_path)
        ∷ ("GIT_ASKPASS_TOKEN", token)
        ∷ ("GIT_ASKPASS_USERNAME", username)
        ∷ [])

  abbrev pub askpass_dir :
      {A : Type 0} → String → String → (Env → Exec (World S) A) → Exec (World S) A
  askpass_dir token username body = do
    dir ← asks M.mkdtemp
    asks (M.chmod dir)
    finally (askpass_body (dir / "askpass.sh") token username body) (M.rmtree dir)

  -- `with self._ephemeral_askpass_env(access_token, access_username) as extra_env: body`
  abbrev pub with_askpass :
      {A : Type 0} → Option String → String → (Env → Exec (World S) A) → Exec (World S) A
  with_askpass none username body = body []
  with_askpass (some token) username body =
      if truthy token then askpass_dir token username body else body []
