-- ===== src/Scanners/Execution.antt =====
-- src/protecto_prime_agent/scanners/execution.py
pub mod Environment
use partha_prime_agent.Prelude.{
  ℕ, String, Bool, true, false, Option, none, some, List, [], ◌∷◌, ◌++◌, ◌<>◌, show_ℕ, ◌==◌,
  string_eq, if◌then◌else◌,
}
use partha_prime_agent.Prelude.Result.{Result, ok, err, Exception}
use partha_prime_agent.Json.{ℤ, show_ℤ}
use partha_prime_agent.Paths.{FilePath, path_str}

-- A dict of texts, each key once, in insertion order.
abbrev pub Env : Type 0
Env = List (String × String)

unfoldable pub lookup : String → Env → Option String
lookup k [] = none
lookup k ((j, v) ∷ e) = if j == k then some v else lookup k e

-- `env[key] = value`
unfoldable pub assign : String → String → Env → Env
assign k v [] = (k, v) ∷ []
assign k v ((j, w) ∷ e) = if j == k then (k, v) ∷ e else (j, w) ∷ assign k v e

-- `env.update(extra)`
unfoldable pub update : Env → Env → Env
unfolding assign
update [] env = env
update ((k, v) ∷ extra) env = update extra (assign k v env)

-- `env.setdefault(key, value)`
unfoldable pub set_default : String → String → Env → Env
unfolding lookup assign
set_default k v env = elim (lookup k env) [ some w ↦ env | none ↦ assign k v env ]

abbrev pub scanner_env_allowlist : List String
scanner_env_allowlist = "PATH" ∷ "HOME" ∷ "LANG" ∷ "LC_ALL" ∷ "TMPDIR" ∷ "PYTHONHASHSEED" ∷ []

-- `{key: os.environ[key] for key in allowlist if key in os.environ}`
unfoldable pub select : List String → Env → Env
unfolding lookup
select [] environ = []
select (k ∷ keys) environ =
    let rest = select keys environ in
    elim (lookup k environ) [ none ↦ rest | some v ↦ (k, v) ∷ rest ]

unfoldable pub build_minimal_env : Env → Env → Env
unfolding select set_default update
build_minimal_env environ extra = update extra (
    assign "SEMGREP_SEND_METRICS" "off"
      (set_default "LANG" "C.UTF-8" (select scanner_env_allowlist environ)))

-- `cpu_cores` is a float, which only `str` is asked of.
pub record ResourceLimits : Type 0 where
  pub timeout_seconds : ℤ
  pub cpu_seconds : ℤ
  pub memory_mb : ℤ
  pub max_processes : ℤ
  pub cpu_cores : String

pub record ExecutionOutcome : Type 0 where
  pub stdout : String
  pub stderr : String
  pub exit_code : Option ℤ
  pub timed_out : Bool
  pub error : Option String

-- How `asyncio.wait_for(... subprocess.run ...)` ends.
pub data Run : Type 0 where
  completed : String → String → ℤ → Run
  timed_out : Run
  file_not_found : String → Run
  -- any other exception, which no clause catches
  raises : Exception → Run

abbrev pub outcome : String → Run → Result ExecutionOutcome
outcome missing (raises x) = err x
outcome missing (completed out errors code) = ok (record {
  stdout = out;
  stderr = errors;
  exit_code = some code;
  timed_out = false;
  error = none;
})
outcome missing Run.timed_out =
    ok (record { stdout = ""; stderr = ""; exit_code = none; timed_out = true; error = none })
outcome missing (file_not_found text) = ok (record {
  stdout = "";
  stderr = text;
  exit_code = none;
  timed_out = false;
  error = some missing;
})

-- `LocalProcessExecutionBackend.run`, over what runs a command in a directory and an environment
unfoldable pub run_local :
    (List String → FilePath → Env → ResourceLimits → Run)
    → List String
    → FilePath
    → Env
    → ResourceLimits
    → Result ExecutionOutcome
run_local subprocess command cwd env limits =
    outcome "tool_not_available" (subprocess command cwd env limits)

-- `for key, value in env.items(): argv += ["--env", f"{key}={value}"]`
unfoldable pub env_flags : Env → List String
env_flags [] = []
env_flags ((k, v) ∷ e) = "--env" ∷ (k <> ("=" <> v)) ∷ env_flags e

-- `ContainerExecutionBackend.build_docker_argv`
module _ (image : String) (command : List String) (workspace_path output_path : FilePath)
    (limits : ResourceLimits) (env : Env) where
  abbrev pub isolation_flags : List String
  isolation_flags =
      "--rm"
      ∷ "--network"
      ∷ "none"
      ∷ "--read-only"
      ∷ "--security-opt"
      ∷ "no-new-privileges"
      ∷ "--cap-drop"
      ∷ "ALL"
      ∷ "--user"
      ∷ "65534:65534"
      ∷ "--pids-limit"
      ∷ show_ℤ limits.max_processes
      ∷ "--memory"
      ∷ (show_ℤ limits.memory_mb <> "m")
      ∷ "--cpus"
      ∷ limits.cpu_cores
      ∷ "--tmpfs"
      ∷ "/tmp:rw,noexec,nosuid,size=67108864"
      ∷ []

  abbrev pub mount_flags : List String
  mount_flags =
      "--volume"
      ∷ (path_str workspace_path <> ":/workspace:ro")
      ∷ "--volume"
      ∷ (path_str output_path <> ":/output:rw")
      ∷ "--workdir"
      ∷ "/workspace"
      ∷ []

  unfoldable pub build_docker_argv : List String
  unfolding env_flags
  build_docker_argv =
      "docker" ∷ "run" ∷ (isolation_flags ++ (env_flags env ++ (mount_flags ++ (image ∷ command))))

  -- `ContainerExecutionBackend.run`
  unfoldable pub run_container : (List String → ResourceLimits → Run) → Result ExecutionOutcome
  unfolding build_docker_argv
  run_container subprocess = outcome "docker_not_available" (subprocess build_docker_argv limits)
