-- ===== src/Tests/WorkspaceRuns.antt =====
-- A workspace on a machine that keeps two bits: whether the directory is there, and whether the
-- network is calm, which it is after the first command.
use partha_prime_agent.Prelude.{
  ◌↔◌, ◌≢◌, ℕ, suc, ◌+◌, ◌≤◌, String, Bool, true, false, none, some, [], ◌∷◌, ◌++◌, ◌≡◌, refl,
  length, All, split, arith,
}
use partha_prime_agent.Prelude.Result.{ok, Kind, raise, exception}
use partha_prime_agent.Prelude.Exec.{Exec, pure}
use partha_prime_agent.Prelude.Exec.Keeps.{Keeps}
use partha_prime_agent.Json.{pos}
use partha_prime_agent.Paths.{FilePath, path, ◌/◌}
use partha_prime_agent.Scm.{PullRequestEvent, ScmProvider}
use partha_prime_agent.Scm.Github.{github_provider}
use partha_prime_agent.Scanners.Execution.{Run, completed, timed_out}
use partha_prime_agent.Workspace.Names.{
  all_chars, build_workspace_path, decompose_workspace_path, validate_commit_sha,
}
use partha_prime_agent.Workspace.Names.Location.{
  decompose-build_workspace_path, build_workspace_path-injective, extended,
}
use partha_prime_agent.Workspace.State.{Command, Machine, Config, World}
use partha_prime_agent.Workspace.Git.{git_result, retry, run_git_command, run_network_git_command}
use partha_prime_agent.Workspace.Git.Retry.{
  retry_recovers, run_network_git_command_bounds, backoffs, starts_of, world_before, AllFail,
  fails_for_now,
}
use partha_prime_agent.Workspace.Lifecycle.{prepare_workspace, located}
use partha_prime_agent.Workspace.Lifecycle.Keeps.{IsPermitted}
use partha_prime_agent.Workspace.Lifecycle.Removal.{
  prepare_workspace-gone, prepare_workspace-IsPermitted,
}
use partha_prime_agent.Workspace.Lifecycle.Refusal.{IsPlaced, located-ok}
use partha_prime_agent.Workspace.Stale.{prune, prune_empty_parents, cleanup_stale_workspaces}
use partha_prime_agent.Workspace.Stale.Prune.{prune_empty_parents_enough}
use partha_prime_agent.Workspace.Stale.Sweep.{cleanup_stale_workspaces-Keeps}
use partha_prime_agent.Tests.Toy.{toy, toy_config}

abbrev Bits : Type 0
Bits = Bool × Bool

-- The first command runs out of time.
abbrev answer : Command → Bits → Run × Bits
answer c (there, true) = (completed "out" "" (pos 0), (there, true))
answer c (there, false) = (timed_out, (there, true))

abbrev machine : Machine Bits
machine = record {
  resolve = λ p. p;
  exists = λ p s. s.0;
  mkdir = λ p s. (ok tt, (true, s.1));
  rmtree = λ p s. (false, s.1);
  write_text = λ p text. pure tt;
  chmod = λ p. pure tt;
  mkdtemp = pure (path "/tmp/askpass");
  disk_free = λ p. pure 9;
  tree_size = λ p. pure 1;
  run_process = answer;
  write_audit = λ row. pure tt;
  glob = λ s. [];
  is_dir = λ p s. true;
  mtime = λ p s. some 0;
  is_empty = λ p s. true;
  rmdir = λ p s. (ok tt, (false, s.1));
}

abbrev root : FilePath
root = path "/ws"

abbrev config : Config
config = record {
  workspace_root = root;
  clone_timeout = 300;
  fetch_timeout = 300;
  max_workspace_size_mb = pos 0;
  retention_hours = pos 24;
  max_network_retries = pos 3;
}

abbrev sha : String
sha = "0123456789abcdef0123456789abcdef01234567"

abbrev event : PullRequestEvent
event = record {
  event_type = "pull_request";
  repository_id = "1";
  pull_request_id = "7";
  source_branch = "feature";
  target_branch = "main";
  source_commit_sha = sha;
  target_commit_sha = sha;
  repository_full_name = "o/r";
  provider_event_id = some "opened";
}

abbrev run_id : String
run_id = "u"

abbrev place : FilePath
place = record { root = "/"; parts = "ws" ∷ "1" ∷ "7" ∷ sha ∷ "u" ∷ [] }

abbrev world : Bool → World Bits
world calm = record { outside = (false, calm); commands = []; sleeps = []; history = [] }

built : build_workspace_path (λ p. p) root event "u" ≡ ok place
unfolding build_workspace_path path ◌/◌ split
built = refl

decompose-build_workspace_path_example :
    decompose_workspace_path (λ p. p) root place ≡ ("1", "7", "u")
decompose-build_workspace_path_example =
    decompose-build_workspace_path (λ p. p) root event "u" place built refl

build_workspace_path-injective_example :
    (event.repository_id ≡ event.repository_id)
    × (event.pull_request_id ≡ event.pull_request_id)
    × (event.source_commit_sha ≡ event.source_commit_sha)
    × (run_id ≡ run_id)
build_workspace_path-injective_example =
    build_workspace_path-injective (λ p. p) root place event event run_id run_id built built refl
      refl

abbrev fetch : Exec (World Bits) String
fetch = run_git_command toy machine config ("git" ∷ "fetch" ∷ []) root 300 []

first_fails : AllFail toy machine config fetch 0 1 (world false)
unfolding AllFail run_git_command git_result
first_fails = (refl, tt)

then_calm :
    fails_for_now (fetch (world_before toy machine config fetch 0 1 (world false))).0 ≡ false
unfolding world_before run_git_command git_result
then_calm = refl

retry_recovers_example :
    retry toy machine config 3 0 fetch (world false)
    ≡ fetch (world_before toy machine config fetch 0 1 (world false))
retry_recovers_example =
    retry_recovers toy machine config fetch 1 3 0 (world false) (omega arith) first_fails then_calm

run_network_git_command_bounds_example :
    (k : ℕ) × (k ≤ 3)
    × ((run_network_git_command toy machine config
          ("git" ∷ "fetch" ∷ [])
          root
          300
          []
          (world false)).1.sleeps
        ≡ [] ++ backoffs 0 k)
    × ((run_network_git_command toy machine config
          ("git" ∷ "fetch" ∷ [])
          root
          300
          []
          (world false)).1.commands
        ≡ [] ++ starts_of toy machine config ("git" ∷ "fetch" ∷ []) root 300 [] (suc k))
run_network_git_command_bounds_example =
    run_network_git_command_bounds toy machine config ("git" ∷ "fetch" ∷ []) root 300 [] 3
      (world false) refl

located_there : located toy machine config (github_provider toy toy_config) event "u" ≡ ok place
unfolding located path ◌/◌ validate_commit_sha build_workspace_path split
located_there = refl

prepare_workspace-IsPermitted_example :
    All
      (IsPermitted event place)
      (prepare_workspace toy machine config
        (github_provider toy toy_config)
        event
        "u"
        (world false)).1.commands
prepare_workspace-IsPermitted_example =
    prepare_workspace-IsPermitted toy machine config (github_provider toy toy_config) event "u"
      place (world false) located_there refl

-- A provider without an address to clone from.
abbrev silent : ScmProvider
silent = record {
  validate_webhook = λ body signature. ok true;
  parse_pull_request_event = λ v. ok none;
  get_clone_info = λ e. ok none;
}

located-silent : located toy machine config silent event "u" ≡ ok place
unfolding located path ◌/◌ validate_commit_sha build_workspace_path split
located-silent = refl

refused :
    (prepare_workspace toy machine config silent event "u" (world false)).0
    ≡ raise Kind.value_error "clone_info_unavailable"
unfolding prepare_workspace path ◌/◌ validate_commit_sha build_workspace_path split
refused = refl

prepare_workspace-gone_example :
    machine.exists place
      (prepare_workspace toy machine config silent event "u" (world false)).1.outside
    ≡ false
prepare_workspace-gone_example =
    prepare_workspace-gone toy machine config (λ p s. refl) (λ p row s. refl) silent event "u" place
      (exception Kind.value_error "clone_info_unavailable") (world false) located-silent refused

prune_empty_parents_enough_example :
    prune toy machine config
      (length (extended root ("1" ∷ [])).parts + 2)
      (extended root ("1" ∷ []))
      (world true)
    ≡ prune_empty_parents toy machine config (extended root ("1" ∷ [])) (world true)
prune_empty_parents_enough_example =
    prune_empty_parents_enough toy machine config ("1" ∷ []) 2 (world true)

-- The network stays calm.
cleanup_stale_workspaces-Keeps_example :
    Keeps
      (λ (w : World Bits). w.outside.1 ≡ true)
      (cleanup_stale_workspaces toy machine config 100000 none)
cleanup_stale_workspaces-Keeps_example =
    cleanup_stale_workspaces-Keeps toy machine config 100000 none (λ s. s.1 ≡ true) (λ row s j. j)
      (λ d s above there empty j. j) (λ p s is_place expired j. j) (λ s. tt)

located-ok_example :
    (located toy machine config silent event "u" ≡ ok place)
    ↔ IsPlaced toy machine config silent event "u" place
located-ok_example = located-ok toy machine config silent event "u" place

-- Bitbucket writes the uuid of a repository in braces.
abbrev braced : PullRequestEvent
braced = record event { repository_id = "{5f1c2d}" }

braced-unplaced : (dir : FilePath) → located toy machine config silent braced "u" ≢ ok dir
unfolding all_chars
braced-unplaced dir h =
    let safe = ((located-ok toy machine config silent braced "u" dir).0 h).repository.safe in cc
