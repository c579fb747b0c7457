-- ===== src/Tests/WiredRuns.antt =====
-- The default services on machines that leave the database alone, and a scan by them, stored.
use partha_prime_agent.Prelude.{
  ℕ, true, false, none, some, List, [], ◌∷◌, ◌++◌, ◌≡◌, refl, map, any, not, split,
}
use partha_prime_agent.Prelude.Result.{ok}
use partha_prime_agent.Prelude.Exec.{pure}
use partha_prime_agent.Json.{pos, str, arr, obj, cons, nil, field, end}
use partha_prime_agent.Paths.{FilePath, path, ◌/◌}
use partha_prime_agent.Platform.{Platform}
use partha_prime_agent.Database.{with_session}
use partha_prime_agent.Scanners.Execution.{ResourceLimits, ExecutionOutcome, timed_out}
use partha_prime_agent.Scanners.Interface.{
  ScanRequest, ScanResult, AggregatedScanResult, NormalizedFinding, all_findings,
}
use partha_prime_agent.Scanners.Registry.{ScannerRegistry}
use partha_prime_agent.Scanners.Adapters.{build_default_registry}
use partha_prime_agent.Scanners.Runner.Machine as Runner
use partha_prime_agent.Scanners.Runner.Scan.{build_scan_output_dir, selected}
use partha_prime_agent.Scanners.Runner.Complete.{run_scan-IsAnswered}
use partha_prime_agent.Workspace.State as Workspace
use partha_prime_agent.Orchestration.Defs.{Accepts, Shared, persist_results}
use partha_prime_agent.Orchestration.Rows.{refused}
use partha_prime_agent.Orchestration.Stored.{mark_of, mark_of_finding}
use partha_prime_agent.Orchestration.Audited.{OnlyAudit}
use partha_prime_agent.Orchestration.Quiet.{
  QuietWorkspaces, QuietRunner, default_services-OnlyAudit,
}
use partha_prime_agent.Orchestration.Wired.{
  audited_runner, default_services, label_of, label_of_adapter, scan-stored,
}
use partha_prime_agent.Tests.Toy.{toy, toy_host, empty_db}

abbrev Place : Type 0
Place = Shared (Unit {0})

abbrev shared : Place
shared = record { db = empty_db; outside = tt }

-- Every report is a list with one item.
abbrev platform : Platform
platform = record toy {
  json_loads = λ text. some (arr (cons (obj (field "code" (str "E1") end)) nil));
}

abbrev reported : ExecutionOutcome
reported = record {
  stdout = "report";
  stderr = "";
  exit_code = some (pos 1);
  timed_out = false;
  error = none;
}

abbrev pub machine : Runner.Machine Place
machine = record {
  resolve = λ p. p;
  exists = λ p s. true;
  mkdir = λ p. pure tt;
  rmtree = λ p s. s;
  write_text = λ p text. pure tt;
  which = λ name s. some "/bin/tool";
  now = λ s. (0, s);
  execute = λ command cwd env limits. pure reported;
  write_audit = λ row. pure tt;
  environ = [];
  kind_name = λ k. "Exception";
}

abbrev pub workspaces : Workspace.Machine Place
workspaces = record {
  resolve = λ p. p;
  exists = λ p s. true;
  mkdir = λ p. pure tt;
  rmtree = λ p s. s;
  write_text = λ p text. pure tt;
  chmod = λ p. pure tt;
  mkdtemp = pure (path "/tmp/askpass");
  disk_free = λ p. pure 9;
  tree_size = λ p. pure 1;
  run_process = λ c s. (timed_out, s);
  write_audit = λ row. pure tt;
  glob = λ s. [];
  is_dir = λ p s. true;
  mtime = λ p s. some 0;
  is_empty = λ p s. true;
  rmdir = λ p. pure tt;
}

abbrev pub settings : Workspace.Config
settings = record {
  workspace_root = path "/ws";
  clone_timeout = 300;
  fetch_timeout = 300;
  max_workspace_size_mb = pos 0;
  retention_hours = pos 24;
  max_network_retries = pos 3;
}

abbrev limits : ResourceLimits
limits = record {
  timeout_seconds = pos 120;
  cpu_seconds = pos 90;
  memory_mb = pos 512;
  max_processes = pos 32;
  cpu_cores = "1.0";
}

abbrev pub config : Runner.ScannerRuntimeConfig
config = record {
  enabled_scanners = "ruff" ∷ "bandit" ∷ [];
  output_root = path "/out";
  limits = limits;
  tool_versions = [];
}

abbrev request : ScanRequest
request = record {
  workspace_path = path "/w";
  commit_sha = "aaa";
  workflow_run_id = "u";
  repository_id = "u";
  enabled_scanners = none;
}

abbrev pub registry : ScannerRegistry
registry = build_default_registry platform toy_host (path "/rules")

abbrev pub schedule : ScanRequest → List ℕ
schedule asked = 1 ∷ 0 ∷ 1 ∷ []

abbrev output_dir : FilePath
output_dir = record { root = "/"; parts = "out" ∷ "u" ∷ [] }

abbrev audited : Runner.Machine Place
audited = audited_runner platform workspaces settings machine config registry schedule

placed : build_scan_output_dir platform audited config "u" ≡ ok output_dir
unfolding build_scan_output_dir path ◌/◌ split
placed = refl

abbrev scan : AggregatedScanResult
scan =
    (run_scan-IsAnswered platform audited config registry request (schedule request) output_dir
      shared placed (λ d t. refl)).0

returned :
    ((default_services platform workspaces settings machine config registry schedule).run_scan
      request shared).0
    ≡ ok scan
unfolding default_services
returned =
    (run_scan-IsAnswered platform audited config registry request (schedule request) output_dir
      shared placed (λ d t. refl)).1

abbrev takes_all : Accepts
takes_all = record { scan_run = λ sha r. true; finding = λ f. true }

no_finding_refused :
    (fs : List NormalizedFinding)
    → any (λ (f : NormalizedFinding). not (takes_all.finding f)) fs ≡ false
no_finding_refused [] = refl
no_finding_refused (f ∷ fs) = no_finding_refused fs

nothing_refused : (rs : List ScanResult) → refused takes_all 3 scan.commit_sha rs ≡ false
nothing_refused [] = refl
nothing_refused (r ∷ rs) = rw (no_finding_refused r.findings) (nothing_refused rs)

scan-stored_example :
    ((with_session (persist_results takes_all 3 scan.commit_sha scan.scan_results) empty_db).0
      ≡ ok tt)
    × (map label_of
          (with_session
            (persist_results takes_all 3 scan.commit_sha scan.scan_results)
            empty_db).1.scan_runs
        ≡ map label_of empty_db.scan_runs
          ++ map (label_of_adapter "aaa") (selected platform audited config registry request))
    × (map mark_of
          (with_session
            (persist_results takes_all 3 scan.commit_sha scan.scan_results)
            empty_db).1.findings
        ≡ map mark_of empty_db.findings ++ map (mark_of_finding 3) (all_findings scan.scan_results))
scan-stored_example =
    scan-stored platform workspaces settings machine config registry schedule takes_all 3 request
      shared scan empty_db returned (nothing_refused scan.scan_results)

pub quiet_workspaces : QuietWorkspaces workspaces
quiet_workspaces = record {
  mkdir = λ p s. refl;
  rmtree = λ p s. refl;
  write_text = λ p text s. refl;
  chmod = λ p s. refl;
  mkdtemp = λ s. refl;
  disk_free = λ p s. refl;
  tree_size = λ p s. refl;
  run_process = λ c s. refl;
}

pub quiet_runner : QuietRunner machine
quiet_runner = record {
  mkdir = λ p s. refl;
  rmtree = λ p s. refl;
  write_text = λ p text s. refl;
  now = λ s. refl;
  execute = λ command cwd env limits s. refl;
}

default_services-OnlyAudit_example :
    OnlyAudit (default_services platform workspaces settings machine config registry schedule)
default_services-OnlyAudit_example =
    default_services-OnlyAudit platform workspaces settings machine config registry schedule
      quiet_workspaces quiet_runner
