-- ===== src/Tests/RunnerRuns.antt =====
-- A scan on a machine that keeps one bit, whether the output directory is there. Every tool is
-- installed and reports one item.
use partha_prime_agent.Prelude.{Bool, true, false, none, some, [], ◌∷◌, ◌≡◌, refl, All, split}
use partha_prime_agent.Prelude.Result.{ok}
use partha_prime_agent.Json.{pos, str, arr, obj, cons, nil, field, end}
use partha_prime_agent.Platform.{Platform}
use partha_prime_agent.Prelude.Exec.{pure}
use partha_prime_agent.Prelude.Task.Ends.{Ends}
use partha_prime_agent.Prelude.Task.Gather.{Outcome}
use partha_prime_agent.Paths.{FilePath, path, ◌/◌}
use partha_prime_agent.Scanners.Execution.{ResourceLimits, ExecutionOutcome}
use partha_prime_agent.Scanners.Interface.{ScanRequest, AggregatedScanResult}
use partha_prime_agent.Scanners.Registry.{ScannerRegistry}
use partha_prime_agent.Scanners.Adapters.{build_default_registry}
use partha_prime_agent.Scanners.Adapters.Ruff
use partha_prime_agent.Scanners.Runner.Machine.{Machine, ScannerRuntimeConfig}
use partha_prime_agent.Scanners.Runner.One.{run_one}
use partha_prime_agent.Scanners.Runner.Scan.{run_scan, build_scan_output_dir}
use partha_prime_agent.Scanners.Runner.Described.{IsResultOf, Unmade, run_one-IsResultOf}
use partha_prime_agent.Scanners.Runner.Complete.{IsAnswered, run_scan-IsAnswered, run_scan-gone}
use partha_prime_agent.Scanners.Runner.Findings.{IsStamped, run_scan-IsStamped}
use partha_prime_agent.Tests.Toy.{toy, toy_host}

-- What `json.loads` makes of a report.
abbrev platform : Platform
platform = record toy {
  json_loads = λ text. some (arr (cons (obj (field "code" (str "E1") end)) nil));
}

abbrev reported : ExecutionOutcome
reported = record {
  stdout = "report";
  stderr = "";
  exit_code = some (pos 1);
  timed_out = false;
  error = none;
}

abbrev machine : Machine Bool
machine = record {
  resolve = λ p. p;
  exists = λ p s. s;
  mkdir = λ p s. (ok tt, true);
  rmtree = λ p s. false;
  write_text = λ p text. pure tt;
  which = λ name s. some "/bin/tool";
  now = λ s. (0, s);
  execute = λ command cwd env limits. pure reported;
  write_audit = λ row. pure tt;
  environ = [];
  kind_name = λ k. "Exception";
}

abbrev limits : ResourceLimits
limits = record {
  timeout_seconds = pos 120;
  cpu_seconds = pos 90;
  memory_mb = pos 512;
  max_processes = pos 32;
  cpu_cores = "1.0";
}

abbrev config : ScannerRuntimeConfig
config = record {
  enabled_scanners = "ruff" ∷ "bandit" ∷ [];
  output_root = path "/out";
  limits = limits;
  tool_versions = [];
}

abbrev request : ScanRequest
request = record {
  workspace_path = path "/w";
  commit_sha = "aaa";
  workflow_run_id = "u";
  repository_id = "u";
  enabled_scanners = none;
}

abbrev registry : ScannerRegistry
registry = build_default_registry platform toy_host (path "/rules")

abbrev output_dir : FilePath
output_dir = record { root = "/"; parts = "out" ∷ "u" ∷ [] }

placed : build_scan_output_dir platform machine config "u" ≡ ok output_dir
unfolding build_scan_output_dir path ◌/◌ split
placed = refl

run_one-IsResultOf_example :
    Ends
      (Outcome (IsResultOf (Ruff.adapter platform toy_host) request) (Unmade machine))
      (run_one platform machine config (Ruff.adapter platform toy_host) request output_dir)
run_one-IsResultOf_example =
    run_one-IsResultOf platform machine config (Ruff.adapter platform toy_host) request output_dir

run_scan-IsAnswered_example :
    (scan : AggregatedScanResult) × ((run_scan platform machine config registry request
        (1 ∷ 0 ∷ 1 ∷ [])
        false).0
      ≡ ok scan)
    × IsAnswered platform machine config registry request scan
run_scan-IsAnswered_example =
    run_scan-IsAnswered platform machine config registry request (1 ∷ 0 ∷ 1 ∷ []) output_dir false
      placed (λ d t. refl)

run_scan-gone_example :
    machine.exists output_dir
      (run_scan platform machine config registry request (1 ∷ 0 ∷ []) false).1
    ≡ false
run_scan-gone_example =
    run_scan-gone platform machine config (λ p s. refl) (λ p row s. refl) registry request
      (1 ∷ 0 ∷ []) output_dir false placed refl

scanned :
    (run_scan platform machine config registry request [] false).0
    ≡ ok
        (run_scan-IsAnswered platform machine config registry request [] output_dir false placed
          (λ d t. refl)).0
scanned =
    (run_scan-IsAnswered platform machine config registry request [] output_dir false placed
      (λ d t. refl)).1

run_scan-IsStamped_example :
    All
      (IsStamped platform toy_host request)
      (run_scan-IsAnswered platform machine config registry request [] output_dir false placed
        (λ d t. refl)).0.scan_results
run_scan-IsStamped_example =
    run_scan-IsStamped platform toy_host request machine config (path "/rules") [] false _ scanned
