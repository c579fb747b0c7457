-- ===== src/Tests/OrchestrationRuns.antt =====
-- Runs of a scan with one finding that the database refuses.
use partha_prime_agent.Prelude.{ℕ, true, false, none, some, List, [], ◌∷◌, ◌++◌, ◌≡◌, refl}
use partha_prime_agent.Prelude.Result.{ok, Kind, raise}
use partha_prime_agent.Prelude.Exec.{pure}
use partha_prime_agent.Enums.{ScannerExecutionStatus}
use partha_prime_agent.Json.{str}
use partha_prime_agent.Paths.{path}
use partha_prime_agent.Scm.{PullRequestEvent}
use partha_prime_agent.Scm.Github.{github_provider}
use partha_prime_agent.Scanners.Interface.{NormalizedFinding, ScanResult, AggregatedScanResult}
use partha_prime_agent.Orchestration.Defs.{Accepts, Services, World, Call, conclude, run}
use partha_prime_agent.Orchestration.Calls.{Protocol, run-Protocol}
use partha_prime_agent.Orchestration.Rows.{invalid}
use partha_prime_agent.Orchestration.Stuck.{conclude-refused}
use partha_prime_agent.Models.{WorkflowRun}
use partha_prime_agent.Orchestration.Audited.{OnlyAudit, Audited-refl}
use partha_prime_agent.Orchestration.Ending.{Ended}
use partha_prime_agent.Orchestration.Ending.Whole.{run-Ended}
use partha_prime_agent.Tests.Toy.{toy, toy_config, empty_db}

-- A line number that is a text.
abbrev finding : NormalizedFinding
finding = record {
  scanner_name = "ruff";
  rule_id = "E1";
  severity = "low";
  category = "style";
  confidence = "medium";
  message = "m";
  file_path = none;
  line_number = some (str "three");
  column_number = none;
  fingerprint = "f";
  commit_sha = "aaa";
  raw_details_json = "{}";
}

-- Only a finding without a line number is taken.
abbrev accepts : Accepts
accepts = record {
  scan_run = λ sha r. true;
  finding = λ f. elim f.line_number [ none ↦ true | some v ↦ false ];
}

abbrev result : ScanResult
result = record {
  scanner_name = "ruff";
  status = ScannerExecutionStatus.completed;
  findings = finding ∷ [];
  exit_code = none;
  started_at = none;
  completed_at = none;
  duration_seconds = none;
  tool_version = none;
  error_message = none;
}

abbrev aggregated : AggregatedScanResult
aggregated = record {
  workflow_run_id = "u";
  commit_sha = "aaa";
  scan_results = result ∷ [];
  started_at = 0;
  completed_at = 1;
}

abbrev services : Services (Unit {0})
services = record {
  prepare_workspace = λ provider event id. pure "/w";
  mark_processing_complete = λ p. pure true;
  run_scan = λ request. pure aggregated;
  write_audit = λ row. pure tt;
}

abbrev event : PullRequestEvent
event = record {
  event_type = "pull_request";
  repository_id = "1";
  pull_request_id = "7";
  source_branch = "feature";
  target_branch = "main";
  source_commit_sha = "aaa";
  target_commit_sha = "bbb";
  repository_full_name = "o/r";
  provider_event_id = some "opened";
}

abbrev world : World (Unit {0})
world = record { shared = record { db = empty_db; outside = tt }; calls = [] }

conclude-refused_example :
    conclude toy services accepts
      (λ n. n)
      (github_provider toy toy_config)
      event
      0
      1
      3
      "c1"
      (path "/w")
      (ok aggregated)
      world
    ≡ (raise Kind.database_error invalid, world)
conclude-refused_example =
    conclude-refused toy services accepts (λ n. n) (github_provider toy toy_config) event 0 1 3 "c1"
      (path "/w") aggregated world refl

run-Protocol_example :
    (made : List Call) × ((run toy services accepts
        (λ n. n)
        (github_provider toy toy_config)
        event
        0
        1
        3
        "c1"
        world).1.calls
      ≡ [] ++ made)
    × Protocol toy services accepts
        (λ n. n)
        (github_provider toy toy_config)
        event
        0
        1
        3
        "c1"
        world
        made
run-Protocol_example =
    run-Protocol toy services accepts (λ n. n) (github_provider toy toy_config) event 0 1 3 "c1"
      world

services-OnlyAudit : OnlyAudit services
services-OnlyAudit = record {
  prepares = λ provider e id s. Audited-refl s.db;
  scans = λ request s. Audited-refl s.db;
  releases = λ dir s. Audited-refl s.db;
  writes = λ row s. Audited-refl s.db;
}

abbrev workflow_run : ℕ → WorkflowRun
workflow_run id = record {
  id = id;
  pull_request_id = 1;
  workflow_type = "code_review";
  execution_status = "queued";
  correlation_id = "c1";
  trigger_source = "webhook";
  error_message = none;
  started_at = none;
  completed_at = none;
  updated_at = none;
}

-- Two runs wait.
abbrev waiting : World (Unit {0})
waiting = record {
  shared = record {
    db = record empty_db { workflow_runs = workflow_run 3 ∷ workflow_run 4 ∷ [] };
    outside = tt;
  };
  calls = [];
}

run-Ended_example :
    Ended toy services accepts
      (λ n. n)
      (github_provider toy toy_config)
      event
      0
      1
      3
      "c1"
      waiting
      (run toy services accepts
        (λ n. n)
        (github_provider toy toy_config)
        event
        0
        1
        3
        "c1"
        waiting).1.shared.db
run-Ended_example =
    run-Ended toy services accepts (λ n. n) (github_provider toy toy_config) event 0 1 3 "c1"
      waiting services-OnlyAudit
