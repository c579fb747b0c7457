-- ===== src/Scanners/Interface.antt =====
-- src/protecto_prime_agent/scanners/interface.py and config.py
use partha_prime_agent.Prelude.{ℕ, String, Bool, true, false, Option, List, [], ◌∷◌, ◌++◌, any}
use partha_prime_agent.Prelude.Result.{Result}
use partha_prime_agent.Enums.{ScannerExecutionStatus}
use partha_prime_agent.Json.{ℤ, Value}
use partha_prime_agent.Paths.{FilePath}

pub record ScanRequest : Type 0 where
  pub workspace_path : FilePath
  pub commit_sha : String
  pub workflow_run_id : String
  pub repository_id : String
  pub enabled_scanners : Option (List String)

-- The places of a finding are whatever the tool's JSON had there.
pub record NormalizedFinding : Type 0 where
  pub scanner_name : String
  pub rule_id : String
  pub severity : String
  pub category : String
  pub confidence : String
  pub message : String
  pub file_path : Option Value
  pub line_number : Option Value
  pub column_number : Option Value
  pub fingerprint : String
  pub commit_sha : String
  pub raw_details_json : String

pub record ScanResult : Type 0 where
  pub scanner_name : String
  pub status : ScannerExecutionStatus
  pub findings : List NormalizedFinding
  pub exit_code : Option ℤ
  pub started_at : Option ℕ
  pub completed_at : Option ℕ
  pub duration_seconds : Option ℕ
  pub tool_version : Option String
  pub error_message : Option String

pub record AggregatedScanResult : Type 0 where
  pub workflow_run_id : String
  pub commit_sha : String
  pub scan_results : List ScanResult
  pub started_at : ℕ
  pub completed_at : ℕ

-- `AggregatedScanResult.findings`
abbrev pub all_findings : List ScanResult → List NormalizedFinding
all_findings [] = []
all_findings (r ∷ rs) = r.findings ++ all_findings rs

-- `status in (FAILED, TIMEOUT)`
abbrev pub is_failure : ScannerExecutionStatus → Bool
is_failure ScannerExecutionStatus.failed = true
is_failure ScannerExecutionStatus.timeout = true
is_failure _ = false

-- `AggregatedScanResult.has_failures`
unfoldable pub has_failures : List ScanResult → Bool
has_failures = any (λ (r : ScanResult). is_failure r.status)

-- `class ScannerAdapter(ABC)`: what the runner asks of a tool.
pub record ScannerAdapter : Type 0 where
  pub name : String
  pub category_default : String
  pub success_exit_codes : List ℤ
  pub requires_network : Bool
  pub binary_name : String
  pub version_args : List String
  pub should_run : ScanRequest → Bool
  pub build_command : ScanRequest → String → FilePath → List String
  pub read_output : String → FilePath → Result String
  pub parse_output : String → ScanRequest → Result (List NormalizedFinding)
