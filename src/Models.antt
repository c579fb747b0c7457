-- ===== src/Models.antt =====
-- src/protecto_prime_agent/models/*.py: the rows that the program writes. A primary key is a
-- number; defaults that the database layer fills in for created_at and updated_at are left out,
-- so updated_at holds what the program itself wrote there.
use partha_prime_agent.Prelude.{ℕ, String, Bool, Option}
use partha_prime_agent.Json.{ℤ, Value}

pub record Repository : Type 0 where
  pub id : ℕ
  pub provider : String
  pub provider_repo_id : String
  pub name : String
  pub default_branch : String
  pub is_active : Bool

pub record PullRequest : Type 0 where
  pub id : ℕ
  pub repository_id : ℕ
  pub provider_pr_id : String
  pub source_branch : String
  pub target_branch : String
  pub source_commit_sha : String
  pub target_commit_sha : String
  pub execution_status : String
  pub merge_decision : String
  pub updated_at : Option ℕ

pub record WebhookEvent : Type 0 where
  pub id : ℕ
  pub repository_id : Option ℕ
  pub provider_event_id : Option String
  pub event_type : String
  pub payload_hash : String
  pub processed : Bool
  pub payload_excerpt : Option String
  pub processed_at : Option ℕ

pub record WorkflowRun : Type 0 where
  pub id : ℕ
  pub pull_request_id : ℕ
  pub workflow_type : String
  pub execution_status : String
  pub correlation_id : String
  pub trigger_source : String
  pub error_message : Option String
  pub started_at : Option ℕ
  pub completed_at : Option ℕ
  pub updated_at : Option ℕ

pub record AuditLog : Type 0 where
  pub entity_type : String
  pub entity_id : String
  pub action : String
  pub actor : Option String
  pub metadata_json : Option String

pub record ScanRun : Type 0 where
  pub id : ℕ
  pub workflow_run_id : ℕ
  pub scanner_name : String
  pub commit_sha : String
  pub execution_status : String
  pub exit_code : Option ℤ
  pub log_reference : Option String
  pub started_at : Option ℕ
  pub completed_at : Option ℕ

-- `file_path`, `line_number` and `column_number` hold whatever the scanner's JSON had there.
pub record Finding : Type 0 where
  pub id : ℕ
  pub workflow_run_id : ℕ
  pub scan_run_id : Option ℕ
  pub scanner_name : String
  pub rule_id : String
  pub severity : String
  pub category : String
  pub confidence : String
  pub message : String
  pub file_path : Option Value
  pub line_number : Option Value
  pub column_number : Option Value
  pub fingerprint : String
  pub policy_blocking : Bool
