-- ===== src/Database/Consistent.antt =====
-- What the constraints of the schema ask of the tables: keys that are distinct and taken from the
-- supply, unique columns, and references to rows that are there.
pub mod Rows
pub mod Results
use partha_prime_agent.Prelude.{
  ℕ, suc, String, Bool, Option, none, some, List, [], ◌∷◌, ◌++◌, ◌≡◌, refl, false, map, All, arith,
  nat_eq, string_eq,
}
use mathlib.Core.List.{map-append}
use partha_prime_agent.Prelude.Keys.{
  is_key, Known, KnownIf, Distinct, Keyed, Keyed-suc, Keyed-snoc, Distinct-snoc, Known-snoc,
  KnownIf-snoc, Known-last, All-snoc, All-imp,
}
use partha_prime_agent.Models.{
  Repository, PullRequest, WebhookEvent, WorkflowRun, AuditLog, ScanRun, Finding,
}
use partha_prime_agent.Database.Defs.{Database}

abbrev pub repository_ids : List Repository → List ℕ
repository_ids = map (λ r. r.id)

abbrev pub pull_request_ids : List PullRequest → List ℕ
pull_request_ids = map (λ r. r.id)

abbrev pub workflow_run_ids : List WorkflowRun → List ℕ
workflow_run_ids = map (λ r. r.id)

abbrev pub scan_run_ids : List ScanRun → List ℕ
scan_run_ids = map (λ r. r.id)

abbrev pub provider_repo_ids : List Repository → List String
provider_repo_ids = map (λ r. r.provider_repo_id)

abbrev pub provider_pr_ids : List PullRequest → List String
provider_pr_ids = map (λ r. r.provider_pr_id)

abbrev pub correlation_ids : List WorkflowRun → List String
correlation_ids = map (λ r. r.correlation_id)

abbrev pub payload_hashes : List WebhookEvent → List String
payload_hashes = map (λ r. r.payload_hash)

abbrev pull_request_repositories : List PullRequest → List ℕ
pull_request_repositories = map (λ r. r.repository_id)

abbrev run_pull_requests : List WorkflowRun → List ℕ
run_pull_requests = map (λ r. r.pull_request_id)

pub record IsConsistent (db : Database) : Type 0 where
  pub repositories_keyed : Keyed db.next_id (repository_ids db.repositories)
  pub pull_requests_keyed : Keyed db.next_id (pull_request_ids db.pull_requests)
  pub webhook_events_keyed : Keyed db.next_id (map (λ r. r.id) db.webhook_events)
  pub workflow_runs_keyed : Keyed db.next_id (workflow_run_ids db.workflow_runs)
  pub scan_runs_keyed : Keyed db.next_id (scan_run_ids db.scan_runs)
  pub findings_keyed : Keyed db.next_id (map (λ r. r.id) db.findings)
  pub repositories_unique : Distinct (provider_repo_ids db.repositories)
  pub pull_requests_unique : Distinct (provider_pr_ids db.pull_requests)
  pub workflow_runs_unique : Distinct (correlation_ids db.workflow_runs)
  -- No payload was stored twice.
  pub payloads_unique : Distinct (payload_hashes db.webhook_events)
  pub pull_request_repository :
      All (Known (repository_ids db.repositories)) (pull_request_repositories db.pull_requests)
  pub webhook_event_repository :
      All (λ r. KnownIf (repository_ids db.repositories) r.repository_id) db.webhook_events
  pub workflow_run_pull_request :
      All (Known (pull_request_ids db.pull_requests)) (run_pull_requests db.workflow_runs)
  pub scan_run_workflow_run :
      All (λ r. Known (workflow_run_ids db.workflow_runs) r.workflow_run_id) db.scan_runs
  pub finding_workflow_run :
      All (λ r. Known (workflow_run_ids db.workflow_runs) r.workflow_run_id) db.findings
  pub finding_scan_run : All (λ r. KnownIf (scan_run_ids db.scan_runs) r.scan_run_id) db.findings
