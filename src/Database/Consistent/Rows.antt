-- ===== src/Database/Consistent/Rows.antt =====
-- A row that fits is added, and the tables stay consistent.
use partha_prime_agent.Prelude.{suc, [], ◌∷◌, ◌++◌, ◌≡◌, false, nat_eq, string_eq}
use mathlib.Core.List.{map-append}
use partha_prime_agent.Prelude.Keys.{
  is_key, Known, KnownIf, Keyed-suc, Keyed-snoc, Distinct-snoc, Known-snoc, KnownIf-snoc, All-snoc,
  All-imp,
}
use partha_prime_agent.Models.{Repository, PullRequest, WebhookEvent, WorkflowRun}
use partha_prime_agent.Database.Defs.{Database}
use partha_prime_agent.Database.Consistent.{
  IsConsistent, repository_ids, pull_request_ids, workflow_run_ids, provider_repo_ids,
  provider_pr_ids, correlation_ids, payload_hashes,
}

module _ {db : Database} (c : IsConsistent db) where
  -- A repository whose id no other one has.
  pub IsConsistent-repository :
      (row : Repository)
      → row.id ≡ db.next_id
      → is_key row.provider_repo_id (provider_repo_ids db.repositories) ≡ false
      → IsConsistent
          (record db { repositories = db.repositories ++ (row ∷ []); next_id = suc db.next_id })
  IsConsistent-repository row keyed new = record {
    repositories_keyed = rw (map-append, keyed) (Keyed-snoc _ _ c.repositories_keyed);
    pull_requests_keyed = Keyed-suc _ _ c.pull_requests_keyed;
    webhook_events_keyed = Keyed-suc _ _ c.webhook_events_keyed;
    workflow_runs_keyed = Keyed-suc _ _ c.workflow_runs_keyed;
    scan_runs_keyed = Keyed-suc _ _ c.scan_runs_keyed;
    findings_keyed = Keyed-suc _ _ c.findings_keyed;
    repositories_unique = rw map-append (Distinct-snoc _ _ c.repositories_unique new);
    pull_requests_unique = c.pull_requests_unique;
    workflow_runs_unique = c.workflow_runs_unique;
    payloads_unique = c.payloads_unique;
    pull_request_repository = rw map-append (
        All-imp _ _ _ (Known-snoc (repository_ids db.repositories) row.id)
          c.pull_request_repository);
    webhook_event_repository = rw map-append (
        All-imp _ _ _ (λ r. KnownIf-snoc (repository_ids db.repositories) row.id r.repository_id)
          c.webhook_event_repository);
    workflow_run_pull_request = c.workflow_run_pull_request;
    scan_run_workflow_run = c.scan_run_workflow_run;
    finding_workflow_run = c.finding_workflow_run;
    finding_scan_run = c.finding_scan_run;
  }

  -- A pull request of a repository that is there.
  pub IsConsistent-pull_request :
      (row : PullRequest)
      → row.id ≡ db.next_id
      → is_key row.provider_pr_id (provider_pr_ids db.pull_requests) ≡ false
      → Known (repository_ids db.repositories) row.repository_id
      → IsConsistent
          (record db { pull_requests = db.pull_requests ++ (row ∷ []); next_id = suc db.next_id })
  IsConsistent-pull_request row keyed new known = record {
    repositories_keyed = Keyed-suc _ _ c.repositories_keyed;
    pull_requests_keyed = rw (map-append, keyed) (Keyed-snoc _ _ c.pull_requests_keyed);
    webhook_events_keyed = Keyed-suc _ _ c.webhook_events_keyed;
    workflow_runs_keyed = Keyed-suc _ _ c.workflow_runs_keyed;
    scan_runs_keyed = Keyed-suc _ _ c.scan_runs_keyed;
    findings_keyed = Keyed-suc _ _ c.findings_keyed;
    repositories_unique = c.repositories_unique;
    pull_requests_unique = rw map-append (Distinct-snoc _ _ c.pull_requests_unique new);
    workflow_runs_unique = c.workflow_runs_unique;
    payloads_unique = c.payloads_unique;
    pull_request_repository = rw map-append (All-snoc _ _ _ c.pull_request_repository known);
    webhook_event_repository = c.webhook_event_repository;
    workflow_run_pull_request = rw map-append (
        All-imp _ _ _ (Known-snoc (pull_request_ids db.pull_requests) row.id)
          c.workflow_run_pull_request);
    scan_run_workflow_run = c.scan_run_workflow_run;
    finding_workflow_run = c.finding_workflow_run;
    finding_scan_run = c.finding_scan_run;
  }

  -- An event with a payload that was not stored before.
  pub IsConsistent-webhook_event :
      (row : WebhookEvent)
      → row.id ≡ db.next_id
      → is_key row.payload_hash (payload_hashes db.webhook_events) ≡ false
      → KnownIf (repository_ids db.repositories) row.repository_id
      → IsConsistent
          (record db { webhook_events = db.webhook_events ++ (row ∷ []); next_id = suc db.next_id })
  IsConsistent-webhook_event row keyed new known = record {
    repositories_keyed = Keyed-suc _ _ c.repositories_keyed;
    pull_requests_keyed = Keyed-suc _ _ c.pull_requests_keyed;
    webhook_events_keyed = rw (map-append, keyed) (Keyed-snoc _ _ c.webhook_events_keyed);
    workflow_runs_keyed = Keyed-suc _ _ c.workflow_runs_keyed;
    scan_runs_keyed = Keyed-suc _ _ c.scan_runs_keyed;
    findings_keyed = Keyed-suc _ _ c.findings_keyed;
    repositories_unique = c.repositories_unique;
    pull_requests_unique = c.pull_requests_unique;
    workflow_runs_unique = c.workflow_runs_unique;
    payloads_unique = rw map-append (Distinct-snoc _ _ c.payloads_unique new);
    pull_request_repository = c.pull_request_repository;
    webhook_event_repository =
        All-snoc (λ r. KnownIf (repository_ids db.repositories) r.repository_id) _ _
          c.webhook_event_repository known;
    workflow_run_pull_request = c.workflow_run_pull_request;
    scan_run_workflow_run = c.scan_run_workflow_run;
    finding_workflow_run = c.finding_workflow_run;
    finding_scan_run = c.finding_scan_run;
  }

  -- A run for a pull request that is there, under an id of its own.
  pub IsConsistent-workflow_run :
      (row : WorkflowRun)
      → row.id ≡ db.next_id
      → is_key row.correlation_id (correlation_ids db.workflow_runs) ≡ false
      → Known (pull_request_ids db.pull_requests) row.pull_request_id
      → IsConsistent
          (record db { workflow_runs = db.workflow_runs ++ (row ∷ []); next_id = suc db.next_id })
  IsConsistent-workflow_run row keyed new known = record {
    repositories_keyed = Keyed-suc _ _ c.repositories_keyed;
    pull_requests_keyed = Keyed-suc _ _ c.pull_requests_keyed;
    webhook_events_keyed = Keyed-suc _ _ c.webhook_events_keyed;
    workflow_runs_keyed = rw (map-append, keyed) (Keyed-snoc _ _ c.workflow_runs_keyed);
    scan_runs_keyed = Keyed-suc _ _ c.scan_runs_keyed;
    findings_keyed = Keyed-suc _ _ c.findings_keyed;
    repositories_unique = c.repositories_unique;
    pull_requests_unique = c.pull_requests_unique;
    workflow_runs_unique = rw map-append (Distinct-snoc _ _ c.workflow_runs_unique new);
    payloads_unique = c.payloads_unique;
    pull_request_repository = c.pull_request_repository;
    webhook_event_repository = c.webhook_event_repository;
    workflow_run_pull_request = rw map-append (All-snoc _ _ _ c.workflow_run_pull_request known);
    scan_run_workflow_run = rw map-append (
        All-imp _ _ _ (λ r. Known-snoc (workflow_run_ids db.workflow_runs) row.id r.workflow_run_id)
          c.scan_run_workflow_run);
    finding_workflow_run = rw map-append (
        All-imp _ _ _ (λ r. Known-snoc (workflow_run_ids db.workflow_runs) row.id r.workflow_run_id)
          c.finding_workflow_run);
    finding_scan_run = c.finding_scan_run;
  }
