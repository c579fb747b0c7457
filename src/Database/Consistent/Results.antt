-- ===== src/Database/Consistent/Results.antt =====
-- Changes of the tables under which they stay consistent: scan runs, findings, audit rows, and
-- new values in rows whose keys stay.
use partha_prime_agent.Prelude.{suc, List, [], ◌∷◌, ◌++◌, ◌≡◌, refl, map, nat_eq, string_eq}
use mathlib.Core.List.{map-append}
use partha_prime_agent.Prelude.Keys.{
  Known, KnownIf, Keyed-suc, Keyed-snoc, KnownIf-snoc, All-snoc, All-imp,
}
use partha_prime_agent.Models.{PullRequest, WorkflowRun, AuditLog, ScanRun, Finding}
use partha_prime_agent.Database.Defs.{Database}
use partha_prime_agent.Database.Consistent.{IsConsistent, workflow_run_ids, scan_run_ids}

pub column_kept {ℓ κ} :
    {A : Type ℓ} {K : Type κ} (key : A → K) (f : A → A)
    → ((r : A) → key (f r) ≡ key r)
    → (rows : List A) → map key (map f rows) ≡ map key rows
column_kept key f same [] = refl
column_kept key f same (r ∷ rows) = λ i. same r i ∷ column_kept key f same rows i

module _ {db : Database} (c : IsConsistent db) where
  -- A scan run of a workflow run that is there.
  pub IsConsistent-scan_run :
      (row : ScanRun)
      → row.id ≡ db.next_id
      → Known (workflow_run_ids db.workflow_runs) row.workflow_run_id
      → IsConsistent
          (record db { scan_runs = db.scan_runs ++ (row ∷ []); next_id = suc db.next_id })
  IsConsistent-scan_run row keyed known = record {
    repositories_keyed = Keyed-suc _ _ c.repositories_keyed;
    pull_requests_keyed = Keyed-suc _ _ c.pull_requests_keyed;
    webhook_events_keyed = Keyed-suc _ _ c.webhook_events_keyed;
    workflow_runs_keyed = Keyed-suc _ _ c.workflow_runs_keyed;
    scan_runs_keyed = rw (map-append, keyed) (Keyed-snoc _ _ c.scan_runs_keyed);
    findings_keyed = Keyed-suc _ _ c.findings_keyed;
    repositories_unique = c.repositories_unique;
    pull_requests_unique = c.pull_requests_unique;
    workflow_runs_unique = c.workflow_runs_unique;
    payloads_unique = c.payloads_unique;
    pull_request_repository = c.pull_request_repository;
    webhook_event_repository = c.webhook_event_repository;
    workflow_run_pull_request = c.workflow_run_pull_request;
    scan_run_workflow_run =
        All-snoc (λ r. Known (workflow_run_ids db.workflow_runs) r.workflow_run_id) _ _
          c.scan_run_workflow_run known;
    finding_workflow_run = c.finding_workflow_run;
    finding_scan_run = rw map-append (
        All-imp _ _ _ (λ r. KnownIf-snoc (scan_run_ids db.scan_runs) row.id r.scan_run_id)
          c.finding_scan_run);
  }

  -- A finding of a workflow run and a scan run that are there.
  pub IsConsistent-finding :
      (row : Finding)
      → row.id ≡ db.next_id
      → Known (workflow_run_ids db.workflow_runs) row.workflow_run_id
      → KnownIf (scan_run_ids db.scan_runs) row.scan_run_id
      → IsConsistent (record db { findings = db.findings ++ (row ∷ []); next_id = suc db.next_id })
  IsConsistent-finding row keyed known of_scan = record {
    repositories_keyed = Keyed-suc _ _ c.repositories_keyed;
    pull_requests_keyed = Keyed-suc _ _ c.pull_requests_keyed;
    webhook_events_keyed = Keyed-suc _ _ c.webhook_events_keyed;
    workflow_runs_keyed = Keyed-suc _ _ c.workflow_runs_keyed;
    scan_runs_keyed = Keyed-suc _ _ c.scan_runs_keyed;
    findings_keyed = rw (map-append, keyed) (Keyed-snoc _ _ c.findings_keyed);
    repositories_unique = c.repositories_unique;
    pull_requests_unique = c.pull_requests_unique;
    workflow_runs_unique = c.workflow_runs_unique;
    payloads_unique = c.payloads_unique;
    pull_request_repository = c.pull_request_repository;
    webhook_event_repository = c.webhook_event_repository;
    workflow_run_pull_request = c.workflow_run_pull_request;
    scan_run_workflow_run = c.scan_run_workflow_run;
    finding_workflow_run =
        All-snoc (λ r. Known (workflow_run_ids db.workflow_runs) r.workflow_run_id) _ _
          c.finding_workflow_run known;
    finding_scan_run =
        All-snoc (λ r. KnownIf (scan_run_ids db.scan_runs) r.scan_run_id) _ _ c.finding_scan_run
          of_scan;
  }

  pub IsConsistent-audit_logs :
      (rows : List AuditLog) → IsConsistent (record db { audit_logs = rows })
  IsConsistent-audit_logs rows = record {
    repositories_keyed = c.repositories_keyed;
    pull_requests_keyed = c.pull_requests_keyed;
    webhook_events_keyed = c.webhook_events_keyed;
    workflow_runs_keyed = c.workflow_runs_keyed;
    scan_runs_keyed = c.scan_runs_keyed;
    findings_keyed = c.findings_keyed;
    repositories_unique = c.repositories_unique;
    pull_requests_unique = c.pull_requests_unique;
    workflow_runs_unique = c.workflow_runs_unique;
    payloads_unique = c.payloads_unique;
    pull_request_repository = c.pull_request_repository;
    webhook_event_repository = c.webhook_event_repository;
    workflow_run_pull_request = c.workflow_run_pull_request;
    scan_run_workflow_run = c.scan_run_workflow_run;
    finding_workflow_run = c.finding_workflow_run;
    finding_scan_run = c.finding_scan_run;
  }

  -- A change of pull requests that keeps their keys and references.
  pub IsConsistent-pull_requests :
      (f : PullRequest → PullRequest)
      → ((r : PullRequest)
          → ((f r).id ≡ r.id)
            × ((f r).provider_pr_id ≡ r.provider_pr_id)
            × ((f r).repository_id ≡ r.repository_id))
      → IsConsistent (record db { pull_requests = map f db.pull_requests })
  IsConsistent-pull_requests f same = record {
    repositories_keyed = c.repositories_keyed;
    pull_requests_keyed =
        rw (column_kept (λ r. r.id) f (λ r. (same r).0) db.pull_requests) c.pull_requests_keyed;
    webhook_events_keyed = c.webhook_events_keyed;
    workflow_runs_keyed = c.workflow_runs_keyed;
    scan_runs_keyed = c.scan_runs_keyed;
    findings_keyed = c.findings_keyed;
    repositories_unique = c.repositories_unique;
    pull_requests_unique =
        rw (column_kept (λ r. r.provider_pr_id) f (λ r. (same r).1) db.pull_requests)
          c.pull_requests_unique;
    workflow_runs_unique = c.workflow_runs_unique;
    payloads_unique = c.payloads_unique;
    pull_request_repository =
        rw (column_kept (λ r. r.repository_id) f (λ r. (same r).2) db.pull_requests)
          c.pull_request_repository;
    webhook_event_repository = c.webhook_event_repository;
    workflow_run_pull_request =
        rw (column_kept (λ r. r.id) f (λ r. (same r).0) db.pull_requests)
          c.workflow_run_pull_request;
    scan_run_workflow_run = c.scan_run_workflow_run;
    finding_workflow_run = c.finding_workflow_run;
    finding_scan_run = c.finding_scan_run;
  }

  -- A change of workflow runs that keeps their keys and references.
  pub IsConsistent-workflow_runs :
      (f : WorkflowRun → WorkflowRun)
      → ((r : WorkflowRun)
          → ((f r).id ≡ r.id)
            × ((f r).correlation_id ≡ r.correlation_id)
            × ((f r).pull_request_id ≡ r.pull_request_id))
      → IsConsistent (record db { workflow_runs = map f db.workflow_runs })
  IsConsistent-workflow_runs f same = record {
    repositories_keyed = c.repositories_keyed;
    pull_requests_keyed = c.pull_requests_keyed;
    webhook_events_keyed = c.webhook_events_keyed;
    workflow_runs_keyed =
        rw (column_kept (λ r. r.id) f (λ r. (same r).0) db.workflow_runs) c.workflow_runs_keyed;
    scan_runs_keyed = c.scan_runs_keyed;
    findings_keyed = c.findings_keyed;
    repositories_unique = c.repositories_unique;
    pull_requests_unique = c.pull_requests_unique;
    workflow_runs_unique =
        rw (column_kept (λ r. r.correlation_id) f (λ r. (same r).1) db.workflow_runs)
          c.workflow_runs_unique;
    payloads_unique = c.payloads_unique;
    pull_request_repository = c.pull_request_repository;
    webhook_event_repository = c.webhook_event_repository;
    workflow_run_pull_request =
        rw (column_kept (λ r. r.pull_request_id) f (λ r. (same r).2) db.workflow_runs)
          c.workflow_run_pull_request;
    scan_run_workflow_run =
        rw (column_kept (λ r. r.id) f (λ r. (same r).0) db.workflow_runs) c.scan_run_workflow_run;
    finding_workflow_run =
        rw (column_kept (λ r. r.id) f (λ r. (same r).0) db.workflow_runs) c.finding_workflow_run;
    finding_scan_run = c.finding_scan_run;
  }
