-- ===== src/Database/Defs.antt =====
-- A database of tables in insertion order, and a session over it. The constraints are those that
-- models/*.py and the migration declare: unique provider_repo_id, provider_pr_id, correlation_id.
use partha_prime_agent.Prelude.{
  ℕ, suc, String, Option, none, some, List, [], ◌∷◌, ◌++◌, map, ◌==◌, nat_eq, string_eq, any,
  if◌then◌else◌,
}
use partha_prime_agent.Prelude.Result.{Result, ok, err, Kind, exception, raise}
use partha_prime_agent.Prelude.Exec.{Exec}
use partha_prime_agent.Models.{
  Repository, PullRequest, WebhookEvent, WorkflowRun, AuditLog, ScanRun, Finding,
}

pub record Database : Type 0 where
  pub repositories : List Repository
  pub pull_requests : List PullRequest
  pub webhook_events : List WebhookEvent
  pub workflow_runs : List WorkflowRun
  pub audit_logs : List AuditLog
  pub scan_runs : List ScanRun
  pub findings : List Finding
  -- The supply of primary keys: `uuid4` never repeats one.
  pub next_id : ℕ

-- What a transaction sees, and what others see. Leaving the session without a commit drops the
-- former.
pub record Session : Type 0 where
  pub committed : Database
  pub working : Database

abbrev pub open_session : Database → Session
open_session db = record { committed = db; working = db }

-- `await session.commit()`
unfoldable pub commit : Exec Session (Unit {0})
commit s = (ok tt, record s { committed = s.working })

-- `result.scalar_one_or_none()`
unfoldable pub scalar_one_or_none {ℓ} : {A : Type ℓ} → List A → Result (Option A)
scalar_one_or_none [] = ok none
scalar_one_or_none (x ∷ []) = ok (some x)
scalar_one_or_none (x ∷ y ∷ rows) =
    raise Kind.multiple_results_found "Multiple rows were found when one or none was required"

abbrev pub unique_violation : String
unique_violation = "duplicate key value violates unique constraint"

-- `session.add(row); await session.flush()`, with the unique columns checked.
unfoldable pub insert_repository : (ℕ → Repository) → Exec Session Repository
insert_repository make s =
    let db = s.working in
    let row = make db.next_id in
    if any (λ (r : Repository). r.provider_repo_id == row.provider_repo_id) db.repositories
    then (err (exception Kind.integrity_error unique_violation), s)
    else (
      ok row,
      record s {
        working = record db {
          repositories = db.repositories ++ (row ∷ []);
          next_id = suc db.next_id;
        };
      },
    )

unfoldable pub insert_pull_request : (ℕ → PullRequest) → Exec Session PullRequest
insert_pull_request make s =
    let db = s.working in
    let row = make db.next_id in
    if any (λ (r : PullRequest). r.provider_pr_id == row.provider_pr_id) db.pull_requests
    then (err (exception Kind.integrity_error unique_violation), s)
    else (
      ok row,
      record s {
        working = record db {
          pull_requests = db.pull_requests ++ (row ∷ []);
          next_id = suc db.next_id;
        };
      },
    )

unfoldable pub insert_webhook_event : (ℕ → WebhookEvent) → Exec Session (Unit {0})
insert_webhook_event make s =
    let db = s.working in
    (
      ok tt,
      record s {
        working = record db {
          webhook_events = db.webhook_events ++ (make db.next_id ∷ []);
          next_id = suc db.next_id;
        };
      },
    )

unfoldable pub insert_workflow_run : (ℕ → WorkflowRun) → Exec Session WorkflowRun
insert_workflow_run make s =
    let db = s.working in
    let row = make db.next_id in
    if any (λ (r : WorkflowRun). r.correlation_id == row.correlation_id) db.workflow_runs
    then (err (exception Kind.integrity_error unique_violation), s)
    else (
      ok row,
      record s {
        working = record db {
          workflow_runs = db.workflow_runs ++ (row ∷ []);
          next_id = suc db.next_id;
        };
      },
    )

unfoldable pub insert_audit_log : AuditLog → Exec Session (Unit {0})
insert_audit_log row s =
    let db = s.working in
    (ok tt, record s { working = record db { audit_logs = db.audit_logs ++ (row ∷ []) } })

-- A change of the attributes of a loaded row, flushed.
unfoldable pub update_pull_request : ℕ → (PullRequest → PullRequest) → Exec Session (Unit {0})
update_pull_request id f s =
    let db = s.working in
    (
      ok tt,
      record s {
        working = record db {
          pull_requests = map (λ (r : PullRequest). if r.id == id then f r else r) db.pull_requests;
        };
      },
    )

unfoldable pub update_workflow_run : ℕ → (WorkflowRun → WorkflowRun) → Exec Session (Unit {0})
update_workflow_run id f s =
    let db = s.working in
    (
      ok tt,
      record s {
        working = record db {
          workflow_runs = map (λ (r : WorkflowRun). if r.id == id then f r else r) db.workflow_runs;
        };
      },
    )

unfoldable pub insert_scan_run : (ℕ → ScanRun) → Exec Session ScanRun
insert_scan_run make s =
    let db = s.working in
    let row = make db.next_id in
    (
      ok row,
      record s {
        working = record db { scan_runs = db.scan_runs ++ (row ∷ []); next_id = suc db.next_id };
      },
    )

unfoldable pub insert_finding : (ℕ → Finding) → Exec Session (Unit {0})
insert_finding make s =
    let db = s.working in
    (
      ok tt,
      record s {
        working = record db {
          findings = db.findings ++ (make db.next_id ∷ []);
          next_id = suc db.next_id;
        };
      },
    )

-- `async with SessionLocal() as session: body`
abbrev pub with_session {ℓ} : {A : Type ℓ} → Exec Session A → Exec Database A
with_session body db = let r = body (open_session db) in (r.0, r.1.committed)
