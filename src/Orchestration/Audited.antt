-- ===== src/Orchestration/Audited.antt =====
-- Services that write nothing to the database but audit rows: what they keep.
use partha_prime_agent.Prelude.{ℕ, String, List, ◌++◌, ◌≡◌, sym, subst, ap, []}
use mathlib.Core.List.{append-nil}
use partha_prime_agent.Prelude.Exec.{Exec}
use partha_prime_agent.Prelude.Exec.Keeps.{Keeps}
use partha_prime_agent.Paths.{FilePath}
use partha_prime_agent.Platform.{Platform}
use partha_prime_agent.Models.{AuditLog, Finding}
use partha_prime_agent.Scm.{PullRequestEvent, ScmProvider}
use partha_prime_agent.Database.{Database}
use partha_prime_agent.Database.Consistent.Results.{IsConsistent-audit_logs}
use partha_prime_agent.Scanners.Interface.{ScanRequest}
use partha_prime_agent.Orchestration.Defs.{Accepts, Shared, Services, World, run}
use partha_prime_agent.Orchestration.Consistent.{Fits, KeepTables}
use partha_prime_agent.Orchestration.Decisions.{decisions, blocking, Decided, run-decisions}

-- The database with audit rows behind those that were there.
pub record Audited (db after : Database) : Type 0 where
  pub rows : List AuditLog
  pub same : after ≡ record db { audit_logs = db.audit_logs ++ rows }

pub Audited-refl : (db : Database) → Audited db db
Audited-refl db = record {
  rows = [];
  same = ap (λ l. record db { audit_logs = l }) (sym (append-nil db.audit_logs));
}

pub record OnlyAudit {E : Type 0} (services : Services E) : Type 0 where
  pub prepares :
      (provider : ScmProvider) (event : PullRequestEvent) (run_id : String) (s : Shared E)
      → Audited s.db (services.prepare_workspace provider event run_id s).1.db
  pub scans :
      (request : ScanRequest) (s : Shared E) → Audited s.db (services.run_scan request s).1.db
  pub releases :
      (dir : FilePath) (s : Shared E) → Audited s.db (services.mark_processing_complete dir s).1.db
  pub writes : (row : AuditLog) (s : Shared E) → Audited s.db (services.write_audit row s).1.db

module _ {E A : Type 0} (I : Database → Type 0)
    (rows_kept : (db : Database) (rows : List AuditLog)
      → I db
      → I (record db { audit_logs = rows })) where
  -- What does not look at the audit rows is kept by a method that only adds such rows.
  pub Keeps-audited :
      (m : Exec (Shared E) A)
      → ((s : Shared E) → Audited s.db (m s).1.db)
      → Keeps (λ (s : Shared E). I s.db) m
  Keeps-audited m only = record { apply = λ s i. subst I (sym (only s).same) (rows_kept s.db _ i) }

Fits-row :
    (runs pulls : List ℕ) (db : Database) (rows : List AuditLog)
    → Fits runs pulls db
    → Fits runs pulls (record db { audit_logs = rows })
Fits-row runs pulls db rows h = record {
  consistent = IsConsistent-audit_logs h.consistent rows;
  same_runs = h.same_runs;
  same_pulls = h.same_pulls;
}

pub OnlyAudit-KeepTables : {E : Type 0} (given : Services E) → OnlyAudit given → KeepTables given
OnlyAudit-KeepTables given only = record {
  prepares = λ provider event run_id runs pulls.
      Keeps-audited (Fits runs pulls) (Fits-row runs pulls) _ (only.prepares provider event run_id);
  scans = λ request runs pulls.
      Keeps-audited (Fits runs pulls) (Fits-row runs pulls) _ (only.scans request);
  releases =
      λ dir runs pulls. Keeps-audited (Fits runs pulls) (Fits-row runs pulls) _ (only.releases dir);
  writes =
      λ row runs pulls. Keeps-audited (Fits runs pulls) (Fits-row runs pulls) _ (only.writes row);
}

Decided-row :
    (ds : List (ℕ × String)) (bs : List Finding) (db : Database) (rows : List AuditLog)
    → Decided ds bs db
    → Decided ds bs (record db { audit_logs = rows })
Decided-row ds bs db rows h = h

-- Services that only add audit rows: a run changes no merge decision and no finding that blocks,
-- however it ends.
pub run-decisions-OnlyAudit :
    {E : Type 0} (P : Platform) (given : Services E) (accepts : Accepts) (clock : ℕ → ℕ)
    (provider : ScmProvider) (event : PullRequestEvent) (repository_id pull_id run_id : ℕ)
    (correlation_id : String)
    → OnlyAudit given
    → (w : World E)
    → (decisions
          (run P given accepts clock provider event repository_id pull_id run_id correlation_id
            w).1.shared.db
        ≡ decisions w.shared.db)
      × (blocking
            (run P given accepts clock provider event repository_id pull_id run_id correlation_id
              w).1.shared.db
          ≡ blocking w.shared.db)
run-decisions-OnlyAudit P given accepts clock provider event repository_id pull_id run_id
      correlation_id only =
    run-decisions P given accepts clock provider event repository_id pull_id run_id correlation_id
      (λ ds bs.
        Keeps-audited (Decided ds bs) (Decided-row ds bs) _ (only.prepares provider event _))
      (λ ds bs request. Keeps-audited (Decided ds bs) (Decided-row ds bs) _ (only.scans request))
      (λ ds bs dir. Keeps-audited (Decided ds bs) (Decided-row ds bs) _ (only.releases dir))
      (λ ds bs row. Keeps-audited (Decided ds bs) (Decided-row ds bs) _ (only.writes row))
