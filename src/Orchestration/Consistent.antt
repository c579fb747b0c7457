-- ===== src/Orchestration/Consistent.antt =====
-- A run keeps the tables consistent: what it stores refers to rows that are there.
use partha_prime_agent.Prelude.{
  ℕ, String, Option, List, [], ◌∷◌, ◌≡◌, refl, subst, ◌∙◌, arith, map, ◌==◌, nat_eq, if◌then◌else◌,
}
use mathlib.Core.List.{map-append}
use partha_prime_agent.Prelude.Result.{Result}
use partha_prime_agent.Prelude.Exec.{Exec, bind_cases}
use partha_prime_agent.Webhook.{Task}
use partha_prime_agent.Prelude.Exec.Keeps.{
  Keeps, Keeps-bind, Keeps-pure, Keeps-lift, Keeps-if, Keeps-try,
}
use partha_prime_agent.Prelude.Keys.{Known, Known-last}
use partha_prime_agent.Enums.{ExecutionStatus}
use partha_prime_agent.Models.{PullRequest, WorkflowRun, AuditLog}
use partha_prime_agent.Paths.{FilePath}
use partha_prime_agent.Platform.{Platform}
use partha_prime_agent.Scm.{PullRequestEvent, ScmProvider}
use partha_prime_agent.Database.{
  Database, Session, commit, update_workflow_run, update_pull_request, insert_scan_run,
  insert_finding,
}
use partha_prime_agent.Database.Consistent.{
  IsConsistent, workflow_run_ids, pull_request_ids, scan_run_ids,
}
use partha_prime_agent.Database.Consistent.Results.{
  IsConsistent-scan_run, IsConsistent-finding, IsConsistent-pull_requests,
  IsConsistent-workflow_runs, column_kept,
}
use partha_prime_agent.Scanners.Interface.{ScanResult, ScanRequest, NormalizedFinding}
use partha_prime_agent.Orchestration.Defs.{
  Accepts, Shared, Services, World, transition, run_row, pull_request_row, scan_run_row,
  finding_row, persist_findings, persist_results, trigger_orchestration, logged,
}
use partha_prime_agent.Orchestration.Keeps.{Both, run-Keeps}

-- A consistent database with these runs and pull requests.
module _ (runs pulls : List ℕ) where
  pub record Fits (db : Database) : Type 0 where
    pub consistent : IsConsistent db
    pub same_runs : workflow_run_ids db.workflow_runs ≡ runs
    pub same_pulls : pull_request_ids db.pull_requests ≡ pulls

  update_run-Fits :
      (db : Database) (id now : ℕ) (status : ExecutionStatus) (started completed : Option ℕ)
      (error : Option String)
      → Fits db
      → Fits (record db {
        workflow_runs =
            map
              (λ (r : WorkflowRun).
                if r.id == id then run_row status started completed error now r else r)
              db.workflow_runs;
      })
  unfolding run_row
  update_run-Fits db id now status started completed error h =
      let f = λ (r : WorkflowRun).
        if r.id == id then run_row status started completed error now r else r in
      record {
        consistent = IsConsistent-workflow_runs h.consistent f (λ r. ground arith);
        same_runs =
            column_kept (λ (r : WorkflowRun). r.id) f (λ r. ground arith) db.workflow_runs
            ∙ h.same_runs;
        same_pulls = h.same_pulls;
      }

  update_pull-Fits :
      (db : Database) (id now : ℕ) (status : ExecutionStatus)
      → Fits db
      → Fits (record db {
        pull_requests =
            map
              (λ (r : PullRequest). if r.id == id then pull_request_row status now r else r)
              db.pull_requests;
      })
  unfolding pull_request_row
  update_pull-Fits db id now status h =
      let f = λ (r : PullRequest). if r.id == id then pull_request_row status now r else r in
      record {
        consistent = IsConsistent-pull_requests h.consistent f (λ r. ground arith);
        same_runs = h.same_runs;
        same_pulls =
            column_kept (λ (r : PullRequest). r.id) f (λ r. ground arith) db.pull_requests
            ∙ h.same_pulls;
      }

  transition-Fits :
      (run_id pull_id : ℕ) (status : ExecutionStatus) (started completed : Option ℕ)
      (error : Option String) (now : ℕ)
      → Keeps (Both Fits) (transition run_id pull_id status started completed error now)
  unfolding transition update_workflow_run update_pull_request commit
  transition-Fits run_id pull_id status started completed error now = record {
    apply = λ s h.
        let new =
          update_pull-Fits _ pull_id now status
            (update_run-Fits s.working run_id now status started completed error h.1) in
        (new, new);
  }

  module _ (accepts : Accepts) (run_id : ℕ) (sha : String) (known : Known runs run_id) where
    -- While the findings of a scan run are stored, that run is there.
    abbrev Storing : ℕ → Session → Type 0
    Storing scan_run_id s = Both Fits s × Known (scan_run_ids s.working.scan_runs) scan_run_id

    finding-Storing :
        (scan_run_id : ℕ) (f : NormalizedFinding)
        → Keeps (Storing scan_run_id) (insert_finding (finding_row run_id scan_run_id f))
    unfolding insert_finding finding_row
    finding-Storing scan_run_id f = record {
      apply = λ s h. (
        (
          h.0.0,
          record {
            consistent =
                IsConsistent-finding h.0.1.consistent _ refl (rw h.0.1.same_runs known) h.1;
            same_runs = h.0.1.same_runs;
            same_pulls = h.0.1.same_pulls;
          },
        ),
        h.1,
      );
    }

    findings-Storing :
        (scan_run_id : ℕ) (fs : List NormalizedFinding)
        → Keeps (Storing scan_run_id) (persist_findings accepts run_id sha scan_run_id fs)
    unfolding persist_findings
    findings-Storing scan_run_id [] = Keeps-pure (Storing scan_run_id) tt
    findings-Storing scan_run_id (f ∷ fs) =
        Keeps-if (Storing scan_run_id) (accepts.finding f) _ _
          (Keeps-bind (Storing scan_run_id) (insert_finding (finding_row run_id scan_run_id f)) _
            (finding-Storing scan_run_id f) (λ _. findings-Storing scan_run_id fs))
          (Keeps-lift (Storing scan_run_id) _)

    scan_run-Fits :
        (r : ScanResult) (s : Session)
        → Both Fits s
        → Storing s.working.next_id (insert_scan_run (scan_run_row run_id sha r) s).1
    unfolding insert_scan_run scan_run_row
    scan_run-Fits r s h = (
      (
        h.0,
        record {
          consistent = IsConsistent-scan_run h.1.consistent _ refl (rw h.1.same_runs known);
          same_runs = h.1.same_runs;
          same_pulls = h.1.same_pulls;
        },
      ),
      rw map-append (Known-last (scan_run_ids s.working.scan_runs) s.working.next_id),
    )

    results-Fits :
        (rs : List ScanResult) → Keeps (Both Fits) (persist_results accepts run_id sha rs)
    unfolding persist_results scan_run_row
    results-Fits [] = unfold commit in record { apply = λ s h. (h.1, h.1) }
    results-Fits (r ∷ rs) =
        Keeps-if (Both Fits) (accepts.scan_run sha r) _ _
          (record {
            apply = λ s h.
                let id = s.working.next_id in
                let added = (insert_scan_run (scan_run_row run_id sha r) s).1 in
                let stored = (findings-Storing id r.findings).apply added (scan_run-Fits r s h) in
                bind_cases (λ o. Both Fits o.1) (persist_findings accepts run_id sha id r.findings)
                  (λ _. persist_results accepts run_id sha rs) added
                  (λ a u e.
                    (results-Fits rs).apply u
                      (subst (λ (o : Result (Unit {0}) × Session). Storing id o.1) e stored).0)
                  (λ x u e.
                    (subst (λ (o : Result (Unit {0}) × Session). Storing id o.1) e stored).0);
          })
          (Keeps-lift (Both Fits) _)

-- What a service keeps of the tables, whatever they hold.
abbrev pub KeepsTables : {E A : Type 0} → Exec (Shared E) A → Type 0
KeepsTables {E} m = (runs pulls : List ℕ) → Keeps (λ (s : Shared E). Fits runs pulls s.db) m

-- The services leave the tables consistent, and neither add nor remove a run or a pull request.
pub record KeepTables {E : Type 0} (services : Services E) : Type 0 where
  pub prepares :
      (provider : ScmProvider) (event : PullRequestEvent) (run_id : String)
      → KeepsTables (services.prepare_workspace provider event run_id)
  pub scans : (request : ScanRequest) → KeepsTables (services.run_scan request)
  pub releases : (dir : FilePath) → KeepsTables (services.mark_processing_complete dir)
  pub writes : (row : AuditLog) → KeepsTables (services.write_audit row)

pub run-Fits :
    {E : Type 0} (P : Platform) (services : Services E) (accepts : Accepts) (clock : ℕ → ℕ)
    (provider : ScmProvider) (task : Task) (runs pulls : List ℕ)
    → KeepTables services
    → Known runs task.workflow_run_id
    → Keeps
        (λ (w : World E). Fits runs pulls w.shared.db)
        (trigger_orchestration P services accepts clock provider task)
unfolding trigger_orchestration
run-Fits P services accepts clock provider task runs pulls keep known =
    Keeps-try (λ (w : World _). Fits runs pulls w.shared.db) _ logged
      (run-Keeps P services accepts clock (Fits runs pulls) provider task.event task.repository_id
        task.pull_request_id task.workflow_run_id task.correlation_id (transition-Fits runs pulls)
        (λ sha rs. results-Fits runs pulls accepts task.workflow_run_id sha known rs)
        (keep.prepares provider task.event _ runs pulls) (λ request. keep.scans request runs pulls)
        (λ dir. keep.releases dir runs pulls) (λ row. keep.writes row runs pulls))
      (λ x. Keeps-pure (λ (w : World _). Fits runs pulls w.shared.db) tt)
