-- ===== src/Orchestration/Decisions.antt =====
-- What a run never writes: decisions about merging and blocking findings.
use partha_prime_agent.Prelude.{
  ℕ, String, Option, List, [], ◌∷◌, ◌≡◌, refl, ap, ◌∙◌, map, filter, filter-append, Bool-cases, inl,
  inr, ◌==◌, nat_eq, if◌then◌else◌,
}
use mathlib.Core.List.{append-nil}
use partha_prime_agent.Prelude.Exec.Keeps.{Keeps}
use partha_prime_agent.Enums.{ExecutionStatus}
use partha_prime_agent.Models.{PullRequest, Finding, AuditLog}
use partha_prime_agent.Paths.{FilePath}
use partha_prime_agent.Platform.{Platform}
use partha_prime_agent.Scm.{PullRequestEvent, ScmProvider}
use partha_prime_agent.Database.{
  Database, Session, commit, update_workflow_run, update_pull_request, insert_scan_run,
  insert_finding,
}
use partha_prime_agent.Scanners.Interface.{ScanResult, ScanRequest, NormalizedFinding}
use partha_prime_agent.Orchestration.Defs.{
  Accepts, Shared, Services, World, transition, pull_request_row, finding_row, persist_results, run,
}
use partha_prime_agent.Orchestration.Keeps.{Both, results-Keeps, run-Keeps}

-- The decision on each pull request, and the findings that block.
abbrev decision_of : PullRequest → ℕ × String
decision_of r = (r.id, r.merge_decision)

abbrev pub decisions : Database → List (ℕ × String)
decisions db = map decision_of db.pull_requests

abbrev pub blocking : Database → List Finding
blocking db = filter (λ (f : Finding). f.policy_blocking) db.findings

module _ (ds : List (ℕ × String)) (bs : List Finding) where
  abbrev pub Decided : Database → Type 0
  Decided db = (decisions db ≡ ds) × (blocking db ≡ bs)

  abbrev BothDecided : Session → Type 0
  BothDecided = Both Decided

  decisions-update :
      (id : ℕ) (status : ExecutionStatus) (now : ℕ) (rows : List PullRequest)
      → map decision_of
          (map (λ (r : PullRequest). if r.id == id then pull_request_row status now r else r) rows)
        ≡ map decision_of rows
  unfolding pull_request_row
  decisions-update id status now [] = refl
  decisions-update id status now (r ∷ rows) = elim (Bool-cases (r.id == id)) [
    | inl same ↦ rw same (ap (λ rest. decision_of r ∷ rest) (decisions-update id status now rows))
    | inr other ↦ rw other (ap (λ rest. decision_of r ∷ rest) (decisions-update id status now rows))
  ]

  transition-Decided :
      (run_id pull_id : ℕ) (status : ExecutionStatus) (started completed : Option ℕ)
      (error : Option String) (now : ℕ)
      → Keeps BothDecided (transition run_id pull_id status started completed error now)
  unfolding transition update_workflow_run update_pull_request commit
  transition-Decided run_id pull_id status started completed error now = record {
    apply = λ s j.
        let new : Decided
            (transition run_id pull_id status started completed error now s).1.working =
          (decisions-update pull_id status now s.working.pull_requests ∙ j.1.0, j.1.1) in
        (new, new);
  }

  finding-Decided :
      (run_id scan_run_id : ℕ) (f : NormalizedFinding)
      → Keeps BothDecided (insert_finding (finding_row run_id scan_run_id f))
  unfolding insert_finding finding_row
  finding-Decided run_id scan_run_id f = record {
    apply = λ s j. (j.0, (j.1.0, filter-append _ s.working.findings _ ∙ append-nil _ ∙ j.1.1));
  }

  results-Decided :
      (accepts : Accepts) (run_id : ℕ) (sha : String) (rs : List ScanResult)
      → Keeps BothDecided (persist_results accepts run_id sha rs)
  unfolding commit insert_scan_run
  results-Decided accepts run_id sha =
      results-Keeps accepts run_id sha BothDecided (finding-Decided run_id)
        (λ r. record { apply = λ s j. j }) (record { apply = λ s j. (j.1, j.1) })

-- If the services leave the decisions in the database alone, so does a run, however it ends:
-- no pull request gets another merge decision, and no finding that blocks is added or removed.
pub run-decisions :
    {E : Type 0} (P : Platform) (services : Services E) (accepts : Accepts) (clock : ℕ → ℕ)
    (provider : ScmProvider) (event : PullRequestEvent) (repository_id pull_id run_id : ℕ)
    (correlation_id : String)
    → ((ds : List (ℕ × String)) (bs : List Finding)
        → Keeps
            (λ (s : Shared E). Decided ds bs s.db)
            (services.prepare_workspace provider event (P.uuid_str run_id)))
    → ((ds : List (ℕ × String)) (bs : List Finding) (request : ScanRequest)
        → Keeps (λ (s : Shared E). Decided ds bs s.db) (services.run_scan request))
    → ((ds : List (ℕ × String)) (bs : List Finding) (dir : FilePath)
        → Keeps (λ (s : Shared E). Decided ds bs s.db) (services.mark_processing_complete dir))
    → ((ds : List (ℕ × String)) (bs : List Finding) (row : AuditLog)
        → Keeps (λ (s : Shared E). Decided ds bs s.db) (services.write_audit row))
    → (w : World E)
    → (decisions
          (run P services accepts clock provider event repository_id pull_id run_id correlation_id
            w).1.shared.db
        ≡ decisions w.shared.db)
      × (blocking
            (run P services accepts clock provider event repository_id pull_id run_id correlation_id
              w).1.shared.db
          ≡ blocking w.shared.db)
run-decisions P services accepts clock provider event repository_id pull_id run_id correlation_id
      prepares scans releases writes w =
    let ds = decisions w.shared.db in
    let bs = blocking w.shared.db in
    (run-Keeps P services accepts clock (Decided ds bs) provider event repository_id pull_id run_id
        correlation_id (transition-Decided ds bs) (results-Decided ds bs accepts run_id)
        (prepares ds bs) (scans ds bs) (releases ds bs) (writes ds bs)).apply
      w (refl, refl)
