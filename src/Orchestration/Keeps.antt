-- ===== src/Orchestration/Keeps.antt =====
-- What the steps of a run around its calls leave alone, and so a whole run.
use partha_prime_agent.Prelude.{ℕ, String, Option, none, some, List, [], ◌∷◌}
use partha_prime_agent.Prelude.Result.{Result, ok, err, Exception}
use partha_prime_agent.Prelude.Exec.{Exec}
use partha_prime_agent.Prelude.Exec.Keeps.{
  Keeps, Keeps-bind, Keeps-pure, Keeps-lift, Keeps-if, Keeps-try,
}
use partha_prime_agent.Enums.{ExecutionStatus}
use partha_prime_agent.Json.{Fields}
use partha_prime_agent.Models.{AuditLog}
use partha_prime_agent.Paths.{FilePath, path}
use partha_prime_agent.Platform.{Platform}
use partha_prime_agent.Scm.{PullRequestEvent, ScmProvider}
use partha_prime_agent.Database.{
  Database, Session, open_session, commit, insert_finding, insert_scan_run,
}
use partha_prime_agent.Scanners.Interface.{
  ScanResult, ScanRequest, NormalizedFinding, AggregatedScanResult,
}
use partha_prime_agent.Orchestration.Defs.{
  Accepts, Shared, Services, World, call, in_session, transition, audit, logged, fail, begin,
  failure_text, persist_results, persist_findings, finding_row, scan_run_row, conclude, proceed,
  run, release, Call,
}

module _ {E : Type 0} (P : Platform) (services : Services E) (accepts : Accepts) (clock : ℕ → ℕ)
    (I : World E → Type 0)
    (rows : (run_id pull_id : ℕ) (status : ExecutionStatus) (started completed : Option ℕ)
        (error : Option String) (now : ℕ)
      → Keeps I (in_session (transition run_id pull_id status started completed error now)))
    (told : (row : AuditLog) → Keeps I (call [] (services.write_audit row))) where
  pub audit-Keeps :
      (action entity_id : String) (extra : Fields)
      → Keeps I (audit P services accepts clock action entity_id extra)
  unfolding audit
  audit-Keeps action entity_id extra =
      Keeps-try I (call [] (services.write_audit _)) logged (told _) (λ x. Keeps-pure I tt)

  pub fail-Keeps :
      (run_id pull_id : ℕ) (entity_id reason : String) (x : Exception)
      → Keeps I (fail P services accepts clock run_id pull_id entity_id reason x)
  unfolding fail
  fail-Keeps run_id pull_id entity_id reason x =
      Keeps-bind I
        (in_session (
          transition run_id pull_id ExecutionStatus.failed none (some (clock 2))
            (some (failure_text P services accepts clock x)) (clock 3)))
        _ (rows _ _ _ _ _ _ _) (λ _. audit-Keeps _ entity_id _)

  module _ (provider : ScmProvider) (event : PullRequestEvent) (repository_id pull_id run_id : ℕ)
      (correlation_id : String) where
    pub begin-Keeps :
        Keeps I (
          begin P services accepts clock provider event repository_id pull_id run_id correlation_id)
    unfolding begin
    begin-Keeps =
        Keeps-bind I
          (in_session (
            transition run_id pull_id ExecutionStatus.running (some (clock 0)) none none (clock 1)))
          _ (rows _ _ _ _ _ _ _) (λ _. audit-Keeps _ _ _)

-- A predicate of the database before and in a transaction.
abbrev pub Both : (Database → Type 0) → Session → Type 0
Both I s = I s.committed × I s.working

-- What the rows of a result and the commit keep, the storing of results keeps.
module _ (accepts : Accepts) (run_id : ℕ) (sha : String) (I : Session → Type 0)
    (finding : (scan_run_id : ℕ) (f : NormalizedFinding)
      → Keeps I (insert_finding (finding_row run_id scan_run_id f)))
    (scan_run : (r : ScanResult) → Keeps I (insert_scan_run (scan_run_row run_id sha r)))
    (committed : Keeps I commit) where
  findings-Keeps :
      (scan_run_id : ℕ) (fs : List NormalizedFinding)
      → Keeps I (persist_findings accepts run_id sha scan_run_id fs)
  unfolding persist_findings
  findings-Keeps scan_run_id [] = Keeps-pure I tt
  findings-Keeps scan_run_id (f ∷ fs) =
      Keeps-if I (accepts.finding f) _ _
        (Keeps-bind I (insert_finding (finding_row run_id scan_run_id f)) _ (finding scan_run_id f)
          (λ _. findings-Keeps scan_run_id fs))
        (Keeps-lift I _)

  pub results-Keeps : (rs : List ScanResult) → Keeps I (persist_results accepts run_id sha rs)
  unfolding persist_results
  results-Keeps [] = committed
  results-Keeps (r ∷ rs) =
      Keeps-if I (accepts.scan_run sha r) _ _
        (Keeps-bind I (insert_scan_run (scan_run_row run_id sha r)) _ (scan_run r) λ row.
          Keeps-bind I (persist_findings accepts run_id sha row.id r.findings) _
            (findings-Keeps row.id r.findings) (λ _. results-Keeps rs))
        (Keeps-lift I _)

-- What the two transitions, the storing of results and the services keep, a run keeps.
module _ {E : Type 0} (P : Platform) (services : Services E) (accepts : Accepts) (clock : ℕ → ℕ)
    (I : Database → Type 0) (provider : ScmProvider) (event : PullRequestEvent)
    (repository_id pull_id run_id : ℕ) (correlation_id : String)
    (transitions : (r p : ℕ) (status : ExecutionStatus) (started completed : Option ℕ)
        (error : Option String) (now : ℕ)
      → Keeps (Both I) (transition r p status started completed error now))
    (results : (sha : String) (rs : List ScanResult)
      → Keeps (Both I) (persist_results accepts run_id sha rs))
    (prepares : Keeps
      (λ (s : Shared E). I s.db)
      (services.prepare_workspace provider event (P.uuid_str run_id)))
    (scans : (request : ScanRequest) → Keeps (λ (s : Shared E). I s.db) (services.run_scan request))
    (releases : (dir : FilePath)
      → Keeps (λ (s : Shared E). I s.db) (services.mark_processing_complete dir))
    (writes : (row : AuditLog) → Keeps (λ (s : Shared E). I s.db) (services.write_audit row)) where
  abbrev WorldKept : World E → Type 0
  WorldKept w = I w.shared.db

  in_session-Kept :
      {A : Type 0} (body : Exec Session A) → Keeps (Both I) body → Keeps WorldKept (in_session body)
  in_session-Kept body h = record { apply = λ w j. (h.apply (open_session w.shared.db) (j, j)).0 }

  call-Kept :
      {A : Type 0} (cs : List Call) (m : Exec (Shared E) A)
      → Keeps (λ (s : Shared E). I s.db) m
      → Keeps WorldKept (call cs m)
  call-Kept cs m h = record { apply = λ w j. h.apply w.shared j }

  rows-Kept :
      (r p : ℕ) (status : ExecutionStatus) (started completed : Option ℕ) (error : Option String)
      (now : ℕ)
      → Keeps WorldKept (in_session (transition r p status started completed error now))
  rows-Kept r p status started completed error now =
      in_session-Kept (transition r p status started completed error now)
        (transitions r p status started completed error now)

  told-Kept : (row : AuditLog) → Keeps WorldKept (call [] (services.write_audit row))
  told-Kept row = call-Kept [] (services.write_audit row) (writes row)

  fail-Kept :
      (entity_id reason : String) (x : Exception)
      → Keeps WorldKept (fail P services accepts clock run_id pull_id entity_id reason x)
  fail-Kept = fail-Keeps P services accepts clock WorldKept rows-Kept told-Kept run_id pull_id

  conclude-Kept :
      (dir : FilePath) (r : Result AggregatedScanResult)
      → Keeps WorldKept (
          conclude P services accepts clock provider event repository_id pull_id run_id
            correlation_id dir r)
  unfolding conclude
  conclude-Kept dir (err x) =
      Keeps-bind WorldKept
        (fail P services accepts clock run_id pull_id _ "scan_execution_failed" x) _
        (fail-Kept _ "scan_execution_failed" x)
        λ _.
          Keeps-bind WorldKept (call (release dir ∷ []) (services.mark_processing_complete dir)) _
            (call-Kept _ (services.mark_processing_complete dir) (releases dir))
            (λ _. Keeps-pure WorldKept tt)
  conclude-Kept dir (ok aggregated) =
      let stored = persist_results accepts run_id aggregated.commit_sha aggregated.scan_results in
      Keeps-bind WorldKept (in_session stored) _
        (in_session-Kept stored (results aggregated.commit_sha aggregated.scan_results))
        λ _.
          Keeps-bind WorldKept (call (release dir ∷ []) (services.mark_processing_complete dir)) _
            (call-Kept _ (services.mark_processing_complete dir) (releases dir))
            λ _.
              Keeps-bind WorldKept
                (in_session (
                  transition run_id pull_id ExecutionStatus.succeeded none (some (clock 2)) none
                    (clock 3)))
                _ (rows-Kept _ _ _ _ _ _ _)
                λ _. audit-Keeps P services accepts clock WorldKept rows-Kept told-Kept _ _ _

  proceed-Kept :
      (r : Result String)
      → Keeps WorldKept (
          proceed P services accepts clock provider event repository_id pull_id run_id
            correlation_id r)
  unfolding proceed
  proceed-Kept (err x) = fail-Kept _ "workspace_preparation_failed" x
  proceed-Kept (ok text) = record {
    apply = λ w j. (conclude-Kept (path text) _).apply _ ((scans _).apply w.shared j);
  }

  pub run-Keeps :
      Keeps WorldKept
        (run P services accepts clock provider event repository_id pull_id run_id correlation_id)
  unfolding run
  run-Keeps =
      Keeps-try WorldKept _ logged
        (Keeps-bind WorldKept
          (begin P services accepts clock provider event repository_id pull_id run_id
            correlation_id)
          _
          (begin-Keeps P services accepts clock WorldKept rows-Kept told-Kept provider event
            repository_id pull_id run_id correlation_id)
          λ _. record { apply = λ w j. (proceed-Kept _).apply _ (prepares.apply w.shared j) })
        (λ x. Keeps-pure WorldKept tt)
