-- ===== src/Orchestration/Ending/Concluded.antt =====
-- The end of a run, once its workspace is prepared.
use partha_prime_agent.Prelude.{
  ℕ, String, Bool, false, none, some, List, inl, inr, ◌≡◌, subst, ap, length, Bool-cases,
}
use partha_prime_agent.Prelude.Result.{Result, ok, err, Exception}
use partha_prime_agent.Prelude.Exec.{Exec, pure, ◌>>◌, ◌>>=◌, bind_cases, then-returned}
use partha_prime_agent.Prelude.Exec.Keeps.{Keeps, Keeps-bind, Keeps-pure}
use partha_prime_agent.Enums.{ExecutionStatus}
use partha_prime_agent.Json.{Fields, int, bool, pos, field, end}
use partha_prime_agent.Paths.{FilePath, path}
use partha_prime_agent.Platform.{Platform}
use partha_prime_agent.Scm.{PullRequestEvent, ScmProvider}
use partha_prime_agent.Database.{Database, open_session}
use partha_prime_agent.Scanners.Interface.{AggregatedScanResult, all_findings, has_failures}
use partha_prime_agent.Orchestration.Defs.{
  Accepts, Shared, Services, World, Call, in_session, transition, persist_results, audit, fail,
  release_workspace, conclude,
}
use partha_prime_agent.Orchestration.Ending.{
  prepared, name, scanned, is_refused, unstored, unreleased, finished, runs, pulls, Ended,
}
use partha_prime_agent.Orchestration.Stored.{persist_results-stored}
use partha_prime_agent.Orchestration.Stuck.{conclude-refused}
use partha_prime_agent.Orchestration.Audited.{OnlyAudit, Keeps-audited}
use partha_prime_agent.Orchestration.Statuses.{
  with_status, Statuses, Statuses-row, results-Statuses,
}
use partha_prime_agent.Orchestration.Statuses.Moves.{
  Moved, Moved-again, announced-Moved, fail-Moved,
}

module _ {E : Type 0} (P : Platform) (services : Services E) (accepts : Accepts) (clock : ℕ → ℕ)
    (provider : ScmProvider) (event : PullRequestEvent) (repository_id pull_id run_id : ℕ)
    (correlation_id : String) (w : World E) where
  abbrev Finishes : Database → Type 0
  Finishes =
      Ended P services accepts clock provider event repository_id pull_id run_id correlation_id w

  abbrev old_runs : List (ℕ × String)
  old_runs =
      runs P services accepts clock provider event repository_id pull_id run_id correlation_id w

  abbrev old_pulls : List (ℕ × String)
  old_pulls =
      pulls P services accepts clock provider event repository_id pull_id run_id correlation_id w

  abbrev entity_id : String
  entity_id =
      name P services accepts clock provider event repository_id pull_id run_id correlation_id w

  abbrev preparation : Result String × Shared E
  preparation =
      prepared P services accepts clock provider event repository_id pull_id run_id correlation_id w

  abbrev scan_of : String → Result AggregatedScanResult × Shared E
  scan_of =
      scanned P services accepts clock provider event repository_id pull_id run_id correlation_id w

  module _ (only : OnlyAudit services) where
    abbrev pub Running : Database → Type 0
    Running = Moved old_runs old_pulls run_id pull_id ExecutionStatus.running

    abbrev pub runs' : List (ℕ × String)
    runs' = with_status run_id ExecutionStatus.running old_runs

    abbrev pub pulls' : List (ℕ × String)
    pulls' = with_status pull_id ExecutionStatus.running old_pulls

    pub release-Statuses :
        (rs ps : List (ℕ × String)) (dir : FilePath)
        → Keeps
            (λ (v : World E). Statuses rs ps v.shared.db)
            (release_workspace P services accepts clock provider event repository_id pull_id run_id
              correlation_id dir)
    release-Statuses rs ps dir = record {
      apply = λ v h.
          (Keeps-audited (Statuses rs ps) (Statuses-row rs ps)
              (services.mark_processing_complete dir) (only.releases dir)).apply
            v.shared h;
    }

    -- A failed scan.
    pub scan_failed-Moved :
        (dir : FilePath) (x : Exception) (v : World E)
        → Running v.shared.db
        → Moved old_runs old_pulls run_id pull_id ExecutionStatus.failed
            (conclude P services accepts clock provider event repository_id pull_id run_id
              correlation_id dir
              (err x)
              v).1.shared.db
    unfolding conclude
    scan_failed-Moved dir x v h =
        let failing =
          fail P services accepts clock run_id pull_id entity_id "scan_execution_failed" x in
        let leaving =
          release_workspace P services accepts clock provider event repository_id pull_id run_id
            correlation_id dir in
        let (returned, moved) =
          fail-Moved P services accepts clock only runs' pulls' run_id pull_id entity_id
            "scan_execution_failed" x v h in
        Moved-again old_runs old_pulls run_id pull_id ExecutionStatus.running ExecutionStatus.failed
          _
          (rw (then-returned failing (leaving >>= λ _. pure tt) v returned) (
            (Keeps-bind
                (λ (u : World E).
                  Moved runs' pulls' run_id pull_id ExecutionStatus.failed u.shared.db)
                leaving (λ _. pure tt) (release-Statuses _ _ dir) (λ _. Keeps-pure _ tt)).apply
              (failing v).1 moved))

    module _ (text : String) (a : AggregatedScanResult) (e : preparation.0 ≡ ok text)
        (f : (scan_of text).0 ≡ ok a) (cs : List Call) where
      abbrev after_scan : World E
      after_scan = record { shared = (scan_of text).1; calls = cs }

      abbrev storing : Exec (World E) (Unit {0})
      storing = in_session (persist_results accepts run_id a.commit_sha a.scan_results)

      abbrev leaving : Exec (World E) Bool
      leaving =
          release_workspace P services accepts clock provider event repository_id pull_id run_id
            correlation_id (path text)

      abbrev summary : Fields
      summary = field "finding_count" (int (pos (length (all_findings a.scan_results)))) (
          field "scanner_count" (int (pos (length a.scan_results)))
            (field "has_scanner_failures" (bool (has_failures a.scan_results)) end))

      abbrev completing : Exec (World E) (Unit {0})
      completing =
          in_session (
            transition run_id pull_id ExecutionStatus.succeeded none (some (clock 2)) none
              (clock 3))
          >> audit P services accepts clock "orchestration_completed" entity_id summary

      stored-Ended :
          is_refused P services accepts clock provider event repository_id pull_id run_id
              correlation_id w a
            ≡ false
          → Running (storing after_scan).1.shared.db
          → Finishes ((leaving >>= λ _. completing) (storing after_scan).1).1.shared.db
      stored-Ended good h =
          bind_cases (λ (o : Result (Unit {0}) × World E). Finishes o.1.shared.db) leaving
            (λ _. completing) (storing after_scan).1
            (λ removed u got.
              let there : Running u.shared.db =
                subst (λ (o : Result Bool × World E). Running o.1.shared.db) got
                  ((release-Statuses runs' pulls' (path text)).apply (storing after_scan).1 h) in
              let told =
                announced-Moved P services accepts clock only runs' pulls' run_id pull_id
                  ExecutionStatus.succeeded none (some (clock 2)) none (clock 3)
                  "orchestration_completed" entity_id summary u there in
              record {
                status = ExecutionStatus.succeeded;
                ending =
                    finished text a removed e f good (ap (λ (o : Result Bool × World E). o.0) got);
                moved =
                    Moved-again old_runs old_pulls run_id pull_id ExecutionStatus.running
                      ExecutionStatus.succeeded _ told.1;
              })
            (λ x u got. record {
              status = ExecutionStatus.running;
              ending = unreleased text a x e f good (ap (λ (o : Result Bool × World E). o.0) got);
              moved =
                  subst (λ (o : Result Bool × World E). Running o.1.shared.db) got
                    ((release-Statuses runs' pulls' (path text)).apply (storing after_scan).1 h);
            })

      pub scan_taken-Ended :
          Running (scan_of text).1.db
          → Finishes
              (conclude P services accepts clock provider event repository_id pull_id run_id
                correlation_id
                (path text)
                (ok a)
                after_scan).1.shared.db
      unfolding conclude
      scan_taken-Ended h =
          elim (Bool-cases (
            is_refused P services accepts clock provider event repository_id pull_id run_id
              correlation_id w a)) [
                | inl bad ↦
                    let same =
                      conclude-refused P services accepts clock provider event repository_id pull_id
                        run_id correlation_id (path text) a after_scan bad in
                    record {
                      status = ExecutionStatus.running;
                      ending = unstored text a e f bad;
                      moved = rw same h;
                    }
                | inr good ↦
                    let returned =
                      (persist_results-stored accepts run_id a.commit_sha a.scan_results
                        (scan_of text).1.db good).0 in
                    let kept =
                      ((results-Statuses runs' pulls' accepts run_id a.commit_sha
                          a.scan_results).apply
                        (open_session (scan_of text).1.db) (h, h)).0 in
                    rw (then-returned storing (leaving >>= λ _. completing) after_scan returned)
                      (stored-Ended good kept)
              ]
