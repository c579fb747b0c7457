-- ===== src/Orchestration/Ending.antt =====
-- How a run can end, by what the services answer.
pub mod Concluded
pub mod Whole
use partha_prime_agent.Prelude.{ℕ, String, Bool, true, false, List, ◌≡◌, map}
use partha_prime_agent.Prelude.Result.{Result, ok, err, Exception}
use partha_prime_agent.Enums.{ExecutionStatus}
use partha_prime_agent.Paths.{path}
use partha_prime_agent.Platform.{Platform}
use partha_prime_agent.Scm.{PullRequestEvent, ScmProvider}
use partha_prime_agent.Database.{Database, with_session}
use partha_prime_agent.Scanners.Interface.{ScanRequest, AggregatedScanResult}
use partha_prime_agent.Orchestration.Defs.{
  Accepts, Shared, Services, World, persist_results, begin, entity, scan_request,
}
use partha_prime_agent.Orchestration.Rows.{refused}
use partha_prime_agent.Orchestration.Statuses.{run_status, pull_request_status}
use partha_prime_agent.Orchestration.Statuses.Moves.{Moved}

module _ {E : Type 0} (P : Platform) (services : Services E) (accepts : Accepts) (clock : ℕ → ℕ)
    (provider : ScmProvider) (event : PullRequestEvent) (repository_id pull_id run_id : ℕ)
    (correlation_id : String) (w : World E) where
  -- What the services answer to a run, and what is shared after each answer.
  abbrev pub started : World E
  started =
      (begin P services accepts clock provider event repository_id pull_id run_id correlation_id
        w).1

  abbrev pub prepared : Result String × Shared E
  prepared = services.prepare_workspace provider event (P.uuid_str run_id) started.shared

  abbrev pub name : String
  name = entity P services accepts clock provider event repository_id pull_id run_id correlation_id

  abbrev pub request : String → ScanRequest
  request text =
      scan_request P services accepts clock provider event repository_id pull_id run_id
        correlation_id (path text)

  abbrev pub scanned : String → Result AggregatedScanResult × Shared E
  scanned text = services.run_scan (request text) prepared.1

  abbrev pub is_refused : AggregatedScanResult → Bool
  is_refused a = refused accepts run_id a.commit_sha a.scan_results

  abbrev pub released : String → AggregatedScanResult → Result Bool × Shared E
  released text a =
      let s = (scanned text).1 in
      services.mark_processing_complete (path text) (record {
        db = (with_session (persist_results accepts run_id a.commit_sha a.scan_results) s.db).1;
        outside = s.outside;
      })

  -- The status that the answers lead to.
  pub data Ending : ExecutionStatus → Type 0 where
    unprepared : (x : Exception) → prepared.0 ≡ err x → Ending ExecutionStatus.failed
    unscanned :
        (text : String) (x : Exception)
        → prepared.0 ≡ ok text
        → (scanned text).0 ≡ err x
        → Ending ExecutionStatus.failed
    unstored :
        (text : String) (a : AggregatedScanResult)
        → prepared.0 ≡ ok text
        → (scanned text).0 ≡ ok a
        → is_refused a ≡ true
        → Ending ExecutionStatus.running
    unreleased :
        (text : String) (a : AggregatedScanResult) (x : Exception)
        → prepared.0 ≡ ok text
        → (scanned text).0 ≡ ok a
        → is_refused a ≡ false
        → (released text a).0 ≡ err x
        → Ending ExecutionStatus.running
    finished :
        (text : String) (a : AggregatedScanResult) (removed : Bool)
        → prepared.0 ≡ ok text
        → (scanned text).0 ≡ ok a
        → is_refused a ≡ false
        → (released text a).0 ≡ ok removed
        → Ending ExecutionStatus.succeeded

  abbrev pub runs : List (ℕ × String)
  runs = map run_status w.shared.db.workflow_runs

  abbrev pub pulls : List (ℕ × String)
  pulls = map pull_request_status w.shared.db.pull_requests

  -- The run and its pull request have the status of the ending, and no other one has changed.
  pub record Ended (db : Database) : Type 0 where
    pub status : ExecutionStatus
    pub ending : Ending status
    pub moved : Moved runs pulls run_id pull_id status db
