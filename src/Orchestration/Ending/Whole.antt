-- ===== src/Orchestration/Ending/Whole.antt =====
-- A whole run, from its start.
use partha_prime_agent.Prelude.{ℕ, String, none, some, List, [], ◌∷◌, ◌++◌, ◌≡◌, refl}
use partha_prime_agent.Prelude.Result.{Result, ok, err}
use partha_prime_agent.Prelude.Exec.{◌>>◌, ◌>>=◌, then-returned}
use partha_prime_agent.Enums.{ExecutionStatus}
use partha_prime_agent.Json.{str, field, end}
use partha_prime_agent.Paths.{path}
use partha_prime_agent.Platform.{Platform}
use partha_prime_agent.Scm.{PullRequestEvent, ScmProvider}
use partha_prime_agent.Database.{Database}
use partha_prime_agent.Scanners.Interface.{AggregatedScanResult}
use partha_prime_agent.Orchestration.Defs.{
  Accepts, Shared, Services, World, Call, prepare, scan, call, begin, answer_of, conclude, proceed,
  run,
}
use partha_prime_agent.Orchestration.Audited.{OnlyAudit, Keeps-audited}
use partha_prime_agent.Orchestration.Statuses.{Statuses, Statuses-row}
use partha_prime_agent.Orchestration.Statuses.Moves.{
  Moved-again, try-logged, announced-Moved, fail-Moved,
}
use partha_prime_agent.Orchestration.Ending.{
  started, prepared, name, request, scanned, unprepared, unscanned, runs, pulls, Ended,
}
use partha_prime_agent.Orchestration.Ending.Concluded.{Running, scan_failed-Moved, scan_taken-Ended}

module _ {E : Type 0} (P : Platform) (services : Services E) (accepts : Accepts) (clock : ℕ → ℕ)
    (provider : ScmProvider) (event : PullRequestEvent) (repository_id pull_id run_id : ℕ)
    (correlation_id : String) (w : World E) (only : OnlyAudit services) where
  abbrev Finishes : Database → Type 0
  Finishes =
      Ended P services accepts clock provider event repository_id pull_id run_id correlation_id w

  abbrev Runs : Database → Type 0
  Runs =
      Running P services accepts clock provider event repository_id pull_id run_id correlation_id w
        only

  abbrev first : World E
  first =
      started P services accepts clock provider event repository_id pull_id run_id correlation_id w

  abbrev preparation : Result String × Shared E
  preparation =
      prepared P services accepts clock provider event repository_id pull_id run_id correlation_id w

  abbrev scan_of : String → Result AggregatedScanResult × Shared E
  scan_of =
      scanned P services accepts clock provider event repository_id pull_id run_id correlation_id w

  abbrev entity_id : String
  entity_id =
      name P services accepts clock provider event repository_id pull_id run_id correlation_id w

  abbrev old_runs : List (ℕ × String)
  old_runs =
      runs P services accepts clock provider event repository_id pull_id run_id correlation_id w

  abbrev old_pulls : List (ℕ × String)
  old_pulls =
      pulls P services accepts clock provider event repository_id pull_id run_id correlation_id w

  begin-Running :
      ((begin P services accepts clock provider event repository_id pull_id run_id correlation_id
          w).0
        ≡ ok tt)
      × Runs first.shared.db
  unfolding begin
  begin-Running =
      announced-Moved P services accepts clock only old_runs old_pulls run_id pull_id
        ExecutionStatus.running (some (clock 0)) none none (clock 1) "orchestration_started"
        entity_id (field "correlation_id" (str correlation_id) end) w
        (record { of_runs = refl; of_pulls = refl })

  concluded-Ended :
      (text : String) (r : Result AggregatedScanResult) (cs : List Call)
      → preparation.0 ≡ ok text
      → (scan_of text).0 ≡ r
      → Runs (scan_of text).1.db
      → Finishes
          (conclude P services accepts clock provider event repository_id pull_id run_id
            correlation_id
            (path text)
            r
            (record { shared = (scan_of text).1; calls = cs })).1.shared.db
  concluded-Ended text (ok a) cs e f h =
      scan_taken-Ended P services accepts clock provider event repository_id pull_id run_id
        correlation_id w only text a e f cs h
  concluded-Ended text (err x) cs e f h = record {
    status = ExecutionStatus.failed;
    ending = unscanned text x e f;
    moved =
        scan_failed-Moved P services accepts clock provider event repository_id pull_id run_id
          correlation_id w only (path text) x (record { shared = (scan_of text).1; calls = cs }) h;
  }

  proceed-Ended :
      (r : Result String) (cs : List Call)
      → preparation.0 ≡ r
      → Runs preparation.1.db
      → Finishes
          (proceed P services accepts clock provider event repository_id pull_id run_id
            correlation_id r
            (record { shared = preparation.1; calls = cs })).1.shared.db
  unfolding proceed
  proceed-Ended (err x) cs e h = record {
    status = ExecutionStatus.failed;
    ending = unprepared x e;
    moved =
        Moved-again old_runs old_pulls run_id pull_id ExecutionStatus.running ExecutionStatus.failed
          _
          (fail-Moved P services accepts clock only _ _ run_id pull_id entity_id
            "workspace_preparation_failed" x (record { shared = preparation.1; calls = cs }) h).1;
  }
  proceed-Ended (ok text) cs e h =
      let asked =
        request P services accepts clock provider event repository_id pull_id run_id correlation_id
          w text in
      concluded-Ended text (scan_of text).0 (cs ++ (scan asked ∷ [])) e refl (
        (Keeps-audited (Statuses _ _) (Statuses-row _ _) (services.run_scan asked)
            (only.scans asked)).apply
          preparation.1 h)

  -- With services that add nothing but audit rows to the database, a run leads to the status that
  -- their answers say, in its row and in the row of its pull request, and to no other change of a
  -- status: FAILED if the preparation or the scan raises; RUNNING if the database refuses a scan
  -- run or a finding, or the release of the workspace raises; SUCCEEDED if everything returns.
  pub run-Ended :
      Finishes
        (run P services accepts clock provider event repository_id pull_id run_id correlation_id
          w).1.shared.db
  unfolding run
  run-Ended =
      let (returned, running) = begin-Running in
      let beginning =
        begin P services accepts clock provider event repository_id pull_id run_id correlation_id in
      let proceeding =
        proceed P services accepts clock provider event repository_id pull_id run_id
          correlation_id in
      let asking =
        answer_of P services accepts clock provider event repository_id pull_id run_id
          correlation_id
          (call (prepare (P.uuid_str run_id) ∷ [])
            (services.prepare_workspace provider event (P.uuid_str run_id))) in
      rw
        (
          (try-logged (beginning >> (asking >>= proceeding)) w).1,
          then-returned beginning (asking >>= proceeding) w returned,
        )
        (proceed-Ended preparation.0 (first.calls ++ (prepare (P.uuid_str run_id) ∷ [])) refl (
          (Keeps-audited (Statuses _ _) (Statuses-row _ _)
              (services.prepare_workspace provider event (P.uuid_str run_id))
              (only.prepares provider event (P.uuid_str run_id))).apply
            first.shared running))
