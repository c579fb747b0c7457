-- ===== src/Orchestration/Stuck.antt =====
-- What becomes of a run whose results the database refuses.
use partha_prime_agent.Prelude.{ℕ, String, true, ◌≡◌}
use partha_prime_agent.Prelude.Result.{ok, Kind, raise}
use partha_prime_agent.Platform.{Platform}
use partha_prime_agent.Paths.{FilePath}
use partha_prime_agent.Scm.{PullRequestEvent, ScmProvider}
use partha_prime_agent.Database.{open_session}
use partha_prime_agent.Scanners.Interface.{AggregatedScanResult}
use partha_prime_agent.Orchestration.Defs.{Accepts, Services, World, conclude}
use partha_prime_agent.Orchestration.Rows.{refused, invalid, results-refused}

module _ {E : Type 0} (P : Platform) (services : Services E) (accepts : Accepts) (clock : ℕ → ℕ)
    (provider : ScmProvider) (event : PullRequestEvent) (repository_id pull_id run_id : ℕ)
    (correlation_id : String) where
  -- After a scan of which the database refuses a scan run or a finding, the method raises with the world as it was:
  -- the rows keep the status they had, and the workspace is not released.
  pub conclude-refused :
      (workspace_path : FilePath) (aggregated : AggregatedScanResult) (w : World E)
      → refused accepts run_id aggregated.commit_sha aggregated.scan_results ≡ true
      → conclude P services accepts clock provider event repository_id pull_id run_id correlation_id
          workspace_path
          (ok aggregated)
          w
        ≡ (raise Kind.database_error invalid, w)
  unfolding conclude
  conclude-refused workspace_path aggregated w h =
      let (raised, same) =
        results-refused accepts run_id aggregated.commit_sha aggregated.scan_results
          (open_session w.shared.db) h in
      rw (raised, same)
