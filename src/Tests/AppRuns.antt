-- ===== src/Tests/AppRuns.antt =====
-- Requests through the middleware, and the health checks.
use partha_prime_agent.Prelude.{
  ℕ, suc, String, Option, some, [], ◌∷◌, ◌≡◌, ◌≢◌, refl, All, eq_iff, arith,
}
use partha_prime_agent.Prelude.Result.{ok, err, Kind, exception}
use partha_prime_agent.Prelude.Exec.{Exec}
use partha_prime_agent.App.{respond, github, health_ready, init_db, attach_correlation_id}
use partha_prime_agent.Api.{correlation_header}
use partha_prime_agent.App.Correlated.{Told, respond-Told}
use partha_prime_agent.Tests.Toy.{toy, empty_db}

abbrev header : Option String
header = some "c1"

named : header ≢ some ""
named e = ground (arith, eq_iff "c1" "")

respond-Told_example :
    All
      (Told
        (respond toy
          (λ n. n)
          github
          (some "key")
          (1 ∷ [])
          (some "sha256=d2")
          header
          empty_db).header)
      (respond toy
        (λ n. n)
        github
        (some "key")
        (1 ∷ [])
        (some "sha256=d2")
        header
        empty_db).served.tasks
respond-Told_example =
    respond-Told toy (λ n. n) github (some "key") (1 ∷ []) (some "sha256=d2") header empty_db named

-- With an empty header the client is told another id than the rows are stored under.
empty_header : (attach_correlation_id (some "") ≡ "generated") × (correlation_header (some "") ≡ "")
unfolding attach_correlation_id
empty_header = (refl, refl)

-- The numbers of pings and of closed clients.
abbrev Counts : Type 0
Counts = ℕ × ℕ

abbrev unreachable : Exec Counts (Unit {0})
unreachable (pings, closed) = (err (exception Kind.os_error "refused"), (suc pings, closed))

abbrev close : Exec Counts (Unit {0})
close (pings, closed) = (ok tt, (pings, suc closed))

-- A client is closed also where it cannot be pinged.
degraded : health_ready unreachable close (0, 0) ≡ (ok (503, "degraded"), (1, 1))
unfolding health_ready
degraded = refl

started_without_database : init_db unreachable (0, 0) ≡ (ok tt, (1, 0))
unfolding init_db
started_without_database = refl
