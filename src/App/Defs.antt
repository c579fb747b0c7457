-- ===== src/App/Defs.antt =====
-- src/protecto_prime_agent/main.py with logging.py, redis_client.py and `init_db` of database.py:
-- the start of the application, the middleware around each request, and the health checks.
use partha_prime_agent.Prelude.{ℕ, String, Option, none, some, str_or}
use partha_prime_agent.Prelude.Result.{Result, ok, err}
use partha_prime_agent.Prelude.Exec.{Exec, pure, try}
use partha_prime_agent.Platform.{Platform, Bytes}
use partha_prime_agent.Database.{Database}
use partha_prime_agent.Api.{HttpResult, unhandled, Served, bitbucket_webhook, github_webhook}

-- `attach_correlation_id`: names of headers are compared without case, so both lookups find the
-- same header.
unfoldable pub attach_correlation_id : Option String → String
attach_correlation_id none = "generated"
attach_correlation_id (some id) = str_or id "generated"

-- The value of X-Correlation-ID in the response; what is raised passes through the middleware.
unfoldable pub response_header : String → HttpResult → Option String
response_header correlation_id (unhandled x) = none
response_header correlation_id result = some correlation_id

pub record Responded : Type 0 where
  pub served : Served
  pub header : Option String

-- `correlation_id_middleware`: `call_next` sees the same headers.
unfoldable pub correlation_id_middleware : Option String → (Option String → Served) → Responded
unfolding attach_correlation_id response_header
correlation_id_middleware header call_next =
    let served = call_next header in
    record {
      served = served;
      header = response_header (attach_correlation_id header) served.result;
    }

pub data Endpoint : Type 0 where
  bitbucket github : Endpoint

-- A request to one of the endpoints, through the middleware.
unfoldable pub respond :
    Platform
    → (ℕ → ℕ)
    → Endpoint
    → Option String
    → Bytes
    → Option String
    → Option String
    → Database
    → Responded
unfolding correlation_id_middleware
respond P clock bitbucket secret body signature header db =
    correlation_id_middleware header λ h. bitbucket_webhook P clock secret body signature h db
respond P clock github secret body signature header db =
    correlation_id_middleware header λ h. github_webhook P clock secret body signature h db

-- The status code and the status in the body.
abbrev pub Health : Type 0
Health = ℕ × String

abbrev ready : Result (Unit {0}) → Health
ready (ok done) = (200, "ok")
ready (err x) = (503, "degraded")

module _ {S : Type 0} where
  -- `try: await client.ping() finally: await client.aclose()`
  unfoldable pub check_redis_health : Exec S (Unit {0}) → Exec S (Unit {0}) → Exec S (Unit {0})
  check_redis_health ping aclose s =
      let pinged = ping s in
      let closed = aclose pinged.1 in
      (elim closed.0 [ ok done ↦ pinged.0 | err x ↦ err x ], closed.1)

  unfoldable pub health_live : Exec S Health
  health_live = pure (200, "ok")

  unfoldable pub health_ready : Exec S (Unit {0}) → Exec S (Unit {0}) → Exec S Health
  unfolding check_redis_health
  health_ready ping aclose s =
      let checked = check_redis_health ping aclose s in (ok (ready checked.0), checked.1)

  -- `init_db`, over `create_all`: what is raised is logged only. `lifespan` awaits it.
  unfoldable pub init_db : Exec S (Unit {0}) → Exec S (Unit {0})
  init_db create_all = try create_all (λ x. pure tt)
