-- ===== src/Api.antt =====
-- src/protecto_prime_agent/api/v1/webhooks.py: the two endpoints.
pub mod Laws
use partha_prime_agent.Prelude.{
  ℕ, String, Bool, true, Option, none, some, List, [], ◌*◌, length, ltb, ◌==◌, string_eq,
  if◌then◌else◌,
}
use partha_prime_agent.Prelude.Result.{Result, ok, err, Kind, Exception}
use partha_prime_agent.Platform.{Platform, Bytes}
use partha_prime_agent.Scm.{ScmProvider, ScmProviderConfig, ScmProviderType}
use partha_prime_agent.Scm.Github.{github_provider}
use partha_prime_agent.Scm.Bitbucket.{bitbucket_provider}
use partha_prime_agent.Database.{Database}
use partha_prime_agent.Webhook.{Response, Answer, Task, handle_webhook}

-- What FastAPI makes of a call: an answer, an HTTPException with its detail, or an exception that
-- no handler names, which is a status 500.
pub data HttpResult : Type 0 where
  reply : Response → HttpResult
  http_exception : ℕ → String → HttpResult
  unhandled : Exception → HttpResult

abbrev pub max_request_size : ℕ
max_request_size = 1024 * 1024

-- The `except` clauses, in their order.
unfoldable pub translate : Result Answer → HttpResult
translate (ok a) = reply a.response
translate (err x) = elim x.kind [
  | Kind.permission_error ↦ http_exception 401 "authentication_failed"
  | Kind.json_decode_error ↦ http_exception 400 "invalid_json"
  | Kind.value_error ↦
      if x.message == "empty_body"
      then http_exception 400 "empty_body"
      else http_exception 400 "invalid_payload"
  | Kind.unicode_decode_error ↦
      if x.message == "empty_body"
      then http_exception 400 "empty_body"
      else http_exception 400 "invalid_payload"
  | _ ↦ unhandled x
]

abbrev pub tasks_of : Result Answer → List Task
tasks_of (ok a) = a.tasks
tasks_of (err x) = []

-- `request.headers.get("X-Correlation-ID", "generated")`
abbrev pub correlation_header : Option String → String
correlation_header none = "generated"
correlation_header (some id) = id

abbrev pub Served : Type 0
Served = record { result : HttpResult; tasks : List Task; database : Database }

module _ (P : Platform) (clock : ℕ → ℕ) where
  unfoldable pub webhook : ScmProvider → Bytes → Option String → Option String → Database → Served
  unfolding translate
  webhook provider body signature correlation db =
      if ltb max_request_size (length body)
      then record { result = http_exception 413 "request_too_large"; tasks = []; database = db }
      else let (r, after) =
          handle_webhook P provider clock body signature (correlation_header correlation) true db in
        record { result = translate r; tasks = tasks_of r; database = after }

  -- The secret is `settings.bitbucket_webhook_secret`, the signature the X-Hub-Signature header.
  unfoldable pub bitbucket_webhook :
      Option String → Bytes → Option String → Option String → Database → Served
  unfolding webhook bitbucket_provider
  bitbucket_webhook secret = webhook (
      bitbucket_provider P
        (record { provider_type = ScmProviderType.bitbucket; webhook_secret = secret }))

  unfoldable pub github_webhook :
      Option String → Bytes → Option String → Option String → Database → Served
  unfolding webhook github_provider
  github_webhook secret = webhook (
      github_provider P
        (record { provider_type = ScmProviderType.github; webhook_secret = secret }))
