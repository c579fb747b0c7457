-- ===== src/App/Correlated.antt =====
-- Which correlation id the client is told, and which the rows are stored under.
use partha_prime_agent.Prelude.Keys.{All-imp}
use partha_prime_agent.Prelude.{
  ap, ◌==◌, string_eq, ℕ, String, true, Option, none, some, inl, inr, ◌≡◌, ◌≢◌, refl, All,
  Bool-cases, length, ltb, eq_iff,
}
use partha_prime_agent.Prelude.Result.{Result, ok, err}
use partha_prime_agent.Platform.{Platform, Bytes}
use partha_prime_agent.Scm.{ScmProvider}
use partha_prime_agent.Database.{Database}
use partha_prime_agent.Webhook.{Answer, Task, handle_webhook}
use partha_prime_agent.Webhook.Outcome.{handle_webhook-outcome}
use partha_prime_agent.Api.{
  webhook, bitbucket_webhook, github_webhook, tasks_of, correlation_header, max_request_size,
  translate,
}
use partha_prime_agent.App.Defs.{
  attach_correlation_id, correlation_id_middleware, response_header, respond, Endpoint, bitbucket,
  github,
}

module _ (P : Platform) (provider : ScmProvider) (clock : ℕ → ℕ) (body : Bytes)
    (signature : Option String) (db : Database) where
  -- What is scheduled has the correlation id of the call.
  tasks-correlation :
      (correlation_id : String) (a : Answer)
      → (handle_webhook P provider clock body signature correlation_id true db).0 ≡ ok a
      → All (λ (task : Task). task.correlation_id ≡ correlation_id) a.tasks
  tasks-correlation correlation_id a returned =
      elim (handle_webhook-outcome P provider clock body signature correlation_id true db) [
        | inl (same, refused) ↦ rw (refused a returned).1 tt
        | inr (b, e, st) ↦ let same : a ≡ b = cc in rw (same, st.trace.scheduled) (refl, tt)
      ]

-- The client is told the id under which the task is stored.
abbrev pub Told : Option String → Task → Type 0
Told header task = header ≡ some task.correlation_id

answered :
    (told id : String) (r : Result Answer)
    → told ≡ id
    → ((a : Answer) → r ≡ ok a → All (λ (task : Task). task.correlation_id ≡ id) a.tasks)
    → All (Told (response_header told (translate r))) (tasks_of r)
unfolding translate response_header
answered told id (err x) e h = tt
answered told id (ok a) e h = All-imp _ _ a.tasks (λ task stored. cc) (h a refl)

agreed :
    (header : Option String)
    → header ≢ some ""
    → attach_correlation_id header ≡ correlation_header header
unfolding attach_correlation_id
agreed none filled = refl
agreed (some id) filled = elim (Bool-cases (id == "")) [
  | inl empty ↦ absurd (filled (ap some ((eq_iff id "").0 empty)))
  | inr other ↦ rw other
]

webhook-Told :
    (P : Platform) (provider : ScmProvider) (clock : ℕ → ℕ) (body : Bytes)
    (signature header : Option String) (db : Database)
    → header ≢ some ""
    → All
        (Told (
          response_header
            (attach_correlation_id header)
            (webhook P clock provider body signature header db).result))
        (webhook P clock provider body signature header db).tasks
unfolding webhook
webhook-Told P provider clock body signature header db filled =
    elim (Bool-cases (ltb max_request_size (length body))) [
      | inl large ↦ rw large tt
      | inr fits ↦ rw fits (
          answered (attach_correlation_id header) (correlation_header header) _
            (agreed header filled)
            (tasks-correlation P provider clock body signature db (correlation_header header)))
    ]

-- Unless the request's X-Correlation-ID header is the empty text, each task that it schedules has
-- the correlation id that the response's header of this name says, and the response has one.
pub respond-Told :
    (P : Platform) (clock : ℕ → ℕ) (endpoint : Endpoint) (secret : Option String) (body : Bytes)
    (signature header : Option String) (db : Database)
    → header ≢ some ""
    → let r = respond P clock endpoint secret body signature header db in
      All (Told r.header) r.served.tasks
unfolding respond correlation_id_middleware bitbucket_webhook github_webhook
respond-Told P clock bitbucket secret body signature header db filled =
    webhook-Told P _ clock body signature header db filled
respond-Told P clock github secret body signature header db filled =
    webhook-Told P _ clock body signature header db filled
