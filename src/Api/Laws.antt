-- ===== src/Api/Laws.antt =====
-- What a client of the endpoints can rely on, and where an exception gets through.
use partha_prime_agent.Prelude.{
  ℕ, String, true, false, Option, some, [], ◌⊎◌, inl, inr, ◌≡◌, ◌≢◌, ◌≤◌, refl, arith, length, ltb,
  truthy, Bool-cases, ap,
}
use partha_prime_agent.Prelude.Result.{Result, ok, err, Kind, Exception, exception, raise}
use partha_prime_agent.Json.{Value, obj, Fields}
use partha_prime_agent.Platform.{Platform, Bytes}
use partha_prime_agent.Scm.{PullRequestEvent, ScmProvider, ScmProviderConfig, ScmProviderType}
use partha_prime_agent.Scm.Github.{validate_webhook, parse_pull_request_event, github_provider}
use partha_prime_agent.Scm.Github.Signature.{HexDigests, Signs, github_signature-true}
use partha_prime_agent.Database.{Database}
use partha_prime_agent.Webhook.{
  Answer, Response, accepted, handle_webhook, receive, receive_unsigned, receive_signed,
  receive-signed,
}
use partha_prime_agent.Webhook.Outcome.{NotAccepted, handle_webhook-outcome}
use partha_prime_agent.Api.{
  reply, http_exception, unhandled, translate, tasks_of, max_request_size, correlation_header,
  Served, webhook, github_webhook,
}

served_small :
    (body : Bytes) → length body ≤ max_request_size → ltb max_request_size (length body) ≡ false
served_small body h = ground arith

translate_err : (x : Exception) (r : Response) → translate (err x) ≡ reply r → ⊥
unfolding translate
translate_err x r h = ground arith

parse_of_non_object :
    (v : Value)
    → ((p : Fields) → v ≢ obj p)
    → parse_pull_request_event v ≡ raise Kind.attribute_error "object has no attribute 'get'"
unfolding parse_pull_request_event
parse_of_non_object (obj p) other = absurd (other p refl)
parse_of_non_object v other = refl

refused_reply :
    (r : Result Answer) → NotAccepted r → (tasks_of r ≡ []) × (translate r ≢ reply accepted)
unfolding translate
refused_reply (ok a) refused = ((refused a refl).1, λ e. (refused a refl).0 (cc))
refused_reply (err x) refused = ground arith

module _ (P : Platform) (clock : ℕ → ℕ) (provider : ScmProvider) (body : Bytes)
    (signature correlation : Option String) (db : Database) where
  abbrev served : Served
  served = webhook P clock provider body signature correlation db

  -- The database is as it was, and nothing is scheduled, unless the reply says that the event was
  -- accepted.
  pub webhook_changes_nothing_unless_accepted :
      ((served.database ≡ db) × (served.tasks ≡ []) × (served.result ≢ reply accepted))
      ⊎ (served.result ≡ reply accepted)
  unfolding webhook
  webhook_changes_nothing_unless_accepted = elim (Bool-cases (ltb max_request_size (length body))) [
    | inl large ↦ rw large (inl (refl, refl, λ e. cc))
    | inr small ↦
        rw small
          (elim (handle_webhook-outcome P provider clock body signature
            (correlation_header correlation) true db) [
              | inl (same, refused) ↦
                  inl (same, (refused_reply _ refused).0, (refused_reply _ refused).1)
              | inr (a, done, st) ↦ inr (rw done (unfold translate in ap reply st.trace.reply))
            ])
  ]

  -- A request with a body, and not too large a one, whose signature the provider rejects gets a
  -- 401; nothing is scheduled, and the database is as it was.
  pub webhook_unauthorized :
      body ≢ []
      → length body ≤ max_request_size
      → provider.validate_webhook body signature ≡ ok false
      → (served.result ≡ http_exception 401 "authentication_failed")
        × (served.tasks ≡ [])
        × (served.database ≡ db)
  unfolding webhook handle_webhook translate
  webhook_unauthorized filled small rejected =
      rw (served_small body small)
        (rw (receive_unsigned P provider signature body filled rejected) (refl, refl, refl))

  -- A request that gets an answer carried a signature that the provider accepts.
  pub webhook_authenticated :
      (r : Response) → served.result ≡ reply r → provider.validate_webhook body signature ≡ ok true
  unfolding webhook handle_webhook
  webhook_authenticated r h = elim (Bool-cases (ltb max_request_size (length body))) [
    | inl large ↦ cc (rw large at h)
    | inr small ↦ go (receive P provider body signature) refl (rw small at h)
  ]
    where
      go :
          (got : Result (Option PullRequestEvent))
          → receive P provider body signature ≡ got
          → translate
              (handle_webhook P provider clock body signature
                (correlation_header correlation)
                true
                db).0
            ≡ reply r
          → provider.validate_webhook body signature ≡ ok true
      go (ok found) e h = (receive-signed P provider signature body found e).1
      go (err x) e h = absurd (translate_err x r (rw e at h))

-- GitHub's endpoint answers only requests that are signed: a secret is configured, and the header
-- is the sha1 or the sha256 digest of the body under it. Digests are assumed to be ASCII.
pub github_webhook_authenticated :
    (P : Platform) (clock : ℕ → ℕ) (secret : Option String) (body : Bytes)
    (signature correlation : Option String) (db : Database) (r : Response)
    → ((key : String) → HexDigests P key body)
    → (github_webhook P clock secret body signature correlation db).result ≡ reply r
    → (key : String) × (s : String) × (secret ≡ some key)
      × (truthy key ≡ true)
      × (signature ≡ some s)
      × Signs P key body s
unfolding github_webhook github_provider
github_webhook_authenticated P clock secret body signature correlation db r hex h =
    (github_signature-true P _ body signature hex).0
      (webhook_authenticated P clock (github_provider P _) body signature correlation db r h)

-- A signed body, within the limit of size, that is JSON but no object ends in an exception that
-- GitHub's endpoint does not catch.
pub github_webhook_of_non_object :
    (P : Platform) (clock : ℕ → ℕ) (secret : Option String) (body : Bytes)
    (signature correlation : Option String) (db : Database) (text : String) (v : Value)
    → body ≢ []
    → length body ≤ max_request_size
    → validate_webhook P
        (record { provider_type = ScmProviderType.github; webhook_secret = secret })
        body
        signature
      ≡ ok true
    → P.decode_utf8 body ≡ some text
    → P.json_loads text ≡ some v
    → ((p : Fields) → v ≢ obj p)
    → (github_webhook P clock secret body signature correlation db).result
      ≡ unhandled (exception Kind.attribute_error "object has no attribute 'get'")
unfolding github_webhook github_provider webhook handle_webhook translate
github_webhook_of_non_object P clock secret body signature correlation db text v filled small signed
      decoded loaded other =
    let config : ScmProviderConfig = record {
      provider_type = ScmProviderType.github;
      webhook_secret = secret;
    } in
    rw (served_small body small) (
      rw (receive_signed P (github_provider P config) signature body filled signed)
        (rw (decoded, loaded, parse_of_non_object v other)))
