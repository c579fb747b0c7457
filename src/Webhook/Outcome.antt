-- ===== src/Webhook/Outcome.antt =====
-- How a webhook request can end: nothing is changed, or one event is stored.
use partha_prime_agent.Prelude.{
  ℕ, String, Bool, Option, none, some, List, [], ◌∷◌, ◌⊎◌, inl, inr, ◌≡◌, ◌≢◌, refl, sym, arith,
  filter, ap, eq_iff, ◌∙◌,
}
use partha_prime_agent.Prelude.Result.{Result, ok, err}
use partha_prime_agent.Prelude.Exec.{Exec, bind_cases, ◌>>=◌}
use partha_prime_agent.Platform.{Platform, Bytes}
use partha_prime_agent.Scm.{PullRequestEvent, ScmProvider}
use partha_prime_agent.Models.{WebhookEvent}
use partha_prime_agent.Database.{Database, Session, commit, open_session, with_session}
use partha_prime_agent.Webhook.Receive.{receive}
use partha_prime_agent.Webhook.Defs.{
  Answer, Response, accepted, ignored, duplicate, matches, event_id_or, get_existing_webhook_event,
  get_or_create_repository, get_or_create_pull_request, create_webhook_event, create_workflow_run,
  create_audit_log, store_event, ingest, handle_webhook,
}
use partha_prime_agent.Webhook.Frame.{
  committed-repository, committed-pull_request, committed-webhook_event, committed-workflow_run,
  committed-audit_log, Trace, store_event-trace,
}

-- It returned, or what is committed is what was committed before.
abbrev Settled : Session → Result Answer × Session → Type 0
Settled s ru = ((a : Answer) × (ru.0 ≡ ok a)) ⊎ (ru.1.committed ≡ s.committed)

Settled-from :
    (s u : Session) (ru : Result Answer × Session)
    → Settled u ru
    → u.committed ≡ s.committed
    → Settled s ru
Settled-from s u ru (inl done) e = inl done
Settled-from s u ru (inr kept) e = inr (kept ∙ e)

Settled-bind :
    {A : Type 0} (m : Exec Session A) (f : A → Exec Session Answer) (s : Session)
    → (m s).1.committed ≡ s.committed
    → ((a : A) (u : Session) → Settled u (f a u))
    → Settled s ((m >>= f) s)
Settled-bind m f s kept rest =
    bind_cases (Settled s) m f s
      (λ a u e.
        Settled-from s u (f a u) (rest a u)
          (ap (λ (r : Result _ × Session). r.1.committed) (sym e) ∙ kept))
      (λ x u e. inr (ap (λ (r : Result _ × Session). r.1.committed) (sym e) ∙ kept))

module _ (P : Platform) (clock : ℕ → ℕ) (parsed : PullRequestEvent)
    (payload_hash correlation_id : String) (background : Bool) where
  store_event-Settled :
      (s : Session)
      → Settled s (store_event P clock parsed payload_hash correlation_id background s)
  unfolding store_event commit
  store_event-Settled s =
      Settled-bind (get_or_create_repository parsed) _ s (committed-repository parsed s)
        λ repository s1.
          Settled-bind (get_or_create_pull_request parsed repository (clock 0)) _ s1
            (committed-pull_request parsed s1 repository (clock 0))
            λ pull s2.
              Settled-bind (create_webhook_event parsed repository payload_hash (clock 1)) _ s2
                (committed-webhook_event repository payload_hash parsed (clock 1) s2)
                λ _ s3.
                  Settled-bind (create_workflow_run pull correlation_id) _ s3
                    (committed-workflow_run pull correlation_id s3)
                    λ run s4.
                      Settled-bind (create_audit_log P pull run correlation_id) _ s4
                        (committed-audit_log P pull run correlation_id s4) λ _ s5. inl (_, refl)

-- If it returned at all, it was not accepted, and nothing is to be scheduled.
abbrev pub NotAccepted : Result Answer → Type 0
NotAccepted r = (a : Answer) → r ≡ ok a → (a.response ≢ accepted) × (a.tasks ≡ [])

duplicate-ne-accepted : duplicate ≢ accepted
duplicate-ne-accepted e =
    ground (arith, ap (λ (r : Response). r.status) e, eq_iff "duplicate" "accepted")

ignored-ne-accepted : ignored ≢ accepted
ignored-ne-accepted e =
    ground (arith, ap (λ (r : Response). r.status) e, eq_iff "ignored" "accepted")

module _ (P : Platform) (provider : ScmProvider) (clock : ℕ → ℕ) (body : Bytes)
    (signature : Option String) (correlation_id : String) (background : Bool) (db : Database) where
  abbrev hash : String
  hash = P.sha256 body

  -- The request was accepted, as the answer `a` and the database `after` say.
  pub record Stored (a : Answer) (after : Database) : Type 0 where
    pub event : PullRequestEvent
    pub session : Session
    pub received : receive P provider body signature ≡ ok (some event)
    pub fresh : filter (matches (event_id_or event hash) hash) db.webhook_events ≡ []
    pub trace : Trace P clock event hash correlation_id background (open_session db) session a
    pub kept : after ≡ session.committed

  abbrev pub Outcome : Result Answer × Database → Type 0
  Outcome out =
      ((out.1 ≡ db) × NotAccepted out.0) ⊎ ((a : Answer) × (out.0 ≡ ok a) × Stored a out.1)

  store_event-outcome :
      (event : PullRequestEvent)
      → receive P provider body signature ≡ ok (some event)
      → filter (matches (event_id_or event hash) hash) db.webhook_events ≡ []
      → Outcome (with_session (store_event P clock event hash correlation_id background) db)
  store_event-outcome event received fresh =
      go (store_event P clock event hash correlation_id background (open_session db)) refl
        (store_event-Settled P clock event hash correlation_id background (open_session db))
    where
      go :
          (ru : Result Answer × Session)
          → store_event P clock event hash correlation_id background (open_session db) ≡ ru
          → Settled (open_session db) ru
          → Outcome (ru.0, ru.1.committed)
      go (ok a, t) e settled = inr (
        a,
        refl,
        record {
          event = event;
          session = t;
          received = received;
          fresh = fresh;
          trace =
              store_event-trace P clock event hash correlation_id background (open_session db) t a
                e;
          kept = refl;
        },
      )
      go (err x, t) e (inl (a, bad)) = cc
      go (err x, t) e (inr same) = inl (same, λ a bad. cc)

  ingest-outcome :
      (event : PullRequestEvent)
      → receive P provider body signature ≡ ok (some event)
      → Outcome (with_session (ingest P clock event hash correlation_id background) db)
  unfolding ingest get_existing_webhook_event
  ingest-outcome event received =
      go (filter (matches (event_id_or event hash) hash) db.webhook_events) refl
    where
      go :
          (rows : List WebhookEvent)
          → filter (matches (event_id_or event hash) hash) db.webhook_events ≡ rows
          → Outcome (with_session (ingest P clock event hash correlation_id background) db)
      go [] e = rw e (store_event-outcome event received e)
      go (x ∷ []) e = rw e (inl (refl, λ a same. (λ acc. duplicate-ne-accepted (cc), cc)))
      go (x ∷ y ∷ rows) e = rw e (inl (refl, λ a bad. cc))

  -- Every request leaves the database as it was, is not accepted and schedules nothing, or it is
  -- accepted, its signature and payload passed, no stored event matched it, and the database is
  -- what the five writes of its event have committed.
  pub handle_webhook-outcome :
      Outcome (handle_webhook P provider clock body signature correlation_id background db)
  unfolding handle_webhook
  handle_webhook-outcome = go (receive P provider body signature) refl
    where
      go :
          (r : Result (Option PullRequestEvent))
          → receive P provider body signature ≡ r
          → Outcome (handle_webhook P provider clock body signature correlation_id background db)
      go (err x) e = rw e (inl (refl, λ a bad. cc))
      go (ok none) e = rw e (inl (refl, λ a same. (λ acc. ignored-ne-accepted (cc), cc)))
      go (ok (some event)) e = rw e (ingest-outcome event e)
