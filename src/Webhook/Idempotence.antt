-- ===== src/Webhook/Idempotence.antt =====
-- Deduplication: an event that was stored is never stored again, whatever arrives in between.
use partha_prime_agent.Prelude.{
  ℕ, String, Bool, true, Option, some, List, [], ◌∷◌, ◌++◌, ◌⊎◌, inl, inr, ◌≡◌, arith, ap, ◌∙◌, any,
  any-append, any_of_filter-nil, eq_iff,
}
use mathlib.Core.Path.{subst₂}
use partha_prime_agent.Prelude.Result.{Result, ok}
use partha_prime_agent.Platform.{Platform, Bytes}
use partha_prime_agent.Scm.{PullRequestEvent, ScmProvider}
use partha_prime_agent.Models.{WebhookEvent}
use partha_prime_agent.Database.{Database, open_session}
use partha_prime_agent.Webhook.Receive.{receive}
use partha_prime_agent.Webhook.Defs.{Answer, accepted, matches, event_id_or, handle_webhook}
use partha_prime_agent.Webhook.Frame.{store_event-events}
use partha_prime_agent.Webhook.Outcome.{NotAccepted, Stored, Outcome, handle_webhook-outcome}

-- What one call of `handle_webhook` is given.
pub record Request : Type 0 where
  pub provider : ScmProvider
  pub clock : ℕ → ℕ
  pub body : Bytes
  pub signature : Option String
  pub correlation_id : String
  pub background : Bool

module _ (P : Platform) where
  abbrev pub deliver : Request → Database → Result Answer × Database
  deliver r = handle_webhook P r.provider r.clock r.body r.signature r.correlation_id r.background

  -- Requests one after the other.
  abbrev pub serve : List Request → Database → Database
  serve [] db = db
  serve (r ∷ rs) db = serve rs (deliver r db).1

abbrev pub Recorded : String → String → Database → Type 0
Recorded id h db = any (matches id h) db.webhook_events ≡ true

pub matches_hash :
    (id h : String) (row : WebhookEvent) → row.payload_hash ≡ h → matches id h row ≡ true
matches_hash id h row e = ground (arith, eq_iff row.payload_hash h)

matches_id :
    (id h : String) (row : WebhookEvent) → row.provider_event_id ≡ some id → matches id h row ≡ true
matches_id id h row e = rw e (ground (arith, eq_iff id id))

Recorded-append :
    (id h : String) (events : List WebhookEvent) (row : WebhookEvent)
    → (any (matches id h) events ≡ true) ⊎ (matches id h row ≡ true)
    → any (matches id h) (events ++ (row ∷ [])) ≡ true
Recorded-append id h events row e = ground (arith, any-append (matches id h) events (row ∷ []))

module _ (P : Platform) (r : Request) (db : Database) where
  abbrev hash : String
  hash = P.sha256 r.body

  abbrev pub StoredBy : Answer → Database → Type 0
  StoredBy = Stored P r.provider r.clock r.body r.signature r.correlation_id r.background db

  abbrev pub outcome :
      Outcome P r.provider r.clock r.body r.signature r.correlation_id r.background db
        (deliver P r db)
  outcome =
      handle_webhook-outcome P r.provider r.clock r.body r.signature r.correlation_id r.background
        db

  pub deliver-stored :
      (a : Answer) (after : Database)
      → deliver P r db ≡ (ok a, after)
      → a.response ≡ accepted
      → StoredBy a after
  deliver-stored a after e acc = go (deliver P r db) outcome e
    where
      go :
          (out : Result Answer × Database)
          → Outcome P r.provider r.clock r.body r.signature r.correlation_id r.background db out
          → out ≡ (ok a, after)
          → StoredBy a after
      go (x, after') (inl (same, refused)) e =
          absurd ((refused a (ap (λ (o : Result Answer × Database). o.0) e)).0 acc)
      go (x, after') (inr (b, same, stored)) e = subst₂ StoredBy (cc) (cc) stored

  pub stored-Recorded :
      (a : Answer) (after : Database) (id h : String) (st : StoredBy a after)
      → (hash ≡ h) ⊎ (event_id_or st.event st.event.event_type ≡ id)
      → Recorded id h after
  stored-Recorded a after id h st same =
      let (row, events, row_hash, row_id) =
        store_event-events P r.clock st.event hash r.correlation_id r.background (open_session db)
          st.session a st.trace in
      rw (st.kept, events)
        (Recorded-append id h db.webhook_events row (
          inr (elim same [
            | inl e ↦ matches_hash id h row (row_hash ∙ e)
            | inr e ↦ matches_id id h row (row_id ∙ ap some e)
          ])))

  -- What is recorded stays recorded.
  deliver-Recorded : (id h : String) → Recorded id h db → Recorded id h (deliver P r db).1
  deliver-Recorded id h known = elim outcome [
    | inl (same, _) ↦ rw same known
    | inr (a, _, st) ↦
        let (row, events, _, _) =
          store_event-events P r.clock st.event hash r.correlation_id r.background (open_session db)
            st.session a st.trace in
        rw (st.kept, events) (Recorded-append id h db.webhook_events row (inl known))
  ]

  -- What is recorded is turned away.
  pub Recorded-refused :
      (event : PullRequestEvent)
      → receive P r.provider r.body r.signature ≡ ok (some event)
      → Recorded (event_id_or event hash) hash db
      → ((deliver P r db).1 ≡ db) × NotAccepted (deliver P r db).0
  Recorded-refused event received known = elim outcome [
    | inl done ↦ done
    | inr (a, _, st) ↦
        let same : st.event ≡ event = cc (received, st.received) in
        let fresh =
          any_of_filter-nil (matches (event_id_or st.event hash) hash) db.webhook_events st.fresh in
        cc (rw same at fresh, known)
  ]

pub serve-Recorded :
    (P : Platform) (rs : List Request) (db : Database) (id h : String)
    → Recorded id h db
    → Recorded id h (serve P rs db)
serve-Recorded P [] db id h known = known
serve-Recorded P (r ∷ rs) db id h known =
    serve-Recorded P rs (deliver P r db).1 id h (deliver-Recorded P r db id h known)
