-- ===== src/Webhook/Redelivery.antt =====
-- What becomes of a webhook that is delivered again.
use partha_prime_agent.Prelude.{
  ℕ, String, Bool, some, List, [], ◌∷◌, inl, inr, ◌≡◌, refl, sym, ap, ◌∙◌, filter, filter-append,
}
use partha_prime_agent.Prelude.Result.{ok}
use partha_prime_agent.Platform.{Platform}
use partha_prime_agent.Scm.{PullRequestEvent}
use partha_prime_agent.Database.{Database, open_session, scalar_one_or_none}
use partha_prime_agent.Webhook.Receive.{receive}
use partha_prime_agent.Webhook.Defs.{
  Answer, accepted, duplicate, answer, matches, event_id_or, handle_webhook, ingest,
  get_existing_webhook_event,
}
use partha_prime_agent.Webhook.Frame.{store_event-events}
use partha_prime_agent.Webhook.Outcome.{NotAccepted}
use partha_prime_agent.Webhook.Idempotence.{
  Request, deliver, serve, StoredBy, deliver-stored, stored-Recorded, Recorded-refused,
  serve-Recorded, matches_hash,
}

-- The same delivery, at another time and with another correlation id.
abbrev pub again : Request → (ℕ → ℕ) → String → Bool → Request
again r clock correlation_id background = record r {
  clock = clock;
  correlation_id = correlation_id;
  background = background;
}

module _ (P : Platform) (r : Request) (db after : Database) (a : Answer)
    (delivered : deliver P r db ≡ (ok a, after)) (acc : a.response ≡ accepted) where
  stored : StoredBy P r db a after
  stored = deliver-stored P r db a after delivered acc

  -- Once a delivery was accepted, the same body and signature are never accepted again and change
  -- nothing, whatever requests were served in between.
  pub redelivery_refused :
      (between : List Request) (clock : ℕ → ℕ) (correlation_id : String) (background : Bool)
      → ((deliver P (again r clock correlation_id background) (serve P between after)).1
          ≡ serve P between after)
        × NotAccepted
            (deliver P (again r clock correlation_id background) (serve P between after)).0
  redelivery_refused between clock correlation_id background =
      Recorded-refused P (again r clock correlation_id background) (serve P between after)
        stored.event stored.received
        (serve-Recorded P between after _ _ (
          stored-Recorded P r db a after (event_id_or stored.event (P.sha256 r.body))
            (P.sha256 r.body) stored (inl refl)))

  -- An accepted delivery that is repeated at once is answered as a duplicate: the database stays as
  -- it is, and nothing is scheduled.
  pub redelivery_is_duplicate :
      (clock : ℕ → ℕ) (correlation_id : String) (background : Bool)
      → deliver P (again r clock correlation_id background) after
        ≡ (ok (answer duplicate []), after)
  unfolding handle_webhook ingest get_existing_webhook_event scalar_one_or_none
  redelivery_is_duplicate clock correlation_id background =
      let (row, events, row_hash, _) =
        store_event-events P r.clock stored.event (P.sha256 r.body) r.correlation_id r.background
          (open_session db) stored.session a stored.trace in
      let p = matches (event_id_or stored.event (P.sha256 r.body)) (P.sha256 r.body) in
      let found : filter p after.webhook_events ≡ row ∷ [] = rw (
        stored.kept,
        events,
        filter-append,
        stored.fresh,
        matches_hash (event_id_or stored.event (P.sha256 r.body)) (P.sha256 r.body) row row_hash,
      ) in
      rw (stored.received, found)

-- An event whose provider event id was stored before is refused and changes nothing, whatever it
-- is about: its repository, its pull request and its commits are not compared.
pub same_event_id_refused :
    (P : Platform) (r other : Request) (db after : Database) (a : Answer)
    (event event' : PullRequestEvent)
    → deliver P r db ≡ (ok a, after)
    → a.response ≡ accepted
    → receive P r.provider r.body r.signature ≡ ok (some event)
    → receive P other.provider other.body other.signature ≡ ok (some event')
    → event_id_or event' (P.sha256 other.body) ≡ event_id_or event event.event_type
    → (between : List Request)
    → ((deliver P other (serve P between after)).1 ≡ serve P between after)
      × NotAccepted (deliver P other (serve P between after)).0
same_event_id_refused P r other db after a event event' delivered acc got got' same between =
    let st = deliver-stored P r db a after delivered acc in
    let e : st.event ≡ event = cc (got, st.received) in
    Recorded-refused P other (serve P between after) event' got' (
      serve-Recorded P between after (event_id_or event' (P.sha256 other.body))
        (P.sha256 other.body)
        (stored-Recorded P r db a after _ _ st
          (inr (ap (λ (x : PullRequestEvent). event_id_or x x.event_type) e ∙ sym same))))
