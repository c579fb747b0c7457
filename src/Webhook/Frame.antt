-- ===== src/Webhook/Frame.antt =====
-- What the steps of an ingestion leave alone: the committed database before the commit, and the
-- recorded events outside `create_webhook_event`.
use partha_prime_agent.Prelude.{
  ℕ, String, Bool, some, true, [], ◌∷◌, ◌++◌, ◌≡◌, refl, arith, if◌then◌else◌,
}
use partha_prime_agent.Prelude.Result.{ok}
use partha_prime_agent.Prelude.Exec.{bind_ok}
use partha_prime_agent.Platform.{Platform}
use partha_prime_agent.Scm.{PullRequestEvent}
use partha_prime_agent.Models.{Repository, PullRequest, WebhookEvent, WorkflowRun}
use partha_prime_agent.Database.{Session, commit}
use partha_prime_agent.Webhook.Defs.{
  Answer, accepted, get_or_create_repository, get_or_create_pull_request, create_webhook_event,
  create_workflow_run, create_audit_log, store_event, event_id_or,
}

module _ (parsed : PullRequestEvent) (s : Session) where
  pub committed-repository : (get_or_create_repository parsed s).1.committed ≡ s.committed
  unfolding get_or_create_repository
  committed-repository = ground arith

  pub events-repository :
      (get_or_create_repository parsed s).1.working.webhook_events ≡ s.working.webhook_events
  unfolding get_or_create_repository
  events-repository = ground arith

  module _ (repository : Repository) (now : ℕ) where
    pub committed-pull_request :
        (get_or_create_pull_request parsed repository now s).1.committed ≡ s.committed
    unfolding get_or_create_pull_request
    committed-pull_request = ground arith

    pub events-pull_request :
        (get_or_create_pull_request parsed repository now s).1.working.webhook_events
        ≡ s.working.webhook_events
    unfolding get_or_create_pull_request
    events-pull_request = ground arith

module _ (repository : Repository) (payload_hash : String) (parsed : PullRequestEvent) (now : ℕ)
    (s : Session) where
  -- The row that `create_webhook_event` adds.
  abbrev pub event_row : ℕ → WebhookEvent
  event_row id = record {
    id = id;
    repository_id = some repository.id;
    provider_event_id = some (event_id_or parsed parsed.event_type);
    event_type = parsed.event_type;
    payload_hash = payload_hash;
    processed = true;
    payload_excerpt = some "webhook received";
    processed_at = some now;
  }

  pub events-webhook_event :
      (create_webhook_event parsed repository payload_hash now s).1.working.webhook_events
      ≡ s.working.webhook_events ++ (event_row s.working.next_id ∷ [])
  unfolding create_webhook_event
  events-webhook_event = refl

  pub committed-webhook_event :
      (create_webhook_event parsed repository payload_hash now s).1.committed ≡ s.committed
  unfolding create_webhook_event
  committed-webhook_event = refl

module _ (pull_request : PullRequest) (correlation_id : String) (s : Session) where
  pub events-workflow_run :
      (create_workflow_run pull_request correlation_id s).1.working.webhook_events
      ≡ s.working.webhook_events
  unfolding create_workflow_run
  events-workflow_run = ground arith

  pub committed-workflow_run :
      (create_workflow_run pull_request correlation_id s).1.committed ≡ s.committed
  unfolding create_workflow_run
  committed-workflow_run = ground arith

module _ (P : Platform) (pull_request : PullRequest) (run : WorkflowRun) (c : String)
    (s : Session) where
  pub events-audit_log :
      (create_audit_log P pull_request run c s).1.working.webhook_events ≡ s.working.webhook_events
  unfolding create_audit_log
  events-audit_log = refl

  pub committed-audit_log : (create_audit_log P pull_request run c s).1.committed ≡ s.committed
  unfolding create_audit_log
  committed-audit_log = refl

-- The steps of an ingestion that returned.
module _ (P : Platform) (clock : ℕ → ℕ) (parsed : PullRequestEvent)
    (payload_hash correlation_id : String) (background : Bool) (s t : Session) (a : Answer) where
  pub record Trace : Type 0 where
    pub repository : Repository
    pub pull_request : PullRequest
    pub run : WorkflowRun
    pub s1 : Session
    pub s2 : Session
    pub s3 : Session
    pub s4 : Session
    pub s5 : Session
    pub got_repository : get_or_create_repository parsed s ≡ (ok repository, s1)
    pub got_pull_request :
        get_or_create_pull_request parsed repository (clock 0) s1 ≡ (ok pull_request, s2)
    pub recorded : create_webhook_event parsed repository payload_hash (clock 1) s2 ≡ (ok tt, s3)
    pub queued : create_workflow_run pull_request correlation_id s3 ≡ (ok run, s4)
    pub logged : create_audit_log P pull_request run correlation_id s4 ≡ (ok tt, s5)
    pub kept : t.committed ≡ s5.working
    pub reply : a.response ≡ accepted
    pub scheduled : a.tasks ≡ (
        if background
        then record {
          event = parsed;
          repository_id = repository.id;
          pull_request_id = pull_request.id;
          workflow_run_id = run.id;
          correlation_id = correlation_id;
        }
          ∷ []
        else [])

  pub store_event-trace :
      store_event P clock parsed payload_hash correlation_id background s ≡ (ok a, t) → Trace
  unfolding store_event commit
  store_event-trace h = bind_ok (get_or_create_repository parsed) _ s h λ repository s1 e1 h1.
      bind_ok (get_or_create_pull_request parsed repository (clock 0)) _ s1 h1 λ pull s2 e2 h2.
        bind_ok (create_webhook_event parsed repository payload_hash (clock 1)) _ s2 h2
          λ u s3 e3 h3. bind_ok (create_workflow_run pull correlation_id) _ s3 h3 λ run s4 e4 h4.
            bind_ok (create_audit_log P pull run correlation_id) _ s4 h4 λ v s5 e5 h5. record {
              repository = repository;
              pull_request = pull;
              run = run;
              s1 = s1;
              s2 = s2;
              s3 = s3;
              s4 = s4;
              s5 = s5;
              got_repository = e1;
              got_pull_request = e2;
              recorded = e3;
              queued = e4;
              logged = e5;
              kept = ground arith;
              reply = ground arith;
              scheduled = ground arith;
            }

  -- What a returning ingestion has recorded: its event row, behind the earlier ones.
  pub store_event-events :
      Trace
      → (row : WebhookEvent) × (t.committed.webhook_events ≡ s.working.webhook_events ++ (row ∷ []))
        × (row.payload_hash ≡ payload_hash)
        × (row.provider_event_id ≡ some (event_id_or parsed parsed.event_type))
  store_event-events tr = (
    event_row tr.repository payload_hash parsed (clock 1) tr.s2 tr.s2.working.next_id,
    cc (
      tr.kept,
      tr.got_repository,
      tr.got_pull_request,
      tr.recorded,
      tr.queued,
      tr.logged,
      events-repository parsed s,
      events-pull_request parsed tr.s1 tr.repository (clock 0),
      events-webhook_event tr.repository payload_hash parsed (clock 1) tr.s2,
      events-workflow_run tr.pull_request correlation_id tr.s3,
      events-audit_log P tr.pull_request tr.run correlation_id tr.s4,
    ),
    refl,
    refl,
  )
