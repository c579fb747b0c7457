-- ===== src/Webhook/Advisory.antt =====
-- A request decides no pull request and blocks no finding.
use partha_prime_agent.Prelude.{
  ℕ, String, Bool, Option, none, some, List, [], ◌∷◌, inl, inr, ◌≡◌, refl, arith, Bool-cases, any,
  ◌==◌, string_eq, nat_eq, if◌then◌else◌,
}
use partha_prime_agent.Prelude.Keys.{All-snoc}
use partha_prime_agent.Prelude.Result.{Result, ok, err}
use partha_prime_agent.Prelude.Exec.{pure, ◌>>◌}
use partha_prime_agent.Prelude.Exec.Keeps.{Keeps, Keeps-bind, Keeps-pure}
use partha_prime_agent.Enums.{execution_status_value, merge_decision_value}
use partha_prime_agent.Platform.{Platform}
use partha_prime_agent.Scm.{PullRequestEvent}
use partha_prime_agent.Models.{Repository, PullRequest, WebhookEvent}
use partha_prime_agent.Database.{
  Database, Session, commit, insert_pull_request, update_pull_request, open_session,
}
use partha_prime_agent.Database.Advisory.{IsAdvisory, IsPending, IsPending-updated}
use partha_prime_agent.Webhook.Receive.{receive}
use partha_prime_agent.Webhook.Defs.{
  answer, accepted, duplicate, new_pull_request, refresh, pull_request_rows,
  get_existing_webhook_event, event_id_or, get_or_create_repository, get_or_create_pull_request,
  create_webhook_event, create_workflow_run, create_audit_log, store_event, ingest, handle_webhook,
}
use partha_prime_agent.Webhook.Frame.{committed-repository, committed-workflow_run}
use partha_prime_agent.Webhook.Idempotence.{Request, deliver}

-- Before and in a transaction.
abbrev Advised : Session → Type 0
Advised s = IsAdvisory s.committed × IsAdvisory s.working

same-Advised :
    (s t : Session)
    → t.committed ≡ s.committed
    → t.working.pull_requests ≡ s.working.pull_requests
    → t.working.findings ≡ s.working.findings
    → Advised s
    → Advised t
same-Advised s t e p f h =
    (rw e h.0, record { pending = rw p h.1.pending; unblocked = rw f h.1.unblocked })

module _ (parsed : PullRequestEvent) where
  pulls-repository :
      (s : Session)
      → (get_or_create_repository parsed s).1.working.pull_requests ≡ s.working.pull_requests
  unfolding get_or_create_repository
  pulls-repository s = ground arith

  findings-repository :
      (s : Session) → (get_or_create_repository parsed s).1.working.findings ≡ s.working.findings
  unfolding get_or_create_repository
  findings-repository s = ground arith

  repository-Advised : Keeps Advised (get_or_create_repository parsed)
  repository-Advised = record {
    apply = λ s h.
        same-Advised s _ (committed-repository parsed s) (pulls-repository s)
          (findings-repository s) h;
  }

  module _ (repository : Repository) (now : ℕ) where
    inserted-Advised : Keeps Advised (insert_pull_request (new_pull_request parsed repository.id))
    unfolding insert_pull_request execution_status_value merge_decision_value
    inserted-Advised = record {
      apply = λ s h.
          elim (Bool-cases (
            any (λ (r : PullRequest). r.provider_pr_id == parsed.pull_request_id)
              s.working.pull_requests)) [
                | inl old ↦ rw old h
                | inr new ↦ rw new (
                  h.0,
                  record {
                    pending =
                        All-snoc IsPending s.working.pull_requests
                          (new_pull_request parsed repository.id s.working.next_id) h.1.pending
                          refl;
                    unblocked = h.1.unblocked;
                  },
                )
              ];
    }

    refreshed-Advised :
        (x : PullRequest)
        → Keeps Advised
            (update_pull_request x.id (refresh parsed now) >> pure (refresh parsed now x))
    unfolding update_pull_request refresh merge_decision_value
    refreshed-Advised x = record {
      apply = λ s h. (
        h.0,
        record {
          pending =
              IsPending-updated x.id (refresh parsed now) (λ r p. refl) s.working.pull_requests
                h.1.pending;
          unblocked = h.1.unblocked;
        },
      );
    }

    pull_request-Advised : Keeps Advised (get_or_create_pull_request parsed repository now)
    unfolding get_or_create_pull_request
    pull_request-Advised = record { apply = λ s h. go s h (pull_request_rows parsed s) refl }
      where
        go :
            (s : Session)
            → Advised s
            → (rows : List PullRequest) → pull_request_rows parsed s ≡ rows
            → Advised (get_or_create_pull_request parsed repository now s).1
        go s h [] e = rw e (inserted-Advised.apply s h)
        go s h (x ∷ []) e = rw e ((refreshed-Advised x).apply s h)
        go s h (x ∷ y ∷ more) e = rw e h

module _ (P : Platform) (clock : ℕ → ℕ) (parsed : PullRequestEvent)
    (payload_hash correlation_id : String) (background : Bool) where
  run-Advised : (pull : PullRequest) → Keeps Advised (create_workflow_run pull correlation_id)
  unfolding create_workflow_run
  run-Advised pull = record {
    apply = λ s h.
        same-Advised s _ (committed-workflow_run pull correlation_id s) (ground arith)
          (ground arith) h;
  }

  store_event-Advised :
      Keeps Advised (store_event P clock parsed payload_hash correlation_id background)
  unfolding store_event create_webhook_event create_audit_log commit
  store_event-Advised =
      Keeps-bind Advised (get_or_create_repository parsed) _ (repository-Advised parsed)
        λ repository.
          Keeps-bind Advised (get_or_create_pull_request parsed repository (clock 0)) _
            (pull_request-Advised parsed repository (clock 0))
            λ pull.
              Keeps-bind Advised (create_webhook_event parsed repository payload_hash (clock 1)) _
                (record { apply = λ s h. same-Advised s _ refl refl refl h })
                λ _.
                  Keeps-bind Advised (create_workflow_run pull correlation_id) _ (run-Advised pull)
                    λ run.
                      Keeps-bind Advised (create_audit_log P pull run correlation_id) _
                        (record { apply = λ s h. same-Advised s _ refl refl refl h })
                        λ _.
                          Keeps-bind Advised commit _ (record { apply = λ s h. (h.1, h.1) })
                            λ _. Keeps-pure Advised (
                              answer accepted (
                                if background
                                then record {
                                  event = parsed;
                                  repository_id = repository.id;
                                  pull_request_id = pull.id;
                                  workflow_run_id = run.id;
                                  correlation_id = correlation_id;
                                }
                                  ∷ []
                                else []))

  ingest-Advised : Keeps Advised (ingest P clock parsed payload_hash correlation_id background)
  unfolding ingest
  ingest-Advised =
      Keeps-bind Advised (get_existing_webhook_event (event_id_or parsed payload_hash) payload_hash)
        _ (unfold get_existing_webhook_event in record { apply = λ s h. h }) λ found. go found
    where
      go :
          (found : Option WebhookEvent)
          → Keeps Advised (elim found [
            | some e ↦ pure (answer duplicate [])
            | none ↦ store_event P clock parsed payload_hash correlation_id background
          ])
      go (some e) = Keeps-pure Advised (answer duplicate [])
      go none = store_event-Advised

-- However a request ends.
pub deliver-IsAdvisory :
    (P : Platform) (r : Request) (db : Database) → IsAdvisory db → IsAdvisory (deliver P r db).1
unfolding handle_webhook
deliver-IsAdvisory P r db h = go (receive P r.provider r.body r.signature) refl
  where
    go :
        (got : Result (Option PullRequestEvent))
        → receive P r.provider r.body r.signature ≡ got
        → IsAdvisory (deliver P r db).1
    go (err x) e = rw e h
    go (ok none) e = rw e h
    go (ok (some event)) e =
        rw e
          ((ingest-Advised P r.clock event (P.sha256 r.body) r.correlation_id r.background).apply
            (open_session db) (h, h)).0
