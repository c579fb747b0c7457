-- ===== src/Tests/WebhookRuns.antt =====
-- Deliveries to an empty database.
use partha_prime_agent.Prelude.{
  String, true, false, none, some, [], ◌∷◌, ◌≡◌, ◌≢◌, refl, is_ascii, truthy, ◌⊎◌,
}
use partha_prime_agent.Prelude.Result.{Result, ok, err}
use partha_prime_agent.Json.{get, as_str, as_dict, as_int_str, as_nonempty_str}
use partha_prime_agent.Platform.{Bytes}
use partha_prime_agent.Scm.{PullRequestEvent, compare_digest}
use partha_prime_agent.Scm.Github.Signature.{HexDigests, Signs}
use partha_prime_agent.Webhook.Correlation.{same_correlation_id_refused}
use partha_prime_agent.Api.{reply, webhook, github_webhook, translate}
use partha_prime_agent.Api.Laws.{
  webhook_changes_nothing_unless_accepted, github_webhook_authenticated,
}
use partha_prime_agent.Database.{
  Database, scalar_one_or_none, insert_repository, insert_pull_request, insert_webhook_event,
  insert_workflow_run, insert_audit_log, commit,
}
use partha_prime_agent.Scm.Github.{
  github_provider, validate_webhook, parse_pull_request_event, parse_payload,
}
use partha_prime_agent.Webhook.{
  Answer, accepted, duplicate, answer, handle_webhook, receive, ingest, store_event,
  get_existing_webhook_event, create_webhook_event, create_workflow_run, create_audit_log,
  get_or_create_repository, get_or_create_pull_request,
}
use partha_prime_agent.Webhook.Outcome.{Outcome, NotAccepted, handle_webhook-outcome}
use partha_prime_agent.Webhook.Idempotence.{Request, deliver, serve}
use partha_prime_agent.Webhook.Redelivery.{
  again, redelivery_refused, redelivery_is_duplicate, same_event_id_refused,
}
use partha_prime_agent.Tests.Toy.{toy, empty_db, request_of}

abbrev first : Request
first = request_of (1 ∷ []) "c1"

abbrev second : Request
second = request_of (2 ∷ []) "c2"

abbrev same_id : Request
same_id = request_of (2 ∷ []) "c1"

abbrev event_of : String → PullRequestEvent
event_of id = record {
  event_type = "pull_request";
  repository_id = "1";
  pull_request_id = id;
  source_branch = "feature";
  target_branch = "main";
  source_commit_sha = "aaa";
  target_commit_sha = "bbb";
  repository_full_name = "o/r";
  provider_event_id = some "opened";
}

abbrev answer_in : Result Answer → Answer
answer_in (ok a) = a
answer_in (err x) = answer duplicate []

abbrev first_answer : Answer
first_answer = answer_in (deliver toy first empty_db).0

abbrev after_first : Database
after_first = (deliver toy first empty_db).1

first_delivered : deliver toy first empty_db ≡ (ok first_answer, after_first)
unfolding handle_webhook ingest store_event get_existing_webhook_event receive github_provider
    validate_webhook parse_pull_request_event parse_payload create_webhook_event create_workflow_run
    create_audit_log get_or_create_repository get_or_create_pull_request scalar_one_or_none
    insert_repository insert_pull_request insert_webhook_event insert_workflow_run insert_audit_log
    commit request_of compare_digest is_ascii as_str get as_dict as_int_str as_nonempty_str
first_delivered = refl

first_accepted : first_answer.response ≡ accepted
unfolding handle_webhook ingest store_event get_existing_webhook_event receive github_provider
    validate_webhook parse_pull_request_event parse_payload create_webhook_event create_workflow_run
    create_audit_log get_or_create_repository get_or_create_pull_request scalar_one_or_none
    insert_repository insert_pull_request insert_webhook_event insert_workflow_run insert_audit_log
    commit request_of compare_digest is_ascii as_str get as_dict as_int_str as_nonempty_str
first_accepted = refl

handle_webhook-outcome_example :
    Outcome toy first.provider first.clock first.body first.signature first.correlation_id true
      empty_db
      (deliver toy first empty_db)
unfolding request_of
handle_webhook-outcome_example =
    handle_webhook-outcome toy first.provider first.clock first.body first.signature
      first.correlation_id true empty_db

redelivery_refused_example :
    ((deliver toy (again first (λ n. n) "c3" true) (serve toy (second ∷ []) after_first)).1
      ≡ serve toy (second ∷ []) after_first)
    × NotAccepted
        (deliver toy (again first (λ n. n) "c3" true) (serve toy (second ∷ []) after_first)).0
redelivery_refused_example =
    redelivery_refused toy first empty_db after_first first_answer first_delivered first_accepted
      (second ∷ []) (λ n. n) "c3" true

redelivery_is_duplicate_example :
    deliver toy (again first (λ n. n) "c3" true) after_first
    ≡ (ok (answer duplicate []), after_first)
redelivery_is_duplicate_example =
    redelivery_is_duplicate toy first empty_db after_first first_answer first_delivered
      first_accepted (λ n. n) "c3" true

first_received : receive toy first.provider first.body first.signature ≡ ok (some (event_of "7"))
unfolding receive github_provider validate_webhook parse_pull_request_event parse_payload request_of
    compare_digest is_ascii as_str get as_dict as_int_str as_nonempty_str
first_received = refl

second_received :
    receive toy second.provider second.body second.signature ≡ ok (some (event_of "8"))
unfolding receive github_provider validate_webhook parse_pull_request_event parse_payload request_of
    compare_digest is_ascii as_str get as_dict as_int_str as_nonempty_str
second_received = refl

-- Another pull request, opened after the first.
same_event_id_refused_example :
    ((deliver toy second (serve toy [] after_first)).1 ≡ serve toy [] after_first)
    × NotAccepted (deliver toy second (serve toy [] after_first)).0
same_event_id_refused_example =
    same_event_id_refused toy first second empty_db after_first first_answer (event_of "7")
      (event_of "8") first_delivered first_accepted first_received second_received refl []

-- A request with the same correlation id.
same_correlation_id_refused_example :
    ((deliver toy same_id (serve toy [] after_first)).1 ≡ serve toy [] after_first)
    × NotAccepted (deliver toy same_id (serve toy [] after_first)).0
unfolding request_of
same_correlation_id_refused_example =
    same_correlation_id_refused toy first same_id empty_db after_first first_answer first_delivered
      first_accepted refl []

webhook_changes_nothing_unless_accepted_example :
    (((webhook toy (λ n. n) first.provider (1 ∷ []) (some "bad") none empty_db).database ≡ empty_db)
      × ((webhook toy (λ n. n) first.provider (1 ∷ []) (some "bad") none empty_db).tasks ≡ [])
      × ((webhook toy (λ n. n) first.provider (1 ∷ []) (some "bad") none empty_db).result
          ≢ reply accepted))
    ⊎ ((webhook toy (λ n. n) first.provider (1 ∷ []) (some "bad") none empty_db).result
        ≡ reply accepted)
webhook_changes_nothing_unless_accepted_example =
    webhook_changes_nothing_unless_accepted toy (λ n. n) first.provider (1 ∷ []) (some "bad") none
      empty_db

bad_signature : first.provider.validate_webhook (1 ∷ []) (some "sha256=no") ≡ ok false
unfolding github_provider validate_webhook request_of compare_digest is_ascii
bad_signature = refl

toy_digests : (key : String) (body : Bytes) → HexDigests toy key body
unfolding is_ascii
toy_digests key body = record { sha1_is_ascii = refl; sha256_is_ascii = refl }

first_replied :
    (github_webhook toy
      (λ n. n)
      (some "key")
      (1 ∷ [])
      (some "sha256=d2")
      (some "c1")
      empty_db).result
    ≡ reply accepted
unfolding handle_webhook ingest store_event get_existing_webhook_event receive github_provider
    validate_webhook parse_pull_request_event parse_payload create_webhook_event create_workflow_run
    create_audit_log get_or_create_repository get_or_create_pull_request scalar_one_or_none
    insert_repository insert_pull_request insert_webhook_event insert_workflow_run insert_audit_log
    commit request_of compare_digest is_ascii as_str get as_dict as_int_str as_nonempty_str
    github_webhook webhook translate
first_replied = refl

github_webhook_authenticated_example :
    (key : String) × (s : String) × (some "key" ≡ some key)
    × (truthy key ≡ true)
    × (some "sha256=d2" ≡ some s)
    × Signs toy key (1 ∷ []) s
github_webhook_authenticated_example =
    github_webhook_authenticated toy (λ n. n) (some "key") (1 ∷ []) (some "sha256=d2") (some "c1")
      empty_db accepted (λ key. toy_digests key (1 ∷ [])) first_replied
