-- ===== src/Tests/SystemRuns.antt =====
-- A request to an empty database and its background task, with the default services.
use partha_prime_agent.Prelude.{true, [], ◌∷◌, ◌++◌, ◌≡◌, refl, some}
use partha_prime_agent.Json.{get, as_str, as_dict, as_int_str, as_nonempty_str}
use partha_prime_agent.Scm.{ScmProvider, compare_digest}
use partha_prime_agent.Prelude.{is_ascii}
use partha_prime_agent.Scm.Github.{
  github_provider, validate_webhook, parse_pull_request_event, parse_payload,
}
use partha_prime_agent.Database.{
  scalar_one_or_none, insert_repository, insert_pull_request, insert_webhook_event,
  insert_workflow_run, insert_audit_log, commit,
}
use partha_prime_agent.Webhook.{
  Task, handle_webhook, receive, ingest, store_event, get_existing_webhook_event,
  create_webhook_event, create_workflow_run, create_audit_log, get_or_create_repository,
  get_or_create_pull_request,
}
use partha_prime_agent.Webhook.Idempotence.{Request}
use partha_prime_agent.Orchestration.Defs.{Accepts, Services}
use partha_prime_agent.Orchestration.Audited.{OnlyAudit, OnlyAudit-KeepTables}
use partha_prime_agent.Orchestration.Quiet.{default_services-OnlyAudit}
use partha_prime_agent.Orchestration.Wired.{default_services}
use partha_prime_agent.Database.Advisory.{IsAdvisory}
use partha_prime_agent.System.Advisory.{Reach-IsAdvisory}
use partha_prime_agent.Tests.WiredRuns.{
  workspaces, settings, machine, config, registry, schedule, quiet_workspaces, quiet_runner,
}
use partha_prime_agent.System.{
  System, serve_request, run_background, request, background, here, next,
}
use partha_prime_agent.System.Sound.{IsSound, Reach-IsSound}
use partha_prime_agent.Tests.Toy.{toy, empty_db, request_of, toy_config}

abbrev takes_all : Accepts
takes_all = record { scan_run = λ sha r. true; finding = λ f. true }

abbrev services : Services (Unit {0})
services = default_services toy workspaces settings machine config registry schedule

services-OnlyAudit : OnlyAudit services
services-OnlyAudit =
    default_services-OnlyAudit toy workspaces settings machine config registry schedule
      quiet_workspaces quiet_runner

abbrev start : System (Unit {0})
start = record { shared = record { db = empty_db; outside = tt }; pending = [] }

start-IsSound : IsSound start
start-IsSound = record {
  consistent = record {
    repositories_keyed = (tt, tt);
    pull_requests_keyed = (tt, tt);
    webhook_events_keyed = (tt, tt);
    workflow_runs_keyed = (tt, tt);
    scan_runs_keyed = (tt, tt);
    findings_keyed = (tt, tt);
    repositories_unique = tt;
    pull_requests_unique = tt;
    workflow_runs_unique = tt;
    payloads_unique = tt;
    pull_request_repository = tt;
    webhook_event_repository = tt;
    workflow_run_pull_request = tt;
    scan_run_workflow_run = tt;
    finding_workflow_run = tt;
    finding_scan_run = tt;
  };
  waiting = tt;
}

abbrev delivery : Request
delivery = request_of (1 ∷ []) "c1"

abbrev served : System (Unit {0})
served = serve_request toy services takes_all delivery start

abbrev task : Task
task = record {
  event = record {
    event_type = "pull_request";
    repository_id = "1";
    pull_request_id = "7";
    source_branch = "feature";
    target_branch = "main";
    source_commit_sha = "aaa";
    target_commit_sha = "bbb";
    repository_full_name = "o/r";
    provider_event_id = some "opened";
  };
  repository_id = 0;
  pull_request_id = 1;
  workflow_run_id = 3;
  correlation_id = "c1";
}

abbrev waiting : ScmProvider × Task
waiting = (github_provider toy toy_config, task)

task_waits : served.pending ≡ [] ++ (waiting ∷ [])
unfolding serve_request handle_webhook ingest store_event get_existing_webhook_event receive
    github_provider validate_webhook parse_pull_request_event parse_payload create_webhook_event
    create_workflow_run create_audit_log get_or_create_repository get_or_create_pull_request
    scalar_one_or_none insert_repository insert_pull_request insert_webhook_event
    insert_workflow_run insert_audit_log commit request_of compare_digest is_ascii as_str get
    as_dict as_int_str as_nonempty_str
task_waits = refl

Reach-IsSound_example :
    IsSound (run_background toy services takes_all (λ n. n) [] waiting [] served)
Reach-IsSound_example =
    Reach-IsSound toy services takes_all (OnlyAudit-KeepTables services services-OnlyAudit)
      (next (next here (request delivery)) (background (λ n. n) [] [] waiting task_waits))
      start-IsSound

Reach-IsAdvisory_example :
    IsAdvisory (run_background toy services takes_all (λ n. n) [] waiting [] served).shared.db
Reach-IsAdvisory_example =
    Reach-IsAdvisory toy services takes_all services-OnlyAudit
      (next (next here (request delivery)) (background (λ n. n) [] [] waiting task_waits))
      (record { pending = tt; unblocked = tt })
