-- ===== src/Webhook/Defs.antt =====
-- src/protecto_prime_agent/services/webhook_service.py: from a request to rows and a task.
use partha_prime_agent.Prelude.{
  ℕ, String, Bool, true, false, Option, none, some, List, [], ◌∷◌, ◌||◌, ◌==◌, string_eq, str_or,
  filter, if◌then◌else◌,
}
use partha_prime_agent.Prelude.Exec.{Exec, pure, lift, gets, ◌>>=◌, ◌>>◌}
use partha_prime_agent.Enums.{
  ExecutionStatus, MergeDecision, execution_status_value, merge_decision_value,
}
use partha_prime_agent.Json.{str, obj, end, field}
use partha_prime_agent.Platform.{Platform, Bytes}
use partha_prime_agent.Scm.{PullRequestEvent, ScmProvider}
use partha_prime_agent.Webhook.Receive.{receive}
use partha_prime_agent.Models.{Repository, PullRequest, WebhookEvent, WorkflowRun}
use partha_prime_agent.Database.{
  Database, Session, commit, scalar_one_or_none, insert_repository, insert_pull_request,
  insert_webhook_event, insert_workflow_run, insert_audit_log, update_pull_request, with_session,
}

pub record Response : Type 0 where
  pub status : String
  pub message : String

abbrev pub ignored : Response
ignored = record { status = "ignored"; message = "unsupported_event" }

abbrev pub duplicate : Response
duplicate = record { status = "duplicate"; message = "duplicate_webhook" }

abbrev pub accepted : Response
accepted = record { status = "accepted"; message = "workflow_queued" }

-- The arguments of `background_tasks.add_task(self._trigger_orchestration, ...)`.
pub record Task : Type 0 where
  pub event : PullRequestEvent
  pub repository_id : ℕ
  pub pull_request_id : ℕ
  pub workflow_run_id : ℕ
  pub correlation_id : String

abbrev pub Answer : Type 0
Answer = record { response : Response; tasks : List Task }

abbrev pub answer : Response → List Task → Answer
answer r ts = record { response = r; tasks = ts }

-- `column == value` in SQL: a NULL equals nothing.
abbrev pub column_eq : Option String → String → Bool
column_eq none s = false
column_eq (some t) s = t == s

abbrev pub matches : String → String → WebhookEvent → Bool
matches event_id payload_hash e =
    column_eq e.provider_event_id event_id || e.payload_hash == payload_hash

unfoldable pub get_existing_webhook_event : String → String → Exec Session (Option WebhookEvent)
unfolding scalar_one_or_none
get_existing_webhook_event event_id payload_hash s =
    (scalar_one_or_none (filter (matches event_id payload_hash) s.working.webhook_events), s)

-- `repository` of `Repository(...)`, at its key
abbrev pub new_repository : PullRequestEvent → ℕ → Repository
new_repository parsed id = record {
  id = id;
  provider = "scm";
  provider_repo_id = parsed.repository_id;
  name = parsed.repository_id;
  default_branch = "main";
  is_active = true;
}

abbrev pub repository_rows : PullRequestEvent → Session → List Repository
repository_rows parsed s =
    filter (λ (r : Repository). r.provider_repo_id == parsed.repository_id) s.working.repositories

unfoldable pub get_or_create_repository : PullRequestEvent → Exec Session Repository
unfolding scalar_one_or_none insert_repository
get_or_create_repository parsed = do
  rows ← gets (repository_rows parsed)
  found ← lift (scalar_one_or_none rows)
  elim found [ some r ↦ pure r | none ↦ insert_repository (new_repository parsed) ]

abbrev pub new_pull_request : PullRequestEvent → ℕ → ℕ → PullRequest
unfolding execution_status_value merge_decision_value
new_pull_request parsed repository_id id = record {
  id = id;
  repository_id = repository_id;
  provider_pr_id = parsed.pull_request_id;
  source_branch = parsed.source_branch;
  target_branch = parsed.target_branch;
  source_commit_sha = parsed.source_commit_sha;
  target_commit_sha = parsed.target_commit_sha;
  execution_status = execution_status_value ExecutionStatus.pending;
  merge_decision = merge_decision_value MergeDecision.pending;
  updated_at = none;
}

-- The assignments to a pull request that is there already.
unfoldable pub refresh : PullRequestEvent → ℕ → PullRequest → PullRequest
unfolding execution_status_value merge_decision_value
refresh parsed now r = record r {
  source_branch = parsed.source_branch;
  target_branch = parsed.target_branch;
  source_commit_sha = parsed.source_commit_sha;
  target_commit_sha = parsed.target_commit_sha;
  execution_status = execution_status_value ExecutionStatus.pending;
  merge_decision = merge_decision_value MergeDecision.pending;
  updated_at = some now;
}

abbrev pub pull_request_rows : PullRequestEvent → Session → List PullRequest
pull_request_rows parsed s =
    filter (λ (r : PullRequest). r.provider_pr_id == parsed.pull_request_id) s.working.pull_requests

unfoldable pub get_or_create_pull_request :
    PullRequestEvent → Repository → ℕ → Exec Session PullRequest
unfolding scalar_one_or_none insert_pull_request update_pull_request refresh
get_or_create_pull_request parsed repository now = do
  rows ← gets (pull_request_rows parsed)
  found ← lift (scalar_one_or_none rows)
  elim found [
    | some r ↦ update_pull_request r.id (refresh parsed now) >> pure (refresh parsed now r)
    | none ↦ insert_pull_request (new_pull_request parsed repository.id)
  ]

-- `parsed.provider_event_id or default`
abbrev pub event_id_or : PullRequestEvent → String → String
event_id_or parsed default = elim parsed.provider_event_id [
  | none ↦ default
  | some s ↦ str_or s default
]

unfoldable pub create_webhook_event :
    PullRequestEvent → Repository → String → ℕ → Exec Session (Unit {0})
unfolding insert_webhook_event
create_webhook_event parsed repository payload_hash now = insert_webhook_event λ id. record {
  id = id;
  repository_id = some repository.id;
  provider_event_id = some (event_id_or parsed parsed.event_type);
  event_type = parsed.event_type;
  payload_hash = payload_hash;
  processed = true;
  payload_excerpt = some "webhook received";
  processed_at = some now;
}

unfoldable pub create_workflow_run : PullRequest → String → Exec Session WorkflowRun
unfolding insert_workflow_run execution_status_value
create_workflow_run pull_request correlation_id = insert_workflow_run λ id. record {
  id = id;
  pull_request_id = pull_request.id;
  workflow_type = "code_review";
  execution_status = execution_status_value ExecutionStatus.queued;
  correlation_id = correlation_id;
  trigger_source = "webhook";
  error_message = none;
  started_at = none;
  completed_at = none;
  updated_at = none;
}

unfoldable pub create_audit_log :
    Platform → PullRequest → WorkflowRun → String → Exec Session (Unit {0})
unfolding insert_audit_log
create_audit_log P pull_request workflow_run correlation_id = insert_audit_log (record {
  entity_type = "pull_request";
  entity_id = P.uuid_str pull_request.id;
  action = "webhook_ingested";
  actor = some "system";
  metadata_json = some (
      P.json_dumps (
        obj (
          field "correlation_id" (str correlation_id)
            (field "workflow_run_id" (str (P.uuid_str workflow_run.id)) end))));
})

-- The body of `async with SessionLocal()` for an event that is new. `clock k` is the k-th reading
-- of the clock; `background` says whether the caller gave `background_tasks`.
unfoldable pub store_event :
    Platform → (ℕ → ℕ) → PullRequestEvent → String → String → Bool → Exec Session Answer
store_event P clock parsed payload_hash correlation_id background = do
  repository ← get_or_create_repository parsed
  pull_request ← get_or_create_pull_request parsed repository (clock 0)
  create_webhook_event parsed repository payload_hash (clock 1)
  workflow_run ← create_workflow_run pull_request correlation_id
  create_audit_log P pull_request workflow_run correlation_id
  commit
  let task : Task = record {
    event = parsed;
    repository_id = repository.id;
    pull_request_id = pull_request.id;
    workflow_run_id = workflow_run.id;
    correlation_id = correlation_id;
  }
  pure (answer accepted (if background then task ∷ [] else []))

unfoldable pub ingest :
    Platform → (ℕ → ℕ) → PullRequestEvent → String → String → Bool → Exec Session Answer
ingest P clock parsed payload_hash correlation_id background = do
  existing ← get_existing_webhook_event (event_id_or parsed payload_hash) payload_hash
  elim existing [
    | some e ↦ pure (answer duplicate [])
    | none ↦ store_event P clock parsed payload_hash correlation_id background
  ]

unfoldable pub handle_webhook :
    Platform → ScmProvider → (ℕ → ℕ) → Bytes → Option String → String → Bool → Exec Database Answer
unfolding receive
handle_webhook P provider clock body signature correlation_id background = do
  parsed ← lift (receive P provider body signature)
  elim parsed [
    | none ↦ pure (answer ignored [])
    | some event ↦ with_session (ingest P clock event (P.sha256 body) correlation_id background)
  ]
