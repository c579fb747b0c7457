-- ===== src/Orchestration/Defs.antt =====
-- `ScanOrchestrationService`: what it does with the services that it is given.
use partha_prime_agent.Prelude.{
  ℕ, String, Bool, false, Option, none, some, List, [], ◌∷◌, ◌++◌, ◌<>◌, length, str_take,
  if◌then◌else◌,
}
use partha_prime_agent.Prelude.Result.{Result, ok, err, Exception, Kind, raise}
use partha_prime_agent.Prelude.Exec.{Exec, pure, lift, try, ◌>>=◌, ◌>>◌}
use partha_prime_agent.Enums.{ExecutionStatus, execution_status_value, scanner_status_value}
use partha_prime_agent.Json.{str, int, bool, obj, pos, Fields, field, end}
use partha_prime_agent.Paths.{FilePath, path}
use partha_prime_agent.Platform.{Platform}
use partha_prime_agent.Redaction.{redact_secrets}
use partha_prime_agent.Scm.{PullRequestEvent, ScmProvider}
use partha_prime_agent.Models.{PullRequest, WorkflowRun, AuditLog, ScanRun, Finding}
use partha_prime_agent.Database.{
  Database, Session, commit, update_workflow_run, update_pull_request, insert_scan_run,
  insert_finding, with_session,
}
use partha_prime_agent.Scanners.Interface.{
  ScanRequest, ScanResult, NormalizedFinding, AggregatedScanResult, all_findings, has_failures,
}
use partha_prime_agent.Webhook.{Task}

-- What the services share: the database, and the rest of the world.
pub record Shared (E : Type 0) : Type 0 where
  pub db : Database
  pub outside : E

-- `WorkspacePreparer`, `ScanExecutor` and `AuditWriter`; `prepare_workspace` returns the text
-- under "workspace_path".
pub record Services (E : Type 0) : Type 0 where
  pub prepare_workspace : ScmProvider → PullRequestEvent → String → Exec (Shared E) String
  pub mark_processing_complete : FilePath → Exec (Shared E) Bool
  pub run_scan : ScanRequest → Exec (Shared E) AggregatedScanResult
  pub write_audit : AuditLog → Exec (Shared E) (Unit {0})

-- The calls of the two services, in order.
pub data Call : Type 0 where
  prepare : String → Call
  scan : ScanRequest → Call
  release : FilePath → Call

pub record World (E : Type 0) : Type 0 where
  pub shared : Shared E
  pub calls : List Call

module _ {E : Type 0} where
  abbrev pub call : {A : Type 0} → List Call → Exec (Shared E) A → Exec (World E) A
  call cs m w = let r = m w.shared in (r.0, record { shared = r.1; calls = w.calls ++ cs })

  abbrev pub in_session : {A : Type 0} → Exec Session A → Exec (World E) A
  in_session body w =
      let r = with_session body w.shared.db in
      (r.0, record w { shared = record { db = r.1; outside = w.shared.outside } })

-- What `_transition` writes where it is given something.
abbrev pub or_kept {ℓ} : {A : Type ℓ} → Option A → Option A → Option A
or_kept none old = old
or_kept (some a) old = some a

unfoldable pub run_row :
    ExecutionStatus → Option ℕ → Option ℕ → Option String → ℕ → WorkflowRun → WorkflowRun
unfolding execution_status_value
run_row status started completed error now r = record r {
  execution_status = execution_status_value status;
  updated_at = some now;
  started_at = or_kept started r.started_at;
  completed_at = or_kept completed r.completed_at;
  error_message = or_kept error r.error_message;
}

unfoldable pub pull_request_row : ExecutionStatus → ℕ → PullRequest → PullRequest
unfolding execution_status_value
pull_request_row status now r = record r {
  execution_status = execution_status_value status;
  updated_at = some now;
}

-- `_transition`
unfoldable pub transition :
    ℕ → ℕ → ExecutionStatus → Option ℕ → Option ℕ → Option String → ℕ → Exec Session (Unit {0})
unfolding update_workflow_run update_pull_request commit
transition run_id pull_id status started completed error now =
    update_workflow_run run_id (run_row status started completed error now)
    >> update_pull_request pull_id (pull_request_row status now)
    >> commit

unfoldable pub scan_run_row : ℕ → String → ScanResult → ℕ → ScanRun
unfolding scanner_status_value
scan_run_row run_id commit_sha r id = record {
  id = id;
  workflow_run_id = run_id;
  scanner_name = r.scanner_name;
  commit_sha = commit_sha;
  execution_status = scanner_status_value r.status;
  exit_code = r.exit_code;
  log_reference = r.error_message;
  started_at = r.started_at;
  completed_at = r.completed_at;
}

unfoldable pub finding_row : ℕ → ℕ → NormalizedFinding → ℕ → Finding
finding_row run_id scan_run_id f id = record {
  id = id;
  workflow_run_id = run_id;
  scan_run_id = some scan_run_id;
  scanner_name = f.scanner_name;
  rule_id = f.rule_id;
  severity = f.severity;
  category = f.category;
  confidence = f.confidence;
  message = f.message;
  file_path = f.file_path;
  line_number = f.line_number;
  column_number = f.column_number;
  fingerprint = f.fingerprint;
  policy_blocking = false;
}

-- Whether the database takes the values of a scan run, with its commit, and of a finding into its
-- columns; it raises if it does not.
pub record Accepts : Type 0 where
  pub scan_run : String → ScanResult → Bool
  pub finding : NormalizedFinding → Bool

-- `_persist_results`
module _ (accepts : Accepts) (run_id : ℕ) (commit_sha : String) where
  unfoldable pub persist_findings : ℕ → List NormalizedFinding → Exec Session (Unit {0})
  unfolding insert_finding
  persist_findings scan_run_id [] = pure tt
  persist_findings scan_run_id (f ∷ fs) =
      if accepts.finding f
      then insert_finding (finding_row run_id scan_run_id f) >> persist_findings scan_run_id fs
      else lift (raise Kind.database_error "invalid input for query argument")

  unfoldable pub persist_results : List ScanResult → Exec Session (Unit {0})
  unfolding insert_scan_run persist_findings commit
  persist_results [] = commit
  persist_results (r ∷ rs) =
      if accepts.scan_run commit_sha r
      then (do
        scan_run ← insert_scan_run (scan_run_row run_id commit_sha r)
        persist_findings scan_run.id r.findings
        persist_results rs)
      else lift (raise Kind.database_error "invalid input for query argument")

-- `log_contextual` writes to the log alone.
abbrev pub logged {ℓ} : {S : Type ℓ} → Exception → Exec S (Unit {0})
logged x = pure tt

module _ {E : Type 0} (P : Platform) (services : Services E) (accepts : Accepts)
    (clock : ℕ → ℕ) where
  unfoldable pub audit : String → String → Fields → Exec (World E) (Unit {0})
  audit action entity_id extra =
      try
        (call [] (
          services.write_audit (record {
            entity_type = "scan_orchestration";
            entity_id = entity_id;
            action = action;
            actor = some "system";
            metadata_json = some (redact_secrets P.is_word (P.json_dumps (obj extra)));
          })))
        logged

  -- `redact_secrets(str(exc))[:2000]`
  unfoldable pub failure_text : Exception → String
  failure_text x = str_take 2000 (redact_secrets P.is_word x.message)

  -- `_fail`
  unfoldable pub fail : ℕ → ℕ → String → String → Exception → Exec (World E) (Unit {0})
  unfolding audit
  fail run_id pull_id entity_id reason x = do
    let message = failure_text x
    in_session (
        transition run_id pull_id ExecutionStatus.failed none (some (clock 2)) (some message)
          (clock 3))
    audit "orchestration_failed" entity_id
        (field "reason" (str reason) (field "error" (str message) end))

  module _ (provider : ScmProvider) (event : PullRequestEvent) (repository_id pull_id run_id : ℕ)
      (correlation_id : String) where
    abbrev pub entity : String
    entity = P.uuid_str repository_id <> (":" <> (P.uuid_str pull_id <> (":" <> P.uuid_str run_id)))

    abbrev pub scan_request : FilePath → ScanRequest
    scan_request workspace_path = record {
      workspace_path = workspace_path;
      commit_sha = event.source_commit_sha;
      workflow_run_id = P.uuid_str run_id;
      repository_id = P.uuid_str repository_id;
      enabled_scanners = none;
    }

    abbrev pub release_workspace : FilePath → Exec (World E) Bool
    release_workspace workspace_path =
        call (release workspace_path ∷ []) (services.mark_processing_complete workspace_path)

    -- What is done with the answer of `run_scan`.
    unfoldable pub conclude : FilePath → Result AggregatedScanResult → Exec (World E) (Unit {0})
    unfolding fail audit
    conclude workspace_path (err x) = do
      fail run_id pull_id entity "scan_execution_failed" x
      _ ← release_workspace workspace_path
      pure tt
    conclude workspace_path (ok aggregated) = do
      in_session (persist_results accepts run_id aggregated.commit_sha aggregated.scan_results)
      _ ← release_workspace workspace_path
      in_session
          (transition run_id pull_id ExecutionStatus.succeeded none (some (clock 2)) none (clock 3))
      audit "orchestration_completed" entity (
          field "finding_count" (int (pos (length (all_findings aggregated.scan_results)))) (
            field "scanner_count" (int (pos (length aggregated.scan_results)))
              (field "has_scanner_failures" (bool (has_failures aggregated.scan_results)) end)))

    -- `try: a = await m except Exception as exc: ...`, with the answer as a value
    abbrev pub answer_of : {A : Type 0} → Exec (World E) A → Exec (World E) (Result A)
    answer_of m w = let r = m w in (ok r.0, r.1)

    -- What is done with the answer of `prepare_workspace`.
    unfoldable pub proceed : Result String → Exec (World E) (Unit {0})
    unfolding fail conclude
    proceed (err x) = fail run_id pull_id entity "workspace_preparation_failed" x
    proceed (ok workspace_text) = do
      let workspace_path = path workspace_text
      aggregated ← answer_of (
          call (scan (scan_request workspace_path) ∷ [])
            (services.run_scan (scan_request workspace_path)))
      conclude workspace_path aggregated

    unfoldable pub begin : Exec (World E) (Unit {0})
    unfolding audit
    begin = do
      in_session
          (transition run_id pull_id ExecutionStatus.running (some (clock 0)) none none (clock 1))
      audit "orchestration_started" entity (field "correlation_id" (str correlation_id) end)

    unfoldable pub run : Exec (World E) (Unit {0})
    unfolding begin proceed
    run =
        try
          (begin
            >> (answer_of (
                  call (prepare (P.uuid_str run_id) ∷ [])
                    (services.prepare_workspace provider event (P.uuid_str run_id)))
                >>= proceed))
          logged

  -- `WebhookService._trigger_orchestration`, which the background task runs
  unfoldable pub trigger_orchestration : ScmProvider → Task → Exec (World E) (Unit {0})
  unfolding run
  trigger_orchestration provider task =
      try
        (run provider task.event task.repository_id task.pull_request_id task.workflow_run_id
          task.correlation_id)
        logged
