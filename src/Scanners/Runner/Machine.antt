-- ===== src/Scanners/Runner/Machine.antt =====
-- What the runner asks of the machine, its configuration, and its audit trail.
use partha_prime_agent.Prelude.{
  ℕ, String, Bool, Option, none, some, List, truthy, ◌<>◌, if◌then◌else◌,
}
use partha_prime_agent.Prelude.Result.{Exception, Kind}
use partha_prime_agent.Prelude.Exec.{Exec, pure, try}
use partha_prime_agent.Json.{str, obj, Fields, field, end, update_fields}
use partha_prime_agent.Paths.{FilePath}
use partha_prime_agent.Platform.{Platform}
use partha_prime_agent.Models.{AuditLog}
use partha_prime_agent.Redaction.{sanitize_text}
use partha_prime_agent.Scanners.Execution.{Env, ResourceLimits, ExecutionOutcome}
use partha_prime_agent.Scanners.Interface.{ScanRequest}

-- The file system, the clock, the execution backend and the audit writer; `S` is what they keep.
pub record Machine (S : Type 0) : Type 0 where
  pub resolve : FilePath → FilePath
  pub exists : FilePath → S → Bool
  -- `mkdir(parents=True, exist_ok=True)`
  pub mkdir : FilePath → Exec S (Unit {0})
  -- `shutil.rmtree(path, ignore_errors=True)`
  pub rmtree : FilePath → S → S
  pub write_text : FilePath → String → Exec S (Unit {0})
  -- `shutil.which(name)`
  pub which : String → S → Option String
  -- `datetime.now(timezone.utc)`, in seconds
  pub now : S → ℕ × S
  -- `execution_backend.run(command, cwd=..., env=..., limits=...)`
  pub execute : List String → FilePath → Env → ResourceLimits → Exec S ExecutionOutcome
  pub write_audit : AuditLog → Exec S (Unit {0})
  -- `os.environ`
  pub environ : Env
  -- `type(exc).__name__`
  pub kind_name : Kind → String

-- src/protecto_prime_agent/scanners/config.py
pub record ScannerRuntimeConfig : Type 0 where
  pub enabled_scanners : List String
  pub output_root : FilePath
  pub limits : ResourceLimits
  pub tool_versions : Env

-- `if scanner_name:`
abbrev with_name {ℓ} : {A : Type ℓ} → Option String → A → (String → A) → A
with_name none plain named = plain
with_name (some name) plain named = if truthy name then named name else plain

abbrev pub ignore : {S : Type 0} → Exception → Exec S (Unit {0})
ignore x = pure tt

module _ {S : Type 0} (P : Platform) (M : Machine S) where
  unfoldable pub audit_row : String → ScanRequest → Option String → Fields → AuditLog
  unfolding update_fields
  audit_row action request scanner_name extra =
      let entity_id = request.repository_id <> (":" <> request.workflow_run_id) in
      let payload = field "workflow_run_id" (str request.workflow_run_id) (
        field "repository_id" (str request.repository_id) (
          field "commit_sha" (str request.commit_sha)
            (with_name scanner_name end (λ name. field "scanner_name" (str name) end)))) in
      record {
        entity_type = "scanner_execution";
        entity_id = with_name scanner_name entity_id (λ name. entity_id <> (":" <> name));
        action = action;
        actor = some "system";
        metadata_json =
            some (sanitize_text P.is_word (P.json_dumps (obj (update_fields extra payload))));
      }

  -- `_audit`: a failure of the writer is logged only.
  unfoldable pub audit : String → ScanRequest → Option String → Fields → Exec S (Unit {0})
  unfolding audit_row
  audit action request scanner_name extra =
      try (M.write_audit (audit_row action request scanner_name extra)) ignore
