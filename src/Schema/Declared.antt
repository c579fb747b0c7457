-- ===== src/Schema/Declared.antt =====
-- models/*.py: the tables as the classes declare them, and what SQLAlchemy makes of a declaration.
use partha_prime_agent.Prelude.{
  String, Bool, true, false, Option, none, some, List, [], ◌∷◌, ◌++◌, map, if◌then◌else◌,
}
use partha_prime_agent.Schema.Defs.{
  ColumnType, uuid, text, boolean, integer, string, datetime, column, Constraint, primary_key,
  unique, foreign_key, Table, Index,
}

-- A `mapped_column`: its place among the constraints is said at the column.
pub record MappedColumn : Type 0 where
  pub name : String
  pub type : ColumnType
  pub nullable : Bool
  pub is_primary_key : Bool
  pub is_unique : Bool
  -- `ForeignKey("table.column")`
  pub references : Option (String × String)

pub record Model : Type 0 where
  pub tablename : String
  pub columns : List MappedColumn
  -- `__table_args__`
  pub indexes : List (String × String)

abbrev plain : String → ColumnType → Bool → MappedColumn
plain name type nullable = record {
  name = name;
  type = type;
  nullable = nullable;
  is_primary_key = false;
  is_unique = false;
  references = none;
}

-- `id: Mapped[uuid.UUID] = mapped_column(Uuid(as_uuid=True), primary_key=True, ...)`
abbrev key_column : MappedColumn
key_column = record {
  name = "id";
  type = uuid;
  nullable = false;
  is_primary_key = true;
  is_unique = false;
  references = none;
}

abbrev unique_column : String → ColumnType → MappedColumn
unique_column name type = record (plain name type false) { is_unique = true }

-- A reference to the `id` of a table.
abbrev reference : String → String → Bool → MappedColumn
reference name table nullable = record (plain name uuid nullable) {
  references = some (table, "id");
}

abbrev pub repository_model : Model
repository_model = record {
  tablename = "repositories";
  columns =
      key_column
      ∷ plain "provider" (string 32) false
      ∷ unique_column "provider_repo_id" (string 255)
      ∷ plain "name" (string 255) false
      ∷ plain "default_branch" (string 64) false
      ∷ plain "is_active" boolean false
      ∷ plain "description" text true
      ∷ plain "created_at" datetime false
      ∷ plain "updated_at" datetime false
      ∷ [];
  indexes =
      ("ix_repositories_provider_repo_id", "provider_repo_id")
      ∷ ("ix_repositories_name", "name")
      ∷ [];
}

abbrev pub pull_request_model : Model
pull_request_model = record {
  tablename = "pull_requests";
  columns =
      key_column
      ∷ reference "repository_id" "repositories" false
      ∷ unique_column "provider_pr_id" (string 255)
      ∷ plain "source_branch" (string 255) false
      ∷ plain "target_branch" (string 255) false
      ∷ plain "source_commit_sha" (string 64) false
      ∷ plain "target_commit_sha" (string 64) false
      ∷ plain "execution_status" (string 32) false
      ∷ plain "merge_decision" (string 32) false
      ∷ plain "created_at" datetime false
      ∷ plain "updated_at" datetime false
      ∷ [];
  indexes =
      ("ix_pull_requests_repository_id", "repository_id")
      ∷ ("ix_pull_requests_provider_pr_id", "provider_pr_id")
      ∷ ("ix_pull_requests_source_commit_sha", "source_commit_sha")
      ∷ ("ix_pull_requests_target_commit_sha", "target_commit_sha")
      ∷ [];
}

abbrev pub webhook_event_model : Model
webhook_event_model = record {
  tablename = "webhook_events";
  columns =
      key_column
      ∷ reference "repository_id" "repositories" true
      ∷ plain "provider_event_id" (string 255) true
      ∷ plain "event_type" (string 64) false
      ∷ plain "payload_hash" (string 128) false
      ∷ plain "processed" boolean false
      ∷ plain "payload_excerpt" text true
      ∷ plain "created_at" datetime false
      ∷ plain "processed_at" datetime true
      ∷ [];
  indexes =
      ("ix_webhook_events_provider_event_id", "provider_event_id")
      ∷ ("ix_webhook_events_repository_id", "repository_id")
      ∷ [];
}

abbrev pub workflow_run_model : Model
workflow_run_model = record {
  tablename = "workflow_runs";
  columns =
      key_column
      ∷ reference "pull_request_id" "pull_requests" false
      ∷ plain "workflow_type" (string 64) false
      ∷ plain "execution_status" (string 32) false
      ∷ unique_column "correlation_id" (string 128)
      ∷ plain "trigger_source" (string 64) false
      ∷ plain "error_message" text true
      ∷ plain "started_at" datetime true
      ∷ plain "completed_at" datetime true
      ∷ plain "created_at" datetime false
      ∷ plain "updated_at" datetime false
      ∷ [];
  indexes =
      ("ix_workflow_runs_pull_request_id", "pull_request_id")
      ∷ ("ix_workflow_runs_correlation_id", "correlation_id")
      ∷ [];
}

abbrev pub scan_run_model : Model
scan_run_model = record {
  tablename = "scan_runs";
  columns =
      key_column
      ∷ reference "workflow_run_id" "workflow_runs" false
      ∷ plain "scanner_name" (string 64) false
      ∷ plain "commit_sha" (string 64) false
      ∷ plain "execution_status" (string 32) false
      ∷ plain "exit_code" integer true
      ∷ plain "log_reference" text true
      ∷ plain "started_at" datetime true
      ∷ plain "completed_at" datetime true
      ∷ plain "created_at" datetime false
      ∷ plain "updated_at" datetime false
      ∷ [];
  indexes =
      ("ix_scan_runs_workflow_run_id", "workflow_run_id")
      ∷ ("ix_scan_runs_commit_sha", "commit_sha")
      ∷ [];
}

abbrev pub finding_model : Model
finding_model = record {
  tablename = "findings";
  columns =
      key_column
      ∷ reference "workflow_run_id" "workflow_runs" false
      ∷ reference "scan_run_id" "scan_runs" true
      ∷ plain "scanner_name" (string 64) false
      ∷ plain "rule_id" (string 128) false
      ∷ plain "severity" (string 32) false
      ∷ plain "category" (string 64) false
      ∷ plain "confidence" (string 32) false
      ∷ plain "message" text false
      ∷ plain "file_path" (string 1024) true
      ∷ plain "line_number" integer true
      ∷ plain "column_number" integer true
      ∷ plain "fingerprint" (string 255) false
      ∷ plain "policy_blocking" boolean false
      ∷ plain "created_at" datetime false
      ∷ [];
  indexes =
      ("ix_findings_workflow_run_id", "workflow_run_id")
      ∷ ("ix_findings_fingerprint", "fingerprint")
      ∷ ("ix_findings_rule_id", "rule_id")
      ∷ [];
}

abbrev pub policy_decision_model : Model
policy_decision_model = record {
  tablename = "policy_decisions";
  columns =
      key_column
      ∷ reference "workflow_run_id" "workflow_runs" false
      ∷ plain "decision" (string 32) false
      ∷ plain "reason" text true
      ∷ plain "created_at" datetime false
      ∷ [];
  indexes =
      ("ix_policy_decisions_workflow_run_id", "workflow_run_id")
      ∷ ("ix_policy_decisions_decision", "decision")
      ∷ [];
}

abbrev pub report_model : Model
report_model = record {
  tablename = "reports";
  columns =
      key_column
      ∷ reference "workflow_run_id" "workflow_runs" false
      ∷ plain "report_format" (string 16) false
      ∷ plain "location" text true
      ∷ plain "summary" text true
      ∷ plain "created_at" datetime false
      ∷ [];
  indexes =
      ("ix_reports_workflow_run_id", "workflow_run_id")
      ∷ ("ix_reports_format", "report_format")
      ∷ [];
}

abbrev pub notification_model : Model
notification_model = record {
  tablename = "notifications";
  columns =
      key_column
      ∷ reference "workflow_run_id" "workflow_runs" false
      ∷ plain "channel" (string 32) false
      ∷ plain "recipient" (string 512) false
      ∷ plain "status" (string 32) false
      ∷ plain "details" text true
      ∷ plain "created_at" datetime false
      ∷ plain "sent_at" datetime true
      ∷ [];
  indexes =
      ("ix_notifications_workflow_run_id", "workflow_run_id")
      ∷ ("ix_notifications_channel", "channel")
      ∷ [];
}

abbrev pub audit_log_model : Model
audit_log_model = record {
  tablename = "audit_logs";
  columns =
      key_column
      ∷ plain "entity_type" (string 64) false
      ∷ plain "entity_id" (string 128) false
      ∷ plain "action" (string 64) false
      ∷ plain "actor" (string 128) true
      ∷ plain "metadata_json" text true
      ∷ plain "created_at" datetime false
      ∷ [];
  indexes = ("ix_audit_logs_entity_type", "entity_type") ∷ ("ix_audit_logs_action", "action") ∷ [];
}

-- `Base.metadata`
unfoldable pub metadata : List Model
metadata =
    repository_model ∷ pull_request_model ∷ webhook_event_model ∷ workflow_run_model
    ∷ scan_run_model ∷ finding_model ∷ policy_decision_model ∷ report_model ∷ notification_model
    ∷ audit_log_model ∷ []

-- The constraints that a column brings with it.
abbrev constraints_of : MappedColumn → List Constraint
constraints_of c =
    (if c.is_primary_key then primary_key c.name ∷ [] else [])
    ++ ((if c.is_unique then unique c.name ∷ [] else [])
        ++ elim c.references [ none ↦ [] | some (table, key) ↦ foreign_key c.name table key ∷ [] ])

abbrev concat_constraints : List MappedColumn → List Constraint
concat_constraints [] = []
concat_constraints (c ∷ cs) = constraints_of c ++ concat_constraints cs

abbrev pub table_of : Model → Table
table_of m = record {
  name = m.tablename;
  columns = map (λ (c : MappedColumn). column c.name c.type c.nullable) m.columns;
  constraints = concat_constraints m.columns;
}

abbrev pub indexes_of : Model → List Index
indexes_of m =
    map
      (λ (i : String × String). record {
        name = i.0;
        table = m.tablename;
        columns = i.1 ∷ [];
        is_unique = false;
      })
      m.indexes
