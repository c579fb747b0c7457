-- ===== src/Schema/Migration.antt =====
-- alembic/versions/001_initial_schema.py: the statements of `upgrade` and `downgrade`.
use partha_prime_agent.Prelude.{String, true, false, List, [], ◌∷◌, ◌++◌, map}
use partha_prime_agent.Schema.Defs.{
  uuid, text, boolean, integer, string, datetime, column, primary_key, unique, foreign_key, Table,
  Index, Operation, create_table, create_index, drop_table,
}

abbrev pub repositories_table : Table
repositories_table = record {
  name = "repositories";
  columns =
      column "id" uuid false
      ∷ column "provider" (string 32) false
      ∷ column "provider_repo_id" (string 255) false
      ∷ column "name" (string 255) false
      ∷ column "default_branch" (string 64) false
      ∷ column "is_active" boolean false
      ∷ column "description" text true
      ∷ column "created_at" datetime false
      ∷ column "updated_at" datetime false
      ∷ [];
  constraints = primary_key "id" ∷ unique "provider_repo_id" ∷ [];
}

abbrev pub repositories_indexes : List Index
repositories_indexes =
    record {
      name = "ix_repositories_name";
      table = "repositories";
      columns = "name" ∷ [];
      is_unique = false;
    }
    ∷ record {
      name = "ix_repositories_provider_repo_id";
      table = "repositories";
      columns = "provider_repo_id" ∷ [];
      is_unique = false;
    }
    ∷ []

abbrev pub pull_requests_table : Table
pull_requests_table = record {
  name = "pull_requests";
  columns =
      column "id" uuid false
      ∷ column "repository_id" uuid false
      ∷ column "provider_pr_id" (string 255) false
      ∷ column "source_branch" (string 255) false
      ∷ column "target_branch" (string 255) false
      ∷ column "source_commit_sha" (string 64) false
      ∷ column "target_commit_sha" (string 64) false
      ∷ column "execution_status" (string 32) false
      ∷ column "merge_decision" (string 32) false
      ∷ column "created_at" datetime false
      ∷ column "updated_at" datetime false
      ∷ [];
  constraints =
      foreign_key "repository_id" "repositories" "id"
      ∷ primary_key "id"
      ∷ unique "provider_pr_id"
      ∷ [];
}

abbrev pub pull_requests_indexes : List Index
pull_requests_indexes =
    record {
      name = "ix_pull_requests_provider_pr_id";
      table = "pull_requests";
      columns = "provider_pr_id" ∷ [];
      is_unique = false;
    }
    ∷ record {
      name = "ix_pull_requests_repository_id";
      table = "pull_requests";
      columns = "repository_id" ∷ [];
      is_unique = false;
    }
    ∷ record {
      name = "ix_pull_requests_source_commit_sha";
      table = "pull_requests";
      columns = "source_commit_sha" ∷ [];
      is_unique = false;
    }
    ∷ record {
      name = "ix_pull_requests_target_commit_sha";
      table = "pull_requests";
      columns = "target_commit_sha" ∷ [];
      is_unique = false;
    }
    ∷ []

abbrev pub webhook_events_table : Table
webhook_events_table = record {
  name = "webhook_events";
  columns =
      column "id" uuid false
      ∷ column "repository_id" uuid true
      ∷ column "provider_event_id" (string 255) true
      ∷ column "event_type" (string 64) false
      ∷ column "payload_hash" (string 128) false
      ∷ column "processed" boolean false
      ∷ column "payload_excerpt" text true
      ∷ column "created_at" datetime false
      ∷ column "processed_at" datetime true
      ∷ [];
  constraints = foreign_key "repository_id" "repositories" "id" ∷ primary_key "id" ∷ [];
}

abbrev pub webhook_events_indexes : List Index
webhook_events_indexes =
    record {
      name = "ix_webhook_events_provider_event_id";
      table = "webhook_events";
      columns = "provider_event_id" ∷ [];
      is_unique = false;
    }
    ∷ record {
      name = "ix_webhook_events_repository_id";
      table = "webhook_events";
      columns = "repository_id" ∷ [];
      is_unique = false;
    }
    ∷ []

abbrev pub workflow_runs_table : Table
workflow_runs_table = record {
  name = "workflow_runs";
  columns =
      column "id" uuid false
      ∷ column "pull_request_id" uuid false
      ∷ column "workflow_type" (string 64) false
      ∷ column "execution_status" (string 32) false
      ∷ column "correlation_id" (string 128) false
      ∷ column "trigger_source" (string 64) false
      ∷ column "error_message" text true
      ∷ column "started_at" datetime true
      ∷ column "completed_at" datetime true
      ∷ column "created_at" datetime false
      ∷ column "updated_at" datetime false
      ∷ [];
  constraints =
      foreign_key "pull_request_id" "pull_requests" "id"
      ∷ primary_key "id"
      ∷ unique "correlation_id"
      ∷ [];
}

abbrev pub workflow_runs_indexes : List Index
workflow_runs_indexes =
    record {
      name = "ix_workflow_runs_correlation_id";
      table = "workflow_runs";
      columns = "correlation_id" ∷ [];
      is_unique = false;
    }
    ∷ record {
      name = "ix_workflow_runs_pull_request_id";
      table = "workflow_runs";
      columns = "pull_request_id" ∷ [];
      is_unique = false;
    }
    ∷ []

abbrev pub scan_runs_table : Table
scan_runs_table = record {
  name = "scan_runs";
  columns =
      column "id" uuid false
      ∷ column "workflow_run_id" uuid false
      ∷ column "scanner_name" (string 64) false
      ∷ column "commit_sha" (string 64) false
      ∷ column "execution_status" (string 32) false
      ∷ column "exit_code" integer true
      ∷ column "log_reference" text true
      ∷ column "started_at" datetime true
      ∷ column "completed_at" datetime true
      ∷ column "created_at" datetime false
      ∷ column "updated_at" datetime false
      ∷ [];
  constraints = foreign_key "workflow_run_id" "workflow_runs" "id" ∷ primary_key "id" ∷ [];
}

abbrev pub scan_runs_indexes : List Index
scan_runs_indexes =
    record {
      name = "ix_scan_runs_commit_sha";
      table = "scan_runs";
      columns = "commit_sha" ∷ [];
      is_unique = false;
    }
    ∷ record {
      name = "ix_scan_runs_workflow_run_id";
      table = "scan_runs";
      columns = "workflow_run_id" ∷ [];
      is_unique = false;
    }
    ∷ []

abbrev pub findings_table : Table
findings_table = record {
  name = "findings";
  columns =
      column "id" uuid false
      ∷ column "workflow_run_id" uuid false
      ∷ column "scan_run_id" uuid true
      ∷ column "scanner_name" (string 64) false
      ∷ column "rule_id" (string 128) false
      ∷ column "severity" (string 32) false
      ∷ column "category" (string 64) false
      ∷ column "confidence" (string 32) false
      ∷ column "message" text false
      ∷ column "file_path" (string 1024) true
      ∷ column "line_number" integer true
      ∷ column "column_number" integer true
      ∷ column "fingerprint" (string 255) false
      ∷ column "policy_blocking" boolean false
      ∷ column "created_at" datetime false
      ∷ [];
  constraints =
      foreign_key "scan_run_id" "scan_runs" "id"
      ∷ foreign_key "workflow_run_id" "workflow_runs" "id"
      ∷ primary_key "id"
      ∷ [];
}

abbrev pub findings_indexes : List Index
findings_indexes =
    record {
      name = "ix_findings_fingerprint";
      table = "findings";
      columns = "fingerprint" ∷ [];
      is_unique = false;
    }
    ∷ record {
      name = "ix_findings_rule_id";
      table = "findings";
      columns = "rule_id" ∷ [];
      is_unique = false;
    }
    ∷ record {
      name = "ix_findings_workflow_run_id";
      table = "findings";
      columns = "workflow_run_id" ∷ [];
      is_unique = false;
    }
    ∷ []

abbrev pub policy_decisions_table : Table
policy_decisions_table = record {
  name = "policy_decisions";
  columns =
      column "id" uuid false
      ∷ column "workflow_run_id" uuid false
      ∷ column "decision" (string 32) false
      ∷ column "reason" text true
      ∷ column "created_at" datetime false
      ∷ [];
  constraints = foreign_key "workflow_run_id" "workflow_runs" "id" ∷ primary_key "id" ∷ [];
}

abbrev pub policy_decisions_indexes : List Index
policy_decisions_indexes =
    record {
      name = "ix_policy_decisions_decision";
      table = "policy_decisions";
      columns = "decision" ∷ [];
      is_unique = false;
    }
    ∷ record {
      name = "ix_policy_decisions_workflow_run_id";
      table = "policy_decisions";
      columns = "workflow_run_id" ∷ [];
      is_unique = false;
    }
    ∷ []

abbrev pub reports_table : Table
reports_table = record {
  name = "reports";
  columns =
      column "id" uuid false
      ∷ column "workflow_run_id" uuid false
      ∷ column "report_format" (string 16) false
      ∷ column "location" text true
      ∷ column "summary" text true
      ∷ column "created_at" datetime false
      ∷ [];
  constraints = foreign_key "workflow_run_id" "workflow_runs" "id" ∷ primary_key "id" ∷ [];
}

abbrev pub reports_indexes : List Index
reports_indexes =
    record {
      name = "ix_reports_format";
      table = "reports";
      columns = "report_format" ∷ [];
      is_unique = false;
    }
    ∷ record {
      name = "ix_reports_workflow_run_id";
      table = "reports";
      columns = "workflow_run_id" ∷ [];
      is_unique = false;
    }
    ∷ []

abbrev pub notifications_table : Table
notifications_table = record {
  name = "notifications";
  columns =
      column "id" uuid false
      ∷ column "workflow_run_id" uuid false
      ∷ column "channel" (string 32) false
      ∷ column "recipient" (string 512) false
      ∷ column "status" (string 32) false
      ∷ column "details" text true
      ∷ column "created_at" datetime false
      ∷ column "sent_at" datetime true
      ∷ [];
  constraints = foreign_key "workflow_run_id" "workflow_runs" "id" ∷ primary_key "id" ∷ [];
}

abbrev pub notifications_indexes : List Index
notifications_indexes =
    record {
      name = "ix_notifications_channel";
      table = "notifications";
      columns = "channel" ∷ [];
      is_unique = false;
    }
    ∷ record {
      name = "ix_notifications_workflow_run_id";
      table = "notifications";
      columns = "workflow_run_id" ∷ [];
      is_unique = false;
    }
    ∷ []

abbrev pub audit_logs_table : Table
audit_logs_table = record {
  name = "audit_logs";
  columns =
      column "id" uuid false
      ∷ column "entity_type" (string 64) false
      ∷ column "entity_id" (string 128) false
      ∷ column "action" (string 64) false
      ∷ column "actor" (string 128) true
      ∷ column "metadata_json" text true
      ∷ column "created_at" datetime false
      ∷ [];
  constraints = primary_key "id" ∷ [];
}

abbrev pub audit_logs_indexes : List Index
audit_logs_indexes =
    record {
      name = "ix_audit_logs_action";
      table = "audit_logs";
      columns = "action" ∷ [];
      is_unique = false;
    }
    ∷ record {
      name = "ix_audit_logs_entity_type";
      table = "audit_logs";
      columns = "entity_type" ∷ [];
      is_unique = false;
    }
    ∷ []

-- Each table with the indexes that are created behind it, in order.
abbrev pub created : List (Table × List Index)
created =
    (repositories_table, repositories_indexes)
    ∷ (pull_requests_table, pull_requests_indexes)
    ∷ (webhook_events_table, webhook_events_indexes)
    ∷ (workflow_runs_table, workflow_runs_indexes)
    ∷ (scan_runs_table, scan_runs_indexes)
    ∷ (findings_table, findings_indexes)
    ∷ (policy_decisions_table, policy_decisions_indexes)
    ∷ (reports_table, reports_indexes)
    ∷ (notifications_table, notifications_indexes)
    ∷ (audit_logs_table, audit_logs_indexes)
    ∷ []

unfoldable pub creates : List (Table × List Index) → List Operation
creates [] = []
creates ((t, indexes) ∷ more) = create_table t ∷ (map create_index indexes ++ creates more)

unfoldable pub upgrade : List Operation
unfolding creates
upgrade = creates created

abbrev pub dropped : List String
dropped =
    "audit_logs" ∷ "notifications" ∷ "reports" ∷ "policy_decisions" ∷ "findings" ∷ "scan_runs"
    ∷ "workflow_runs" ∷ "webhook_events" ∷ "pull_requests" ∷ "repositories" ∷ []

unfoldable pub downgrade : List Operation
downgrade = map drop_table dropped
