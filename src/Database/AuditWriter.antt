-- ===== src/Database/AuditWriter.antt =====
-- `SqlAuditWriter` of src/protecto_prime_agent/scanners/audit.py and of
-- src/protecto_prime_agent/services/repository_workspace_service.py.
use partha_prime_agent.Prelude.Result.{Exception}
use partha_prime_agent.Prelude.Exec.{Exec, pure, try, ◌>>◌}
use partha_prime_agent.Models.{AuditLog}
use partha_prime_agent.Database.Defs.{Database, commit, insert_audit_log, with_session}

abbrev ignored : {S : Type 0} → Exception → Exec S (Unit {0})
ignored x = pure tt

-- `record`: what fails is logged only.
unfoldable pub record_row : AuditLog → Exec Database (Unit {0})
unfolding commit insert_audit_log
record_row row = try (with_session (insert_audit_log row >> commit)) ignored
