-- ===== src/Enums.antt =====
-- src/protecto_prime_agent/enums.py: the enumerations, and the strings that are stored for them.
use partha_prime_agent.Prelude.{String}

pub data ExecutionStatus : Type 0 where
  pending running succeeded failed cancelled queued : ExecutionStatus

-- `status.value`
unfoldable pub execution_status_value : ExecutionStatus → String
execution_status_value ExecutionStatus.pending = "pending"
execution_status_value ExecutionStatus.running = "running"
execution_status_value ExecutionStatus.succeeded = "succeeded"
execution_status_value ExecutionStatus.failed = "failed"
execution_status_value ExecutionStatus.cancelled = "cancelled"
execution_status_value ExecutionStatus.queued = "queued"

pub data MergeDecision : Type 0 where
  pending pass fail warn : MergeDecision

unfoldable pub merge_decision_value : MergeDecision → String
merge_decision_value MergeDecision.pending = "pending"
merge_decision_value MergeDecision.pass = "pass"
merge_decision_value MergeDecision.fail = "fail"
merge_decision_value MergeDecision.warn = "warn"

pub data WorkspaceStatus : Type 0 where
  created cloning ready failed cleaned : WorkspaceStatus

unfoldable pub workspace_status_value : WorkspaceStatus → String
workspace_status_value WorkspaceStatus.created = "CREATED"
workspace_status_value WorkspaceStatus.cloning = "CLONING"
workspace_status_value WorkspaceStatus.ready = "READY"
workspace_status_value WorkspaceStatus.failed = "FAILED"
workspace_status_value WorkspaceStatus.cleaned = "CLEANED"

pub data ScannerExecutionStatus : Type 0 where
  pending running completed failed timeout inconclusive skipped : ScannerExecutionStatus

unfoldable pub scanner_status_value : ScannerExecutionStatus → String
scanner_status_value ScannerExecutionStatus.pending = "PENDING"
scanner_status_value ScannerExecutionStatus.running = "RUNNING"
scanner_status_value ScannerExecutionStatus.completed = "COMPLETED"
scanner_status_value ScannerExecutionStatus.failed = "FAILED"
scanner_status_value ScannerExecutionStatus.timeout = "TIMEOUT"
scanner_status_value ScannerExecutionStatus.inconclusive = "INCONCLUSIVE"
scanner_status_value ScannerExecutionStatus.skipped = "SKIPPED"

pub data Severity : Type 0 where
  critical high medium low info : Severity

unfoldable pub severity_value : Severity → String
severity_value Severity.critical = "critical"
severity_value Severity.high = "high"
severity_value Severity.medium = "medium"
severity_value Severity.low = "low"
severity_value Severity.info = "info"

pub data FindingCategory : Type 0 where
  security quality typing dependency secret style : FindingCategory

unfoldable pub category_value : FindingCategory → String
category_value FindingCategory.security = "security"
category_value FindingCategory.quality = "quality"
category_value FindingCategory.typing = "typing"
category_value FindingCategory.dependency = "dependency"
category_value FindingCategory.secret = "secret"
category_value FindingCategory.style = "style"

pub data Confidence : Type 0 where
  high medium low : Confidence

unfoldable pub confidence_value : Confidence → String
confidence_value Confidence.high = "high"
confidence_value Confidence.medium = "medium"
confidence_value Confidence.low = "low"
