-- ===== src/Tests.antt =====
-- The theorems at concrete inputs.
mod Toy
mod WebhookRuns
mod ScmRuns
mod ScannerRuns
mod RunnerRuns
mod WorkspaceRuns
mod OrchestrationRuns
mod WiredRuns
mod SettingsRuns
mod SystemRuns
mod SchemaRuns
mod AppRuns
