-- ===== src/Workspace.antt =====
-- src/protecto_prime_agent/services/repository_workspace_service.py: `RepositoryWorkspaceService`
pub mod Names
pub mod State
pub mod Git
pub mod Fetch
pub mod Lifecycle
pub mod Stale
