-- ===== src/Orchestration.antt =====
-- src/protecto_prime_agent/services/scan_orchestration_service.py: from a stored event to findings.
pub mod Defs
pub mod Rows
pub mod Stuck
pub mod Keeps
pub mod Calls
pub mod Decisions
pub mod Consistent
pub mod Stored
pub mod Wired
pub mod Audited
pub mod Advisory
pub mod Quiet
pub mod Statuses
pub mod Ending
