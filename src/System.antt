-- ===== src/System.antt =====
-- The parts at work together: services/webhook_service.py schedules what
-- services/scan_orchestration_service.py runs.
mod Defs
pub mod Sound
pub mod Advisory
unfoldable pub use Defs.*
