-- ===== src/Database.antt =====
-- The tables, the session of src/protecto_prime_agent/database.py and its transactions.
mod Defs
pub mod AuditWriter
pub mod Advisory
pub mod Consistent
unfoldable pub use Defs.*
