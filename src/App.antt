-- ===== src/App.antt =====
-- src/protecto_prime_agent/main.py: the application around the endpoints.
mod Defs
pub mod Correlated
unfoldable pub use Defs.*
