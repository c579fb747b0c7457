-- ===== src/Webhook.antt =====
-- src/protecto_prime_agent/services/webhook_service.py: `WebhookService`
mod Receive
pub mod Frame
pub mod Outcome
pub mod Idempotence
pub mod Redelivery
pub mod Correlation
pub mod Advisory
pub mod Consistent
mod Defs
unfoldable pub use Receive.*
unfoldable pub use Defs.*
