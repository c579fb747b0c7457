-- ===== src/Scm.antt =====
-- src/protecto_prime_agent/integrations/scm.py: the events and the interface of a provider.
pub mod Github
pub mod Bitbucket
mod Defs
mod Compare
pub use Defs.*
unfoldable pub use Compare.{compare_digest, with_secret}
pub use Compare.{compare_digest-ok, compare_digest-append, with_secret-true}
