-- ===== src/Scanners.antt =====
-- src/protecto_prime_agent/scanners/: the scanner runtime.
pub mod Interface
pub mod Normalization
pub mod Registry
pub mod Execution
pub mod Adapters
pub mod Runner
