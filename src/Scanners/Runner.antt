-- ===== src/Scanners/Runner.antt =====
-- src/protecto_prime_agent/scanners/runner.py: `ScannerRunner`.
pub mod Machine
pub mod Config
pub mod One
pub mod Scan
pub mod Described
pub mod Complete
pub mod Findings
pub mod Undisturbed
