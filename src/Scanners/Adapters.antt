-- ===== src/Scanners/Adapters.antt =====
-- src/protecto_prime_agent/scanners/adapters/: the six tools, and the registry that holds them.
pub mod Common
pub mod Ruff
pub mod Bandit
pub mod Semgrep
pub mod Pyright
pub mod Gitleaks
pub mod PipAudit
pub mod Provenance
pub mod Secrets
use partha_prime_agent.Prelude.{List, [], ◌∷◌}
use partha_prime_agent.Platform.{Platform, Host}
use partha_prime_agent.Paths.{FilePath}
use partha_prime_agent.Scanners.Interface.{ScannerAdapter}
use partha_prime_agent.Scanners.Registry.{ScannerRegistry, register_all}

module _ (P : Platform) (H : Host) (ruleset_path : FilePath) where
  unfoldable pub built_in : List ScannerAdapter
  unfolding Ruff.adapter Bandit.adapter Semgrep.adapter Pyright.adapter Gitleaks.adapter
      PipAudit.adapter
  built_in =
      Ruff.adapter P H
      ∷ Bandit.adapter P H
      ∷ Semgrep.adapter P H ruleset_path
      ∷ Pyright.adapter P H
      ∷ Gitleaks.adapter P H
      ∷ PipAudit.adapter P H
      ∷ []

  -- `build_default_registry`
  unfoldable pub build_default_registry : ScannerRegistry
  unfolding register_all built_in
  build_default_registry = register_all built_in []
