-- ===== src/Scanners/Runner/Config.antt =====
-- src/protecto_prime_agent/scanners/config.py: `from_settings`.
use partha_prime_agent.Prelude.{String, List, [], ◌∷◌, map, filter, split, truthy}
use partha_prime_agent.Paths.{path}
use partha_prime_agent.Settings.{Settings}
use partha_prime_agent.Scanners.Adapters.Common.{strip}
use partha_prime_agent.Scanners.Runner.Machine.{ScannerRuntimeConfig}

-- `tuple(name.strip() for name in text.split(",") if name.strip())`
unfoldable pub enabled_names : String → List String
unfolding strip split
enabled_names text = filter truthy (map strip (split 44 text))

unfoldable pub from_settings : Settings → ScannerRuntimeConfig
unfolding enabled_names path
from_settings s = record {
  enabled_scanners = enabled_names s.scanners_enabled;
  output_root = path s.scanner_output_root;
  limits = record {
    timeout_seconds = s.scanner_timeout_seconds;
    cpu_seconds = s.scanner_cpu_seconds;
    memory_mb = s.scanner_memory_mb;
    max_processes = s.scanner_max_processes;
    cpu_cores = "1.0";
  };
  tool_versions =
      ("ruff", s.ruff_version)
      ∷ ("bandit", s.bandit_version)
      ∷ ("semgrep", s.semgrep_version)
      ∷ ("pyright", s.pyright_version)
      ∷ ("gitleaks", s.gitleaks_version)
      ∷ ("pip-audit", s.pip_audit_version)
      ∷ [];
}
