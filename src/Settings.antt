-- ===== src/Settings.antt =====
-- src/protecto_prime_agent/config.py: `Settings`, and what is computed from them.
use partha_prime_agent.Prelude.{String, Option, none, some, ◌<>◌, truthy, if◌then◌else◌}
use partha_prime_agent.Json.{ℤ, pos, show_ℤ}

-- The backoff is a float, which only a product with a number of attempts is asked of.
pub record Settings : Type 0 where
  pub app_env : String
  pub api_host : String
  pub api_port : ℤ
  pub database_host : String
  pub database_port : ℤ
  pub database_name : String
  pub database_user : String
  pub database_password : String
  pub redis_host : String
  pub redis_port : ℤ
  pub redis_db : ℤ
  pub redis_password : Option String
  pub bitbucket_webhook_secret : Option String
  pub github_webhook_secret : Option String
  pub workspace_root : String
  pub git_clone_timeout_seconds : ℤ
  pub git_fetch_timeout_seconds : ℤ
  pub max_workspace_size_mb : ℤ
  pub workspace_retention_hours : ℤ
  pub git_network_max_retries : ℤ
  pub git_network_retry_backoff_seconds : String
  pub scanners_enabled : String
  pub scanner_output_root : String
  pub scanner_timeout_seconds : ℤ
  pub scanner_cpu_seconds : ℤ
  pub scanner_memory_mb : ℤ
  pub scanner_max_processes : ℤ
  pub ruff_version : String
  pub bandit_version : String
  pub semgrep_version : String
  pub pyright_version : String
  pub gitleaks_version : String
  pub pip_audit_version : String

-- What holds where the environment says nothing.
abbrev pub default_settings : Settings
default_settings = record {
  app_env = "development";
  api_host = "0.0.0.0";
  api_port = pos 8000;
  database_host = "localhost";
  database_port = pos 5432;
  database_name = "protecto_prime_agent";
  database_user = "protecto";
  database_password = "protecto";
  redis_host = "localhost";
  redis_port = pos 6379;
  redis_db = pos 0;
  redis_password = none;
  bitbucket_webhook_secret = none;
  github_webhook_secret = none;
  workspace_root = "/tmp/protecto-workspaces";
  git_clone_timeout_seconds = pos 300;
  git_fetch_timeout_seconds = pos 300;
  max_workspace_size_mb = pos 1024;
  workspace_retention_hours = pos 24;
  git_network_max_retries = pos 3;
  git_network_retry_backoff_seconds = "0.5";
  scanners_enabled = "ruff,bandit,semgrep,pyright,gitleaks,pip-audit";
  scanner_output_root = "/tmp/protecto-scanner-output";
  scanner_timeout_seconds = pos 120;
  scanner_cpu_seconds = pos 90;
  scanner_memory_mb = pos 512;
  scanner_max_processes = pos 32;
  ruff_version = "0.15.21";
  bandit_version = "1.9.4";
  semgrep_version = "1.169.0";
  pyright_version = "1.1.411";
  gitleaks_version = "8.30.1";
  pip_audit_version = "2.10.1";
}

unfoldable pub database_url : Settings → String
unfolding show_ℤ
database_url s =
    "postgresql+asyncpg://"
    <> (s.database_user
        <> (":"
            <> (s.database_password
                <> ("@"
                    <> (s.database_host
                        <> (":" <> (show_ℤ s.database_port <> ("/" <> s.database_name))))))))

redis_place : Settings → String
redis_place s = s.redis_host <> (":" <> (show_ℤ s.redis_port <> ("/" <> show_ℤ s.redis_db)))

-- The password is left out where it is missing or empty.
with_password : Option String → String → String
with_password none place = "redis://" <> place
with_password (some password) place =
    if truthy password then "redis://:" <> (password <> ("@" <> place)) else "redis://" <> place

unfoldable pub redis_url : Settings → String
unfolding show_ℤ redis_place with_password
redis_url s = with_password s.redis_password (redis_place s)
