-- ===== src/Tests/ScannerRuns.antt =====
-- Reports, selections and calls of scanners.
use partha_prime_agent.Prelude.{
  String, true, none, some, List, [], ◌∷◌, ◌≡◌, refl, contains, string_eq, if◌then◌else◌,
}
use partha_prime_agent.Json.{
  pos, int, str, Fields, field, end, get, set_field, without, value_or, str_of, truthy_value,
}
use partha_prime_agent.Paths.{path}
use partha_prime_agent.Scanners.Interface.{ScanRequest, ScannerAdapter}
use partha_prime_agent.Scanners.Registry.{get as get_adapter, resolve_enabled}
use partha_prime_agent.Scanners.Registry.Lookup.{get-resolve_enabled}
use partha_prime_agent.Scanners.Execution.{build_minimal_env, lookup}
use partha_prime_agent.Scanners.Execution.Environment.{
  assigned, inherited, lookup-build_minimal_env,
}
use partha_prime_agent.Scanners.Adapters.Common.{str_or_default}
use partha_prime_agent.Scanners.Adapters.Secrets.{gitleaks_item-secret, bandit_item-secret}
use partha_prime_agent.Scanners.Adapters.Ruff
use partha_prime_agent.Scanners.Adapters.Bandit
use partha_prime_agent.Scanners.Adapters.Gitleaks
use partha_prime_agent.Tests.Toy.{toy, toy_host}

abbrev request : ScanRequest
request = record {
  workspace_path = path "/w";
  commit_sha = "aaa";
  workflow_run_id = "u";
  repository_id = "u";
  enabled_scanners = none;
}

abbrev leak : String → Fields
leak secret =
    field "RuleID" (str "aws-key")
      (field "Secret" (str secret) (field "StartLine" (int (pos 3)) end))

gitleaks_item-secret_example :
    Gitleaks.parse_item toy toy_host request (leak "hunter2")
    ≡ Gitleaks.parse_item toy toy_host request (leak "letmein")
unfolding without
gitleaks_item-secret_example =
    gitleaks_item-secret (leak "hunter2") (leak "letmein") refl toy toy_host request

abbrev issue : String → Fields
issue code =
    field "test_id" (str "B105") (field "code" (str code) (field "issue_text" (str code) end))

issue_hardcoded :
    contains Bandit.hardcoded_secret_test_ids
      (str_or_default toy "test_id" "unknown" (issue "hunter2"))
    ≡ true
unfolding str_or_default get value_or str_of truthy_value
issue_hardcoded = refl

bandit_item-secret_example :
    Bandit.parse_item toy toy_host request (issue "hunter2")
    ≡ Bandit.parse_item toy toy_host request (issue "letmein")
unfolding set_field
bandit_item-secret_example =
    bandit_item-secret (issue "hunter2") (issue "letmein") refl toy toy_host request issue_hardcoded

lookup-build_minimal_env_example :
    lookup "TOKEN" (build_minimal_env (("TOKEN", "t") ∷ []) [])
    ≡ assigned "TOKEN" [] (inherited "TOKEN" (("TOKEN", "t") ∷ []))
lookup-build_minimal_env_example = lookup-build_minimal_env "TOKEN" (("TOKEN", "t") ∷ []) []

abbrev ruff : ScannerAdapter
ruff = Ruff.adapter toy toy_host

abbrev wanted : List String
wanted = "pyright" ∷ []

get-resolve_enabled_example :
    get_adapter "ruff" (resolve_enabled (some wanted) (ruff ∷ []))
    ≡ (if contains wanted "ruff" then get_adapter "ruff" (ruff ∷ []) else none)
get-resolve_enabled_example = get-resolve_enabled "ruff" wanted (ruff ∷ [])
