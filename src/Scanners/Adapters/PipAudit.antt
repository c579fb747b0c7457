-- ===== src/Scanners/Adapters/PipAudit.antt =====
-- src/protecto_prime_agent/scanners/adapters/pip_audit_adapter.py
use partha_prime_agent.Prelude.{
  String, true, Option, none, some, List, [], ◌∷◌, ◌++◌, ◌<>◌, string_eq, str_take,
}
use partha_prime_agent.Prelude.Result.{Result, ok, Kind, raise, ◌>>=◌}
use partha_prime_agent.Enums.{
  Severity, FindingCategory, Confidence, severity_value, category_value, confidence_value,
}
use partha_prime_agent.Json.{
  Value, str, obj, arr, nil, field, end, get, value_or, update_fields, str_of,
}
use partha_prime_agent.Paths.{path_str, ◌/◌}
use partha_prime_agent.Platform.{Platform, Host}
use partha_prime_agent.Scanners.Interface.{NormalizedFinding, ScanRequest, ScannerAdapter}
use partha_prime_agent.Scanners.Normalization.{compute_fingerprint, to_relative_path}
use partha_prime_agent.Scanners.Adapters.Common.{
  under, zero_or_one, report_items, iterate, clean, str_or_default, details,
}

abbrev pub requirements_filename : String
requirements_filename = "requirements.txt"

module _ (P : Platform) (H : Host) where
  unfoldable pub parse_vuln :
      ScanRequest → Option Value → String → String → Value → Result NormalizedFinding
  unfolding update_fields str_or_default clean details str_of value_or
  parse_vuln request file_path name version (obj vuln) = do
    let vuln_id = str_or_default P "id" "unknown-vuln" vuln
    let description = str_take 400 (clean P (str_or_default P "description" "" vuln))
    fingerprint ←
        compute_fingerprint P "pip-audit" vuln_id file_path none
          (name <> ("==" <> (version <> (":" <> vuln_id))))
    ok (record {
      scanner_name = "pip-audit";
      rule_id = vuln_id;
      severity = severity_value Severity.high;
      category = category_value FindingCategory.dependency;
      confidence = confidence_value Confidence.high;
      message = name <> (" " <> (version <> (": " <> description)));
      file_path = file_path;
      line_number = none;
      column_number = none;
      fingerprint = fingerprint;
      commit_sha = request.commit_sha;
      raw_details_json =
          details P
            (update_fields vuln (field "name" (str name) (field "version" (str version) end)));
    })
  parse_vuln request file_path name version v =
      raise Kind.attribute_error "object has no attribute 'get'"

  unfoldable pub parse_vulns :
      ScanRequest → Option Value → String → String → List Value → Result (List NormalizedFinding)
  unfolding parse_vuln
  parse_vulns request file_path name version [] = ok []
  parse_vulns request file_path name version (v ∷ vs) = do
    finding ← parse_vuln request file_path name version v
    rest ← parse_vulns request file_path name version vs
    ok (finding ∷ rest)

  -- A dependency that is no dict is passed over.
  unfoldable pub parse_dependencies :
      ScanRequest → Option Value → List Value → Result (List NormalizedFinding)
  unfolding parse_vulns iterate value_or str_or_default
  parse_dependencies request file_path [] = ok []
  parse_dependencies request file_path (obj dependency ∷ rest) = do
    let name = str_or_default P "name" "unknown" dependency
    let version = str_or_default P "version" "unknown" dependency
    vulns ← iterate (value_or (get "vulns" dependency) (arr nil))
    findings ← parse_vulns request file_path name version vulns
    others ← parse_dependencies request file_path rest
    ok (findings ++ others)
  parse_dependencies request file_path (v ∷ rest) = parse_dependencies request file_path rest

  unfoldable pub parse_output : String → ScanRequest → Result (List NormalizedFinding)
  unfolding report_items parse_dependencies
  parse_output raw_output request = do
    dependencies ← report_items P "pip_audit" (under "dependencies") raw_output
    file_path ←
        to_relative_path H (some (str (path_str (request.workspace_path / requirements_filename))))
          request.workspace_path
    parse_dependencies request file_path dependencies

  unfoldable pub adapter : ScannerAdapter
  unfolding parse_output category_value
  adapter = record {
    name = "pip-audit";
    category_default = category_value FindingCategory.dependency;
    success_exit_codes = zero_or_one;
    requires_network = true;
    binary_name = "pip-audit";
    version_args = "--version" ∷ [];
    should_run = λ request. H.exists (request.workspace_path / requirements_filename);
    build_command = λ request binary_path output_dir.
        binary_path
        ∷ "-r"
        ∷ path_str (request.workspace_path / requirements_filename)
        ∷ "-f"
        ∷ "json"
        ∷ "--progress-spinner=off"
        ∷ [];
    read_output = λ stdout output_dir. ok stdout;
    parse_output = parse_output;
  }
