-- ===== src/Scanners/Adapters/Gitleaks.antt =====
-- src/protecto_prime_agent/scanners/adapters/gitleaks_adapter.py
use partha_prime_agent.Prelude.{String, true, false, List, [], ◌∷◌, ◌<>◌, string_eq, if◌then◌else◌}
use partha_prime_agent.Prelude.Result.{Result, ok, ◌>>=◌}
use partha_prime_agent.Enums.{
  Severity, FindingCategory, Confidence, severity_value, category_value, confidence_value,
}
use partha_prime_agent.Json.{str, Fields, get, set_field, without}
use partha_prime_agent.Paths.{FilePath, path_str, ◌/◌}
use partha_prime_agent.Platform.{Platform, Host}
use partha_prime_agent.Redaction.{redacted}
use partha_prime_agent.Scanners.Interface.{NormalizedFinding, ScanRequest, ScannerAdapter}
use partha_prime_agent.Scanners.Normalization.{compute_fingerprint, to_relative_path}
use partha_prime_agent.Scanners.Adapters.Common.{
  top_level, zero_or_one, report_items, collect, clean, str_or_default, details,
}

abbrev pub secret_value_keys : List String
secret_value_keys = "Secret" ∷ "Match" ∷ []

abbrev pub report_name : String
report_name = "gitleaks-report.json"

-- `sanitized_item`: the keys that hold the secret are dropped, and set to a mark.
unfoldable pub sanitized_item : Fields → Fields
unfolding without set_field
sanitized_item item =
    set_field "Match" (str redacted)
      (set_field "Secret" (str redacted) (without secret_value_keys item))

module _ (P : Platform) (H : Host) where
  unfoldable pub parse_item : ScanRequest → Fields → Result NormalizedFinding
  unfolding sanitized_item str_or_default clean details
  parse_item request item = do
    let rule_id = str_or_default P "RuleID" "unknown-secret" item
    let description = str_or_default P "Description" "Potential secret detected" item
    let message = clean P (description <> (" (rule: " <> (rule_id <> ").")))
    file_path ← to_relative_path H (get "File" item) request.workspace_path
    fingerprint ← compute_fingerprint P "gitleaks" rule_id file_path (get "StartLine" item) message
    ok (record {
      scanner_name = "gitleaks";
      rule_id = rule_id;
      severity = severity_value Severity.critical;
      category = category_value FindingCategory.secret;
      confidence = confidence_value Confidence.high;
      message = message;
      file_path = file_path;
      line_number = get "StartLine" item;
      column_number = get "StartColumn" item;
      fingerprint = fingerprint;
      commit_sha = request.commit_sha;
      raw_details_json = details P (sanitized_item item);
    })

  unfoldable pub parse_output : String → ScanRequest → Result (List NormalizedFinding)
  unfolding report_items collect parse_item
  parse_output raw_output request = do
    items ← report_items P "gitleaks" top_level raw_output
    collect (parse_item request) items

  -- The report file if there is one.
  unfoldable pub read_output : String → FilePath → Result String
  read_output stdout output_dir =
      let report_path = output_dir / report_name in
      if H.exists report_path then H.read_text report_path else ok stdout

  unfoldable pub adapter : ScannerAdapter
  unfolding parse_output read_output category_value
  adapter = record {
    name = "gitleaks";
    category_default = category_value FindingCategory.secret;
    success_exit_codes = zero_or_one;
    requires_network = false;
    binary_name = "gitleaks";
    version_args = "version" ∷ [];
    should_run = λ request. true;
    build_command = λ request binary_path output_dir.
        binary_path
        ∷ "detect"
        ∷ "--source"
        ∷ "."
        ∷ "--no-git"
        ∷ "-f"
        ∷ "json"
        ∷ "-r"
        ∷ path_str (output_dir / report_name)
        ∷ [];
    read_output = read_output;
    parse_output = parse_output;
  }
