-- ===== src/Scanners/Adapters/Ruff.antt =====
-- src/protecto_prime_agent/scanners/adapters/ruff_adapter.py
use partha_prime_agent.Prelude.{String, true, false, List, [], ◌∷◌, starts_with, if◌then◌else◌}
use partha_prime_agent.Prelude.Result.{Result, ok, ◌>>=◌}
use partha_prime_agent.Enums.{
  Severity, FindingCategory, Confidence, severity_value, category_value, confidence_value,
}
use partha_prime_agent.Json.{obj, Fields, end, get, get_of, value_or}
use partha_prime_agent.Platform.{Platform, Host}
use partha_prime_agent.Scanners.Interface.{NormalizedFinding, ScanRequest, ScannerAdapter}
use partha_prime_agent.Scanners.Normalization.{compute_fingerprint, to_relative_path}
use partha_prime_agent.Scanners.Adapters.Common.{
  top_level, zero_or_one, report_items, collect, clean, str_or_default, str_get, details,
}

unfoldable pub map_severity_category : String → Severity × FindingCategory
map_severity_category code =
    if starts_with code "S"
    then (Severity.high, FindingCategory.security)
    else if starts_with code "F"
    then (Severity.medium, FindingCategory.quality)
    else (Severity.low, FindingCategory.style)

module _ (P : Platform) (H : Host) where
  -- The body of the loop of `parse_output`.
  unfoldable pub parse_item : ScanRequest → Fields → Result NormalizedFinding
  unfolding map_severity_category str_or_default str_get clean details
  parse_item request item = do
    let code = str_or_default P "code" "unknown" item
    let message = clean P (str_get P "message" "" item)
    let location = value_or (get "location" item) (obj end)
    file_path ← to_relative_path H (get "filename" item) request.workspace_path
    line_number ← get_of "row" location
    column_number ← get_of "column" location
    fingerprint ← compute_fingerprint P "ruff" code file_path line_number message
    ok (record {
      scanner_name = "ruff";
      rule_id = code;
      severity = severity_value (map_severity_category code).0;
      category = category_value (map_severity_category code).1;
      confidence = confidence_value Confidence.medium;
      message = message;
      file_path = file_path;
      line_number = line_number;
      column_number = column_number;
      fingerprint = fingerprint;
      commit_sha = request.commit_sha;
      raw_details_json = details P item;
    })

  unfoldable pub parse_output : String → ScanRequest → Result (List NormalizedFinding)
  unfolding report_items collect parse_item
  parse_output raw_output request = do
    items ← report_items P "ruff" top_level raw_output
    collect (parse_item request) items

  unfoldable pub adapter : ScannerAdapter
  unfolding parse_output category_value
  adapter = record {
    name = "ruff";
    category_default = category_value FindingCategory.style;
    success_exit_codes = zero_or_one;
    requires_network = false;
    binary_name = "ruff";
    version_args = "--version" ∷ [];
    should_run = λ request. true;
    build_command = λ request binary_path output_dir.
        binary_path ∷ "check" ∷ "--isolated" ∷ "--select=E,F,W,S" ∷ "--output-format=json" ∷ "."
        ∷ [];
    read_output = λ stdout output_dir. ok stdout;
    parse_output = parse_output;
  }
