-- ===== src/Scanners/Adapters/Pyright.antt =====
-- src/protecto_prime_agent/scanners/adapters/pyright_adapter.py
use partha_prime_agent.Prelude.{String, true, false, List, [], ◌∷◌, ◌==◌, string_eq, if◌then◌else◌}
use partha_prime_agent.Prelude.Result.{Result, ok, ◌>>=◌}
use partha_prime_agent.Enums.{
  Severity, FindingCategory, Confidence, severity_value, category_value, confidence_value,
}
use partha_prime_agent.Json.{obj, Fields, end, get, get_of, value_or}
use partha_prime_agent.Platform.{Platform, Host}
use partha_prime_agent.Scanners.Interface.{NormalizedFinding, ScanRequest, ScannerAdapter}
use partha_prime_agent.Scanners.Normalization.{compute_fingerprint, to_relative_path}
use partha_prime_agent.Scanners.Adapters.Common.{
  under, zero_or_one, report_items, collect, clean, str_or_default, str_get, details,
}

-- `_SEVERITY_MAP.get(text, Severity.MEDIUM.value)`
unfoldable pub severity_of : String → Severity
severity_of text =
    if text == "error"
    then Severity.high
    else if text == "warning"
    then Severity.medium
    else if text == "information"
    then Severity.info
    else Severity.medium

module _ (P : Platform) (H : Host) where
  unfoldable pub parse_item : ScanRequest → Fields → Result NormalizedFinding
  unfolding severity_of str_or_default str_get clean details
  parse_item request item = do
    let rule_id = str_or_default P "rule" "pyright-general" item
    let message = clean P (str_get P "message" "" item)
    file_path ← to_relative_path H (get "file" item) request.workspace_path
    let rng = value_or (get "range" item) (obj end)
    found ← get_of "start" rng
    let start = value_or found (obj end)
    line_number ← get_of "line" start
    column_number ← get_of "character" start
    fingerprint ← compute_fingerprint P "pyright" rule_id file_path line_number message
    ok (record {
      scanner_name = "pyright";
      rule_id = rule_id;
      severity = severity_value (severity_of (P.lower (str_get P "severity" "" item)));
      category = category_value FindingCategory.typing;
      confidence = confidence_value Confidence.high;
      message = message;
      file_path = file_path;
      line_number = line_number;
      column_number = column_number;
      fingerprint = fingerprint;
      commit_sha = request.commit_sha;
      raw_details_json = details P item;
    })

  unfoldable pub parse_output : String → ScanRequest → Result (List NormalizedFinding)
  unfolding report_items collect parse_item
  parse_output raw_output request = do
    items ← report_items P "pyright" (under "generalDiagnostics") raw_output
    collect (parse_item request) items

  unfoldable pub adapter : ScannerAdapter
  unfolding parse_output category_value
  adapter = record {
    name = "pyright";
    category_default = category_value FindingCategory.typing;
    success_exit_codes = zero_or_one;
    requires_network = false;
    binary_name = "pyright";
    version_args = "--version" ∷ [];
    should_run = λ request. true;
    build_command = λ request binary_path output_dir. binary_path ∷ "--outputjson" ∷ "." ∷ [];
    read_output = λ stdout output_dir. ok stdout;
    parse_output = parse_output;
  }
