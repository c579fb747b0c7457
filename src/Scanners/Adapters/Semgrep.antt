-- ===== src/Scanners/Adapters/Semgrep.antt =====
-- src/protecto_prime_agent/scanners/adapters/semgrep_adapter.py
use partha_prime_agent.Prelude.{
  String, true, false, Option, none, some, List, [], ◌∷◌, ◌==◌, string_eq, split, if◌then◌else◌,
}
use partha_prime_agent.Prelude.Result.{Result, ok, ◌>>=◌}
use partha_prime_agent.Enums.{
  Severity, FindingCategory, Confidence, severity_value, category_value, confidence_value,
}
use partha_prime_agent.Json.{Value, obj, Fields, end, get, get_of, value_or, str_of}
use partha_prime_agent.Paths.{FilePath, path_str}
use partha_prime_agent.Platform.{Platform, Host}
use partha_prime_agent.Scanners.Interface.{NormalizedFinding, ScanRequest, ScannerAdapter}
use partha_prime_agent.Scanners.Normalization.{compute_fingerprint, to_relative_path}
use partha_prime_agent.Scanners.Adapters.Common.{
  under, zero_or_one, report_items, collect, clean, str_or_default, details,
}

-- `_SEVERITY_MAP.get(text, Severity.MEDIUM.value)`
unfoldable pub severity_of : String → Severity
severity_of text =
    if text == "ERROR"
    then Severity.high
    else if text == "WARNING"
    then Severity.medium
    else if text == "INFO"
    then Severity.info
    else Severity.medium

abbrev last_or : String → List String → String
last_or default [] = default
last_or default (p ∷ ps) = last_or p ps

-- `text.rsplit(".", 1)[-1]`
unfoldable pub last_segment : String → String
unfolding split
last_segment text = last_or text (split 46 text)

module _ (P : Platform) (H : Host) where
  -- `str(d.get(key, ""))`
  abbrev str_or_empty : Option Value → String
  unfolding str_of
  str_or_empty o = elim o [ none ↦ "" | some v ↦ str_of P.repr v ]

  unfoldable pub parse_item : ScanRequest → Fields → Result NormalizedFinding
  unfolding severity_of last_segment str_or_default str_of clean details
  parse_item request item = do
    let rule_id = last_segment (str_or_default P "check_id" "unknown" item)
    let extra = value_or (get "extra" item) (obj end)
    text ← get_of "message" extra
    let message = clean P (str_or_empty text)
    file_path ← to_relative_path H (get "path" item) request.workspace_path
    let start = value_or (get "start" item) (obj end)
    line_number ← get_of "line" start
    column_number ← get_of "col" start
    level ← get_of "severity" extra
    fingerprint ← compute_fingerprint P "semgrep" rule_id file_path line_number message
    ok (record {
      scanner_name = "semgrep";
      rule_id = rule_id;
      severity = severity_value (severity_of (P.upper (str_or_empty level)));
      category = category_value FindingCategory.security;
      confidence = confidence_value Confidence.medium;
      message = message;
      file_path = file_path;
      line_number = line_number;
      column_number = column_number;
      fingerprint = fingerprint;
      commit_sha = request.commit_sha;
      raw_details_json = details P item;
    })

  unfoldable pub parse_output : String → ScanRequest → Result (List NormalizedFinding)
  unfolding report_items collect parse_item
  parse_output raw_output request = do
    items ← report_items P "semgrep" (under "results") raw_output
    collect (parse_item request) items

  module _ (ruleset_path : FilePath) where
    unfoldable pub adapter : ScannerAdapter
    unfolding parse_output category_value
    adapter = record {
      name = "semgrep";
      category_default = category_value FindingCategory.security;
      success_exit_codes = zero_or_one;
      requires_network = false;
      binary_name = "semgrep";
      version_args = "--version" ∷ [];
      should_run = λ request. true;
      build_command = λ request binary_path output_dir.
          binary_path
          ∷ "--config"
          ∷ path_str ruleset_path
          ∷ "--json"
          ∷ "--metrics=off"
          ∷ "--quiet"
          ∷ "."
          ∷ [];
      read_output = λ stdout output_dir. ok stdout;
      parse_output = parse_output;
    }
