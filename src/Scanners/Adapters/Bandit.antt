-- ===== src/Scanners/Adapters/Bandit.antt =====
-- src/protecto_prime_agent/scanners/adapters/bandit_adapter.py
use partha_prime_agent.Prelude.{
  String, true, false, List, [], ◌∷◌, ◌<>◌, string_eq, contains, if◌then◌else◌,
}
use partha_prime_agent.Prelude.Result.{Result, ok, ◌>>=◌}
use partha_prime_agent.Enums.{Severity, FindingCategory, severity_value, category_value}
use partha_prime_agent.Json.{str, Fields, get, set_field}
use partha_prime_agent.Platform.{Platform, Host}
use partha_prime_agent.Redaction.{redacted}
use partha_prime_agent.Scanners.Interface.{NormalizedFinding, ScanRequest, ScannerAdapter}
use partha_prime_agent.Scanners.Normalization.{compute_fingerprint, to_relative_path}
use partha_prime_agent.Scanners.Adapters.Common.{
  under, zero_or_one, report_items, collect, clean, str_or_default, str_get, details,
}

-- The checks whose text and code show the secret itself.
abbrev pub hardcoded_secret_test_ids : List String
hardcoded_secret_test_ids = "B105" ∷ "B106" ∷ "B107" ∷ "B108" ∷ []

-- `{s.value for s in Severity}`
abbrev pub severities : List String
unfolding severity_value
severities =
    severity_value Severity.critical
    ∷ severity_value Severity.high
    ∷ severity_value Severity.medium
    ∷ severity_value Severity.low
    ∷ severity_value Severity.info
    ∷ []

module _ (P : Platform) (H : Host) where
  unfoldable pub severity_of : Fields → String
  unfolding severity_value str_get
  severity_of item =
      let severity = P.lower (str_get P "issue_severity" "low" item) in
      if contains severities severity then severity else severity_value Severity.low

  unfoldable pub message_of : String → Fields → String
  unfolding clean str_get
  message_of test_id item =
      if contains hardcoded_secret_test_ids test_id
      then "Possible hardcoded secret detected (" <> (test_id <> ").")
      else clean P (str_get P "issue_text" "" item)

  -- `sanitized_item`
  unfoldable pub sanitized_item : String → Fields → Fields
  unfolding message_of set_field
  sanitized_item test_id item =
      if contains hardcoded_secret_test_ids test_id
      then set_field "issue_text" (str (message_of test_id item))
          (set_field "code" (str redacted) item)
      else item

  unfoldable pub parse_item : ScanRequest → Fields → Result NormalizedFinding
  unfolding severity_of message_of sanitized_item str_or_default str_get details
  parse_item request item = do
    let test_id = str_or_default P "test_id" "unknown" item
    let message = message_of test_id item
    file_path ← to_relative_path H (get "filename" item) request.workspace_path
    fingerprint ← compute_fingerprint P "bandit" test_id file_path (get "line_number" item) message
    ok (record {
      scanner_name = "bandit";
      rule_id = test_id;
      severity = severity_of item;
      category = category_value FindingCategory.security;
      confidence = P.lower (str_get P "issue_confidence" "low" item);
      message = message;
      file_path = file_path;
      line_number = get "line_number" item;
      column_number = get "col_offset" item;
      fingerprint = fingerprint;
      commit_sha = request.commit_sha;
      raw_details_json = details P (sanitized_item test_id item);
    })

  unfoldable pub parse_output : String → ScanRequest → Result (List NormalizedFinding)
  unfolding report_items collect parse_item
  parse_output raw_output request = do
    items ← report_items P "bandit" (under "results") raw_output
    collect (parse_item request) items

  unfoldable pub adapter : ScannerAdapter
  unfolding parse_output category_value
  adapter = record {
    name = "bandit";
    category_default = category_value FindingCategory.security;
    success_exit_codes = zero_or_one;
    requires_network = false;
    binary_name = "bandit";
    version_args = "--version" ∷ [];
    should_run = λ request. true;
    build_command = λ request binary_path output_dir.
        binary_path ∷ "-f" ∷ "json" ∷ "-r" ∷ "--exclude"
        ∷ ".git,.venv,venv,node_modules,__pycache__" ∷ "." ∷ [];
    read_output = λ stdout output_dir. ok stdout;
    parse_output = parse_output;
  }
