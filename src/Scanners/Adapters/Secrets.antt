-- ===== src/Scanners/Adapters/Secrets.antt =====
-- What a secret scanner's report says of the secret itself does not reach the findings.
use partha_prime_agent.Prelude.{
  String, true, false, ◌≡◌, refl, sym, ap, ◌∙◌, contains, string_eq, ◌<>◌, ◌==◌,
}
use partha_prime_agent.Json.{Value, str, null, Fields, get, set_field, without}
use partha_prime_agent.Json.Keys.{get-without, get-set_field, set-set, set_comm}
use partha_prime_agent.Platform.{Platform, Host}
use partha_prime_agent.Redaction.{redacted}
use partha_prime_agent.Scanners.Interface.{ScanRequest}
use partha_prime_agent.Scanners.Adapters.Gitleaks
use partha_prime_agent.Scanners.Adapters.Bandit
use partha_prime_agent.Scanners.Adapters.Common.{str_or_default, str_get}

-- A gitleaks item with the secret and its surroundings left out.
abbrev pub without_secret : Fields → Fields
without_secret = without Gitleaks.secret_value_keys

module _ (a b : Fields) (alike : without_secret a ≡ without_secret b) where
  same_get : (k : String) → contains Gitleaks.secret_value_keys k ≡ false → get k a ≡ get k b
  same_get k h =
      sym (get-without Gitleaks.secret_value_keys k a h)
      ∙ ap (get k) alike
      ∙ get-without Gitleaks.secret_value_keys k b h

  -- Two gitleaks items that differ in the secret and in the matching text alone give the same
  -- result: no part of a finding, its fingerprint and its details included, depends on them.
  pub gitleaks_item-secret :
      (P : Platform) (H : Host) (request : ScanRequest)
      → Gitleaks.parse_item P H request a ≡ Gitleaks.parse_item P H request b
  unfolding Gitleaks.parse_item Gitleaks.sanitized_item str_or_default
  gitleaks_item-secret P H request = rw (
    same_get "RuleID" refl,
    same_get "Description" refl,
    same_get "File" refl,
    same_get "StartLine" refl,
    same_get "StartColumn" refl,
    alike,
  )

-- A bandit item with the text and the code of the issue blotted out.
abbrev pub blotted : Fields → Fields
blotted item = set_field "issue_text" null (set_field "code" null item)

masked :
    (m r : Value) (d : Fields)
    → set_field "issue_text" m (set_field "code" r (blotted d))
      ≡ set_field "issue_text" m (set_field "code" r d)
masked m r d =
    ap (set_field "issue_text" m) (set_comm "issue_text" "code" null r null d refl)
    ∙ set-set "issue_text" m null (set_field "code" r d)

module _ (a b : Fields) (alike : blotted a ≡ blotted b) where
  get-blotted :
      (k : String) (d : Fields)
      → (k == "issue_text") ≡ false
      → (k == "code") ≡ false
      → get k (blotted d) ≡ get k d
  get-blotted k d h h' =
      get-set_field k "issue_text" null (set_field "code" null d) h
      ∙ get-set_field k "code" null d h'

  same_bandit :
      (k : String) → (k == "issue_text") ≡ false → (k == "code") ≡ false → get k a ≡ get k b
  same_bandit k h h' = sym (get-blotted k a h h') ∙ ap (get k) alike ∙ get-blotted k b h h'

  same_masked :
      (m r : Value)
      → set_field "issue_text" m (set_field "code" r a)
        ≡ set_field "issue_text" m (set_field "code" r b)
  same_masked m r =
      sym (masked m r a)
      ∙ ap (λ d. set_field "issue_text" m (set_field "code" r d)) alike
      ∙ masked m r b

  abbrev hidden : String → String
  hidden test_id = "Possible hardcoded secret detected (" <> (test_id <> ").")

  module _ (P : Platform) where
    same_or_default :
        (k default : String)
        → (k == "issue_text") ≡ false
        → (k == "code") ≡ false
        → str_or_default P k default a ≡ str_or_default P k default b
    unfolding str_or_default
    same_or_default k default h h' = rw (same_bandit k h h')

    same_str_get :
        (k default : String)
        → (k == "issue_text") ≡ false
        → (k == "code") ≡ false
        → str_get P k default a ≡ str_get P k default b
    unfolding str_get
    same_str_get k default h h' = rw (str_get, same_bandit k h h')

    module _ (H : Host) where
      same_severity : Bandit.severity_of P H a ≡ Bandit.severity_of P H b
      unfolding Bandit.severity_of
      same_severity = rw (same_str_get "issue_severity" "low" refl refl)

  -- Two bandit items of a check for hardcoded secrets that differ in the text and the code of the
  -- issue alone give the same result.
  pub bandit_item-secret :
      (P : Platform) (H : Host) (request : ScanRequest)
      → contains Bandit.hardcoded_secret_test_ids (str_or_default P "test_id" "unknown" a) ≡ true
      → Bandit.parse_item P H request a ≡ Bandit.parse_item P H request b
  unfolding Bandit.parse_item
  bandit_item-secret P H request hardcoded =
      let id = str_or_default P "test_id" "unknown" b in
      let same_id : str_or_default P "test_id" "unknown" a ≡ id =
        same_or_default P "test_id" "unknown" refl refl in
      let h : contains Bandit.hardcoded_secret_test_ids id ≡ true = rw same_id at hardcoded in
      rw (
        same_id,
        same_severity P H,
        h,
        same_masked (str (hidden id)) (str redacted),
        same_bandit "filename" refl refl,
        same_bandit "line_number" refl refl,
        same_bandit "col_offset" refl refl,
        same_str_get P "issue_confidence" "low" refl refl,
      )
