-- ===== src/Scanners/Adapters/Provenance.antt =====
-- Where the findings of a report come from.
use partha_prime_agent.Prelude.{String, Option, List, [], ◌∷◌, ◌++◌, ◌≡◌, subst, arith, All}
use partha_prime_agent.Prelude.Result.{Result, ok, ◌>>=◌, bind_result}
use partha_prime_agent.Json.{Value, Fields, null, arr, nil, obj, get, value_or}
use partha_prime_agent.Platform.{Platform, Host}
use partha_prime_agent.Paths.{FilePath}
use partha_prime_agent.Scanners.Interface.{NormalizedFinding, ScanRequest, ScannerAdapter}
use partha_prime_agent.Scanners.Adapters.Ruff
use partha_prime_agent.Scanners.Adapters.Bandit
use partha_prime_agent.Scanners.Adapters.Semgrep
use partha_prime_agent.Scanners.Adapters.Pyright
use partha_prime_agent.Scanners.Adapters.Gitleaks
use partha_prime_agent.Scanners.Adapters.PipAudit
use partha_prime_agent.Scanners.Adapters.{built_in}
use partha_prime_agent.Scanners.Adapters.Common.{
  collect, iterate, str_or_default, report_items, under, top_level,
}
use partha_prime_agent.Scanners.Normalization.{to_relative_path}

-- The finding names its scanner and the commit that was scanned.
abbrev pub Stamped : ScanRequest → String → NormalizedFinding → Type 0
Stamped request name f = (f.commit_sha ≡ request.commit_sha) × (f.scanner_name ≡ name)

collect-All :
    (Q : NormalizedFinding → Type 0) (parse : Fields → Result NormalizedFinding)
    → ((item : Fields) (f : NormalizedFinding) → parse item ≡ ok f → Q f)
    → (items : List Value) (fs : List NormalizedFinding) → collect parse items ≡ ok fs
    → All Q fs
unfolding collect
collect-All Q parse each [] fs h = cc
collect-All Q parse each (null ∷ items) fs h = collect-All Q parse each items fs h
collect-All Q parse each (obj item ∷ items) fs h = bind_result (parse item) _ h λ f e h1.
    bind_result (collect parse items) _ h1 λ rest e' h2.
      let same : (f ∷ rest) ≡ fs = cc in
      subst (All Q) same (each item f e, collect-All Q parse each items rest e')
collect-All Q parse each (v ∷ items) fs h = collect-All Q parse each items fs h

All-append :
    (Q : NormalizedFinding → Type 0) (fs gs : List NormalizedFinding)
    → All Q fs
    → All Q gs
    → All Q (fs ++ gs)
All-append Q [] gs a b = b
All-append Q (f ∷ fs) gs (q, a) b = (q, All-append Q fs gs a b)

module _ (P : Platform) (H : Host) (request : ScanRequest) where
  ruff-Stamped :
      (item : Fields) (f : NormalizedFinding)
      → Ruff.parse_item P H request item ≡ ok f
      → Stamped request "ruff" f
  unfolding Ruff.parse_item
  ruff-Stamped item f h = ground arith

  bandit-Stamped :
      (item : Fields) (f : NormalizedFinding)
      → Bandit.parse_item P H request item ≡ ok f
      → Stamped request "bandit" f
  unfolding Bandit.parse_item
  bandit-Stamped item f h = ground arith

  semgrep-Stamped :
      (item : Fields) (f : NormalizedFinding)
      → Semgrep.parse_item P H request item ≡ ok f
      → Stamped request "semgrep" f
  unfolding Semgrep.parse_item
  semgrep-Stamped item f h = ground arith

  pyright-Stamped :
      (item : Fields) (f : NormalizedFinding)
      → Pyright.parse_item P H request item ≡ ok f
      → Stamped request "pyright" f
  unfolding Pyright.parse_item
  pyright-Stamped item f h = ground arith

  gitleaks-Stamped :
      (item : Fields) (f : NormalizedFinding)
      → Gitleaks.parse_item P H request item ≡ ok f
      → Stamped request "gitleaks" f
  unfolding Gitleaks.parse_item
  gitleaks-Stamped item f h = ground arith

  vuln-Stamped :
      (file_path : Option Value) (name version : String) (v : Value) (f : NormalizedFinding)
      → PipAudit.parse_vuln P H request file_path name version v ≡ ok f
      → Stamped request "pip-audit" f
  unfolding PipAudit.parse_vuln
  vuln-Stamped file_path name version v f h = ground arith

  vulns-Stamped :
      (file_path : Option Value) (name version : String) (vs : List Value)
      (fs : List NormalizedFinding)
      → PipAudit.parse_vulns P H request file_path name version vs ≡ ok fs
      → All (Stamped request "pip-audit") fs
  unfolding PipAudit.parse_vulns
  vulns-Stamped file_path name version [] fs h =
      let same : [] ≡ fs = cc in subst (All (Stamped request "pip-audit")) same tt
  vulns-Stamped file_path name version (v ∷ vs) fs h =
      bind_result (PipAudit.parse_vuln P H request file_path name version v) _ h λ f e h1.
        bind_result (PipAudit.parse_vulns P H request file_path name version vs) _ h1 λ rest e' h2.
          let same : (f ∷ rest) ≡ fs = cc in
          subst (All (Stamped request "pip-audit")) same (
            vuln-Stamped file_path name version v f e,
            vulns-Stamped file_path name version vs rest e',
          )

  dependencies-Stamped :
      (file_path : Option Value) (ds : List Value) (fs : List NormalizedFinding)
      → PipAudit.parse_dependencies P H request file_path ds ≡ ok fs
      → All (Stamped request "pip-audit") fs
  unfolding PipAudit.parse_dependencies
  dependencies-Stamped file_path [] fs h =
      let same : [] ≡ fs = cc in subst (All (Stamped request "pip-audit")) same tt
  dependencies-Stamped file_path (obj d ∷ ds) fs h =
      bind_result (iterate (value_or (get "vulns" d) (arr nil))) _ h λ vulns _ h1.
        bind_result
          (PipAudit.parse_vulns P H request file_path (str_or_default P "name" "unknown" d)
            (str_or_default P "version" "unknown" d) vulns)
          _ h1
          λ here e h2.
            bind_result (PipAudit.parse_dependencies P H request file_path ds) _ h2 λ rest e' h3.
              let same : (here ++ rest) ≡ fs = cc in
              subst (All (Stamped request "pip-audit")) same (
                All-append _ here rest (vulns-Stamped file_path _ _ vulns here e)
                  (dependencies-Stamped file_path ds rest e'))
  dependencies-Stamped file_path (v ∷ ds) fs h = dependencies-Stamped file_path ds fs h

  -- What an adapter's parser returns is stamped with the adapter's name.
  abbrev pub Stamps : ScannerAdapter → Type 0
  Stamps a =
      (raw_output : String) (fs : List NormalizedFinding)
      → a.parse_output raw_output request ≡ ok fs
      → All (Stamped request a.name) fs

  collected :
      (name : String) (parse : Fields → Result NormalizedFinding)
      → ((item : Fields) (f : NormalizedFinding) → parse item ≡ ok f → Stamped request name f)
      → (items : Result (List Value)) (fs : List NormalizedFinding)
      → (items >>= λ found. collect parse found) ≡ ok fs
      → All (Stamped request name) fs
  collected name parse each items fs h =
      bind_result items _ h λ found _ h1. collect-All (Stamped request name) parse each found fs h1

  -- Whatever a tool reports, if one of the six adapters reads it, every finding names the
  -- adapter as its scanner and has the commit of the request.
  pub built_in-Stamps : (ruleset_path : FilePath) → All Stamps (built_in P H ruleset_path)
  unfolding built_in Ruff.adapter Bandit.adapter Semgrep.adapter Pyright.adapter Gitleaks.adapter
      PipAudit.adapter Ruff.parse_output Bandit.parse_output Semgrep.parse_output
      Pyright.parse_output Gitleaks.parse_output PipAudit.parse_output
  built_in-Stamps ruleset_path = (
    (λ raw fs h.
        collected "ruff" (Ruff.parse_item P H request) ruff-Stamped
          (report_items P "ruff" top_level raw) fs h),
    (
      (λ raw fs h.
          collected "bandit" (Bandit.parse_item P H request) bandit-Stamped
            (report_items P "bandit" (under "results") raw) fs h),
      (
        (λ raw fs h.
            collected "semgrep" (Semgrep.parse_item P H request) semgrep-Stamped
              (report_items P "semgrep" (under "results") raw) fs h),
        (
          (λ raw fs h.
              collected "pyright" (Pyright.parse_item P H request) pyright-Stamped
                (report_items P "pyright" (under "generalDiagnostics") raw) fs h),
          (
            (λ raw fs h.
                collected "gitleaks" (Gitleaks.parse_item P H request) gitleaks-Stamped
                  (report_items P "gitleaks" top_level raw) fs h),
            (
              (λ raw fs h.
                  bind_result (report_items P "pip_audit" (under "dependencies") raw) _ h
                    λ dependencies _ h1.
                      bind_result (to_relative_path H _ request.workspace_path) _ h1
                        λ file_path _ h2. dependencies-Stamped file_path dependencies fs h2),
              tt,
            ),
          ),
        ),
      ),
    ),
  )
