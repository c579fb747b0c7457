-- ===== src/Scanners/Runner/Findings.antt =====
-- The findings of a scan with the built-in adapters.
use partha_prime_agent.Prelude.{
  ℕ, Bool, List, [], ◌∷◌, ◌≡◌, sym, subst, filter, All, contains, Bool-cases, inl, inr, ◌==◌,
  string_eq,
}
use partha_prime_agent.Prelude.Result.{ok}
use partha_prime_agent.Prelude.Task.Gather.{Zip, nil, cons}
use partha_prime_agent.Paths.{FilePath}
use partha_prime_agent.Platform.{Platform, Host}
use partha_prime_agent.Scanners.Interface.{
  ScanRequest, ScanResult, ScannerAdapter, AggregatedScanResult,
}
use partha_prime_agent.Scanners.Registry.{ScannerRegistry, register, register_all, resolve_enabled}
use partha_prime_agent.Scanners.Adapters.{built_in, build_default_registry}
use partha_prime_agent.Scanners.Adapters.Provenance.{Stamped, Stamps, built_in-Stamps}
use partha_prime_agent.Scanners.Runner.Machine.{Machine, ScannerRuntimeConfig}
use partha_prime_agent.Scanners.Runner.Scan.{run_scan, selected, names_or}
use partha_prime_agent.Scanners.Runner.Described.{
  IsResultOf, Describes, skipped, reported, unanswered,
}
use partha_prime_agent.Scanners.Runner.Complete.{run_scan_ok-IsAnswered}

module _ {ℓ} (Q : ScannerAdapter → Type ℓ) where
  All-register :
      (a : ScannerAdapter) (registry : ScannerRegistry)
      → Q a
      → All Q registry
      → All Q (register a registry)
  unfolding register
  All-register a [] q all = (q, tt)
  All-register a (b ∷ bs) q all = elim (Bool-cases (b.name == a.name)) [
    | inl same ↦ rw same (q, all.1)
    | inr other ↦ rw other (all.0, All-register a bs q all.1)
  ]

  All-register_all :
      (adapters : List ScannerAdapter) (registry : ScannerRegistry)
      → All Q adapters
      → All Q registry
      → All Q (register_all adapters registry)
  unfolding register_all
  All-register_all [] registry new all = all
  All-register_all (a ∷ adapters) registry new all =
      All-register_all adapters (register a registry) new.1 (All-register a registry new.0 all)

  All-filter :
      (p : ScannerAdapter → Bool) (registry : ScannerRegistry)
      → All Q registry
      → All Q (filter p registry)
  All-filter p [] all = tt
  All-filter p (b ∷ bs) all = elim (Bool-cases (p b)) [
    | inl taken ↦ rw taken (all.0, All-filter p bs all.1)
    | inr left ↦ rw left (All-filter p bs all.1)
  ]

module _ (P : Platform) (H : Host) (request : ScanRequest) where
  -- The findings name the scanner of the result, and have the commit that was scanned.
  abbrev pub IsStamped : ScanResult → Type 0
  IsStamped result = All (Stamped request result.scanner_name) result.findings

  result-IsStamped :
      (adapter : ScannerAdapter) (result : ScanResult)
      → Stamps P H request adapter
      → IsResultOf adapter request result
      → IsStamped result
  result-IsStamped adapter result stamps is =
      subst (λ name. All (Stamped request name) result.findings) (sym is.named) (go is.described)
    where
      go : Describes adapter request result → All (Stamped request adapter.name) result.findings
      go (skipped idle status none) = rw none tt
      go (reported raw code status exit success parsed) = stamps raw result.findings parsed
      go (unanswered message status none told) = rw none tt

  results-IsStamped :
      (adapters : List ScannerAdapter) (results : List ScanResult)
      → All (Stamps P H request) adapters
      → Zip (λ adapter result. IsResultOf adapter request result) adapters results
      → All IsStamped results
  results-IsStamped adapters results stamps nil = tt
  results-IsStamped adapters results stamps (cons a r more rest is zip) =
      (result-IsStamped a r stamps.0 is, results-IsStamped more rest stamps.1 zip)

  module _ {S : Type 0} (M : Machine S) (C : ScannerRuntimeConfig) (ruleset_path : FilePath) where
    selected-Stamps :
        All (Stamps P H request) (selected P M C (build_default_registry P H ruleset_path) request)
    unfolding selected resolve_enabled build_default_registry
    selected-Stamps =
        All-filter (Stamps P H request)
          (λ (a : ScannerAdapter).
            contains (names_or request.enabled_scanners C.enabled_scanners) a.name)
          (register_all (built_in P H ruleset_path) [])
          (All-register_all (Stamps P H request) (built_in P H ruleset_path) []
            (built_in-Stamps P H request ruleset_path) tt)

    -- If a scan with the six built-in adapters returns, then whatever the tools wrote, every
    -- finding of every result names the scanner of that result and has the commit of the request.
    pub run_scan-IsStamped :
        (schedule : List ℕ) (s : S) (scan : AggregatedScanResult)
        → (run_scan P M C (build_default_registry P H ruleset_path) request schedule s).0 ≡ ok scan
        → All IsStamped scan.scan_results
    run_scan-IsStamped schedule s scan returned =
        results-IsStamped _ scan.scan_results selected-Stamps
          (run_scan_ok-IsAnswered P M C (build_default_registry P H ruleset_path) request schedule s
            scan returned).1
