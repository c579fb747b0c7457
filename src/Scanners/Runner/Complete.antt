-- ===== src/Scanners/Runner/Complete.antt =====
-- What a whole scan returns and leaves behind.
use partha_prime_agent.Prelude.{
  ℕ, String, false, Option, none, List, [], ◌∷◌, ◌≡◌, refl, ap, ◌∙◌, subst, map, Bool-cases, inl,
  inr,
}
use partha_prime_agent.Prelude.Result.{Result, ok, err, Exception}
use partha_prime_agent.Prelude.Exec.{bind_cases, bind_ok, recover, lift}
use partha_prime_agent.Prelude.Task.{gather}
use partha_prime_agent.Prelude.Task.Gather.{
  Outcome, good, bad, good_of, bad_of, Zip, nil, cons, Tasks, gather-Outcome,
}
use partha_prime_agent.Json.{Fields, field, end, str}
use partha_prime_agent.Models.{AuditLog}
use partha_prime_agent.Paths.{FilePath, path_str}
use partha_prime_agent.Platform.{Platform}
use partha_prime_agent.Scanners.Interface.{
  ScanRequest, ScanResult, ScannerAdapter, AggregatedScanResult,
}
use partha_prime_agent.Scanners.Registry.{ScannerRegistry}
use partha_prime_agent.Scanners.Runner.Machine.{
  Machine, ScannerRuntimeConfig, audit, audit_row, ignore,
}
use partha_prime_agent.Scanners.Runner.One.{run_one}
use partha_prime_agent.Scanners.Runner.Scan.{
  build_scan_output_dir, cleanup, selected, scan_all, run_scan, finally, finally_raised,
}
use partha_prime_agent.Scanners.Runner.Described.{IsResultOf, Unmade, run_one-IsResultOf}

module _ {S : Type 0} (P : Platform) (M : Machine S) (C : ScannerRuntimeConfig) where
  recover-ignore :
      (r : Result (Unit {0})) (s : S)
      → recover r (λ (x : Exception). ignore {S = S} x) s ≡ (ok tt, s)
  recover-ignore (ok tt) s = refl
  recover-ignore (err x) s = refl

  -- An audit never raises.
  audit-ok :
      (action : String) (request : ScanRequest) (scanner_name : Option String) (extra : Fields)
      (s : S)
      → audit P M action request scanner_name extra s
        ≡ (ok tt, (M.write_audit (audit_row P M action request scanner_name extra) s).1)
  unfolding audit
  audit-ok action request scanner_name extra s = recover-ignore _ _

  finally_raised-ok :
      {A : Type 0} (r : Result A) (s : S) (dir : FilePath) (request : ScanRequest)
      → finally_raised r (cleanup P M C dir request s).0 ≡ r
  unfolding cleanup
  finally_raised-ok r s dir request = rw audit-ok refl

  module _ (registry : ScannerRegistry) (request : ScanRequest) where
    Tasks-map :
        (output_dir : FilePath) (adapters : List ScannerAdapter)
        → Tasks
            (λ adapter result. IsResultOf adapter request result)
            (Unmade M)
            adapters
            (map (λ adapter. run_one P M C adapter request output_dir) adapters)
    Tasks-map output_dir [] = nil
    Tasks-map output_dir (a ∷ more) =
        cons _ _ _ _ (run_one-IsResultOf P M C a request output_dir) (Tasks-map output_dir more)

    -- One result for every selected adapter, in the order of the registry.
    abbrev pub IsAnswered : AggregatedScanResult → Type 0
    IsAnswered scan =
        (scan.commit_sha ≡ request.commit_sha)
        × Zip (λ adapter result. IsResultOf adapter request result)
            (selected P M C registry request) scan.scan_results

    scan_all-IsAnswered :
        (schedule : List ℕ) (dir : FilePath) (started : ℕ) (s : S)
        → Outcome IsAnswered (Unmade M) (scan_all P M C registry request schedule dir started s).0
    unfolding scan_all
    scan_all-IsAnswered schedule dir started s =
        let gathered =
          gather-Outcome (λ adapter result. IsResultOf adapter request result) (Unmade M) schedule
            (selected P M C registry request) _ s
            (Tasks-map dir (selected P M C registry request)) in
        bind_cases (λ o. Outcome IsAnswered (Unmade M) o.0) (gather schedule _) _ s
          (λ results u e. rw audit-ok (
            good _ (
              refl,
              good_of (
                  subst
                    (λ (o : Result (List ScanResult) × S).
                      Outcome
                        (Zip (λ adapter result. IsResultOf adapter request result)
                          (selected P M C registry request))
                        (Unmade M) o.0)
                    e gathered),
            )))
          (λ x u e. bad x (
            bad_of (
              subst
                (λ (o : Result (List ScanResult) × S).
                  Outcome
                    (Zip (λ adapter result. IsResultOf adapter request result)
                      (selected P M C registry request))
                    (Unmade M) o.0)
                e gathered)))

    -- A scan with a place and a directory there comes to its `try`.
    pub run_scan-finally :
        (schedule : List ℕ) (dir : FilePath) (s : S)
        → build_scan_output_dir P M C request.workflow_run_id ≡ ok dir
        → (M.mkdir dir (M.now s).1).0 ≡ ok tt
        → (n : ℕ) × (u : S) × (run_scan P M C registry request schedule s
            ≡ finally
                (scan_all P M C registry request schedule dir n)
                (cleanup P M C dir request)
                u)
    unfolding run_scan
    run_scan-finally schedule dir s place made = (
      (M.now s).0,
      (M.write_audit
          (audit_row P M "scan_started" request none (field "output_dir" (str (path_str dir)) end))
          (M.mkdir dir (M.now s).1).1).1,
      rw (place, made, audit-ok) refl,
    )

    found :
        ((d : FilePath) (t : S) → (M.mkdir d t).0 ≡ ok tt)
        → (r : Result AggregatedScanResult) → Outcome IsAnswered (Unmade M) r
        → (scan : AggregatedScanResult) × (r ≡ ok scan) × IsAnswered scan
    found makes r (good scan answered) = (scan, refl, answered)
    found makes r (bad x (d, t, e)) = let never = makes d t in cc

    raised_nothing :
        (r : Result AggregatedScanResult) (q : Result (Unit {0})) (scan : AggregatedScanResult)
        → finally_raised r q ≡ ok scan
        → r ≡ ok scan
    raised_nothing r (ok done) scan h = h
    raised_nothing r (err x) scan h = cc

    -- What `run_scan` returns is complete.
    pub run_scan_ok-IsAnswered :
        (schedule : List ℕ) (s : S) (scan : AggregatedScanResult)
        → (run_scan P M C registry request schedule s).0 ≡ ok scan
        → IsAnswered scan
    unfolding run_scan
    run_scan_ok-IsAnswered schedule s scan returned =
        bind_ok (lift (build_scan_output_dir P M C request.workflow_run_id)) _ (M.now s).1
          (λ i. (returned i, (run_scan P M C registry request schedule s).1))
          λ dir s2 _ h2. bind_ok (M.mkdir dir) _ s2 h2 λ _ s3 _ h3.
            bind_ok
              (audit P M "scan_started" request none (field "output_dir" (str (path_str dir)) end))
              _ s3 h3
              λ _ u _ h4.
                let ended = scan_all-IsAnswered schedule dir (M.now s).0 u in
                let same =
                  raised_nothing _ _ scan (ap (λ (o : Result AggregatedScanResult × S). o.0) h4) in
                good_of (subst (Outcome IsAnswered (Unmade M)) same ended)

    -- If the output directory has a place and no directory fails to be made, then `run_scan`
    -- returns, for every order in which the scanners are woken, with one result for each of the selected adapters, in the order of the registry: whatever a tool does, it
    -- stops no other.
    pub run_scan-IsAnswered :
        (schedule : List ℕ) (dir : FilePath) (s : S)
        → build_scan_output_dir P M C request.workflow_run_id ≡ ok dir
        → ((d : FilePath) (t : S) → (M.mkdir d t).0 ≡ ok tt)
        → (scan : AggregatedScanResult) × ((run_scan P M C registry request schedule s).0 ≡ ok scan)
          × IsAnswered scan
    run_scan-IsAnswered schedule dir s place makes =
        let (n, u, same) = run_scan-finally schedule dir s place (makes dir (M.now s).1) in
        rw (same, finally_raised-ok) (found makes _ (scan_all-IsAnswered schedule dir n u))

  module _ (removes : (p : FilePath) (s : S) → M.exists p (M.rmtree p s) ≡ false)
      (audits : (p : FilePath) (row : AuditLog) (s : S)
        → M.exists p (M.write_audit row s).1 ≡ M.exists p s) where
    cleanup-gone :
        (dir : FilePath) (request : ScanRequest) (s : S)
        → M.exists dir (cleanup P M C dir request s).1 ≡ false
    unfolding cleanup
    cleanup-gone dir request s = elim (Bool-cases (M.exists dir s)) [
      | inl there ↦ rw there (
          ap (λ (o : Result (Unit {0}) × S). M.exists dir o.1) (recover-ignore _ _)
          ∙ audits dir _ _
          ∙ removes dir s)
      | inr gone ↦ rw gone (
          ap (λ (o : Result (Unit {0}) × S). M.exists dir o.1) (recover-ignore _ _)
          ∙ audits dir _ _
          ∙ gone)
    ]

    -- Once its output directory is made, a scan leaves none, however it ends and in whatever order
    -- the scanners are woken. It is assumed that removing a tree succeeds, and that auditing
    -- neither creates nor removes a path.
    pub run_scan-gone :
        (registry : ScannerRegistry) (request : ScanRequest) (schedule : List ℕ) (dir : FilePath)
        (s : S)
        → build_scan_output_dir P M C request.workflow_run_id ≡ ok dir
        → (M.mkdir dir (M.now s).1).0 ≡ ok tt
        → M.exists dir (run_scan P M C registry request schedule s).1 ≡ false
    run_scan-gone registry request schedule dir s place made =
        let (n, u, same) = run_scan-finally registry request schedule dir s place made in
        rw same (cleanup-gone dir request _)
