-- ===== src/Orchestration/Rows.antt =====
-- Which rows the orchestration service writes.
use partha_prime_agent.Prelude.{
  ◌||◌, ℕ, String, Bool, true, List, [], ◌∷◌, ◌≡◌, refl, arith, not, any, Bool-cases, inl, inr, ap,
  ◌∙◌, if◌then◌else◌, nat_eq,
}
use partha_prime_agent.Prelude.Result.{Result, ok, Kind, raise}
use partha_prime_agent.Prelude.Exec.{bind_cases}
use partha_prime_agent.Database.{
  Database, Session, open_session, with_session, insert_scan_run, insert_finding,
}
use partha_prime_agent.Scanners.Interface.{ScanResult, NormalizedFinding}
use partha_prime_agent.Orchestration.Defs.{
  Accepts, persist_findings, persist_results, scan_run_row, finding_row,
}

abbrev pub invalid : String
invalid = "invalid input for query argument"

module _ (accepts : Accepts) (run_id : ℕ) (commit_sha : String) where
  -- The database does not take a value of a scan run or of a finding.
  abbrev pub is_turned_down : ScanResult → Bool
  is_turned_down r =
      not (accepts.scan_run commit_sha r)
      || any (λ (f : NormalizedFinding). not (accepts.finding f)) r.findings

  abbrev pub refused : List ScanResult → Bool
  refused = any is_turned_down

  findings-committed :
      (scan_run_id : ℕ) (fs : List NormalizedFinding) (s : Session)
      → (persist_findings accepts run_id commit_sha scan_run_id fs s).1.committed ≡ s.committed
  unfolding persist_findings
  findings-committed scan_run_id [] s = refl
  findings-committed scan_run_id (f ∷ fs) s = elim (Bool-cases (accepts.finding f)) [
    | inl e ↦
        rw e (
          findings-committed scan_run_id fs (insert_finding (finding_row run_id scan_run_id f) s).1)
    | inr e ↦ rw e refl
  ]

  findings-refused :
      (scan_run_id : ℕ) (fs : List NormalizedFinding) (s : Session)
      → (persist_findings accepts run_id commit_sha scan_run_id fs s).0 ≡ (
          if any (λ (f : NormalizedFinding). not (accepts.finding f)) fs
          then raise Kind.database_error invalid
          else ok tt)
  unfolding persist_findings
  findings-refused scan_run_id [] s = refl
  findings-refused scan_run_id (f ∷ fs) s = elim (Bool-cases (accepts.finding f)) [
    | inl e ↦
        rw e
          (findings-refused scan_run_id fs (insert_finding (finding_row run_id scan_run_id f) s).1)
    | inr e ↦ rw e refl
  ]

  pub results-refused :
      (rs : List ScanResult) (s : Session)
      → refused rs ≡ true
      → ((persist_results accepts run_id commit_sha rs s).0 ≡ raise Kind.database_error invalid)
        × ((persist_results accepts run_id commit_sha rs s).1.committed ≡ s.committed)
  unfolding persist_results
  results-refused [] s h = cc
  results-refused (r ∷ rs) s h = elim (Bool-cases (accepts.scan_run commit_sha r)) [
    | inr e0 ↦ rw e0 (refl, refl)
    | inl e0 ↦ rw e0 (
        let row = scan_run_row run_id commit_sha r s.working.next_id in
        let t = (insert_scan_run (scan_run_row run_id commit_sha r) s).1 in
        bind_cases
          (λ (o : Result (Unit {0}) × Session).
            (o.0 ≡ raise Kind.database_error invalid) × (o.1.committed ≡ s.committed))
          (persist_findings accepts run_id commit_sha row.id r.findings) _ t
          (λ a u e.
            let told = findings-refused row.id r.findings t in
            let kept = findings-committed row.id r.findings t in
            let (raised, same) = results-refused rs u (ground arith) in
            let here : u.committed ≡ s.committed =
              cc (ap (λ (o : Result _ × Session). o.1.committed) e, kept) in
            (raised, same ∙ here))
          (λ x u e.
            let told = findings-refused row.id r.findings t in
            let kept = findings-committed row.id r.findings t in
            (ground arith, cc (ap (λ (o : Result _ × Session). o.1.committed) e, kept))))
  ]

  -- If the database refuses a value of one scan run or finding, nothing of the scan is stored: the method
  -- raises, and the database is as before.
  pub persist_results-refused :
      (rs : List ScanResult) (db : Database)
      → refused rs ≡ true
      → with_session (persist_results accepts run_id commit_sha rs) db
        ≡ (raise Kind.database_error invalid, db)
  persist_results-refused rs db h =
      let (raised, same) = results-refused rs (open_session db) h in λ i. (raised i, same i)
