-- ===== src/Orchestration/Stored.antt =====
-- What is stored of a scan whose findings the database takes.
use partha_prime_agent.Prelude.{
  ℕ, String, true, false, Option, List, [], ◌∷◌, ◌++◌, ◌≡◌, refl, sym, ap, ◌∙◌, arith, not, any,
  map, append_assoc,
}
use mathlib.Core.List.{append-nil, map-append}
use partha_prime_agent.Prelude.Result.{ok}
use partha_prime_agent.Enums.{scanner_status_value}
use partha_prime_agent.Json.{ℤ}
use partha_prime_agent.Models.{ScanRun, Finding}
use partha_prime_agent.Database.{
  Database, Session, open_session, with_session, commit, insert_scan_run, insert_finding,
}
use partha_prime_agent.Scanners.Interface.{ScanResult, NormalizedFinding, all_findings}
use partha_prime_agent.Orchestration.Defs.{
  Accepts, persist_findings, persist_results, scan_run_row, finding_row,
}
use partha_prime_agent.Orchestration.Rows.{refused}

-- The columns of a row that say what it is about.
pub record Outline : Type 0 where
  pub run_id : ℕ
  pub scanner_name : String
  pub commit_sha : String
  pub status : String
  pub exit_code : Option ℤ

abbrev pub outline_of : ScanRun → Outline
outline_of r = record {
  run_id = r.workflow_run_id;
  scanner_name = r.scanner_name;
  commit_sha = r.commit_sha;
  status = r.execution_status;
  exit_code = r.exit_code;
}

abbrev pub outline_of_result : ℕ → String → ScanResult → Outline
outline_of_result run_id commit_sha r = record {
  run_id = run_id;
  scanner_name = r.scanner_name;
  commit_sha = commit_sha;
  status = scanner_status_value r.status;
  exit_code = r.exit_code;
}

abbrev pub mark_of : Finding → ℕ × String × String × String
mark_of f = (f.workflow_run_id, f.scanner_name, f.rule_id, f.fingerprint)

abbrev pub mark_of_finding : ℕ → NormalizedFinding → ℕ × String × String × String
mark_of_finding run_id f = (run_id, f.scanner_name, f.rule_id, f.fingerprint)

module _ (accepts : Accepts) (run_id : ℕ) (commit_sha : String) where
  findings-stored :
      (scan_run_id : ℕ) (fs : List NormalizedFinding) (s : Session)
      → any (λ (f : NormalizedFinding). not (accepts.finding f)) fs ≡ false
      → ((persist_findings accepts run_id commit_sha scan_run_id fs s).0 ≡ ok tt)
        × ((persist_findings accepts run_id commit_sha scan_run_id fs s).1.working.scan_runs
            ≡ s.working.scan_runs)
        × (map mark_of
              (persist_findings accepts run_id commit_sha scan_run_id fs s).1.working.findings
            ≡ map mark_of s.working.findings ++ map (mark_of_finding run_id) fs)
  unfolding persist_findings insert_finding finding_row
  findings-stored scan_run_id [] s h = (refl, refl, sym (append-nil _))
  findings-stored scan_run_id (f ∷ fs) s h =
      let taken : accepts.finding f ≡ true = ground arith in
      let rest : any (λ (g : NormalizedFinding). not (accepts.finding g)) fs ≡ false =
        ground arith in
      let t = (insert_finding (finding_row run_id scan_run_id f) s).1 in
      let (done, runs, marks) = findings-stored scan_run_id fs t rest in
      rw taken (
        done,
        runs,
        marks
            ∙ ap (λ l. l ++ map (mark_of_finding run_id) fs)
                (map-append mark_of s.working.findings _)
            ∙ append_assoc (map mark_of s.working.findings) _ _,
      )

  results-stored :
      (rs : List ScanResult) (s : Session)
      → refused accepts run_id commit_sha rs ≡ false
      → ((persist_results accepts run_id commit_sha rs s).0 ≡ ok tt)
        × (map outline_of (persist_results accepts run_id commit_sha rs s).1.committed.scan_runs
            ≡ map outline_of s.working.scan_runs ++ map (outline_of_result run_id commit_sha) rs)
        × (map mark_of (persist_results accepts run_id commit_sha rs s).1.committed.findings
            ≡ map mark_of s.working.findings ++ map (mark_of_finding run_id) (all_findings rs))
  unfolding persist_results commit insert_scan_run scan_run_row
  results-stored [] s h = (refl, sym (append-nil _), sym (append-nil _))
  results-stored (r ∷ rs) s h =
      let row = scan_run_row run_id commit_sha r s.working.next_id in
      let t = (insert_scan_run (scan_run_row run_id commit_sha r) s).1 in
      let run_taken : accepts.scan_run commit_sha r ≡ true = ground arith in
      let here : any (λ (g : NormalizedFinding). not (accepts.finding g)) r.findings ≡ false =
        ground arith in
      let others : refused accepts run_id commit_sha rs ≡ false = ground arith in
      let (done, runs, marks) = findings-stored row.id r.findings t here in
      let u = (persist_findings accepts run_id commit_sha row.id r.findings t).1 in
      let (done', runs', marks') = results-stored rs u others in
      rw (run_taken, done)
        (
          done',
          runs'
              ∙ ap (λ l. map outline_of l ++ map (outline_of_result run_id commit_sha) rs) runs
              ∙ ap (λ l. l ++ map (outline_of_result run_id commit_sha) rs)
                  (map-append outline_of s.working.scan_runs (row ∷ []))
              ∙ append_assoc (map outline_of s.working.scan_runs) _ _,
          marks'
              ∙ ap (λ l. l ++ map (mark_of_finding run_id) (all_findings rs)) marks
              ∙ append_assoc (map mark_of s.working.findings) _ _
              ∙ ap (λ l. map mark_of s.working.findings ++ l)
                  (sym (map-append (mark_of_finding run_id) r.findings (all_findings rs))),
        )

  -- If the database takes the values of every scan run and finding, then the results of a scan are stored as a
  -- whole: behind the rows that were there stands one scan run for each result, in order, with its
  -- scanner, the commit, its status and its exit code, and one finding for each finding of the
  -- results, in order.
  pub persist_results-stored :
      (rs : List ScanResult) (db : Database)
      → refused accepts run_id commit_sha rs ≡ false
      → ((with_session (persist_results accepts run_id commit_sha rs) db).0 ≡ ok tt)
        × (map outline_of
              (with_session (persist_results accepts run_id commit_sha rs) db).1.scan_runs
            ≡ map outline_of db.scan_runs ++ map (outline_of_result run_id commit_sha) rs)
        × (map mark_of (with_session (persist_results accepts run_id commit_sha rs) db).1.findings
            ≡ map mark_of db.findings ++ map (mark_of_finding run_id) (all_findings rs))
  persist_results-stored rs db h = results-stored rs (open_session db) h
