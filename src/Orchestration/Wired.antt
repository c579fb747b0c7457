-- ===== src/Orchestration/Wired.antt =====
-- `ScanOrchestrationService.__init__` without arguments: the workspace service, the runner and the
-- audit writer behind the interface.
use partha_prime_agent.Prelude.{ℕ, String, false, List, [], ◌∷◌, ◌++◌, ◌≡◌, refl, sym, ap, ◌∙◌, map}
use mathlib.Core.List.{map-append, map-map}
use partha_prime_agent.Prelude.Result.{Result, ok, err}
use partha_prime_agent.Prelude.Exec.{Exec}
use partha_prime_agent.Prelude.Task.Gather.{Zip, nil, cons}
use partha_prime_agent.Platform.{Platform}
use partha_prime_agent.Models.{AuditLog, ScanRun}
use partha_prime_agent.Database.{Database, with_session}
use partha_prime_agent.Database.AuditWriter.{record_row}
use partha_prime_agent.Scanners.Interface.{
  ScanRequest, ScanResult, ScannerAdapter, AggregatedScanResult, all_findings,
}
use partha_prime_agent.Scanners.Registry.{ScannerRegistry}
use partha_prime_agent.Scanners.Runner.Machine as Runner
use partha_prime_agent.Scanners.Runner.Scan.{run_scan, selected}
use partha_prime_agent.Scanners.Runner.Described.{IsResultOf}
use partha_prime_agent.Scanners.Runner.Complete.{run_scan_ok-IsAnswered}
use partha_prime_agent.Workspace.State as Workspace
use partha_prime_agent.Workspace.Lifecycle.{Prepared, prepare_workspace, mark_processing_complete}
use partha_prime_agent.Orchestration.Defs.{Accepts, Shared, Services, persist_results}
use partha_prime_agent.Orchestration.Rows.{refused}
use partha_prime_agent.Orchestration.Stored.{
  Outline, outline_of, outline_of_result, mark_of, mark_of_finding, persist_results-stored,
}

-- `workspace_result["workspace_path"]`
abbrev pub place_of : Result Prepared → Result String
place_of (ok prepared) = ok prepared.workspace_path
place_of (err x) = err x

-- The scanner and the commit of a row, of an outline, and of a result.
abbrev pub label_of : ScanRun → String × String
label_of r = (r.scanner_name, r.commit_sha)

abbrev label_of_outline : Outline → String × String
label_of_outline o = (o.scanner_name, o.commit_sha)

abbrev pub label_of_adapter : String → ScannerAdapter → String × String
label_of_adapter commit_sha a = (a.name, commit_sha)

abbrev label_of_result : String → ScanResult → String × String
label_of_result commit_sha r = (r.scanner_name, commit_sha)

labels-Zip :
    (request : ScanRequest) (commit_sha : String) (adapters : List ScannerAdapter)
    (results : List ScanResult)
    → Zip (λ adapter result. IsResultOf adapter request result) adapters results
    → map (label_of_result commit_sha) results ≡ map (label_of_adapter commit_sha) adapters
labels-Zip request commit_sha adapters results nil = refl
labels-Zip request commit_sha adapters results (cons a r more rest is zip) =
    ap (λ name. (name, commit_sha) ∷ map (label_of_result commit_sha) rest) is.named
    ∙ ap (λ labels. (a.name, commit_sha) ∷ labels) (labels-Zip request commit_sha more rest zip)

labels-stored :
    (run_id : ℕ) (commit_sha : String) (old new : List ScanRun) (rs : List ScanResult)
    → map outline_of new ≡ map outline_of old ++ map (outline_of_result run_id commit_sha) rs
    → map label_of new ≡ map label_of old ++ map (label_of_result commit_sha) rs
labels-stored run_id commit_sha old new rs e =
    sym (map-map label_of_outline outline_of new)
    ∙ ap (map label_of_outline) e
    ∙ map-append label_of_outline (map outline_of old) _
    ∙ ap (λ l. l ++ map label_of_outline (map (outline_of_result run_id commit_sha) rs))
        (map-map label_of_outline outline_of old)
    ∙ ap (λ l. map label_of old ++ l)
        (map-map label_of_outline (outline_of_result run_id commit_sha) rs)

module _ {E : Type 0} (P : Platform) (W : Workspace.Machine (Shared E))
    (settings : Workspace.Config) (M : Runner.Machine (Shared E))
    (config : Runner.ScannerRuntimeConfig) (registry : ScannerRegistry)
    (schedule : ScanRequest → List ℕ) where
  -- The workspace service at work on what is shared.
  abbrev pub at_work : {A : Type 0} → Exec (Workspace.World (Shared E)) A → Exec (Shared E) A
  at_work m s =
      let r = m (record { outside = s; commands = []; sleeps = []; history = [] }) in
      (r.0, r.1.outside)

  -- The one audit writer, whichever the machines had.
  unfoldable pub audit_service : AuditLog → Exec (Shared E) (Unit {0})
  unfolding record_row
  audit_service row s =
      let r = record_row row s.db in (r.0, record { db = r.1; outside = s.outside })

  abbrev pub audited_runner : Runner.Machine (Shared E)
  audited_runner = record M { write_audit = audit_service }

  abbrev pub audited_workspaces : Workspace.Machine (Shared E)
  audited_workspaces = record W { write_audit = audit_service }

  unfoldable pub default_services : Services E
  unfolding prepare_workspace mark_processing_complete run_scan audit_service
  default_services = record {
    prepare_workspace = λ provider event run_id s.
        let r = at_work (prepare_workspace P audited_workspaces settings provider event run_id) s in
        (place_of r.0, r.1);
    mark_processing_complete = λ workspace_path.
        at_work (mark_processing_complete P audited_workspaces settings workspace_path);
    run_scan = λ request. run_scan P audited_runner config registry request (schedule request);
    write_audit = audit_service;
  }

  -- If a scan by the default services returns and the database takes its scan runs and findings, then behind the
  -- rows that were there the orchestration stores one scan run for each adapter that is selected
  -- for the request, in the order of the registry, under its name and with the commit of the
  -- request, and all findings of the scan, in order.
  pub scan-stored :
      (accepts : Accepts) (run_id : ℕ) (request : ScanRequest) (s : Shared E)
      (scan : AggregatedScanResult) (db : Database)
      → (default_services.run_scan request s).0 ≡ ok scan
      → refused accepts run_id scan.commit_sha scan.scan_results ≡ false
      → ((with_session (persist_results accepts run_id scan.commit_sha scan.scan_results) db).0
          ≡ ok tt)
        × (map label_of
              (with_session
                (persist_results accepts run_id scan.commit_sha scan.scan_results)
                db).1.scan_runs
            ≡ map label_of db.scan_runs
              ++ map
                  (label_of_adapter request.commit_sha)
                  (selected P audited_runner config registry request))
        × (map mark_of
              (with_session
                (persist_results accepts run_id scan.commit_sha scan.scan_results)
                db).1.findings
            ≡ map mark_of db.findings
              ++ map (mark_of_finding run_id) (all_findings scan.scan_results))
  unfolding default_services
  scan-stored accepts run_id request s scan db returned taken =
      let adapters = selected P audited_runner config registry request in
      let (same, zip) =
        run_scan_ok-IsAnswered P audited_runner config registry request (schedule request) s scan
          returned in
      let (done, runs, marks) =
        persist_results-stored accepts run_id scan.commit_sha scan.scan_results db taken in
      (
        done,
        labels-stored run_id scan.commit_sha db.scan_runs _ scan.scan_results runs
            ∙ ap (λ l. map label_of db.scan_runs ++ l)
                (labels-Zip request scan.commit_sha adapters scan.scan_results zip)
            ∙ ap (λ sha. map label_of db.scan_runs ++ map (label_of_adapter sha) adapters) same,
        marks,
      )
