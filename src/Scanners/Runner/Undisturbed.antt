-- ===== src/Scanners/Runner/Undisturbed.antt =====
-- What the machine leaves alone, a scan leaves alone, in whatever order its tasks are woken.
use partha_prime_agent.Prelude.{
  ℕ, String, Bool, true, false, Option, none, some, List, [], ◌∷◌, map, All, contains, length,
}
use partha_prime_agent.Prelude.Result.{Result, ok, err, is_value_error}
use partha_prime_agent.Prelude.Exec.{lift}
use partha_prime_agent.Prelude.Exec.Keeps.{Keeps, Keeps-bind, Keeps-pure, Keeps-lift, Keeps-try}
use partha_prime_agent.Prelude.Task.{◌>>◌, Task, gather, run_task}
use partha_prime_agent.Prelude.Task.Undisturbed.{
  TaskKeeps, stays, moves, TaskKeeps-call, TaskKeeps-if, TaskKeeps-try, TaskKeeps-bind, Keeps-run,
  Keeps-gather,
}
use partha_prime_agent.Enums.{ScannerExecutionStatus}
use partha_prime_agent.Json.{ℤ, Fields, pos, int, str, bool, field, end, int_eq}
use partha_prime_agent.Models.{AuditLog}
use partha_prime_agent.Paths.{FilePath, path_str}
use partha_prime_agent.Platform.{Platform}
use partha_prime_agent.Scanners.Execution.{Env, ResourceLimits, ExecutionOutcome, build_minimal_env}
use partha_prime_agent.Scanners.Interface.{
  ScanRequest, ScanResult, ScannerAdapter, NormalizedFinding,
}
use partha_prime_agent.Scanners.Registry.{ScannerRegistry}
use partha_prime_agent.Scanners.Runner.Machine.{
  Machine, ScannerRuntimeConfig, audit, audit_row, ignore,
}
use partha_prime_agent.Scanners.Runner.One.{
  time, execute, detect_version, audited, ended, parsed, report, executed, judged, launched, scan,
  crashed, run_one,
}
use partha_prime_agent.Scanners.Runner.Scan.{
  build_scan_output_dir, cleanup, remove_if, selected, scan_all, run_scan, aggregate, finally,
}

pub record Undisturbed {S : Type 0} (M : Machine S) (I : S → Type 0) : Type 0 where
  pub mkdir : (p : FilePath) → Keeps I (M.mkdir p)
  pub rmtree : (p : FilePath) (s : S) → I s → I (M.rmtree p s)
  pub write_text : (p : FilePath) (text : String) → Keeps I (M.write_text p text)
  pub now : (s : S) → I s → I (M.now s).1
  pub execute :
      (command : List String) (cwd : FilePath) (env : Env) (limits : ResourceLimits)
      → Keeps I (M.execute command cwd env limits)
  pub write_audit : (row : AuditLog) → Keeps I (M.write_audit row)

module _ {S : Type 0} (P : Platform) (M : Machine S) (C : ScannerRuntimeConfig) (I : S → Type 0)
    (machine : Undisturbed M I) where
  kept-time : TaskKeeps I (time P M C)
  kept-time = moves _ _ machine.now (λ s. stays _)

  kept-execute :
      (command : List String) (cwd : FilePath) (limits : ResourceLimits)
      → TaskKeeps I (execute P M C command cwd limits)
  kept-execute command cwd limits =
      TaskKeeps-call I _ (machine.execute command cwd (build_minimal_env M.environ []) limits)

  Keeps-audit :
      (action : String) (request : ScanRequest) (name : Option String) (extra : Fields)
      → Keeps I (audit P M action request name extra)
  unfolding audit
  Keeps-audit action request name extra =
      Keeps-try I (M.write_audit (audit_row P M action request name extra)) ignore
        (machine.write_audit (audit_row P M action request name extra)) (λ x. Keeps-pure I tt)

  kept-version :
      (adapter : ScannerAdapter) (binary : String) (cwd : FilePath)
      → TaskKeeps I (detect_version P M C adapter binary cwd)
  unfolding detect_version
  kept-version adapter binary cwd =
      TaskKeeps-bind I _ _
        (TaskKeeps-try I _ _ (TaskKeeps-bind I _ _ (kept-execute _ cwd _) (λ outcome. stays _))
          (λ x. stays _))
        (λ outcome. stays _)

  module _ (adapter : ScannerAdapter) (request : ScanRequest) (dir : FilePath) where
    kept-audited :
        (action : String) (extra : Fields)
        → TaskKeeps I (audited P M C adapter request dir action extra)
    kept-audited action extra =
        TaskKeeps-call I _ (Keeps-audit action request (some adapter.name) extra)

    kept-ended :
        (status : ScannerExecutionStatus) (findings : List NormalizedFinding) (code : Option ℤ)
        (started_at : ℕ) (duration : Option ℕ) (version message : Option String)
        → TaskKeeps I (
            ended P M C adapter request dir status findings code started_at duration version
              message)
    kept-ended status findings code started_at duration version message =
        TaskKeeps-bind I _ _ kept-time (λ t. stays _)

    -- An audit, then an ending.
    kept-told :
        (action : String) (extra : Fields) (t : Task S ScanResult)
        → TaskKeeps I t
        → TaskKeeps I (audited P M C adapter request dir action extra >> t)
    kept-told action extra t h =
        TaskKeeps-bind I (audited P M C adapter request dir action extra) (λ _. t)
          (kept-audited action extra) (λ _. h)

    module _ (started_at duration : ℕ) (version : Option String) where
      kept-parsed :
          (code : ℤ) (r : Result (List NormalizedFinding))
          → TaskKeeps I (parsed P M C adapter request dir started_at duration version code r)
      unfolding parsed
      kept-parsed code (ok findings) = kept-told _ _ _ (kept-ended _ _ _ _ _ _ _)
      kept-parsed code (err x) =
          TaskKeeps-if I (is_value_error x.kind) _ _ (kept-told _ _ _ (kept-ended _ _ _ _ _ _ _))
            (stays _)

      kept-report :
          (code : ℤ) (outcome : ExecutionOutcome)
          → TaskKeeps I (report P M C adapter request dir started_at duration version code outcome)
      unfolding report
      kept-report code outcome = TaskKeeps-bind I _ _ (stays _) λ raw.
          TaskKeeps-bind I _ _ (TaskKeeps-call I _ (machine.write_text _ _))
            (λ _. kept-parsed code (adapter.parse_output raw request))

      kept-executed :
          (error : Option String) (code : Option ℤ) (outcome : ExecutionOutcome)
          → TaskKeeps I
              (executed P M C adapter request dir started_at duration version error code outcome)
      unfolding executed
      kept-executed (some error) code outcome = kept-told _ _ _ (kept-ended _ _ _ _ _ _ _)
      kept-executed none none outcome = kept-told _ _ _ (kept-ended _ _ _ _ _ _ _)
      kept-executed none (some code) outcome =
          TaskKeeps-if I (contains adapter.success_exit_codes code) _ _ (kept-report code outcome)
            (kept-told _ _ _ (kept-ended _ _ _ _ _ _ _))

      kept-judged :
          (outcome : ExecutionOutcome)
          → TaskKeeps I (judged P M C adapter request dir started_at duration version outcome)
      unfolding judged
      kept-judged outcome =
          TaskKeeps-if I outcome.timed_out _ _ (kept-told _ _ _ (kept-ended _ _ _ _ _ _ _))
            (kept-executed outcome.error outcome.exit_code outcome)

    kept-launched :
        (started_at : ℕ) (binary : Option String)
        → TaskKeeps I (launched P M C adapter request dir started_at binary)
    unfolding launched
    kept-launched started_at none = kept-told _ _ _ (kept-ended _ _ _ _ _ _ _)
    kept-launched started_at (some binary) = kept-told _ _ _ (
        TaskKeeps-bind I _ _ (kept-version adapter binary request.workspace_path) λ version.
          TaskKeeps-bind I _ _ (kept-execute _ _ _) λ outcome.
            TaskKeeps-bind I _ _ kept-time (λ t. kept-judged started_at _ version outcome))

    kept-scan : (started_at : ℕ) → TaskKeeps I (scan P M C adapter request dir started_at)
    unfolding scan
    kept-scan started_at =
        TaskKeeps-if I (adapter.should_run request) _ _
          (TaskKeeps-bind I _ _ (TaskKeeps-call I _ (record { apply = λ s i. i }))
            (λ binary. kept-launched started_at binary))
          (kept-ended _ _ _ _ _ _ _)

    kept-one : TaskKeeps I (run_one P M C adapter request dir)
    unfolding run_one crashed
    kept-one = TaskKeeps-bind I _ _ kept-time λ started_at.
        TaskKeeps-bind I _ _ (TaskKeeps-call I _ (machine.mkdir _)) λ _.
          TaskKeeps-try I (scan P M C adapter request dir started_at) _ (kept-scan started_at)
            (λ x. kept-told _ _ _ (kept-ended _ _ _ _ _ _ _))

  module _ (request : ScanRequest) where
    Keeps-cleanup : (dir : FilePath) → Keeps I (cleanup P M C dir request)
    unfolding cleanup
    Keeps-cleanup dir = record {
      apply = λ s i.
          (Keeps-audit "cleanup_completed" request none
              (field "existed" (bool (M.exists dir s)) end)).apply
            _ (removed (M.exists dir s) s i);
    }
      where
        removed : (existed : Bool) (s : S) → I s → I (remove_if P M C existed dir s).1
        removed true s i = machine.rmtree dir s i
        removed false s i = i

    module _ (registry : ScannerRegistry) where
      all-kept :
          (adapters : List ScannerAdapter) (dir : FilePath)
          → All (TaskKeeps I) (map (λ adapter. run_one P M C adapter request dir) adapters)
      all-kept [] dir = tt
      all-kept (a ∷ adapters) dir = (kept-one a request dir, all-kept adapters dir)

      Keeps-scan_all :
          (schedule : List ℕ) (dir : FilePath) (started_at : ℕ)
          → Keeps I (scan_all P M C registry request schedule dir started_at)
      unfolding scan_all
      Keeps-scan_all schedule dir started_at =
          Keeps-bind I
            (gather schedule (
              map (λ adapter. run_one P M C adapter request dir) (selected P M C registry request)))
            _ (Keeps-gather I schedule _ (all-kept (selected P M C registry request) dir))
            λ results.
              Keeps-bind I (run_task (time P M C)) _ (Keeps-run I (time P M C) kept-time)
                λ completed_at.
                  let counted = field "scanner_count" (int (pos (length results))) end in
                  Keeps-bind I (audit P M "scan_completed" request none counted) _
                    (Keeps-audit "scan_completed" request none counted)
                    (λ _.
                      Keeps-pure I
                        (aggregate P M C registry request results started_at completed_at))

      Keeps-scanned :
          (schedule : List ℕ) (dir : FilePath) (started_at : ℕ)
          → Keeps I (
              finally
                (scan_all P M C registry request schedule dir started_at)
                (cleanup P M C dir request))
      Keeps-scanned schedule dir started_at = record {
        apply =
            λ s i. (Keeps-cleanup dir).apply _ ((Keeps-scan_all schedule dir started_at).apply s i);
      }

      -- Whatever the machine's operations keep, a scan keeps, however it ends.
      pub Keeps-run_scan : (schedule : List ℕ) → Keeps I (run_scan P M C registry request schedule)
      unfolding run_scan
      Keeps-run_scan schedule =
          Keeps-bind I (run_task (time P M C)) _ (Keeps-run I (time P M C) kept-time) λ started_at.
            Keeps-bind I (lift (build_scan_output_dir P M C request.workflow_run_id)) _
              (Keeps-lift I _)
              λ dir. Keeps-bind I (M.mkdir dir) _ (machine.mkdir dir) λ _.
                let placed = field "output_dir" (str (path_str dir)) end in
                Keeps-bind I (audit P M "scan_started" request none placed)
                  (λ _.
                    finally (scan_all P M C registry request schedule dir started_at)
                      (cleanup P M C dir request))
                  (Keeps-audit "scan_started" request none placed)
                  (λ _. Keeps-scanned schedule dir started_at)
