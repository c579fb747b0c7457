-- ===== src/Scanners/Runner/Scan.antt =====
-- `run_scan`: the directory, the tasks, and the removal at the end.
use partha_prime_agent.Prelude.{
  ℕ, String, Bool, Option, none, some, List, [], ◌∷◌, map, not, ◌||◌, truthy, length, if◌then◌else◌,
}
use partha_prime_agent.Prelude.Result.{Result, ok, err, Kind, raise}
use partha_prime_agent.Prelude.Exec.{Exec, pure, lift, ◌>>=◌, ◌>>◌}
use partha_prime_agent.Prelude.Task.{run_task, gather}
use partha_prime_agent.Json.{pos, int, str, bool, field, end}
use partha_prime_agent.Paths.{FilePath, path_str, ◌/◌}
use partha_prime_agent.Platform.{Platform}
use partha_prime_agent.Scanners.Interface.{
  ScanRequest, ScanResult, ScannerAdapter, AggregatedScanResult,
}
use partha_prime_agent.Scanners.Registry.{ScannerRegistry, resolve_enabled}
use partha_prime_agent.Scanners.Runner.Machine.{Machine, ScannerRuntimeConfig, audit}
use partha_prime_agent.Scanners.Runner.One.{time, run_one}
use partha_prime_agent.Workspace.Names.{is_safe_name, is_above}

-- `request.enabled_scanners or self.config.enabled_scanners`
abbrev pub names_or : Option (List String) → List String → List String
names_or none default = default
names_or (some []) default = default
names_or (some (name ∷ names)) default = name ∷ names

-- `try: m; finally: last`: what `last` raises replaces how m ended.
abbrev pub finally_raised {ℓ} : {A : Type ℓ} → Result A → Result (Unit {0}) → Result A
finally_raised r (ok done) = r
finally_raised r (err x) = err x

module _ {S : Type 0} where
  abbrev pub finally {ℓ} : {A : Type ℓ} → Exec S A → Exec S (Unit {0}) → Exec S A
  finally m last s =
      let first = m s in let second = last first.1 in (finally_raised first.0 second.0, second.1)

module _ {S : Type 0} (P : Platform) (M : Machine S) (C : ScannerRuntimeConfig) where
  unfoldable pub build_scan_output_dir : String → Result FilePath
  unfolding is_safe_name is_above
  build_scan_output_dir workflow_run_id =
      if not (truthy workflow_run_id) || not (is_safe_name workflow_run_id)
      then raise Kind.value_error "invalid_workflow_run_id"
      else (let resolved = M.resolve (C.output_root / workflow_run_id) in
          if is_above (M.resolve C.output_root) resolved
          then ok resolved
          else raise Kind.value_error "scanner_output_path_escapes_root")

  abbrev pub remove_if : Bool → FilePath → Exec S (Unit {0})
  remove_if existed output_dir s = if existed then (ok tt, M.rmtree output_dir s) else (ok tt, s)

  -- `_cleanup`
  unfoldable pub cleanup : FilePath → ScanRequest → Exec S (Unit {0})
  unfolding audit
  cleanup output_dir request s =
      let existed = M.exists output_dir s in
      let removed = remove_if existed output_dir s in
      audit P M "cleanup_completed" request none (field "existed" (bool existed) end) removed.1

  module _ (registry : ScannerRegistry) (request : ScanRequest) where
    unfoldable pub selected : List ScannerAdapter
    unfolding resolve_enabled
    selected =
        resolve_enabled (some (names_or request.enabled_scanners C.enabled_scanners)) registry

    abbrev pub aggregate : List ScanResult → ℕ → ℕ → AggregatedScanResult
    aggregate results started_at completed_at = record {
      workflow_run_id = request.workflow_run_id;
      commit_sha = request.commit_sha;
      scan_results = results;
      started_at = started_at;
      completed_at = completed_at;
    }

    -- The body of the `try`.
    unfoldable pub scan_all : List ℕ → FilePath → ℕ → Exec S AggregatedScanResult
    unfolding gather selected run_one audit
    scan_all schedule output_dir started_at = do
      results ← gather schedule (map (λ adapter. run_one P M C adapter request output_dir) selected)
      completed_at ← run_task (time P M C)
      audit P M "scan_completed" request none
          (field "scanner_count" (int (pos (length results))) end)
      pure (aggregate results started_at completed_at)

    -- `run_scan`; the schedule is the order in which the tasks are woken.
    unfoldable pub run_scan : List ℕ → Exec S AggregatedScanResult
    unfolding run_task build_scan_output_dir scan_all cleanup
    run_scan schedule = do
      started_at ← run_task (time P M C)
      output_dir ← lift (build_scan_output_dir request.workflow_run_id)
      M.mkdir output_dir
      audit P M "scan_started" request none (field "output_dir" (str (path_str output_dir)) end)
      finally (scan_all schedule output_dir started_at) (cleanup output_dir request)
