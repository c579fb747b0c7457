-- ===== src/Scanners/Runner/One.antt =====
-- `_run_one`: one scanner, as a task that others may interrupt.
use Prim.Native.Char.{code}
use partha_prime_agent.Prelude.{
  ℕ, ◌-◌, String, Bool, true, false, Option, none, some, List, [], ◌∷◌, not, ◌||◌, truthy, str_or,
  str_take, nat_eq, contains, length, if◌then◌else◌,
}
use partha_prime_agent.Prelude.Result.{Result, ok, err, Exception, is_value_error}
use partha_prime_agent.Prelude.Task.{Task, done, step, call, return, try_task, ◌>>=◌, ◌>>◌}
use partha_prime_agent.Enums.{ScannerExecutionStatus}
use partha_prime_agent.Json.{ℤ, pos, int, int_eq, str, Fields, field, end}
use partha_prime_agent.Paths.{FilePath, ◌/◌}
use partha_prime_agent.Platform.{Platform}
use partha_prime_agent.Redaction.{sanitize_text}
use partha_prime_agent.Scanners.Execution.{ResourceLimits, ExecutionOutcome, build_minimal_env}
use partha_prime_agent.Scanners.Adapters.Common.{strip}
use partha_prime_agent.Scanners.Interface.{
  ScanRequest, ScanResult, ScannerAdapter, NormalizedFinding,
}
use partha_prime_agent.Scanners.Runner.Machine.{Machine, ScannerRuntimeConfig, audit}

-- `_VERSION_CHECK_LIMITS`
abbrev pub version_check_limits : ResourceLimits
version_check_limits = record {
  timeout_seconds = pos 10;
  cpu_seconds = pos 10;
  memory_mb = pos 256;
  max_processes = pos 16;
  cpu_cores = "1.0";
}

abbrev is_some {ℓ} : {A : Type ℓ} → Option A → Bool
is_some none = false
is_some (some a) = true

abbrev text_or : Option String → String → String
text_or none default = default
text_or (some text) default = str_or text default

-- `text.splitlines()[0]` of a text that is not empty
abbrev is_line_break : ℕ → Bool
is_line_break c = contains (10 ∷ 11 ∷ 12 ∷ 13 ∷ 28 ∷ 29 ∷ 30 ∷ 133 ∷ 8232 ∷ 8233 ∷ []) c

unfoldable pub first_line : String → String
first_line String.[] = ""
first_line (String.◌∷◌ c text) =
    let rest = first_line text in if is_line_break (code c) then "" else String.◌∷◌ c rest

module _ {S : Type 0} (P : Platform) (M : Machine S) (C : ScannerRuntimeConfig) where
  abbrev pub time : Task S ℕ
  time = step (λ s. (M.now s).1) (λ s. return (M.now s).0)

  abbrev pub execute : List String → FilePath → ResourceLimits → Task S ExecutionOutcome
  execute command cwd limits = call (M.execute command cwd (build_minimal_env M.environ []) limits)

  abbrev detected : ExecutionOutcome → Option String
  detected outcome =
      let text = strip outcome.stdout in
      if outcome.timed_out || (is_some outcome.error || not (truthy text))
      then none
      else some (str_take 200 (sanitize_text P.is_word (first_line text)))

  abbrev found_version : Option ExecutionOutcome → Option String
  found_version none = none
  found_version (some outcome) = detected outcome

  -- What the check of the version raises while it runs is dropped.
  unfoldable pub detect_version : ScannerAdapter → String → FilePath → Task S (Option String)
  unfolding try_task strip first_line
  detect_version adapter binary_path cwd = do
    outcome ←
        try_task
          ((execute (binary_path ∷ adapter.version_args) cwd version_check_limits) >>= λ outcome.
            return (some outcome))
          (λ x. return none)
    return (found_version outcome)

  module _ (adapter : ScannerAdapter) (request : ScanRequest) (output_dir : FilePath) where
    abbrev pub scanner_output_dir : FilePath
    scanner_output_dir = output_dir / adapter.name

    abbrev pub audited : String → Fields → Task S (Unit {0})
    audited action extra = call (audit P M action request (some adapter.name) extra)

    -- A result that is returned now.
    abbrev pub ended :
        ScannerExecutionStatus
        → List NormalizedFinding
        → Option ℤ
        → ℕ
        → Option ℕ
        → Option String
        → Option String
        → Task S ScanResult
    ended status findings exit_code started_at duration tool_version error_message = do
      completed_at ← time
      return (record {
        scanner_name = adapter.name;
        status = status;
        findings = findings;
        exit_code = exit_code;
        started_at = some started_at;
        completed_at = some completed_at;
        duration_seconds = duration;
        tool_version = tool_version;
        error_message = error_message;
      })

    -- The endings behind an execution that started at `started_at` and took `duration`.
    module _ (started_at duration : ℕ) (tool_version : Option String) where
      -- `except ValueError` around `parse_output`; what else it raises goes on.
      unfoldable pub parsed : ℤ → Result (List NormalizedFinding) → Task S ScanResult
      parsed exit_code (ok findings) = do
        audited "scanner_completed" (field "finding_count" (int (pos (length findings))) end)
        ended ScannerExecutionStatus.completed findings (some exit_code) started_at (some duration)
            tool_version none
      parsed exit_code (err x) =
          if is_value_error x.kind
          then (do
            audited "scanner_failed" (field "reason" (str "malformed_output") end)
            ended ScannerExecutionStatus.inconclusive [] (some exit_code) started_at (some duration)
                tool_version (some (sanitize_text P.is_word x.message)))
          else done (err x)

      unfoldable pub report : ℤ → ExecutionOutcome → Task S ScanResult
      unfolding parsed
      report exit_code outcome = do
        raw_output ← done (adapter.read_output outcome.stdout scanner_output_dir)
        call (
            M.write_text (scanner_output_dir / "raw_output.txt")
              (sanitize_text P.is_word raw_output))
        parsed exit_code (adapter.parse_output raw_output request)

      -- `outcome.error is not None or outcome.exit_code is None`
      abbrev not_executed : Option String → Option ℤ → Task S ScanResult
      not_executed error exit_code = do
        let error_message = sanitize_text P.is_word (text_or error "execution_failed")
        audited "scanner_failed" (field "error" (str error_message) end)
        ended ScannerExecutionStatus.failed [] exit_code started_at (some duration) tool_version
            (some error_message)

      abbrev refused : ℤ → ExecutionOutcome → Task S ScanResult
      refused exit_code outcome = do
        let error_message = str_take 2000 (sanitize_text P.is_word outcome.stderr)
        audited "scanner_failed" (field "exit_code" (int exit_code) end)
        ended ScannerExecutionStatus.failed [] (some exit_code) started_at (some duration)
            tool_version (some error_message)

      unfoldable pub executed : Option String → Option ℤ → ExecutionOutcome → Task S ScanResult
      unfolding report
      executed (some error) exit_code outcome = not_executed (some error) exit_code
      executed none none outcome = not_executed none none
      executed none (some exit_code) outcome =
          if contains adapter.success_exit_codes exit_code
          then report exit_code outcome
          else refused exit_code outcome

      unfoldable pub judged : ExecutionOutcome → Task S ScanResult
      unfolding executed
      judged outcome =
          if outcome.timed_out
          then (do
            audited "scanner_timeout" end
            ended ScannerExecutionStatus.timeout [] none started_at (some duration) tool_version
                (some "scanner_timed_out"))
          else executed outcome.error outcome.exit_code outcome

    unfoldable pub launched : ℕ → Option String → Task S ScanResult
    unfolding detect_version judged
    launched started_at none = do
      audited "scanner_failed" (field "reason" (str "tool_not_available") end)
      ended ScannerExecutionStatus.failed [] none started_at none none (some "tool_not_available")
    launched started_at (some binary_path) = do
      audited "scanner_started" end
      tool_version ← detect_version adapter binary_path request.workspace_path
      outcome ←
          execute (adapter.build_command request binary_path scanner_output_dir)
            request.workspace_path C.limits
      finished_at ← time
      judged started_at (finished_at - started_at) tool_version outcome

    -- The body of the `try`, and its handler.
    unfoldable pub scan : ℕ → Task S ScanResult
    unfolding launched
    scan started_at =
        if adapter.should_run request
        then (do
          binary_path ← call (λ s. (ok (M.which adapter.binary_name s), s))
          launched started_at binary_path)
        else ended ScannerExecutionStatus.completed [] none started_at (some 0) none none

    unfoldable pub crashed : ℕ → Exception → Task S ScanResult
    crashed started_at x = do
      audited "scanner_failed" (field "error_type" (str (M.kind_name x.kind)) end)
      ended ScannerExecutionStatus.failed [] none started_at none none
          (some (sanitize_text P.is_word x.message))

    unfoldable pub run_one : Task S ScanResult
    unfolding scan crashed
    run_one = do
      started_at ← time
      call (M.mkdir scanner_output_dir)
      try_task (scan started_at) (crashed started_at)
