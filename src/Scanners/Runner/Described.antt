-- ===== src/Scanners/Runner/Described.antt =====
-- The results that a scanner can have.
use partha_prime_agent.Prelude.{
  ℕ, String, true, false, Option, none, some, List, [], ◌≡◌, refl, contains, Bool-cases, inl, inr,
}
use partha_prime_agent.Prelude.Result.{Result, ok, err, Exception, is_value_error}
use partha_prime_agent.Prelude.Task.{Task, done, call, bind_task}
use partha_prime_agent.Prelude.Task.Ends.{
  Ends, at_once, later, Ends-bind, Ends-try, Ends-call, Ends-if, Ends-Unit,
}
use partha_prime_agent.Prelude.Task.Gather.{Outcome, good, bad, good_of, bad_of, outcome_of}
use partha_prime_agent.Enums.{ScannerExecutionStatus}
use partha_prime_agent.Json.{ℤ, int_eq, Fields}
use partha_prime_agent.Paths.{FilePath, ◌/◌}
use partha_prime_agent.Platform.{Platform}
use partha_prime_agent.Scanners.Execution.{ExecutionOutcome}
use partha_prime_agent.Scanners.Interface.{
  ScanRequest, ScanResult, ScannerAdapter, NormalizedFinding,
}
use partha_prime_agent.Scanners.Runner.Machine.{Machine, ScannerRuntimeConfig, audit, ignore}
use partha_prime_agent.Prelude.Exec.{recover}
use partha_prime_agent.Scanners.Runner.One.{
  scan, run_one, crashed, launched, judged, executed, report, parsed, time, execute, detect_version,
  audited, ended,
}

-- The status of a scanner that gave no answer.
pub data Without : ScannerExecutionStatus → Type 0 where
  failed : Without ScannerExecutionStatus.failed
  timeout : Without ScannerExecutionStatus.timeout
  inconclusive : Without ScannerExecutionStatus.inconclusive

-- A result of an adapter: there was nothing to do; or the tool ended with an exit code that the
-- adapter takes for success and the findings are what the adapter read in its report; or there
-- are no findings, the status says why, and there is a message.
pub data Describes (adapter : ScannerAdapter) (request : ScanRequest) (result : ScanResult)
    : Type 0 where
  skipped :
      adapter.should_run request ≡ false
      → result.status ≡ ScannerExecutionStatus.completed
      → result.findings ≡ []
      → Describes adapter request result
  reported :
      (raw_output : String) (exit_code : ℤ)
      → result.status ≡ ScannerExecutionStatus.completed
      → result.exit_code ≡ some exit_code
      → contains adapter.success_exit_codes exit_code ≡ true
      → adapter.parse_output raw_output request ≡ ok result.findings
      → Describes adapter request result
  unanswered :
      (message : String)
      → Without result.status
      → result.findings ≡ []
      → result.error_message ≡ some message
      → Describes adapter request result

pub record IsResultOf (adapter : ScannerAdapter) (request : ScanRequest) (result : ScanResult)
    : Type 0 where
  pub named : result.scanner_name ≡ adapter.name
  pub described : Describes adapter request result

-- An exception that is raised when a directory is made.
abbrev pub Unmade : {S : Type 0} → Machine S → Exception → Type 0
Unmade {S = S} M x = (dir : FilePath) × (s : S) × ((M.mkdir dir s).0 ≡ err x)

module _ {S : Type 0} (P : Platform) (M : Machine S) (C : ScannerRuntimeConfig)
    (adapter : ScannerAdapter) (request : ScanRequest) (output_dir : FilePath) where
  abbrev Free : Result ScanResult → Type 0
  Free = Outcome (IsResultOf adapter request) (λ x. Unit {0})

  -- Some call, whatever comes of it, then the rest.
  after :
      {A : Type 0} (t : Task S A) (f : A → Task S ScanResult)
      → ((a : A) → Ends Free (f a))
      → Ends Free (bind_task t f)
  after t f rest = Ends-bind (λ r. Unit {0}) Free t f (Ends-Unit t) (λ x u. bad x u) (λ a u. rest a)

  -- The clock is read, then the rest.
  timed :
      (Q : Result ScanResult → Type 0) (f : ℕ → Task S ScanResult)
      → ((n : ℕ) → Ends Q (f n))
      → Ends Q (bind_task (time P M C) f)
  unfolding bind_task
  timed Q f rest = later _ _ (λ s. rest (M.now s).0)

  -- A result without findings.
  unanswered_ends :
      (Bad : Exception → Type 0) (status : ScannerExecutionStatus) (code : Option ℤ) (started : ℕ)
      (duration : Option ℕ) (version : Option String) (message : String)
      → Without status
      → Ends (Outcome (IsResultOf adapter request) Bad) (
          ended P M C adapter request output_dir status [] code started duration version
            (some message))
  unanswered_ends Bad status code started duration version message h =
      timed (Outcome (IsResultOf adapter request) Bad) _ λ completed.
        at_once _ (good _ (record { named = refl; described = unanswered message h refl refl }))

  parsed-Free :
      (started duration : ℕ) (version : Option String) (code : ℤ) (raw : String)
      (r : Result (List NormalizedFinding))
      → contains adapter.success_exit_codes code ≡ true
      → adapter.parse_output raw request ≡ r
      → Ends Free (parsed P M C adapter request output_dir started duration version code r)
  unfolding parsed
  parsed-Free started duration version code raw (ok findings) success e =
      after (audited P M C adapter request output_dir _ _) _ λ _. timed Free _ λ completed.
        at_once _
          (good _ (record { named = refl; described = reported raw code refl refl success e }))
  parsed-Free started duration version code raw (err x) success e =
      elim (Bool-cases (is_value_error x.kind)) [
        | inl malformed ↦ rw malformed (
            after (audited P M C adapter request output_dir _ _) _
              λ _. unanswered_ends (λ x. Unit {0}) _ _ started _ version _ inconclusive)
        | inr other ↦ rw other (at_once _ (bad x tt))
      ]

  executed-Free :
      (started duration : ℕ) (version error : Option String) (code : Option ℤ)
      (outcome : ExecutionOutcome)
      → Ends Free
          (executed P M C adapter request output_dir started duration version error code outcome)
  unfolding executed report
  executed-Free started duration version (some e) code outcome =
      after (audited P M C adapter request output_dir _ _) _
        λ _. unanswered_ends (λ x. Unit {0}) _ code started _ version _ failed
  executed-Free started duration version none none outcome =
      after (audited P M C adapter request output_dir _ _) _
        λ _. unanswered_ends (λ x. Unit {0}) _ none started _ version _ failed
  executed-Free started duration version none (some code) outcome =
      elim (Bool-cases (contains adapter.success_exit_codes code)) [
        | inl success ↦ rw success (
            after (done (adapter.read_output outcome.stdout _)) _ λ raw.
              after (call (M.write_text _ _)) _
                λ _. parsed-Free started duration version code raw _ success refl)
        | inr refused ↦ rw refused (
            after (audited P M C adapter request output_dir _ _) _
              λ _. unanswered_ends (λ x. Unit {0}) _ (some code) started _ version _ failed)
      ]

  judged-Free :
      (started duration : ℕ) (version : Option String) (outcome : ExecutionOutcome)
      → Ends Free (judged P M C adapter request output_dir started duration version outcome)
  unfolding judged
  judged-Free started duration version outcome =
      Ends-if Free outcome.timed_out _ _
        (after (audited P M C adapter request output_dir _ _) _
          λ _. unanswered_ends (λ x. Unit {0}) _ none started _ version _ timeout)
        (executed-Free started duration version _ _ outcome)

  launched-Free :
      (started : ℕ) (binary_path : Option String)
      → Ends Free (launched P M C adapter request output_dir started binary_path)
  unfolding launched
  launched-Free started none =
      after (audited P M C adapter request output_dir _ _) _
        λ _. unanswered_ends (λ x. Unit {0}) _ none started none none _ failed
  launched-Free started (some binary_path) =
      after (audited P M C adapter request output_dir _ _) _ λ _.
        after (detect_version P M C adapter binary_path request.workspace_path) _ λ version.
          after (execute P M C _ request.workspace_path C.limits) _
            λ outcome. timed Free _ λ finished. judged-Free started _ version outcome

  scan-Free : (started : ℕ) → Ends Free (scan P M C adapter request output_dir started)
  unfolding scan
  scan-Free started = elim (Bool-cases (adapter.should_run request)) [
    | inl run ↦ rw run (
        after (call (λ s. (ok (M.which adapter.binary_name s), s))) _
          λ binary_path. launched-Free started binary_path)
    | inr idle ↦ rw idle (
        timed Free _ λ completed.
          at_once _ (good _ (record { named = refl; described = skipped idle refl refl })))
  ]

  abbrev Quiet : Result ScanResult → Type 0
  Quiet = Outcome (IsResultOf adapter request) (Unmade M)

  audited-ok :
      (action : String) (extra : Fields)
      → Ends (λ r. r ≡ ok tt) (audited P M C adapter request output_dir action extra)
  unfolding audit
  audited-ok action extra = Ends-call _ _ (λ s. told (M.write_audit _ s).0 _)
    where
      told : (r : Result (Unit {0})) (s : S) → (recover r ignore s).0 ≡ ok tt
      told (ok tt) s = refl
      told (err x) s = refl

  crashed-Quiet :
      (started : ℕ) (x : Exception)
      → Ends Quiet (crashed P M C adapter request output_dir started x)
  unfolding crashed
  crashed-Quiet started x =
      Ends-bind (λ r. r ≡ ok tt) Quiet (audited P M C adapter request output_dir _ _) _
        (audited-ok _ _) (λ y e. cc)
        λ _ _. unanswered_ends (Unmade M) _ none started none none _ failed

  -- However other tasks change the state between its calls, the task of a scanner ends with a
  -- result that is described by `IsResultOf`: only what is raised when a directory is made
  -- leaves the task.
  pub run_one-IsResultOf :
      Ends
        (Outcome (IsResultOf adapter request) (Unmade M))
        (run_one P M C adapter request output_dir)
  unfolding run_one
  run_one-IsResultOf = timed Quiet _ λ started.
      Ends-bind (Outcome (λ a. Unit {0}) (Unmade M)) Quiet
        (call (M.mkdir (output_dir / adapter.name))) _
        (Ends-call _ (M.mkdir (output_dir / adapter.name))
          (λ s. outcome_of (M.mkdir (output_dir / adapter.name) s).0 (λ x e. (_, s, e))))
        (λ x out. bad x (bad_of out))
        λ _ _.
          Ends-try Quiet (scan P M C adapter request output_dir started) _ Free (scan-Free started)
            (λ result out. good result (good_of out)) (crashed-Quiet started)
