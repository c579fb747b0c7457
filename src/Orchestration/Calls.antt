-- ===== src/Orchestration/Calls.antt =====
-- Which calls of the workspace service and of the runner a run makes.
pub mod Steps
use partha_prime_agent.Prelude.{
  ℕ, none, some, String, Bool, true, false, Bool-cases, List, [], ◌∷◌, ◌++◌, ◌≡◌, ◌⊎◌, inl, inr,
  refl, sym, ap, ◌∙◌, subst, append_assoc,
}
use mathlib.Core.List.{append-nil}
use partha_prime_agent.Prelude.Result.{Result, ok, err, Exception}
use partha_prime_agent.Prelude.Exec.{Exec, pure, bind_cases, ◌>>=◌, recover, then-returned}
use partha_prime_agent.Prelude.Exec.Keeps.{Keeps, Keeps-bind, Keeps-pure}
use partha_prime_agent.Paths.{FilePath, path}
use partha_prime_agent.Platform.{Platform}
use partha_prime_agent.Scm.{PullRequestEvent, ScmProvider}
use partha_prime_agent.Scanners.Interface.{NormalizedFinding, AggregatedScanResult, ScanRequest}
use partha_prime_agent.Orchestration.Defs.{
  Accepts, Shared, Services, World, Call, prepare, scan, release, in_session, transition, fail,
  conclude, proceed, begin, run, release_workspace, scan_request, entity, persist_results, logged,
  audit, answer_of, call,
}
use partha_prime_agent.Json.{Fields}
use partha_prime_agent.Orchestration.Ending.{prepared, request, scanned, is_refused}
use partha_prime_agent.Orchestration.Rows.{refused}
use partha_prime_agent.Orchestration.Stuck.{conclude-refused}
use partha_prime_agent.Orchestration.Stored.{persist_results-stored}
use partha_prime_agent.Enums.{ExecutionStatus}
use partha_prime_agent.Orchestration.Keeps.{audit-Keeps, fail-Keeps, begin-Keeps}
use partha_prime_agent.Orchestration.Calls.Steps.{
  unlogged, started-Called, failed-Called, begin-returns, afterwards, conclude_failed-calls,
  conclude_stored-calls, ends_run,
}

module _ {E : Type 0} (P : Platform) (services : Services E) (accepts : Accepts) (clock : ℕ → ℕ)
    (provider : ScmProvider) (event : PullRequestEvent) (repository_id pull_id run_id : ℕ)
    (correlation_id : String) (w : World E) where
  abbrev asked : Call
  asked = prepare (P.uuid_str run_id)

  abbrev answer : Result String
  answer =
      (prepared P services accepts clock provider event repository_id pull_id run_id correlation_id
        w).0

  abbrev requested : String → Call
  requested text = scan (
      request P services accepts clock provider event repository_id pull_id run_id correlation_id w
        text)

  abbrev found : String → Result AggregatedScanResult
  found text =
      (scanned P services accepts clock provider event repository_id pull_id run_id correlation_id w
        text).0

  abbrev turned_down : AggregatedScanResult → Bool
  turned_down =
      is_refused P services accepts clock provider event repository_id pull_id run_id correlation_id
        w

  -- The calls of a run, by what the services answer.
  pub data Protocol : List Call → Type 0 where
    unprepared : (x : Exception) → answer ≡ err x → Protocol (asked ∷ [])
    unscanned :
        (text : String) (x : Exception)
        → answer ≡ ok text
        → found text ≡ err x
        → Protocol (asked ∷ requested text ∷ release (path text) ∷ [])
    unstored :
        (text : String) (a : AggregatedScanResult)
        → answer ≡ ok text
        → found text ≡ ok a
        → turned_down a ≡ true
        → Protocol (asked ∷ requested text ∷ [])
    stored :
        (text : String) (a : AggregatedScanResult)
        → answer ≡ ok text
        → found text ≡ ok a
        → turned_down a ≡ false
        → Protocol (asked ∷ requested text ∷ release (path text) ∷ [])

module _ {E : Type 0} (P : Platform) (services : Services E) (accepts : Accepts) (clock : ℕ → ℕ)
    (provider : ScmProvider) (event : PullRequestEvent) (repository_id pull_id run_id : ℕ)
    (correlation_id : String) (w : World E) where
  abbrev answers : Result String × Shared E
  answers =
      prepared P services accepts clock provider event repository_id pull_id run_id correlation_id w

  abbrev scans : String → Result AggregatedScanResult × Shared E
  scans =
      scanned P services accepts clock provider event repository_id pull_id run_id correlation_id w

  abbrev first_call : Call
  first_call = prepare (P.uuid_str run_id)

  abbrev second_call : String → Call
  second_call text = scan (
      request P services accepts clock provider event repository_id pull_id run_id correlation_id w
        text)

  abbrev IsProtocol : List Call → Type 0
  IsProtocol cs =
      (made : List Call) × (cs ≡ w.calls ++ made)
      × Protocol P services accepts clock provider event repository_id pull_id run_id correlation_id
          w made

  concluded-calls :
      (text : String) (r : Result AggregatedScanResult) (u : World E)
      → answers.0 ≡ ok text
      → (scans text).0 ≡ r
      → u.calls ≡ w.calls ++ (first_call ∷ second_call text ∷ [])
      → IsProtocol
          (ends_run P services accepts clock provider event repository_id pull_id run_id
            correlation_id
            (path text)
            r
            u).1.calls
  concluded-calls text (err x) u e f c = (
    _,
    conclude_failed-calls P services accepts clock provider event repository_id pull_id run_id
          correlation_id (path text) x _ u c
        ∙ append_assoc w.calls _ _,
    unscanned text x e f,
  )
  concluded-calls text (ok a) u e f c =
      elim (Bool-cases (refused accepts run_id a.commit_sha a.scan_results)) [
        | inl bad ↦
            let same =
              conclude-refused P services accepts clock provider event repository_id pull_id run_id
                correlation_id (path text) a u bad in
            (_, rw same c, unstored text a e f bad)
        | inr good ↦ (
          _,
          conclude_stored-calls P services accepts clock provider event repository_id pull_id run_id
                correlation_id (path text) a _ u c good
              ∙ append_assoc w.calls _ _,
          stored text a e f good,
        )
      ]

  proceed-calls :
      (r : Result String) (cs : List Call)
      → answers.0 ≡ r
      → cs ≡ w.calls ++ (first_call ∷ [])
      → IsProtocol
          (proceed P services accepts clock provider event repository_id pull_id run_id
            correlation_id r
            (record { shared = answers.1; calls = cs })).1.calls
  unfolding proceed
  proceed-calls (err x) cs e c = (
    _,
    (failed-Called P services accepts clock provider event repository_id pull_id run_id
          correlation_id (w.calls ++ (first_call ∷ [])) "workspace_preparation_failed" x).apply
        (record { shared = answers.1; calls = cs }) c,
    unprepared x e,
  )
  proceed-calls (ok text) cs e c =
      concluded-calls text (scans text).0 _ e refl
        (ap (λ l. l ++ (second_call text ∷ [])) c ∙ append_assoc w.calls _ _)

  -- The calls of a run, whatever the services answer or raise: the preparation; nothing more if
  -- it raises; else the scan of the workspace that it gave, at the source commit; and then the
  -- release of that workspace, unless the database refuses a scan run or a finding.
  pub run-Protocol :
      (made : List Call) × ((run P services accepts clock provider event repository_id pull_id
          run_id correlation_id w).1.calls
        ≡ w.calls ++ made)
      × Protocol P services accepts clock provider event repository_id pull_id run_id correlation_id
          w made
  unfolding run
  run-Protocol = subst IsProtocol (sym (unlogged P services accepts clock _ _)) (
      afterwards P services accepts clock provider event repository_id pull_id run_id correlation_id
        IsProtocol
        (begin P services accepts clock provider event repository_id pull_id run_id correlation_id)
        _ w
        (begin-returns P services accepts clock provider event repository_id pull_id run_id
          correlation_id w)
        (proceed-calls answers.0 _ refl (
          ap (λ l. l ++ (first_call ∷ []))
            ((started-Called P services accepts clock provider event repository_id pull_id run_id
                correlation_id w.calls).apply
              w refl))))
