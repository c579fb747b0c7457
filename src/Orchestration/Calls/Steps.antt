-- ===== src/Orchestration/Calls/Steps.antt =====
-- The calls of the steps of a run, and that its transitions and audits return.
use partha_prime_agent.Prelude.{
  ℕ, none, some, String, Bool, false, List, [], ◌∷◌, ◌++◌, ◌≡◌, refl, sym, ap, ◌∙◌,
}
use mathlib.Core.List.{append-nil}
use partha_prime_agent.Prelude.Result.{Result, ok, err, Exception}
use partha_prime_agent.Prelude.Exec.{Exec, pure, bind_cases, ◌>>=◌, recover, then-returned}
use partha_prime_agent.Prelude.Exec.Keeps.{Keeps, Keeps-bind, Keeps-pure}
use partha_prime_agent.Paths.{FilePath}
use partha_prime_agent.Platform.{Platform}
use partha_prime_agent.Scm.{PullRequestEvent, ScmProvider}
use partha_prime_agent.Scanners.Interface.{AggregatedScanResult}
use partha_prime_agent.Orchestration.Defs.{
  Accepts, Services, World, Call, release, in_session, transition, fail, conclude, begin,
  release_workspace, entity, persist_results, logged, audit,
}
use partha_prime_agent.Json.{Fields}
use partha_prime_agent.Orchestration.Rows.{refused}
use partha_prime_agent.Orchestration.Stored.{persist_results-stored}
use partha_prime_agent.Enums.{ExecutionStatus}
use partha_prime_agent.Orchestration.Keeps.{audit-Keeps, fail-Keeps, begin-Keeps}

module _ {E : Type 0} (P : Platform) (services : Services E) (accepts : Accepts)
    (clock : ℕ → ℕ) where
  abbrev pub Called : List Call → World E → Type 0
  Called h w = w.calls ≡ h

  pub unlogged :
      (r : Result (Unit {0})) (w : World E)
      → (recover r (λ x. logged {S = World E} x) w).1.calls ≡ w.calls
  unlogged (ok a) w = refl
  unlogged (err x) w = refl

  returned_anyway :
      (r : Result (Unit {0})) (w : World E) → (recover r (λ x. logged {S = World E} x) w).0 ≡ ok tt
  returned_anyway (ok tt) w = refl
  returned_anyway (err x) w = refl

  audit-returns :
      (action name : String) (extra : Fields) (w : World E)
      → (audit P services accepts clock action name extra w).0 ≡ ok tt
  unfolding audit
  audit-returns action name extra w = returned_anyway _ _

  module _ (provider : ScmProvider) (event : PullRequestEvent) (repository_id pull_id run_id : ℕ)
      (correlation_id : String) where
    abbrev pub ends_run : FilePath → Result AggregatedScanResult → Exec (World E) (Unit {0})
    ends_run =
        conclude P services accepts clock provider event repository_id pull_id run_id correlation_id

    pub started-Called :
        (h : List Call)
        → Keeps (Called h) (
            begin P services accepts clock provider event repository_id pull_id run_id
              correlation_id)
    started-Called h =
        begin-Keeps P services accepts clock (Called h)
          (λ a b c d e f g. record { apply = λ w i. i })
          (λ row. record { apply = λ w i. append-nil w.calls ∙ i }) provider event repository_id
          pull_id run_id correlation_id

    pub failed-Called :
        (h : List Call) (reason : String) (x : Exception)
        → Keeps (Called h) (
            fail P services accepts clock run_id pull_id
              (entity P services accepts clock provider event repository_id pull_id run_id
                correlation_id)
              reason
              x)
    failed-Called h reason x =
        fail-Keeps P services accepts clock (Called h)
          (λ a b c d e f g. record { apply = λ w i. i })
          (λ row. record { apply = λ w i. append-nil w.calls ∙ i }) run_id pull_id _ reason x

    -- The release, then steps without calls.
    releasing :
        (dir : FilePath) (h : List Call) (k : Exec (World E) (Unit {0})) (w : World E)
        → w.calls ≡ h
        → Keeps (Called (h ++ (release dir ∷ []))) k
        → ((release_workspace P services accepts clock provider event repository_id pull_id run_id
                correlation_id dir
              >>= λ _. k)
            w).1.calls
          ≡ h ++ (release dir ∷ [])
    releasing dir h k w e quiet =
        bind_cases (λ (o : Result (Unit {0}) × World E). Called (h ++ (release dir ∷ [])) o.1)
          (release_workspace P services accepts clock provider event repository_id pull_id run_id
            correlation_id dir)
          (λ _. k) w
          (λ a u e'. quiet.apply u (
            ap (λ (o : Result Bool × World E). o.1.calls) (sym e')
            ∙ ap (λ l. l ++ (release dir ∷ [])) e))
          (λ x u e'.
            ap (λ (o : Result Bool × World E). o.1.calls) (sym e')
            ∙ ap (λ l. l ++ (release dir ∷ [])) e)

    pub begin-returns :
        (w : World E)
        → (begin P services accepts clock provider event repository_id pull_id run_id correlation_id
            w).0
          ≡ ok tt
    unfolding begin transition
    begin-returns w = audit-returns _ _ _ _

    failed-returns :
        (reason : String) (x : Exception) (w : World E)
        → (fail P services accepts clock run_id pull_id
            (entity P services accepts clock provider event repository_id pull_id run_id
              correlation_id)
            reason
            x
            w).0
          ≡ ok tt
    unfolding fail transition
    failed-returns reason x w = audit-returns _ _ _ _

    -- A step that returns, then the rest.
    pub afterwards :
        (Q : List Call → Type 0) (m : Exec (World E) (Unit {0})) (k : Exec (World E) (Unit {0}))
        (w : World E)
        → (m w).0 ≡ ok tt
        → Q (k (m w).1).1.calls
        → Q ((m >>= λ _. k) w).1.calls
    afterwards Q m k w e h = rw (then-returned m k w e) h

    pub conclude_failed-calls :
        (dir : FilePath) (x : Exception) (h : List Call) (w : World E)
        → w.calls ≡ h
        → (ends_run dir (err x) w).1.calls ≡ h ++ (release dir ∷ [])
    unfolding conclude
    conclude_failed-calls dir x h w e =
        afterwards (λ cs. cs ≡ h ++ (release dir ∷ []))
          (fail P services accepts clock run_id pull_id
            (entity P services accepts clock provider event repository_id pull_id run_id
              correlation_id)
            "scan_execution_failed" x)
          _ w (failed-returns "scan_execution_failed" x w)
          (releasing dir h (pure tt) _ ((failed-Called h "scan_execution_failed" x).apply w e)
            (Keeps-pure _ tt))

    pub conclude_stored-calls :
        (dir : FilePath) (a : AggregatedScanResult) (h : List Call) (w : World E)
        → w.calls ≡ h
        → refused accepts run_id a.commit_sha a.scan_results ≡ false
        → (ends_run dir (ok a) w).1.calls ≡ h ++ (release dir ∷ [])
    unfolding conclude
    conclude_stored-calls dir a h w e taken =
        afterwards (λ cs. cs ≡ h ++ (release dir ∷ []))
          (in_session (persist_results accepts run_id a.commit_sha a.scan_results)) _ w
          (persist_results-stored accepts run_id a.commit_sha a.scan_results w.shared.db taken).0
          (releasing dir h _ _ e (
            Keeps-bind (Called (h ++ (release dir ∷ [])))
              (in_session (
                transition run_id pull_id ExecutionStatus.succeeded none (some (clock 2)) none
                  (clock 3)))
              _ (record { apply = λ w i. i })
              (λ _.
                audit-Keeps P services accepts clock (Called (h ++ (release dir ∷ [])))
                  (λ a b c d e f g. record { apply = λ w i. i })
                  (λ row. record { apply = λ w i. append-nil w.calls ∙ i }) _ _ _)))
