-- ===== src/Orchestration/Advisory.antt =====
-- A run decides no pull request and blocks no finding.
use partha_prime_agent.Prelude.{ℕ, String, Option, List, refl}
use partha_prime_agent.Prelude.Keys.{All-snoc}
use partha_prime_agent.Prelude.Exec.Keeps.{Keeps, Keeps-pure, Keeps-try}
use partha_prime_agent.Enums.{ExecutionStatus}
use partha_prime_agent.Platform.{Platform}
use partha_prime_agent.Scm.{ScmProvider}
use partha_prime_agent.Database.{
  commit, update_workflow_run, update_pull_request, insert_scan_run, insert_finding,
}
use partha_prime_agent.Database.Advisory.{
  IsAdvisory, IsAdvisory-audit_logs, IsUnblocked, IsPending-updated,
}
use partha_prime_agent.Scanners.Interface.{ScanResult, NormalizedFinding}
use partha_prime_agent.Webhook.{Task}
use partha_prime_agent.Orchestration.Defs.{
  Accepts, Services, World, transition, pull_request_row, finding_row, persist_results,
  trigger_orchestration, logged,
}
use partha_prime_agent.Orchestration.Keeps.{Both, results-Keeps, run-Keeps}
use partha_prime_agent.Orchestration.Audited.{OnlyAudit, Keeps-audited}

transition-IsAdvisory :
    (run_id pull_id : ℕ) (status : ExecutionStatus) (started completed : Option ℕ)
    (error : Option String) (now : ℕ)
    → Keeps (Both IsAdvisory) (transition run_id pull_id status started completed error now)
unfolding transition update_workflow_run update_pull_request commit pull_request_row
transition-IsAdvisory run_id pull_id status started completed error now = record {
  apply = λ s h.
      let new : IsAdvisory
          (transition run_id pull_id status started completed error now s).1.working =
        record {
          pending =
              IsPending-updated pull_id (pull_request_row status now) (λ r p. p)
                s.working.pull_requests h.1.pending;
          unblocked = h.1.unblocked;
        } in
      (new, new);
}

module _ (accepts : Accepts) (run_id : ℕ) (sha : String) where
  finding-IsAdvisory :
      (scan_run_id : ℕ) (f : NormalizedFinding)
      → Keeps (Both IsAdvisory) (insert_finding (finding_row run_id scan_run_id f))
  unfolding insert_finding finding_row
  finding-IsAdvisory scan_run_id f = record {
    apply = λ s h. (
      h.0,
      record {
        pending = h.1.pending;
        unblocked =
            All-snoc IsUnblocked s.working.findings
              (finding_row run_id scan_run_id f s.working.next_id) h.1.unblocked refl;
      },
    );
  }

  results-IsAdvisory :
      (rs : List ScanResult) → Keeps (Both IsAdvisory) (persist_results accepts run_id sha rs)
  unfolding commit insert_scan_run
  results-IsAdvisory =
      results-Keeps accepts run_id sha (Both IsAdvisory) finding-IsAdvisory
        (λ r. record {
          apply = λ s h. (h.0, record { pending = h.1.pending; unblocked = h.1.unblocked });
        })
        (record { apply = λ s h. (h.1, h.1) })

-- With services that only add audit rows, however the run ends.
pub run-IsAdvisory :
    {E : Type 0} (P : Platform) (given : Services E) (accepts : Accepts) (clock : ℕ → ℕ)
    (provider : ScmProvider) (task : Task)
    → OnlyAudit given
    → Keeps
        (λ (w : World E). IsAdvisory w.shared.db)
        (trigger_orchestration P given accepts clock provider task)
unfolding trigger_orchestration
run-IsAdvisory P given accepts clock provider task only =
    Keeps-try (λ (w : World _). IsAdvisory w.shared.db) _ logged
      (run-Keeps P given accepts clock IsAdvisory provider task.event task.repository_id
        task.pull_request_id task.workflow_run_id task.correlation_id transition-IsAdvisory
        (λ sha rs. results-IsAdvisory accepts task.workflow_run_id sha rs)
        (Keeps-audited IsAdvisory IsAdvisory-audit_logs _ (only.prepares provider task.event _))
        (λ request. Keeps-audited IsAdvisory IsAdvisory-audit_logs _ (only.scans request))
        (λ dir. Keeps-audited IsAdvisory IsAdvisory-audit_logs _ (only.releases dir))
        (λ row. Keeps-audited IsAdvisory IsAdvisory-audit_logs _ (only.writes row)))
      (λ x. Keeps-pure (λ (w : World _). IsAdvisory w.shared.db) tt)
