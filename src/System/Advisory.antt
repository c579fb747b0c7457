-- ===== src/System/Advisory.antt =====
-- In no state that the service reaches is a pull request decided or does a finding block.
use partha_prime_agent.Prelude.{[]}
use partha_prime_agent.Platform.{Platform}
use partha_prime_agent.Database.Advisory.{IsAdvisory}
use partha_prime_agent.Webhook.Advisory.{deliver-IsAdvisory}
use partha_prime_agent.Orchestration.Defs.{Accepts, Services}
use partha_prime_agent.Orchestration.Audited.{OnlyAudit}
use partha_prime_agent.Orchestration.Advisory.{run-IsAdvisory}
use partha_prime_agent.System.Defs.{
  System, serve_request, run_background, Step, request, background, restart, Reach, here, next,
}

module _ {E : Type 0} (P : Platform) (services : Services E) (accepts : Accepts)
    (only : OnlyAudit services) where
  Step-IsAdvisory :
      {s t : System E}
      → Step P services accepts s t
      → IsAdvisory s.shared.db
      → IsAdvisory t.shared.db
  unfolding serve_request run_background
  Step-IsAdvisory {s} (request r) h = deliver-IsAdvisory P r s.shared.db h
  Step-IsAdvisory {s} (background clock before after (provider, task) e) h =
      (run-IsAdvisory P services accepts clock provider task only).apply
        (record { shared = s.shared; calls = [] }) h
  Step-IsAdvisory restart h = h

  -- Where every pull request is pending and no finding blocks, requests, background tasks in any
  -- order and restarts lead to none but such databases, however they end. It is assumed that the
  -- services add nothing but audit rows to the database.
  pub Reach-IsAdvisory :
      {s t : System E}
      → Reach P services accepts s t
      → IsAdvisory s.shared.db
      → IsAdvisory t.shared.db
  Reach-IsAdvisory here h = h
  Reach-IsAdvisory (next r step) h = Step-IsAdvisory step (Reach-IsAdvisory r h)
