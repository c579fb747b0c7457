-- ===== src/System/Defs.antt =====
-- The service as a whole: requests arrive, background tasks run in any order, and a restart of the
-- process forgets the tasks that have not run.
use partha_prime_agent.Prelude.{ℕ, List, [], ◌∷◌, ◌++◌, ◌≡◌, map}
use partha_prime_agent.Prelude.Result.{Result, ok, err}
use partha_prime_agent.Platform.{Platform}
use partha_prime_agent.Scm.{ScmProvider}
use partha_prime_agent.Webhook.{Answer, Task}
use partha_prime_agent.Webhook.Idempotence.{Request, deliver}
use partha_prime_agent.Orchestration.Defs.{Accepts, Shared, Services, World, trigger_orchestration}

-- What the process and the database keep. A task waits with the provider of the service that
-- scheduled it.
pub record System (E : Type 0) : Type 0 where
  pub shared : Shared E
  pub pending : List (ScmProvider × Task)

-- What a request schedules, if it returned.
abbrev pub scheduled : ScmProvider → Result Answer → List (ScmProvider × Task)
scheduled provider (ok a) = map (λ task. (provider, task)) a.tasks
scheduled provider (err x) = []

module _ {E : Type 0} (P : Platform) (services : Services E) (accepts : Accepts) where
  unfoldable pub serve_request : Request → System E → System E
  serve_request r s =
      let out = deliver P r s.shared.db in
      record {
        shared = record { db = out.1; outside = s.shared.outside };
        pending = s.pending ++ scheduled r.provider out.0;
      }

  -- The task that stands between the two lists runs.
  unfoldable pub run_background :
      (ℕ → ℕ)
      → List (ScmProvider × Task)
      → ScmProvider × Task
      → List (ScmProvider × Task)
      → System E
      → System E
  run_background clock before (provider, task) after s =
      let w : World E = record { shared = s.shared; calls = [] } in
      record {
        shared = (trigger_orchestration P services accepts clock provider task w).1.shared;
        pending = before ++ after;
      }

  pub data Step (s : System E) : System E → Type 0 where
    request : (r : Request) → Step s (serve_request r s)
    background :
        (clock : ℕ → ℕ) (before after : List (ScmProvider × Task)) (waiting : ScmProvider × Task)
        → s.pending ≡ before ++ (waiting ∷ after)
        → Step s (run_background clock before waiting after s)
    restart : Step s (record s { pending = [] })

  pub data Reach (s : System E) : System E → Type 0 where
    here : Reach s s
    next : {t u : System E} → Reach s t → Step t u → Reach s u
