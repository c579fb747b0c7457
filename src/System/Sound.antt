-- ===== src/System/Sound.antt =====
-- Every state that the service reaches has consistent tables.
use partha_prime_agent.Prelude.{ℕ, List, [], ◌∷◌, ◌++◌, ◌≡◌, refl, map, All, nat_eq, subst}
use partha_prime_agent.Prelude.Result.{Result, ok, err}
use partha_prime_agent.Prelude.Keys.{All-append, All-imp, All-drop}
use partha_prime_agent.Platform.{Platform}
use partha_prime_agent.Scm.{ScmProvider}
use partha_prime_agent.Database.{Database}
use partha_prime_agent.Database.Consistent.{IsConsistent, workflow_run_ids, pull_request_ids}
use partha_prime_agent.Webhook.{Answer, Task}
use partha_prime_agent.Webhook.Idempotence.{Request, deliver}
use partha_prime_agent.Webhook.Consistent.{Refers, deliver-IsConsistent}
use partha_prime_agent.Webhook.Consistent.Steps.{Grows}
use partha_prime_agent.Orchestration.Defs.{Accepts, Services}
use partha_prime_agent.Orchestration.Consistent.{KeepTables, run-Fits}
use partha_prime_agent.System.Defs.{
  System, scheduled, serve_request, run_background, Step, request, background, restart, Reach, here,
  next,
}

-- What a waiting task refers to.
abbrev Waits : Database → ScmProvider × Task → Type 0
Waits db (provider, task) = Refers db task

pub record IsSound {E : Type 0} (s : System E) : Type 0 where
  pub consistent : IsConsistent s.shared.db
  pub waiting : All (Waits s.shared.db) s.pending

Waits-grown :
    (db after : Database) → Grows db after → (w : ScmProvider × Task) → Waits db w → Waits after w
Waits-grown db after g (provider, task) h = record {
  pull_request = g.pull_requests task.pull_request_id h.pull_request;
  run = g.workflow_runs task.workflow_run_id h.run;
}

Waits-map :
    (db : Database) (provider : ScmProvider) (tasks : List Task)
    → All (Refers db) tasks
    → All (Waits db) (map (λ task. (provider, task)) tasks)
Waits-map db provider [] h = tt
Waits-map db provider (t ∷ ts) h = (h.0, Waits-map db provider ts h.1)

Waits-scheduled :
    (db : Database) (provider : ScmProvider) (r : Result Answer)
    → ((a : Answer) → r ≡ ok a → All (Refers db) a.tasks)
    → All (Waits db) (scheduled provider r)
Waits-scheduled db provider (ok a) h = Waits-map db provider a.tasks (h a refl)
Waits-scheduled db provider (err x) h = tt

module _ {E : Type 0} (P : Platform) (services : Services E) (accepts : Accepts)
    (keep : KeepTables services) where
  request-IsSound :
      (r : Request) (s : System E) → IsSound s → IsSound (serve_request P services accepts r s)
  unfolding serve_request
  request-IsSound r s h =
      let db = s.shared.db in
      let (kept, grown, refers) = deliver-IsConsistent P r db h.consistent in
      record {
        consistent = kept;
        waiting =
            All-append _ s.pending _
              (All-imp _ _ s.pending (Waits-grown db (deliver P r db).1 grown) h.waiting)
              (Waits-scheduled (deliver P r db).1 r.provider (deliver P r db).0 refers);
      }

  background-IsSound :
      (clock : ℕ → ℕ) (before after : List (ScmProvider × Task)) (w : ScmProvider × Task)
      (s : System E)
      → s.pending ≡ before ++ (w ∷ after)
      → IsSound s
      → IsSound (run_background P services accepts clock before w after s)
  unfolding run_background
  background-IsSound clock before after (provider, task) s e h =
      let db = s.shared.db in
      let all : All (Waits db) (before ++ ((provider, task) ∷ after)) =
        subst (All (Waits db)) e h.waiting in
      let (rest, here') = All-drop (Waits db) before (provider, task) after all in
      let fits =
        (run-Fits P services accepts clock provider task (workflow_run_ids db.workflow_runs)
            (pull_request_ids db.pull_requests) keep here'.run).apply
          (record { shared = s.shared; calls = [] })
          (record { consistent = h.consistent; same_runs = refl; same_pulls = refl }) in
      record {
        consistent = fits.consistent;
        waiting =
            All-imp _ _ (before ++ after)
              (Waits-grown db _ (record {
                pull_requests = λ k p. rw fits.same_pulls p;
                workflow_runs = λ k p. rw fits.same_runs p;
              }))
              rest;
      }

  Step-IsSound : {s t : System E} → Step P services accepts s t → IsSound s → IsSound t
  Step-IsSound (request r) h = request-IsSound r _ h
  Step-IsSound (background clock before after w e) h = background-IsSound clock before after w _ e h
  Step-IsSound restart h = record { consistent = h.consistent; waiting = tt }

  -- From tables that are consistent, requests, background tasks in any order and restarts lead to
  -- none but such: keys and unique columns stay distinct, no payload is stored twice, each
  -- reference leads to a row, and each task that waits refers to a pull request and a run that are
  -- there. It is assumed that the services keep the tables so, and add and remove no run and no
  -- pull request.
  pub Reach-IsSound : {s t : System E} → Reach P services accepts s t → IsSound s → IsSound t
  Reach-IsSound here h = h
  Reach-IsSound (next r step) h = Step-IsSound step (Reach-IsSound r h)
