-- ===== src/Webhook/Consistent.antt =====
-- A request keeps the tables consistent, and what it schedules refers to rows that are there.
pub mod Steps
use partha_prime_agent.Prelude.{
  ℕ, String, Bool, true, false, List, [], ◌∷◌, ◌++◌, inl, inr, ◌≡◌, refl, sym, subst, ap, ◌∙◌,
  arith, any, any_of_filter-nil, map, filter, All, ◌==◌, nat_eq, string_eq, Bool-cases,
  if◌then◌else◌,
}
use mathlib.Core.List.{map-append}
use partha_prime_agent.Prelude.Result.{Result, ok, err}
use partha_prime_agent.Prelude.Exec.{pure, ◌>>◌}
use partha_prime_agent.Prelude.Keys.{Known, is_key, any-is_key, Known-last, Known-snoc}
use partha_prime_agent.Enums.{execution_status_value, merge_decision_value}
use partha_prime_agent.Platform.{Platform}
use partha_prime_agent.Scm.{PullRequestEvent}
use partha_prime_agent.Models.{Repository, PullRequest, WebhookEvent, WorkflowRun}
use partha_prime_agent.Database.{
  Database, Session, open_session, insert_repository, insert_pull_request, update_pull_request,
}
use partha_prime_agent.Database.Consistent.{
  IsConsistent, repository_ids, pull_request_ids, workflow_run_ids, payload_hashes,
}
use partha_prime_agent.Database.Consistent.Rows.{
  IsConsistent-repository, IsConsistent-pull_request, IsConsistent-webhook_event,
  IsConsistent-workflow_run,
}
use partha_prime_agent.Database.Consistent.Results.{
  IsConsistent-audit_logs, IsConsistent-pull_requests, column_kept,
}
use partha_prime_agent.Webhook.Defs.{
  Answer, Task, new_repository, new_pull_request, refresh, repository_rows, pull_request_rows,
  get_or_create_repository, get_or_create_pull_request, create_webhook_event, create_workflow_run,
  create_audit_log, event_id_or, matches,
}
use partha_prime_agent.Webhook.Idempotence.{Request, deliver, StoredBy, outcome}
use partha_prime_agent.Webhook.Consistent.Steps.{
  yielded, Grows, Grows-same, Grows-trans, repository-IsConsistent, pull_request-IsConsistent,
  webhook_event-IsConsistent, workflow_run-IsConsistent, audit_log-IsConsistent,
}

-- What a task refers to is there.
pub record Refers (db : Database) (task : Task) : Type 0 where
  pub pull_request : Known (pull_request_ids db.pull_requests) task.pull_request_id
  pub run : Known (workflow_run_ids db.workflow_runs) task.workflow_run_id

fresh_hash :
    (id h : String) (rows : List WebhookEvent)
    → any (matches id h) rows ≡ false
    → is_key h (payload_hashes rows) ≡ false
fresh_hash id h [] new = refl
fresh_hash id h (r ∷ rows) new = ground (arith, fresh_hash id h rows)

All-if : {A : Type 0} (P : A → Type 0) (b : Bool) (x : A) → P x → All P (if b then x ∷ [] else [])
All-if P true x h = (h, tt)
All-if P false x h = tt

module _ (P : Platform) (r : Request) (db : Database) (c : IsConsistent db) where
  stored-IsConsistent :
      (a : Answer) (after : Database)
      → StoredBy P r db a after
      → IsConsistent after × All (Refers after) a.tasks × Grows db after
  stored-IsConsistent a after st =
      let tr = st.trace in
      let hash = P.sha256 r.body in
      let new =
        fresh_hash (event_id_or st.event hash) hash db.webhook_events
          (any_of_filter-nil _ db.webhook_events st.fresh) in
      let (c1, k1, e1, g1) =
        yielded _ (repository-IsConsistent (open_session db) c st.event) tr.got_repository in
      let (c2, k2, e2, e2', g2) =
        yielded _ (pull_request-IsConsistent tr.s1 c1 st.event tr.repository (r.clock 0) k1)
          tr.got_pull_request in
      let (c3, e3, g3) =
        yielded _
          (webhook_event-IsConsistent tr.s2 c2 st.event tr.repository (r.clock 1) (rw e2' k1) hash
            (rw (e2, e1) new))
          tr.recorded in
      let (c4, k4, e4, g4) =
        yielded _ (workflow_run-IsConsistent tr.s3 c3 tr.pull_request (rw e3 k2) r.correlation_id)
          tr.queued in
      let (c5, e5, e5', g5) =
        yielded _ (audit_log-IsConsistent tr.s4 c4 P tr.pull_request tr.run r.correlation_id)
          tr.logged in
      let same : after ≡ tr.s5.working = st.kept ∙ tr.kept in
      (
        rw same c5,
        rw (same, tr.scheduled)
            (All-if (Refers tr.s5.working) r.background _
              (record { pull_request = rw (e5, e4, e3) k2; run = rw e5' k4 })),
        rw same (
            Grows-trans _ _ _ g1
              (Grows-trans _ _ _ g2 (Grows-trans _ _ _ g3 (Grows-trans _ _ _ g4 g5)))),
      )

  -- However a request ends, the tables stay consistent, and what it schedules refers to a pull
  -- request and a run that are there. Those that were there stay.
  pub deliver-IsConsistent :
      IsConsistent (deliver P r db).1
      × Grows db (deliver P r db).1
      × ((a : Answer) → (deliver P r db).0 ≡ ok a → All (Refers (deliver P r db).1) a.tasks)
  deliver-IsConsistent = elim (outcome P r db) [
    | inl (same, refused) ↦
        (rw same c, rw same (Grows-same db db refl refl), λ a e. rw (refused a e).1 tt)
    | inr (b, e', st) ↦
        let (kept, refers, grown) = stored-IsConsistent b (deliver P r db).1 st in
        (
          kept,
          grown,
          λ a e.
              let same : b ≡ a = cc in
              subst (λ (x : Answer). All (Refers (deliver P r db).1) x.tasks) same refers,
        )
  ]
