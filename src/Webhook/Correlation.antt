-- ===== src/Webhook/Correlation.antt =====
-- A correlation id serves one workflow run: the column is unique.
use partha_prime_agent.Prelude.{
  ℕ, String, Bool, true, false, List, [], ◌∷◌, ◌++◌, inl, inr, ◌≡◌, refl, arith, any, any-append,
  ◌==◌, string_eq, eq_iff, ◌∙◌,
}
use partha_prime_agent.Prelude.Result.{ok}
use partha_prime_agent.Platform.{Platform}
use partha_prime_agent.Scm.{PullRequestEvent}
use partha_prime_agent.Models.{Repository, PullRequest, WorkflowRun}
use partha_prime_agent.Database.{Database, Session, open_session}
use partha_prime_agent.Webhook.Defs.{
  Answer, accepted, get_or_create_repository, get_or_create_pull_request, create_webhook_event,
  create_workflow_run, create_audit_log,
}
use partha_prime_agent.Webhook.Outcome.{NotAccepted}
use partha_prime_agent.Webhook.Idempotence.{
  Request, deliver, serve, StoredBy, deliver-stored, outcome,
}

abbrev is_used : String → List WorkflowRun → Bool
is_used c runs = any (λ (w : WorkflowRun). w.correlation_id == c) runs

module _ (s : Session) where
  runs-repository :
      (parsed : PullRequestEvent)
      → (get_or_create_repository parsed s).1.working.workflow_runs ≡ s.working.workflow_runs
  unfolding get_or_create_repository
  runs-repository parsed = ground arith

  runs-pull_request :
      (parsed : PullRequestEvent) (repository : Repository) (now : ℕ)
      → (get_or_create_pull_request parsed repository now s).1.working.workflow_runs
        ≡ s.working.workflow_runs
  unfolding get_or_create_pull_request
  runs-pull_request parsed repository now = ground arith

  runs-webhook_event :
      (parsed : PullRequestEvent) (repository : Repository) (h : String) (now : ℕ)
      → (create_webhook_event parsed repository h now s).1.working.workflow_runs
        ≡ s.working.workflow_runs
  unfolding create_webhook_event
  runs-webhook_event parsed repository h now = refl

  runs-audit_log :
      (P : Platform) (pull_request : PullRequest) (run : WorkflowRun) (c : String)
      → (create_audit_log P pull_request run c s).1.working.workflow_runs ≡ s.working.workflow_runs
  unfolding create_audit_log
  runs-audit_log P pull_request run c = refl

  -- A run is created under an id that no run has, and is added behind the others.
  runs-workflow_run :
      (pull_request : PullRequest) (c : String) (run : WorkflowRun) (t : Session)
      → create_workflow_run pull_request c s ≡ (ok run, t)
      → (is_used c s.working.workflow_runs ≡ false)
        × (t.working.workflow_runs ≡ s.working.workflow_runs ++ (run ∷ []))
        × (run.correlation_id ≡ c)
  unfolding create_workflow_run
  runs-workflow_run pull_request c run t h = ground arith

module _ (P : Platform) (r : Request) (db : Database) where
  stored-runs :
      (a : Answer) (after : Database)
      → StoredBy P r db a after
      → (run : WorkflowRun) × (is_used r.correlation_id db.workflow_runs ≡ false)
        × (after.workflow_runs ≡ db.workflow_runs ++ (run ∷ []))
        × (run.correlation_id ≡ r.correlation_id)
  stored-runs a after st =
      let tr = st.trace in
      let (unused, added, named) =
        runs-workflow_run tr.s3 tr.pull_request r.correlation_id tr.run tr.s4 tr.queued in
      let before : tr.s3.working.workflow_runs ≡ db.workflow_runs = cc (
        tr.got_repository,
        tr.got_pull_request,
        tr.recorded,
        runs-repository (open_session db) st.event,
        runs-pull_request tr.s1 st.event tr.repository (r.clock 0),
        runs-webhook_event tr.s2 st.event tr.repository (P.sha256 r.body) (r.clock 1),
      ) in
      let behind : after.workflow_runs ≡ tr.s4.working.workflow_runs = cc (
        st.kept,
        tr.kept,
        tr.logged,
        runs-audit_log tr.s4 P tr.pull_request tr.run r.correlation_id,
      ) in
      (tr.run, rw before at unused, behind ∙ rw before at added, named)

  deliver-is_used :
      (c : String)
      → is_used c db.workflow_runs ≡ true
      → is_used c (deliver P r db).1.workflow_runs ≡ true
  deliver-is_used c used = elim (outcome P r db) [
    | inl (same, _) ↦ rw same used
    | inr (b, _, st) ↦
        let (run, _, added, _) = stored-runs b (deliver P r db).1 st in
        rw added (
          ground (
            arith,
            any-append (λ (w : WorkflowRun). w.correlation_id == c) db.workflow_runs (run ∷ []),
          ))
  ]

  is_used-refused :
      is_used r.correlation_id db.workflow_runs ≡ true
      → ((deliver P r db).1 ≡ db) × NotAccepted (deliver P r db).0
  is_used-refused used = elim (outcome P r db) [
    | inl done ↦ done
    | inr (b, _, st) ↦ let (run, unused, _, _) = stored-runs b (deliver P r db).1 st in cc
  ]

serve-is_used :
    (P : Platform) (rs : List Request) (db : Database) (c : String)
    → is_used c db.workflow_runs ≡ true
    → is_used c (serve P rs db).workflow_runs ≡ true
serve-is_used P [] db c used = used
serve-is_used P (r ∷ rs) db c used =
    serve-is_used P rs (deliver P r db).1 c (deliver-is_used P r db c used)

-- After a request was accepted, no request with its correlation id is ever accepted: it changes
-- nothing, whatever it is about and whatever requests were served in between.
pub same_correlation_id_refused :
    (P : Platform) (r other : Request) (db after : Database) (a : Answer)
    → deliver P r db ≡ (ok a, after)
    → a.response ≡ accepted
    → other.correlation_id ≡ r.correlation_id
    → (between : List Request)
    → ((deliver P other (serve P between after)).1 ≡ serve P between after)
      × NotAccepted (deliver P other (serve P between after)).0
same_correlation_id_refused P r other db after a delivered acc same between =
    let (run, _, added, named) =
      stored-runs P r db a after (deliver-stored P r db a after delivered acc) in
    let used : is_used r.correlation_id after.workflow_runs ≡ true = rw added (
      ground (
        arith,
        any-append (λ (w : WorkflowRun). w.correlation_id == r.correlation_id) db.workflow_runs
            (run ∷ []),
        eq_iff run.correlation_id r.correlation_id,
      )) in
    is_used-refused P other (serve P between after)
      (rw same (serve-is_used P between after r.correlation_id used))
