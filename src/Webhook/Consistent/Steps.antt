-- ===== src/Webhook/Consistent/Steps.antt =====
-- The five writes of an ingestion keep the tables consistent, if they return.
use partha_prime_agent.Prelude.{
  ℕ, String, Bool, false, List, [], ◌∷◌, inl, inr, ◌≡◌, refl, sym, subst, ◌∙◌, arith, any, map,
  filter, ◌==◌, nat_eq, string_eq, Bool-cases, if◌then◌else◌,
}
use mathlib.Core.List.{map-append}
use partha_prime_agent.Prelude.Result.{Result, ok, err}
use partha_prime_agent.Prelude.Exec.{pure, ◌>>◌}
use partha_prime_agent.Prelude.Keys.{Known, is_key, any-is_key, Known-last, Known-snoc}
use partha_prime_agent.Enums.{execution_status_value, merge_decision_value}
use partha_prime_agent.Platform.{Platform}
use partha_prime_agent.Scm.{PullRequestEvent}
use partha_prime_agent.Models.{Repository, PullRequest, WorkflowRun}
use partha_prime_agent.Database.{
  Database, Session, insert_repository, insert_pull_request, update_pull_request,
}
use partha_prime_agent.Database.Consistent.{
  IsConsistent, repository_ids, pull_request_ids, workflow_run_ids, payload_hashes,
}
use partha_prime_agent.Database.Consistent.Rows.{
  IsConsistent-repository, IsConsistent-pull_request, IsConsistent-webhook_event,
  IsConsistent-workflow_run,
}
use partha_prime_agent.Database.Consistent.Results.{
  IsConsistent-audit_logs, IsConsistent-pull_requests, column_kept,
}
use partha_prime_agent.Webhook.Defs.{
  new_repository, new_pull_request, refresh, repository_rows, pull_request_rows,
  get_or_create_repository, get_or_create_pull_request, create_webhook_event, create_workflow_run,
  create_audit_log,
}

-- If the method returned, its value and the state satisfy P.
abbrev pub Yields : {S A : Type 0} → (A → S → Type 0) → Result A × S → Type 0
Yields P (ok a, s) = P a s
Yields P (err x, s) = Unit

pub yielded :
    {S A : Type 0} (P : A → S → Type 0) {out : Result A × S} {a : A} {t : S}
    → Yields P out
    → out ≡ (ok a, t)
    → P a t
yielded P h e = subst (Yields P) e h

-- A row that a query finds is in the table.
found_known :
    {A : Type 0} (key : A → ℕ) (p : A → Bool) (rows : List A) (x : A)
    → filter p rows ≡ x ∷ []
    → Known (map key rows) (key x)
found_known key p [] x e = cc
found_known key p (r ∷ rows) x e = ground (arith, found_known key p rows x)

-- Pull requests and runs that were there stay there.
pub record Grows (db after : Database) : Type 0 where
  pub pull_requests :
      (k : ℕ)
      → Known (pull_request_ids db.pull_requests) k
      → Known (pull_request_ids after.pull_requests) k
  pub workflow_runs :
      (k : ℕ)
      → Known (workflow_run_ids db.workflow_runs) k
      → Known (workflow_run_ids after.workflow_runs) k

pub Grows-same :
    (db after : Database)
    → after.pull_requests ≡ db.pull_requests
    → after.workflow_runs ≡ db.workflow_runs
    → Grows db after
Grows-same db after e e' = record { pull_requests = λ k h. rw e h; workflow_runs = λ k h. rw e' h }

pub Grows-trans : (a b c : Database) → Grows a b → Grows b c → Grows a c
Grows-trans a b c g h = record {
  pull_requests = λ k p. h.pull_requests k (g.pull_requests k p);
  workflow_runs = λ k p. h.workflow_runs k (g.workflow_runs k p);
}

module _ (s : Session) (c : IsConsistent s.working) where
  module _ (parsed : PullRequestEvent) where
    abbrev pub RepositoryKept : Repository → Session → Type 0
    RepositoryKept r t =
        IsConsistent t.working
        × Known (repository_ids t.working.repositories) r.id
        × (t.working.webhook_events ≡ s.working.webhook_events)
        × Grows s.working t.working

    new_repository-IsConsistent :
        Yields RepositoryKept (insert_repository (new_repository parsed) s)
    unfolding insert_repository
    new_repository-IsConsistent =
        let taken =
          any (λ (r : Repository). r.provider_repo_id == parsed.repository_id)
            s.working.repositories in
        elim (Bool-cases taken) [
          | inl old ↦ rw old tt
          | inr new ↦ rw new (
            IsConsistent-repository c (new_repository parsed s.working.next_id) refl (
                sym (
                  any-is_key (λ (r : Repository). r.provider_repo_id) parsed.repository_id
                    s.working.repositories)
                ∙ new),
            rw map-append (Known-last (repository_ids s.working.repositories) s.working.next_id),
            refl,
            Grows-same _ _ refl refl,
          )
        ]

    pub repository-IsConsistent : Yields RepositoryKept (get_or_create_repository parsed s)
    unfolding get_or_create_repository
    repository-IsConsistent = go (repository_rows parsed s) refl
      where
        go :
            (rows : List Repository)
            → repository_rows parsed s ≡ rows
            → Yields RepositoryKept (get_or_create_repository parsed s)
        go [] e = rw e new_repository-IsConsistent
        go (x ∷ []) e = rw e (
          c,
          found_known (λ r. r.id) _ s.working.repositories x e,
          refl,
          Grows-same _ _ refl refl,
        )
        go (x ∷ y ∷ more) e = rw e tt

    module _ (repository : Repository) (now : ℕ)
        (known : Known (repository_ids s.working.repositories) repository.id) where
      abbrev pub PullRequestKept : PullRequest → Session → Type 0
      PullRequestKept r t =
          IsConsistent t.working
          × Known (pull_request_ids t.working.pull_requests) r.id
          × (t.working.webhook_events ≡ s.working.webhook_events)
          × (t.working.repositories ≡ s.working.repositories)
          × Grows s.working t.working

      new_pull_request-IsConsistent :
          Yields PullRequestKept (insert_pull_request (new_pull_request parsed repository.id) s)
      unfolding insert_pull_request execution_status_value merge_decision_value
      new_pull_request-IsConsistent =
          let taken =
            any (λ (r : PullRequest). r.provider_pr_id == parsed.pull_request_id)
              s.working.pull_requests in
          elim (Bool-cases taken) [
            | inl old ↦ rw old tt
            | inr new ↦ rw new (
              IsConsistent-pull_request c (new_pull_request parsed repository.id s.working.next_id)
                  refl
                  (sym (
                      any-is_key (λ (r : PullRequest). r.provider_pr_id) parsed.pull_request_id
                        s.working.pull_requests)
                    ∙ new)
                  known,
              rw map-append
                  (Known-last (pull_request_ids s.working.pull_requests) s.working.next_id),
              refl,
              refl,
              record {
                pull_requests = λ k h.
                    rw map-append (Known-snoc (pull_request_ids s.working.pull_requests) _ k h);
                workflow_runs = λ k h. h;
              },
            )
          ]

      refreshed-IsConsistent :
          (x : PullRequest)
          → pull_request_rows parsed s ≡ x ∷ []
          → Yields PullRequestKept
              ((update_pull_request x.id (refresh parsed now) >> pure (refresh parsed now x)) s)
      unfolding update_pull_request refresh
      refreshed-IsConsistent x e =
          let f = λ (r : PullRequest). if r.id == x.id then refresh parsed now r else r in
          let kept = λ (r : PullRequest).
            let go : ((f r).id ≡ r.id)
                × ((f r).provider_pr_id ≡ r.provider_pr_id)
                × ((f r).repository_id ≡ r.repository_id) =
              ground arith in
            go in
          (
            IsConsistent-pull_requests c f kept,
            rw (column_kept (λ (r : PullRequest). r.id) f (λ r. (kept r).0) s.working.pull_requests)
                (found_known (λ r. r.id) _ s.working.pull_requests x e),
            refl,
            refl,
            record {
              pull_requests = λ k h.
                  rw
                    (column_kept (λ (r : PullRequest). r.id) f (λ r. (kept r).0)
                      s.working.pull_requests)
                    h;
              workflow_runs = λ k h. h;
            },
          )

      pub pull_request-IsConsistent :
          Yields PullRequestKept (get_or_create_pull_request parsed repository now s)
      unfolding get_or_create_pull_request
      pull_request-IsConsistent = go (pull_request_rows parsed s) refl
        where
          go :
              (rows : List PullRequest)
              → pull_request_rows parsed s ≡ rows
              → Yields PullRequestKept (get_or_create_pull_request parsed repository now s)
          go [] e = rw e new_pull_request-IsConsistent
          go (x ∷ []) e = rw e (refreshed-IsConsistent x e)
          go (x ∷ y ∷ more) e = rw e tt

      pub webhook_event-IsConsistent :
          (payload_hash : String)
          → is_key payload_hash (payload_hashes s.working.webhook_events) ≡ false
          → Yields
              (λ u t.
                IsConsistent t.working
                × (t.working.pull_requests ≡ s.working.pull_requests)
                × Grows s.working t.working)
              (create_webhook_event parsed repository payload_hash now s)
      unfolding create_webhook_event
      webhook_event-IsConsistent payload_hash new =
          (IsConsistent-webhook_event c _ refl new known, refl, Grows-same _ _ refl refl)

  module _ (pull_request : PullRequest)
      (known : Known (pull_request_ids s.working.pull_requests) pull_request.id) where
    pub workflow_run-IsConsistent :
        (correlation_id : String)
        → Yields
            (λ run t.
              IsConsistent t.working
              × Known (workflow_run_ids t.working.workflow_runs) run.id
              × (t.working.pull_requests ≡ s.working.pull_requests)
              × Grows s.working t.working)
            (create_workflow_run pull_request correlation_id s)
    unfolding create_workflow_run
    workflow_run-IsConsistent correlation_id =
        let taken =
          any (λ (r : WorkflowRun). r.correlation_id == correlation_id) s.working.workflow_runs in
        elim (Bool-cases taken) [
          | inl old ↦ rw old tt
          | inr new ↦ rw new (
            IsConsistent-workflow_run c _ refl
                (sym (
                    any-is_key (λ (r : WorkflowRun). r.correlation_id) correlation_id
                      s.working.workflow_runs)
                  ∙ new)
                known,
            rw map-append (Known-last (workflow_run_ids s.working.workflow_runs) s.working.next_id),
            refl,
            record {
              pull_requests = λ k h. h;
              workflow_runs = λ k h.
                  rw map-append (Known-snoc (workflow_run_ids s.working.workflow_runs) _ k h);
            },
          )
        ]

  pub audit_log-IsConsistent :
      (P : Platform) (pull_request : PullRequest) (run : WorkflowRun) (correlation_id : String)
      → Yields
          (λ u t.
            IsConsistent t.working
            × (t.working.pull_requests ≡ s.working.pull_requests)
            × (t.working.workflow_runs ≡ s.working.workflow_runs)
            × Grows s.working t.working)
          (create_audit_log P pull_request run correlation_id s)
  unfolding create_audit_log
  audit_log-IsConsistent P pull_request run correlation_id =
      (IsConsistent-audit_logs c _, refl, refl, Grows-same _ _ refl refl)
