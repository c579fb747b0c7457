-- ===== src/Orchestration/Statuses/Moves.antt =====
-- Transitions with their audits: the statuses they lead to, and that they return.
use partha_prime_agent.Prelude.{ℕ, String, Option, none, some, List, [], ◌≡◌, refl, ap, ◌∙◌, nat_eq}
use partha_prime_agent.Prelude.Result.{Result, ok, err, Exception}
use partha_prime_agent.Prelude.Exec.{Exec, try, recover, ◌>>◌, then-returned}
use partha_prime_agent.Enums.{ExecutionStatus}
use partha_prime_agent.Json.{Fields, obj, str, field, end}
use partha_prime_agent.Models.{PullRequest, WorkflowRun, AuditLog}
use partha_prime_agent.Redaction.{redact_secrets}
use partha_prime_agent.Platform.{Platform}
use partha_prime_agent.Database.{Database, commit, update_workflow_run, update_pull_request}
use partha_prime_agent.Orchestration.Defs.{
  Accepts, Services, World, call, in_session, transition, run_row, pull_request_row, audit, logged,
  fail, failure_text,
}
use partha_prime_agent.Orchestration.Statuses.{
  with_status, with_status-with_status, statuses-update, Statuses, Statuses-row,
}
use partha_prime_agent.Orchestration.Audited.{OnlyAudit, Keeps-audited}

module _ (runs pulls : List (ℕ × String)) (run_id pull_id : ℕ) where
  -- After a transition to a status.
  abbrev pub Moved : ExecutionStatus → Database → Type 0
  Moved status = Statuses (with_status run_id status runs) (with_status pull_id status pulls)

  pub transition-Moved :
      {E : Type 0} (status : ExecutionStatus) (started completed : Option ℕ) (error : Option String)
      (now : ℕ) (w : World E)
      → Statuses runs pulls w.shared.db
      → ((in_session (transition run_id pull_id status started completed error now) w).0 ≡ ok tt)
        × Moved status
            (in_session
              (transition run_id pull_id status started completed error now)
              w).1.shared.db
  unfolding transition update_workflow_run update_pull_request commit run_row pull_request_row
  transition-Moved status started completed error now w h = (
    refl,
    record {
      of_runs =
          statuses-update (λ (r : WorkflowRun). r.id) (λ r. r.execution_status) run_id status
            (run_row status started completed error now) (λ r. refl) (λ r. refl)
            w.shared.db.workflow_runs
          ∙ ap (with_status run_id status) h.of_runs;
      of_pulls =
          statuses-update (λ (r : PullRequest). r.id) (λ r. r.execution_status) pull_id status
            (pull_request_row status now) (λ r. refl) (λ r. refl) w.shared.db.pull_requests
          ∙ ap (with_status pull_id status) h.of_pulls;
    },
  )

  -- What came before is forgotten.
  pub Moved-again :
      (first second : ExecutionStatus) (db : Database)
      → Statuses
          (with_status run_id second (with_status run_id first runs))
          (with_status pull_id second (with_status pull_id first pulls))
          db
      → Moved second db
  Moved-again first second db h = record {
    of_runs = h.of_runs ∙ with_status-with_status run_id second first runs;
    of_pulls = h.of_pulls ∙ with_status-with_status pull_id second first pulls;
  }

-- What is only logged when it raises returns.
pub try-logged :
    {S : Type 0} (m : Exec S (Unit {0})) (s : S)
    → ((try m logged s).0 ≡ ok tt) × ((try m logged s).1 ≡ (m s).1)
try-logged {S} m s = go (m s).0 (m s).1
  where
    go :
        (r : Result (Unit {0})) (t : S)
        → ((recover r logged t).0 ≡ ok tt) × ((recover r logged t).1 ≡ t)
    go (ok tt) t = (refl, refl)
    go (err x) t = (refl, refl)

module _ {E : Type 0} (P : Platform) (services : Services E) (accepts : Accepts) (clock : ℕ → ℕ)
    (only : OnlyAudit services) where
  told-Statuses :
      (runs pulls : List (ℕ × String)) (row : AuditLog) (w : World E)
      → Statuses runs pulls w.shared.db
      → ((try (call [] (services.write_audit row)) logged w).0 ≡ ok tt)
        × Statuses runs pulls (try (call [] (services.write_audit row)) logged w).1.shared.db
  told-Statuses runs pulls row w h =
      let (returned, same) = try-logged (call [] (services.write_audit row)) w in
      (
        returned,
        rw same (
            (Keeps-audited (Statuses runs pulls) (Statuses-row runs pulls)
                (services.write_audit row) (only.writes row)).apply
              w.shared h),
      )

  pub audit-Statuses :
      (runs pulls : List (ℕ × String)) (action entity_id : String) (extra : Fields) (w : World E)
      → Statuses runs pulls w.shared.db
      → ((audit P services accepts clock action entity_id extra w).0 ≡ ok tt)
        × Statuses runs pulls (audit P services accepts clock action entity_id extra w).1.shared.db
  unfolding audit
  audit-Statuses runs pulls action entity_id extra w h =
      told-Statuses runs pulls
        (record {
          entity_type = "scan_orchestration";
          entity_id = entity_id;
          action = action;
          actor = some "system";
          metadata_json = some (redact_secrets P.is_word (P.json_dumps (obj extra)));
        })
        w h

  -- A transition, then an audit.
  pub announced-Moved :
      (runs pulls : List (ℕ × String)) (run_id pull_id : ℕ) (status : ExecutionStatus)
      (started completed : Option ℕ) (error : Option String) (now : ℕ) (action entity_id : String)
      (extra : Fields) (w : World E)
      → Statuses runs pulls w.shared.db
      → let done =
          (in_session (transition run_id pull_id status started completed error now)
              >> audit P services accepts clock action entity_id extra)
            w in
        (done.0 ≡ ok tt) × Moved runs pulls run_id pull_id status done.1.shared.db
  announced-Moved runs pulls run_id pull_id status started completed error now action entity_id
        extra w h =
      let move = in_session (transition run_id pull_id status started completed error now) in
      let (returned, moved) =
        transition-Moved runs pulls run_id pull_id status started completed error now w h in
      rw (then-returned move (audit P services accepts clock action entity_id extra) w returned) (
        audit-Statuses (with_status run_id status runs) (with_status pull_id status pulls) action
          entity_id extra (move w).1 moved)

  pub fail-Moved :
      (runs pulls : List (ℕ × String)) (run_id pull_id : ℕ) (entity_id reason : String)
      (x : Exception) (w : World E)
      → Statuses runs pulls w.shared.db
      → ((fail P services accepts clock run_id pull_id entity_id reason x w).0 ≡ ok tt)
        × Moved runs pulls run_id pull_id ExecutionStatus.failed
            (fail P services accepts clock run_id pull_id entity_id reason x w).1.shared.db
  unfolding fail
  fail-Moved runs pulls run_id pull_id entity_id reason x w h =
      announced-Moved runs pulls run_id pull_id ExecutionStatus.failed none (some (clock 2))
        (some (failure_text P services accepts clock x)) (clock 3) "orchestration_failed" entity_id
        (field "reason" (str reason)
          (field "error" (str (failure_text P services accepts clock x)) end))
        w h
