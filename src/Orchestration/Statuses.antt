-- ===== src/Orchestration/Statuses.antt =====
-- The statuses of runs and pull requests, and how the steps of a run move them.
pub mod Moves
use partha_prime_agent.Prelude.{
  ℕ, String, List, [], ◌∷◌, inl, inr, ◌≡◌, refl, ap, map, Bool-cases, ◌==◌, nat_eq, if◌then◌else◌,
}
use partha_prime_agent.Prelude.Exec.Keeps.{Keeps}
use partha_prime_agent.Enums.{ExecutionStatus, execution_status_value}
use partha_prime_agent.Models.{PullRequest, WorkflowRun, AuditLog}
use partha_prime_agent.Database.{Database, commit, insert_scan_run, insert_finding}
use partha_prime_agent.Scanners.Interface.{ScanResult}
use partha_prime_agent.Orchestration.Defs.{Accepts, Shared, persist_results}
use partha_prime_agent.Orchestration.Keeps.{Both, results-Keeps}

-- Keys with the statuses that are stored under them.
abbrev pub run_status : WorkflowRun → ℕ × String
run_status r = (r.id, r.execution_status)

abbrev pub pull_request_status : PullRequest → ℕ × String
pull_request_status r = (r.id, r.execution_status)

-- The same with one status changed.
abbrev pub with_status : ℕ → ExecutionStatus → List (ℕ × String) → List (ℕ × String)
with_status id status [] = []
with_status id status ((k, old) ∷ rows) =
    (k, if k == id then execution_status_value status else old) ∷ with_status id status rows

pub with_status-with_status :
    (id : ℕ) (a b : ExecutionStatus) (rows : List (ℕ × String))
    → with_status id a (with_status id b rows) ≡ with_status id a rows
with_status-with_status id a b [] = refl
with_status-with_status id a b ((k, old) ∷ rows) = elim (Bool-cases (k == id)) [
  | inl e ↦
      rw e (ap (λ rest. (k, execution_status_value a) ∷ rest) (with_status-with_status id a b rows))
  | inr e ↦ rw e (ap (λ rest. (k, old) ∷ rest) (with_status-with_status id a b rows))
]

pub statuses-update :
    {A : Type 0} (key : A → ℕ) (status_of : A → String) (id : ℕ) (status : ExecutionStatus)
    (f : A → A)
    → ((r : A) → key (f r) ≡ key r)
    → ((r : A) → status_of (f r) ≡ execution_status_value status)
    → (rows : List A)
    → map (λ r. (key r, status_of r)) (map (λ r. if key r == id then f r else r) rows)
      ≡ with_status id status (map (λ r. (key r, status_of r)) rows)
statuses-update key status_of id status f same moved [] = refl
statuses-update key status_of id status f same moved (r ∷ rows) =
    let rest = statuses-update key status_of id status f same moved rows in
    elim (Bool-cases (key r == id)) [
      | inl e ↦ rw (e, same r, moved r) (ap (λ l. (key r, execution_status_value status) ∷ l) rest)
      | inr e ↦ rw e (ap (λ l. (key r, status_of r) ∷ l) rest)
    ]

module _ (runs pulls : List (ℕ × String)) where
  pub record Statuses (db : Database) : Type 0 where
    pub of_runs : map run_status db.workflow_runs ≡ runs
    pub of_pulls : map pull_request_status db.pull_requests ≡ pulls

  pub Statuses-row :
      (db : Database) (rows : List AuditLog)
      → Statuses db
      → Statuses (record db { audit_logs = rows })
  Statuses-row db rows h = record { of_runs = h.of_runs; of_pulls = h.of_pulls }

  abbrev pub Has : {E : Type 0} → Shared E → Type 0
  Has s = Statuses s.db

  pub results-Statuses :
      (accepts : Accepts) (run_id : ℕ) (sha : String) (rs : List ScanResult)
      → Keeps (Both Statuses) (persist_results accepts run_id sha rs)
  unfolding commit insert_scan_run insert_finding
  results-Statuses accepts run_id sha =
      results-Keeps accepts run_id sha (Both Statuses)
        (λ id f. record {
          apply = λ s h. (h.0, record { of_runs = h.1.of_runs; of_pulls = h.1.of_pulls });
        })
        (λ r. record {
          apply = λ s h. (h.0, record { of_runs = h.1.of_runs; of_pulls = h.1.of_pulls });
        })
        (record { apply = λ s h. (h.1, h.1) })
