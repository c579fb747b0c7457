-- ===== src/Database/Advisory.antt =====
-- Databases of the first phase: no pull request is decided and no finding blocks.
use partha_prime_agent.Prelude.{
  ℕ, false, List, [], ◌∷◌, ◌≡◌, map, All, arith, ◌==◌, nat_eq, if◌then◌else◌,
}
use partha_prime_agent.Models.{PullRequest, Finding, AuditLog}
use partha_prime_agent.Database.Defs.{Database}

abbrev pub IsPending : PullRequest → Type 0
IsPending r = r.merge_decision ≡ "pending"

abbrev pub IsUnblocked : Finding → Type 0
IsUnblocked f = f.policy_blocking ≡ false

pub record IsAdvisory (db : Database) : Type 0 where
  pub pending : All IsPending db.pull_requests
  pub unblocked : All IsUnblocked db.findings

-- A change of one row that leaves it undecided.
pub IsPending-updated :
    (id : ℕ) (f : PullRequest → PullRequest)
    → ((r : PullRequest) → IsPending r → IsPending (f r))
    → (rows : List PullRequest) → All IsPending rows
    → All IsPending (map (λ (r : PullRequest). if r.id == id then f r else r) rows)
IsPending-updated id f kept [] h = tt
IsPending-updated id f kept (r ∷ rows) h =
    let first : IsPending (if r.id == id then f r else r) = ground (arith, h.0, kept r h.0) in
    (first, IsPending-updated id f kept rows h.1)

pub IsAdvisory-audit_logs :
    (db : Database) (rows : List AuditLog)
    → IsAdvisory db
    → IsAdvisory (record db { audit_logs = rows })
IsAdvisory-audit_logs db rows h = record { pending = h.pending; unblocked = h.unblocked }
