-- ===== src/Workspace/Lifecycle/Audit.antt =====
-- What an audit of a workspace and its removal do to the world.
use partha_prime_agent.Prelude.{String, [], ◌∷◌, ◌++◌, ◌≡◌, refl, inl, inr, Bool-cases}
use partha_prime_agent.Prelude.Result.{Result, ok, err}
use partha_prime_agent.Prelude.Exec.{recover}
use partha_prime_agent.Enums.{WorkspaceStatus}
use partha_prime_agent.Json.{Fields}
use partha_prime_agent.Paths.{FilePath}
use partha_prime_agent.Platform.{Platform}
use partha_prime_agent.Models.{AuditLog}
use partha_prime_agent.Workspace.State.{Machine, Config, World}
use partha_prime_agent.Workspace.Lifecycle.{nothing_more, record_audit_event, cleanup_workspace}

pub recover-nothing :
    {W : Type 0} (r : Result (Unit {0})) (w : W) → recover r nothing_more w ≡ (ok tt, w)
recover-nothing (ok tt) w = refl
recover-nothing (err x) w = refl

-- One row was offered to the writer, and nothing else was done.
pub record IsAudited {S : Type 0} (M : Machine S) (status : WorkspaceStatus) (w u : World S)
    : Type 0 where
  pub row : AuditLog
  pub outside_is : u.outside ≡ (M.write_audit row w.outside).1
  pub history_is : u.history ≡ w.history ++ (status ∷ [])
  pub commands_is : u.commands ≡ w.commands

module _ {S : Type 0} (P : Platform) (M : Machine S) (C : Config) where
  -- An audit never raises.
  pub audit-IsAudited :
      (action : String) (status : WorkspaceStatus) (repository pull run : String) (dir : FilePath)
      (extra : Fields) (w : World S)
      → (u : World S) × (record_audit_event P M C action status repository pull run dir extra w
          ≡ (ok tt, u))
        × IsAudited M status w u
  unfolding record_audit_event
  audit-IsAudited action status repository pull run dir extra w = (
    _,
    recover-nothing _ _,
    record { row = _; outside_is = refl; history_is = refl; commands_is = refl },
  )

  -- A removal never raises.
  pub cleanup_workspace-ok :
      (dir : FilePath) (w : World S)
      → (u : World S) × (cleanup_workspace P M C dir w ≡ (ok tt, u))
        × (u.history ≡ w.history ++ (WorkspaceStatus.cleaned ∷ []))
        × (u.commands ≡ w.commands)
  unfolding cleanup_workspace
  cleanup_workspace-ok dir w = elim (Bool-cases (M.exists dir w.outside)) [
    | inl there ↦ rw there (_, recover-nothing _ _, refl, refl)
    | inr gone ↦ rw gone (_, recover-nothing _ _, refl, refl)
  ]
