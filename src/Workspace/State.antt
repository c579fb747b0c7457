-- ===== src/Workspace/State.antt =====
-- What the service asks of the machine, and the record of what it did.
use partha_prime_agent.Prelude.{ℕ, String, Bool, Option, List, [], ◌∷◌, ◌++◌}
use partha_prime_agent.Prelude.Result.{ok}
use partha_prime_agent.Prelude.Exec.{Exec}
use partha_prime_agent.Enums.{WorkspaceStatus}
use partha_prime_agent.Json.{ℤ}
use partha_prime_agent.Paths.{FilePath}
use partha_prime_agent.Models.{AuditLog}
use partha_prime_agent.Scanners.Execution.{Env, Run}

-- A call of `subprocess.run`: the arguments, the directory, the environment that is added to the
-- process's own, and the limit of time in seconds if there is one.
pub record Command : Type 0 where
  pub argv : List String
  pub cwd : Option FilePath
  pub extra_env : Env
  pub timeout : Option ℕ

-- The file system, processes and the audit writer; `S` is what they keep.
pub record Machine (S : Type 0) : Type 0 where
  pub resolve : FilePath → FilePath
  pub exists : FilePath → S → Bool
  -- `mkdir(parents=True, exist_ok=True)`
  pub mkdir : FilePath → Exec S (Unit {0})
  -- `shutil.rmtree(path, ignore_errors=True)`
  pub rmtree : FilePath → S → S
  pub write_text : FilePath → String → Exec S (Unit {0})
  pub chmod : FilePath → Exec S (Unit {0})
  pub mkdtemp : Exec S FilePath
  -- `shutil.disk_usage(path).free`, and the bytes of all files below a path
  pub disk_free : FilePath → Exec S ℕ
  pub tree_size : FilePath → Exec S ℕ
  pub run_process : Command → S → Run × S
  pub write_audit : AuditLog → Exec S (Unit {0})
  -- `sorted(root.glob("*/*/*/*"))`, `is_dir()`, `stat().st_mtime` if the path is there
  pub glob : S → List FilePath
  pub is_dir : FilePath → S → Bool
  pub mtime : FilePath → S → Option ℕ
  pub is_empty : FilePath → S → Bool
  pub rmdir : FilePath → Exec S (Unit {0})

pub record Config : Type 0 where
  pub workspace_root : FilePath
  pub clone_timeout : ℕ
  pub fetch_timeout : ℕ
  pub max_workspace_size_mb : ℤ
  pub retention_hours : ℤ
  pub max_network_retries : ℤ

-- `commands` and `sleeps` are the processes that were started and the multiples of the backoff
-- that were waited for; `history` holds the statuses that were audited.
pub record World (S : Type 0) : Type 0 where
  pub outside : S
  pub commands : List Command
  pub sleeps : List ℕ
  pub history : List WorkspaceStatus

module _ {S : Type 0} where
  abbrev pub asks : {A : Type 0} → Exec S A → Exec (World S) A
  asks m w = let r = m w.outside in (r.0, record w { outside = r.1 })

  abbrev pub looks : {A : Type 0} → (S → A) → Exec (World S) A
  looks f w = (ok (f w.outside), w)

  abbrev pub changes : (S → S) → Exec (World S) (Unit {0})
  changes f w = (ok tt, record w { outside = f w.outside })

  abbrev pub sleep : ℕ → Exec (World S) (Unit {0})
  sleep n w = (ok tt, record w { sleeps = w.sleeps ++ (n ∷ []) })

  abbrev pub notes : WorkspaceStatus → Exec (World S) (Unit {0})
  notes status w = (ok tt, record w { history = w.history ++ (status ∷ []) })

  abbrev pub starts : (Command → S → Run × S) → Command → Exec (World S) Run
  starts run_process command w =
      let r = run_process command w.outside in
      (ok r.0, record w { outside = r.1; commands = w.commands ++ (command ∷ []) })
