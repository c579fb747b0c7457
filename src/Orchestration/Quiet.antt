-- ===== src/Orchestration/Quiet.antt =====
-- The default services on machines that leave the database alone.
use partha_prime_agent.Prelude.{ℕ, String, List, [], ◌∷◌, ◌++◌, ◌≡◌, sym, subst, ap, ◌∙◌}
use mathlib.Core.List.{append_assoc}
use partha_prime_agent.Prelude.Exec.{Exec}
use partha_prime_agent.Prelude.Exec.Keeps.{Keeps}
use partha_prime_agent.Paths.{FilePath}
use partha_prime_agent.Platform.{Platform}
use partha_prime_agent.Models.{AuditLog}
use partha_prime_agent.Scm.{PullRequestEvent, ScmProvider}
use partha_prime_agent.Database.{Database, commit, insert_audit_log}
use partha_prime_agent.Database.AuditWriter.{record_row}
use partha_prime_agent.Scanners.Execution.{Env, ResourceLimits}
use partha_prime_agent.Scanners.Interface.{ScanRequest}
use partha_prime_agent.Scanners.Registry.{ScannerRegistry}
use partha_prime_agent.Scanners.Runner.Machine as Runner
use partha_prime_agent.Scanners.Runner.Undisturbed as Scan
use partha_prime_agent.Workspace.State as Workspace
use partha_prime_agent.Workspace.State.{Command, World, asks, changes, starts}
use partha_prime_agent.Workspace.Lifecycle.Undisturbed as Work
use partha_prime_agent.Workspace.Lifecycle.Whole.{Keeps-mark, Keeps-prepare}
use partha_prime_agent.Orchestration.Defs.{Shared, Services}
use partha_prime_agent.Orchestration.Audited.{Audited, Audited-refl, OnlyAudit}
use partha_prime_agent.Orchestration.Wired.{
  audit_service, audited_runner, audited_workspaces, default_services,
}

module _ {E : Type 0} where
  -- A method that leaves the database alone.
  abbrev pub IsQuiet : {A : Type 0} → Exec (Shared E) A → Type 0
  IsQuiet m = (s : Shared E) → (m s).1.db ≡ s.db

  -- Directories, files, the clock and processes are not the database; what the machines would do
  -- with an audit row is not asked, since the services have a writer of their own.
  pub record QuietWorkspaces (W : Workspace.Machine (Shared E)) : Type 0 where
    pub mkdir : (p : FilePath) → IsQuiet (W.mkdir p)
    pub rmtree : (p : FilePath) (s : Shared E) → (W.rmtree p s).db ≡ s.db
    pub write_text : (p : FilePath) (text : String) → IsQuiet (W.write_text p text)
    pub chmod : (p : FilePath) → IsQuiet (W.chmod p)
    pub mkdtemp : IsQuiet W.mkdtemp
    pub disk_free : (p : FilePath) → IsQuiet (W.disk_free p)
    pub tree_size : (p : FilePath) → IsQuiet (W.tree_size p)
    pub run_process : (c : Command) (s : Shared E) → (W.run_process c s).1.db ≡ s.db

  pub record QuietRunner (M : Runner.Machine (Shared E)) : Type 0 where
    pub mkdir : (p : FilePath) → IsQuiet (M.mkdir p)
    pub rmtree : (p : FilePath) (s : Shared E) → (M.rmtree p s).db ≡ s.db
    pub write_text : (p : FilePath) (text : String) → IsQuiet (M.write_text p text)
    pub now : (s : Shared E) → (M.now s).1.db ≡ s.db
    pub execute :
        (command : List String) (cwd : FilePath) (env : Env) (limits : ResourceLimits)
        → IsQuiet (M.execute command cwd env limits)

module _ {E : Type 0} (P : Platform) (W : Workspace.Machine (Shared E))
    (settings : Workspace.Config) (M : Runner.Machine (Shared E))
    (config : Runner.ScannerRuntimeConfig) (registry : ScannerRegistry)
    (schedule : ScanRequest → List ℕ) (quiet_workspaces : QuietWorkspaces W)
    (quiet_runner : QuietRunner M) where
  abbrev services : Services E
  services = default_services P W settings M config registry schedule

  abbrev writer : AuditLog → Exec (Shared E) (Unit {0})
  writer = audit_service P W settings M config registry schedule

  abbrev workspaces : Workspace.Machine (Shared E)
  workspaces = audited_workspaces P W settings M config registry schedule

  abbrev runner : Runner.Machine (Shared E)
  runner = audited_runner P W settings M config registry schedule

  -- What an audit row leaves alone, the services leave alone.
  module _ (I : Database → Type 0)
      (row_kept : (db : Database) (row : AuditLog)
        → I db
        → I (record db { audit_logs = db.audit_logs ++ (row ∷ []) })) where
    same : {s t : Database} → t ≡ s → I s → I t
    same e i = subst I (sym e) i

    writer-Keeps : (row : AuditLog) → Keeps (λ (s : Shared E). I s.db) (writer row)
    unfolding audit_service record_row insert_audit_log commit
    writer-Keeps row = record { apply = λ s i. row_kept s.db _ i }

    workspaces-Undisturbed : Work.Undisturbed workspaces (λ (w : World (Shared E)). I w.outside.db)
    workspaces-Undisturbed = record {
      mkdir = λ p. record { apply = λ w i. same (quiet_workspaces.mkdir p w.outside) i };
      rmtree = λ p. record { apply = λ w i. same (quiet_workspaces.rmtree p w.outside) i };
      write_text =
          λ p text. record { apply = λ w i. same (quiet_workspaces.write_text p text w.outside) i };
      chmod = λ p. record { apply = λ w i. same (quiet_workspaces.chmod p w.outside) i };
      mkdtemp = record { apply = λ w i. same (quiet_workspaces.mkdtemp w.outside) i };
      disk_free = λ p. record { apply = λ w i. same (quiet_workspaces.disk_free p w.outside) i };
      tree_size = λ p. record { apply = λ w i. same (quiet_workspaces.tree_size p w.outside) i };
      waits = λ n. record { apply = λ w i. i };
    }

    runner-Undisturbed : Scan.Undisturbed runner (λ (s : Shared E). I s.db)
    runner-Undisturbed = record {
      mkdir = λ p. record { apply = λ s i. same (quiet_runner.mkdir p s) i };
      rmtree = λ p s i. same (quiet_runner.rmtree p s) i;
      write_text = λ p text. record { apply = λ s i. same (quiet_runner.write_text p text s) i };
      now = λ s i. same (quiet_runner.now s) i;
      execute = λ command cwd env limits. record {
        apply = λ s i. same (quiet_runner.execute command cwd env limits s) i;
      };
      write_audit = writer-Keeps;
    }

    abbrev J : World (Shared E) → Type 0
    J w = I w.outside.db

    prepare-Keeps :
        (provider : ScmProvider) (event : PullRequestEvent) (run_id : String)
        → Keeps (λ (s : Shared E). I s.db) (services.prepare_workspace provider event run_id)
    unfolding default_services
    prepare-Keeps provider event run_id = record {
      apply = λ s i.
          (Keeps-prepare P workspaces settings J workspaces-Undisturbed
              (λ status. record { apply = λ w h. h })
              (λ row. record { apply = λ w h. (writer-Keeps row).apply w.outside h }) provider event
              run_id
              (λ dir e c permitted. record {
                apply = λ w h. same (quiet_workspaces.run_process c w.outside) h;
              })).apply
            (record { outside = s; commands = []; sleeps = []; history = [] }) i;
    }

    release-Keeps :
        (dir : FilePath) → Keeps (λ (s : Shared E). I s.db) (services.mark_processing_complete dir)
    unfolding default_services
    release-Keeps dir = record {
      apply = λ s i.
          (Keeps-mark P workspaces settings J workspaces-Undisturbed
              (λ status. record { apply = λ w h. h })
              (λ row. record { apply = λ w h. (writer-Keeps row).apply w.outside h }) dir).apply
            (record { outside = s; commands = []; sleeps = []; history = [] }) i;
    }

    scan-Keeps :
        (request : ScanRequest) → Keeps (λ (s : Shared E). I s.db) (services.run_scan request)
    unfolding default_services
    scan-Keeps request =
        Scan.Keeps-run_scan P runner config (λ (s : Shared E). I s.db) runner-Undisturbed request
          registry (schedule request)

  Audited-row :
      (db after : Database) (row : AuditLog)
      → Audited db after
      → Audited db (record after { audit_logs = after.audit_logs ++ (row ∷ []) })
  Audited-row db after row h = record {
    rows = h.rows ++ (row ∷ []);
    same =
        ap (λ (d : Database). record d { audit_logs = d.audit_logs ++ (row ∷ []) }) h.same
        ∙ ap (λ l. record db { audit_logs = l }) (append_assoc db.audit_logs h.rows (row ∷ []));
  }

  -- On machines that leave the database alone, the default services write nothing to it but audit
  -- rows behind those that are there, however they end.
  pub default_services-OnlyAudit : OnlyAudit services
  unfolding default_services audit_service
  default_services-OnlyAudit = record {
    prepares = λ provider event run_id s.
        (prepare-Keeps (Audited s.db) (Audited-row s.db) provider event run_id).apply s
          (Audited-refl s.db);
    scans = λ request s.
        (scan-Keeps (Audited s.db) (Audited-row s.db) request).apply s (Audited-refl s.db);
    releases =
        λ dir s. (release-Keeps (Audited s.db) (Audited-row s.db) dir).apply s (Audited-refl s.db);
    writes =
        λ row s. (writer-Keeps (Audited s.db) (Audited-row s.db) row).apply s (Audited-refl s.db);
  }
