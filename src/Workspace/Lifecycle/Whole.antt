-- ===== src/Workspace/Lifecycle/Whole.antt =====
-- What the machine, permitted commands and audits leave alone, a preparation and a removal do.
use partha_prime_agent.Prelude.{String, true, false, ◌≡◌, ap}
use partha_prime_agent.Prelude.Result.{Result, ok, err, Exception}
use partha_prime_agent.Prelude.Exec.{Exec, ◌>>◌, lift, pure}
use partha_prime_agent.Prelude.Exec.Keeps.{
  Keeps, Keeps-bind, Keeps-bind_ok, Keeps-pure, Keeps-lift, Keeps-try, Keeps-if,
}
use partha_prime_agent.Enums.{WorkspaceStatus}
use partha_prime_agent.Json.{Fields, field, end, str, bool}
use partha_prime_agent.Redaction.{redact_secrets}
use partha_prime_agent.Paths.{FilePath, path_str}
use partha_prime_agent.Platform.{Platform}
use partha_prime_agent.Models.{AuditLog}
use partha_prime_agent.Scm.{PullRequestEvent, ScmProvider}
use partha_prime_agent.Workspace.Names.{decompose_workspace_path}
use partha_prime_agent.Workspace.State.{
  Command, Machine, Config, World, asks, notes, starts, changes, looks,
}
use partha_prime_agent.Workspace.Lifecycle.{
  record_audit_event, cleanup_workspace, mark_processing_complete, clone_info_for, fetch_commits,
  fill_workspace, abandon, located, prepare_workspace, event_audit, nothing_more, workspace_row,
  remove_if,
}
use partha_prime_agent.Workspace.Fetch.{generate_diff, is_positive}
use partha_prime_agent.Workspace.Lifecycle.Undisturbed.{Undisturbed}
use partha_prime_agent.Workspace.Lifecycle.Keeps.{
  IsPermitted, Keeps-clone_info, Keeps-fetch_commits, Keeps-diff, clone_info-valid,
}

module _ {S : Type 0} (P : Platform) (M : Machine S) (C : Config) (I : World S → Type 0)
    (machine : Undisturbed M I) (note : (status : WorkspaceStatus) → Keeps I (notes status))
    (audits : (row : AuditLog) → Keeps I (asks (M.write_audit row))) where
  Keeps-audit :
      (action : String) (status : WorkspaceStatus) (repository pull run : String) (dir : FilePath)
      (extra : Fields)
      → Keeps I (record_audit_event P M C action status repository pull run dir extra)
  unfolding record_audit_event
  Keeps-audit action status repository pull run dir extra =
      Keeps-bind I (notes status) _ (note status) (λ _.
        Keeps-try I
          (asks (M.write_audit (workspace_row P M C action status repository pull run dir extra)))
          nothing_more (audits (workspace_row P M C action status repository pull run dir extra))
          (λ x. Keeps-pure I tt))

  pub Keeps-cleanup : (dir : FilePath) → Keeps I (cleanup_workspace P M C dir)
  unfolding cleanup_workspace
  Keeps-cleanup dir =
      Keeps-bind I (looks (M.exists dir)) _ (record { apply = λ w i. i })
        λ existed.
          Keeps-bind I (remove_if P M C existed dir) _
            (Keeps-if I existed (changes (M.rmtree dir)) (pure tt) (machine.rmtree dir)
              (Keeps-pure I tt))
            (λ _.
              let place = decompose_workspace_path M.resolve C.workspace_root dir in
              Keeps-audit "cleanup_completed" WorkspaceStatus.cleaned place.0 place.1 place.2 dir
                (field "existed" (bool existed) end))

  pub Keeps-mark : (dir : FilePath) → Keeps I (mark_processing_complete P M C dir)
  unfolding mark_processing_complete
  Keeps-mark dir =
      Keeps-if I (is_positive P M C C.retention_hours) _ _ (Keeps-pure I false)
        (Keeps-bind I (cleanup_workspace P M C dir) _ (Keeps-cleanup dir) (λ _. Keeps-pure I true))

  module _ (provider : ScmProvider) (event : PullRequestEvent) (run_id : String) where
    -- An audit, then the rest.
    Keeps-then :
        {B : Type 0} (action : String) (status : WorkspaceStatus) (dir : FilePath) (extra : Fields)
        (k : Exec (World S) B)
        → Keeps I k
        → Keeps I (event_audit P M C provider event run_id action status dir extra >> k)
    Keeps-then action status dir extra k rest =
        Keeps-bind I (event_audit P M C provider event run_id action status dir extra) (λ _. k)
          (Keeps-audit action status event.repository_id event.pull_request_id run_id dir extra)
          (λ _. rest)

    module _ (dir : FilePath)
        (start : (c : Command) → IsPermitted event dir c → Keeps I (starts M.run_process c)) where
      Keeps-fill : Keeps I (fill_workspace P M C provider event run_id dir)
      unfolding fill_workspace
      Keeps-fill =
          Keeps-bind_ok I (clone_info_for P M C provider event run_id dir) _
            (Keeps-clone_info P M C event dir I machine start provider run_id)
            λ info s u got. Keeps-then "clone_started" WorkspaceStatus.cloning dir end _ (
              Keeps-bind I (fetch_commits P M C provider event run_id dir info) _
                (Keeps-fetch_commits P M C event dir I machine start provider run_id info
                  (clone_info-valid P M C provider event run_id dir s u info got))
                λ _. Keeps-then "clone_completed" WorkspaceStatus.ready dir end _ (
                  Keeps-bind I
                    (generate_diff P M C dir event.target_commit_sha event.source_commit_sha) _
                    (Keeps-diff P M C event dir I machine start provider run_id)
                    λ diff_path.
                      Keeps-then "diff_generated" WorkspaceStatus.ready dir
                        (field "diff_path" (str (path_str diff_path)) end) _ (Keeps-pure I _)))

      Keeps-abandon : (x : Exception) → Keeps I (abandon P M C provider event run_id dir x)
      unfolding abandon
      Keeps-abandon x =
          Keeps-then "failure" WorkspaceStatus.failed dir
            (field "error" (str (redact_secrets P.is_word x.message)) end) _
            (Keeps-bind I (cleanup_workspace P M C dir) _ (Keeps-cleanup dir)
              (λ _. Keeps-lift I (err x)))

    pub Keeps-prepare :
        ((dir : FilePath)
          → located P M C provider event run_id ≡ ok dir
          → (c : Command) → IsPermitted event dir c
          → Keeps I (starts M.run_process c))
        → Keeps I (prepare_workspace P M C provider event run_id)
    unfolding prepare_workspace
    Keeps-prepare start =
        Keeps-bind_ok I (lift (located P M C provider event run_id)) _ (Keeps-lift I _)
          λ dir s u got.
            let here = start dir (ap (λ (o : Result FilePath × World S). o.0) got) in
            Keeps-then "workspace_created" WorkspaceStatus.created dir end _ (
              Keeps-try I (fill_workspace P M C provider event run_id dir) _ (Keeps-fill dir here)
                (λ x. Keeps-abandon dir here x))
