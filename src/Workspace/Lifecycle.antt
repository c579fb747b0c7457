-- ===== src/Workspace/Lifecycle.antt =====
-- A workspace from its preparation to its removal.
pub mod Audit
pub mod Undisturbed
pub mod Keeps
pub mod Whole
pub mod History
pub mod Removal
pub mod Refusal
use partha_prime_agent.Prelude.{
  ℕ, suc, zero, ◌+◌, ◌*◌, String, Bool, true, false, Option, none, some, List, [], ◌∷◌, ◌++◌, ◌<>◌,
  ◌==◌, string_eq, not, ltb, truthy, str_or, ◌||◌, ◌&&◌, if◌then◌else◌,
}
use partha_prime_agent.Prelude.Result.{Result, ok, err, Exception, Kind, raise, ◌>>=◌ as ◌then◌}
use partha_prime_agent.Prelude.Exec.{Exec, pure, lift, try, ◌>>=◌, ◌>>◌}
use partha_prime_agent.Enums.{WorkspaceStatus, workspace_status_value}
use partha_prime_agent.Json.{ℤ, pos, negsuc, str, bool, obj, Fields, field, end, update_fields}
use partha_prime_agent.Paths.{FilePath, path_str, ◌/◌}
use partha_prime_agent.Platform.{Platform}
use partha_prime_agent.Models.{AuditLog}
use partha_prime_agent.Redaction.{redact_secrets}
use partha_prime_agent.Scm.{PullRequestEvent, CloneInfo, ScmProvider}
use partha_prime_agent.Scanners.Execution.{Env, Run, completed, timed_out, file_not_found, raises}
use partha_prime_agent.Workspace.Names.{
  build_workspace_path, decompose_workspace_path, validate_commit_sha, validate_clone_url,
}
use partha_prime_agent.Workspace.State.{
  Command, Machine, Config, World, asks, looks, changes, notes, starts,
}
use partha_prime_agent.Workspace.Fetch.{
  is_positive, ensure_disk_space_available, ensure_workspace_size_limit, verify_commit_exists,
  clone_source_commit, fetch_target_commit, checkout_source_detached, generate_diff,
}
use partha_prime_agent.Workspace.Git.{
  git_argv, is_zero, run_git_command, run_network_git_command, with_askpass,
}

abbrev pub nothing_more {ℓ} : {S : Type ℓ} → Exception → Exec S (Unit {0})
nothing_more x = pure tt

-- The dict that `prepare_workspace` returns.
pub record Prepared : Type 0 where
  pub status : String
  pub workspace_path : String
  pub diff_path : String

module _ {S : Type 0} (P : Platform) (M : Machine S) (C : Config) where
  -- The row of `_record_audit_event`.
  unfoldable pub workspace_row :
      String → WorkspaceStatus → String → String → String → FilePath → Fields → AuditLog
  unfolding workspace_status_value update_fields
  workspace_row action status repository_id pull_request_id workflow_run_id workspace_path extra =
      let repository = str_or repository_id "unknown" in
      let pull_request = str_or pull_request_id "unknown" in
      let workflow_run = str_or workflow_run_id "unknown" in
      record {
        entity_type = "repository_workspace";
        entity_id = repository <> (":" <> (pull_request <> (":" <> workflow_run)));
        action = action;
        actor = some "system";
        metadata_json = some (
            redact_secrets P.is_word (
              P.json_dumps (
                obj (
                  update_fields extra (
                    field "workflow_run_id" (str workflow_run) (
                      field "repository_id" (str repository) (
                        field "pull_request_id" (str pull_request) (
                          field "workspace_path" (str (path_str workspace_path))
                            (field "status" (str (workspace_status_value status)) end)))))))));
      }

  -- `_record_audit_event`: a failure of the writer is logged only.
  unfoldable pub record_audit_event :
      String
      → WorkspaceStatus
      → String
      → String
      → String
      → FilePath
      → Fields
      → Exec (World S) (Unit {0})
  unfolding workspace_row
  record_audit_event action status repository_id pull_request_id workflow_run_id workspace_path
        extra =
      do
        notes status
        try
            (asks (
              M.write_audit (
                workspace_row action status repository_id pull_request_id workflow_run_id
                  workspace_path extra)))
            nothing_more

  abbrev pub remove_if : Bool → FilePath → Exec (World S) (Unit {0})
  remove_if existed workspace_path = if existed then changes (M.rmtree workspace_path) else pure tt

  unfoldable pub cleanup_workspace : FilePath → Exec (World S) (Unit {0})
  unfolding record_audit_event
  cleanup_workspace workspace_path = do
    existed ← looks (M.exists workspace_path)
    remove_if existed workspace_path
    let (repository, pull_request, workflow_run) =
        decompose_workspace_path M.resolve C.workspace_root workspace_path
    record_audit_event "cleanup_completed" WorkspaceStatus.cleaned repository pull_request
        workflow_run workspace_path (field "existed" (bool existed) end)

  -- `retention_hours <= 0` means at once.
  unfoldable pub mark_processing_complete : FilePath → Exec (World S) Bool
  unfolding cleanup_workspace
  mark_processing_complete workspace_path =
      if is_positive P M C C.retention_hours
      then pure false
      else cleanup_workspace workspace_path >> pure true

  abbrev pub known : Option CloneInfo → Result CloneInfo
  known none = raise Kind.value_error "clone_info_unavailable"
  known (some info) = ok info

  module _ (provider : ScmProvider) (event : PullRequestEvent) (workflow_run_id : String) where
    abbrev pub event_audit :
        String → WorkspaceStatus → FilePath → Fields → Exec (World S) (Unit {0})
    event_audit action status workspace_path extra =
        record_audit_event action status event.repository_id event.pull_request_id workflow_run_id
          workspace_path extra

    -- The body of the `try` of `prepare_workspace`, up to the cloning, of it, and behind it.
    unfoldable pub clone_info_for : FilePath → Exec (World S) CloneInfo
    clone_info_for workspace_path = do
      asks (M.mkdir workspace_path)
      found ← lift (provider.get_clone_info event)
      info ← lift (known found)
      lift (validate_clone_url info.clone_url)
      ensure_disk_space_available P M C workspace_path
      pure info

    unfoldable pub fetch_commits : FilePath → CloneInfo → Exec (World S) (Unit {0})
    fetch_commits workspace_path info = do
      clone_source_commit P M C info.clone_url workspace_path event.source_commit_sha
          info.access_token info.access_username
      fetch_target_commit P M C workspace_path event.target_commit_sha info.access_token
          info.access_username
      verify_commit_exists P M C workspace_path event.source_commit_sha
      verify_commit_exists P M C workspace_path event.target_commit_sha
      ensure_workspace_size_limit P M C workspace_path
      checkout_source_detached P M C workspace_path event.source_commit_sha

    unfoldable pub fill_workspace : FilePath → Exec (World S) Prepared
    unfolding clone_info_for fetch_commits
    fill_workspace workspace_path = do
      info ← clone_info_for workspace_path
      event_audit "clone_started" WorkspaceStatus.cloning workspace_path end
      fetch_commits workspace_path info
      event_audit "clone_completed" WorkspaceStatus.ready workspace_path end
      diff_path ← generate_diff P M C workspace_path event.target_commit_sha event.source_commit_sha
      event_audit "diff_generated" WorkspaceStatus.ready workspace_path
          (field "diff_path" (str (path_str diff_path)) end)
      pure (record {
        status = workspace_status_value WorkspaceStatus.ready;
        workspace_path = path_str workspace_path;
        diff_path = path_str diff_path;
      })

    -- The handler: audited, removed, raised again.
    unfoldable pub abandon : FilePath → Exception → Exec (World S) Prepared
    unfolding cleanup_workspace
    abandon workspace_path x = do
      event_audit "failure" WorkspaceStatus.failed workspace_path
          (field "error" (str (redact_secrets P.is_word x.message)) end)
      cleanup_workspace workspace_path
      lift (err x)

    unfoldable pub located : Result FilePath
    located = (validate_commit_sha event.source_commit_sha) then λ _.
        (validate_commit_sha event.target_commit_sha) then λ _.
        build_workspace_path M.resolve C.workspace_root event workflow_run_id

    unfoldable pub prepare_workspace : Exec (World S) Prepared
    unfolding located fill_workspace abandon
    prepare_workspace = do
      workspace_path ← lift located
      event_audit "workspace_created" WorkspaceStatus.created workspace_path end
      try (fill_workspace workspace_path) (abandon workspace_path)
