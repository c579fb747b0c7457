-- ===== src/Workspace/Lifecycle/Removal.antt =====
-- What is left of a workspace whose preparation failed, and the processes that were started.
use partha_prime_agent.Prelude.{
  String, false, List, [], ◌∷◌, ◌++◌, ◌≡◌, refl, ap, ◌∙◌, subst, Bool-cases, inl, inr, All,
}
use partha_prime_agent.Prelude.Result.{Result, ok, err, Exception}
use partha_prime_agent.Prelude.Exec.{try, recover}
use partha_prime_agent.Prelude.Exec.Keeps.{Keeps}
use partha_prime_agent.Enums.{WorkspaceStatus}
use partha_prime_agent.Json.{field, end, str}
use partha_prime_agent.Redaction.{redact_secrets}
use partha_prime_agent.Paths.{FilePath}
use partha_prime_agent.Platform.{Platform}
use partha_prime_agent.Models.{AuditLog}
use partha_prime_agent.Scm.{PullRequestEvent, ScmProvider}
use partha_prime_agent.Workspace.State.{Command, Machine, Config, World, starts}
use partha_prime_agent.Workspace.Lifecycle.{
  Prepared, cleanup_workspace, fill_workspace, abandon, located, prepare_workspace,
}
use partha_prime_agent.Workspace.Lifecycle.Audit.{
  recover-nothing, audit-IsAudited, cleanup_workspace-ok,
}
use partha_prime_agent.Workspace.Lifecycle.Undisturbed.{Undisturbed, undisturbed}
use partha_prime_agent.Workspace.Lifecycle.Whole.{Keeps-prepare}
use partha_prime_agent.Workspace.Lifecycle.Keeps.{IsPermitted}

module _ {S : Type 0} (P : Platform) (M : Machine S) (C : Config)
    (removes : (p : FilePath) (s : S) → M.exists p (M.rmtree p s) ≡ false)
    (audits : (p : FilePath) (row : AuditLog) (s : S)
      → M.exists p (M.write_audit row s).1 ≡ M.exists p s) where
  -- After `cleanup_workspace` the workspace is gone.
  pub cleanup_workspace-gone :
      (dir : FilePath) (w : World S)
      → M.exists dir (cleanup_workspace P M C dir w).1.outside ≡ false
  unfolding cleanup_workspace
  cleanup_workspace-gone dir w = elim (Bool-cases (M.exists dir w.outside)) [
    | inl there ↦ rw there (
        ap (λ (o : Result (Unit {0}) × World S). M.exists dir o.1.outside) (recover-nothing _ _)
        ∙ audits dir _ _
        ∙ removes dir w.outside)
    | inr gone ↦ rw gone (
        ap (λ (o : Result (Unit {0}) × World S). M.exists dir o.1.outside) (recover-nothing _ _)
        ∙ audits dir _ _
        ∙ gone)
  ]

  module _ (provider : ScmProvider) (event : PullRequestEvent) (run_id : String) where
    abandon-gone :
        (dir : FilePath) (x : Exception) (w : World S)
        → M.exists dir (abandon P M C provider event run_id dir x w).1.outside ≡ false
    unfolding abandon
    abandon-gone dir x w =
        let (u, done, audited) =
          audit-IsAudited P M C "failure" WorkspaceStatus.failed event.repository_id
            event.pull_request_id run_id dir
            (field "error" (str (redact_secrets P.is_word x.message)) end) w in
        let (v, done', _, _) = cleanup_workspace-ok P M C dir u in
        rw (done, done')
          (subst (λ (o : Result (Unit {0}) × World S). M.exists dir o.1.outside ≡ false) done'
            (cleanup_workspace-gone dir u))

    recover-gone :
        (dir : FilePath) (r : Result Prepared) (x : Exception) (t : World S)
        → (recover r (abandon P M C provider event run_id dir) t).0 ≡ err x
        → M.exists dir (recover r (abandon P M C provider event run_id dir) t).1.outside ≡ false
    recover-gone dir (ok a) x t e = cc
    recover-gone dir (err y) x t e = abandon-gone dir y t

    by_place :
        (dir : FilePath) (w : World S)
        → located P M C provider event run_id ≡ ok dir
        → (u : World S) × (prepare_workspace P M C provider event run_id w
            ≡ try
                (fill_workspace P M C provider event run_id dir)
                (abandon P M C provider event run_id dir)
                u)
    unfolding prepare_workspace
    by_place dir w place =
        let (u, done, audited) =
          audit-IsAudited P M C "workspace_created" WorkspaceStatus.created event.repository_id
            event.pull_request_id run_id dir end w in
        (u, rw (place, done) refl)

    -- If a workspace has a place and its preparation raises, the directory is gone, whatever the
    -- retention. It is assumed that removing a tree succeeds, and that auditing creates none.
    pub prepare_workspace-gone :
        (dir : FilePath) (x : Exception) (w : World S)
        → located P M C provider event run_id ≡ ok dir
        → (prepare_workspace P M C provider event run_id w).0 ≡ err x
        → M.exists dir (prepare_workspace P M C provider event run_id w).1.outside ≡ false
    prepare_workspace-gone dir x w place raised =
        let (u, same) = by_place dir w place in
        let raised' = subst (λ (o : Result Prepared × World S). o.0 ≡ err x) same raised in
        rw same (recover-gone dir (fill_workspace P M C provider event run_id dir u).0 x _ raised')

module _ {S : Type 0} (P : Platform) (M : Machine S) (C : Config) (provider : ScmProvider)
    (event : PullRequestEvent) (run_id : String) (dir : FilePath) where
  abbrev AllPermitted : World S → Type 0
  AllPermitted w = All (IsPermitted event dir) w.commands

  All-snoc :
      (cs : List Command) (c : Command)
      → All (IsPermitted event dir) cs
      → IsPermitted event dir c
      → All (IsPermitted event dir) (cs ++ (c ∷ []))
  All-snoc [] c all h = (h, tt)
  All-snoc (d ∷ cs) c all h = (all.0, All-snoc cs c all.1 h)

  machine : Undisturbed M AllPermitted
  machine = undisturbed M AllPermitted (λ w o all. all) (λ n. record { apply = λ w all. all })

  start : (c : Command) → IsPermitted event dir c → Keeps AllPermitted (starts M.run_process c)
  start c h = record { apply = λ w all. All-snoc w.commands c all h }

  -- Every process that the preparation of a workspace at `dir` starts is git, without a
  -- credential helper, with one of a fixed set of subcommands: its arguments are commits of the
  -- event, the workspace and an address that was let through.
  pub prepare_workspace-IsPermitted :
      (w : World S)
      → located P M C provider event run_id ≡ ok dir
      → w.commands ≡ []
      → All (IsPermitted event dir) (prepare_workspace P M C provider event run_id w).1.commands
  prepare_workspace-IsPermitted w place none_yet =
      (Keeps-prepare P M C AllPermitted machine (λ status. record { apply = λ w all. all })
          (λ row. record { apply = λ w all. all }) provider event run_id
          λ d found c permitted.
            let same : d ≡ dir = cc (found, place) in
            start c (subst (λ (p : FilePath). IsPermitted event p c) same permitted)).apply
        w (rw none_yet tt)
