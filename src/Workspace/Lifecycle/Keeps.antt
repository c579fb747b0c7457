-- ===== src/Workspace/Lifecycle/Keeps.antt =====
-- What the steps of a preparation between two audits leave alone, and the commands they start.
use partha_prime_agent.Prelude.{
  ℕ, suc, zero, String, Option, none, some, List, [], ◌∷◌, ◌≡◌, refl, ap, subst, truthy, ltb,
}
use partha_prime_agent.Prelude.Result.{Result, ok, err, Exception, Kind, raise}
use partha_prime_agent.Prelude.Exec.{Exec, pure, lift, bind_ok, ◌>>=◌}
use partha_prime_agent.Prelude.Exec.Keeps.{Keeps, Keeps-bind, Keeps-pure, Keeps-lift, Keeps-if}
use partha_prime_agent.Json.{pos, negsuc, ℤ}
use partha_prime_agent.Paths.{FilePath, path_str, ◌/◌}
use partha_prime_agent.Platform.{Platform}
use partha_prime_agent.Scm.{PullRequestEvent, CloneInfo, ScmProvider}
use partha_prime_agent.Scanners.Execution.{Env}
use partha_prime_agent.Workspace.Lifecycle.Undisturbed.{Undisturbed}
use partha_prime_agent.Workspace.Names.{validate_clone_url}
use partha_prime_agent.Workspace.State.{Command, Machine, Config, World, asks, sleep, starts}
use partha_prime_agent.Workspace.Git.{
  git_argv, git_result, run_git_command, retry, transient, is_transient, run_with_retries,
  run_network_git_command, try_transient, finally, with_askpass, askpass_body, askpass_dir,
  askpass_script,
}
use partha_prime_agent.Workspace.Lifecycle.{clone_info_for, fetch_commits, known}
use partha_prime_agent.Workspace.Fetch.{
  generate_diff, clone_source_commit, fetch_target_commit, verify_commit_exists,
  checkout_source_detached, ensure_disk_space_available, ensure_workspace_size_limit, below_limit,
  above_limit, verified, megabytes, is_positive,
}

-- What may follow `git -c credential.helper=` for an event and its workspace.
pub data Subcommand (event : PullRequestEvent) (workspace_path : FilePath)
    : List String → Type 0 where
  init : Subcommand event workspace_path ("init" ∷ [])
  remote :
      (url : String)
      → validate_clone_url url ≡ ok tt
      → Subcommand event workspace_path ("remote" ∷ "add" ∷ "origin" ∷ url ∷ [])
  fetch_source :
      Subcommand event workspace_path
        ("fetch" ∷ "--depth=1" ∷ "origin" ∷ event.source_commit_sha ∷ [])
  fetch_target :
      Subcommand event workspace_path
        ("fetch" ∷ "--depth=1" ∷ "origin" ∷ event.target_commit_sha ∷ [])
  verify_source :
      Subcommand event workspace_path
        ("-C" ∷ path_str workspace_path ∷ "rev-parse" ∷ "--verify" ∷ event.source_commit_sha ∷ [])
  verify_target :
      Subcommand event workspace_path
        ("-C" ∷ path_str workspace_path ∷ "rev-parse" ∷ "--verify" ∷ event.target_commit_sha ∷ [])
  checkout :
      Subcommand event workspace_path ("checkout" ∷ "--detach" ∷ event.source_commit_sha ∷ [])
  diff :
      Subcommand event workspace_path
        ("diff" ∷ "--unified=20" ∷ event.target_commit_sha ∷ event.source_commit_sha ∷ [])

pub record IsPermitted (event : PullRequestEvent) (workspace_path : FilePath) (c : Command)
    : Type 0 where
  pub arguments : List String
  pub argv_is : c.argv ≡ "git" ∷ "-c" ∷ "credential.helper=" ∷ arguments
  pub permitted : Subcommand event workspace_path arguments

module _ {S : Type 0} (P : Platform) (M : Machine S) (C : Config) (event : PullRequestEvent)
    (dir : FilePath) (I : World S → Type 0) (machine : Undisturbed M I)
    (start : (c : Command) → IsPermitted event dir c → Keeps I (starts M.run_process c)) where
  Keeps-git :
      (rest : List String) (timeout : ℕ) (env : Env)
      → Subcommand event dir rest
      → Keeps I (run_git_command P M C ("git" ∷ rest) dir timeout env)
  unfolding run_git_command git_argv
  Keeps-git rest timeout env sub =
      Keeps-bind I (starts M.run_process _) _
        (start _ (record { arguments = rest; argv_is = refl; permitted = sub }))
        (λ r. Keeps-lift I (git_result P M C r))

  Keeps-transient :
      (r : Result String) (handler : Exception → Exec (World S) String)
      → ((x : Exception) → Keeps I (handler x))
      → Keeps I (transient P M C r handler)
  Keeps-transient (ok out) handler h = Keeps-pure I out
  Keeps-transient (err x) handler h =
      Keeps-if I (is_transient x.kind) (handler x) (lift (err x)) (h x) (Keeps-lift I (err x))

  Keeps-try_transient :
      (m : Exec (World S) String) (handler : Exception → Exec (World S) String)
      → Keeps I m
      → ((x : Exception) → Keeps I (handler x))
      → Keeps I (try_transient P M C m handler)
  Keeps-try_transient m handler first second = record {
    apply = λ s i. (Keeps-transient (m s).0 handler second).apply (m s).1 (first.apply s i);
  }

  Keeps-retry :
      (left attempt : ℕ) (m : Exec (World S) String)
      → Keeps I m
      → Keeps I (retry P M C left attempt m)
  unfolding retry
  Keeps-retry zero attempt m h = Keeps-try_transient m _ h (λ x. Keeps-lift I (err x))
  Keeps-retry (suc left) attempt m h = Keeps-try_transient m _ h (λ x.
      Keeps-bind I (sleep (suc attempt)) (λ _. retry P M C left (suc attempt) m)
        (machine.waits (suc attempt)) (λ _. Keeps-retry left (suc attempt) m h))

  Keeps-retries :
      (n : ℤ) (m : Exec (World S) String) → Keeps I m → Keeps I (run_with_retries P M C n m)
  unfolding run_with_retries
  Keeps-retries (pos n) m h = Keeps-retry n 0 m h
  Keeps-retries (negsuc n) m h = Keeps-lift I _

  Keeps-finally :
      {A : Type 0} (m : Exec (World S) A) (dir : FilePath)
      → Keeps I m
      → Keeps I (finally P M C m (M.rmtree dir))
  Keeps-finally m dir h = record { apply = λ s i. (machine.rmtree dir).apply (m s).1 (h.apply s i) }

  Keeps-askpass :
      {A : Type 0} (token : Option String) (username : String) (body : Env → Exec (World S) A)
      → ((env : Env) → Keeps I (body env))
      → Keeps I (with_askpass P M C token username body)
  Keeps-askpass none username body h = h []
  Keeps-askpass (some token) username body h =
      Keeps-if I (truthy token) (askpass_dir P M C token username body) (body [])
        (Keeps-bind I (asks M.mkdtemp) _ machine.mkdtemp λ d.
          Keeps-bind I (asks (M.chmod d)) _ (machine.chmod d) λ _.
            Keeps-finally (askpass_body P M C (d / "askpass.sh") token username body) d (
              Keeps-bind I (asks (M.write_text (d / "askpass.sh") askpass_script)) _
                (machine.write_text _ _)
                λ _. Keeps-bind I (asks (M.chmod (d / "askpass.sh"))) _ (machine.chmod _) λ _. h _))
        (h [])

  Keeps-fetch :
      (rest : List String) (timeout : ℕ) (env : Env)
      → Subcommand event dir rest
      → Keeps I (run_network_git_command P M C ("git" ∷ rest) dir timeout env)
  unfolding run_network_git_command
  Keeps-fetch rest timeout env sub =
      Keeps-retries C.max_network_retries _ (Keeps-git rest timeout env sub)

  Keeps-clone :
      (url : String) (token : Option String) (username : String)
      → validate_clone_url url ≡ ok tt
      → Keeps I (clone_source_commit P M C url dir event.source_commit_sha token username)
  unfolding clone_source_commit
  Keeps-clone url token username valid = Keeps-bind I _ _ (Keeps-git _ C.clone_timeout [] init) λ _.
      Keeps-bind I _ _ (Keeps-git _ C.clone_timeout [] (remote url valid)) λ _.
        Keeps-bind I _ _
          (Keeps-askpass token username _ (λ env. Keeps-fetch _ C.clone_timeout env fetch_source))
          (λ _. Keeps-pure I tt)

  Keeps-target :
      (token : Option String) (username : String)
      → Keeps I (fetch_target_commit P M C dir event.target_commit_sha token username)
  unfolding fetch_target_commit
  Keeps-target token username =
      Keeps-bind I _ _
        (Keeps-askpass token username _ (λ env. Keeps-fetch _ C.fetch_timeout env fetch_target))
        (λ _. Keeps-pure I tt)

  Keeps-verify :
      (sha : String)
      → Subcommand event dir ("-C" ∷ path_str dir ∷ "rev-parse" ∷ "--verify" ∷ sha ∷ [])
      → Keeps I (verify_commit_exists P M C dir sha)
  unfolding verify_commit_exists
  Keeps-verify sha sub =
      Keeps-bind I _ _ (start _ (record { arguments = _; argv_is = refl; permitted = sub }))
        (λ r. Keeps-lift I (verified P M C r))

  Keeps-above :
      (limit : ℤ) (size : ℕ) (message : String) → Keeps I (above_limit P M C limit size message)
  Keeps-above (pos limit) size message =
      Keeps-if I (ltb (megabytes limit) size) (lift (raise Kind.value_error message)) (pure tt)
        (Keeps-lift I (raise Kind.value_error message)) (Keeps-pure I tt)
  Keeps-above (negsuc n) size message = Keeps-pure I tt

  Keeps-below :
      (limit : ℤ) (free : ℕ) (message : String) → Keeps I (below_limit P M C limit free message)
  Keeps-below (pos zero) free message = Keeps-pure I tt
  Keeps-below (pos (suc n)) free message =
      Keeps-if I (ltb free (megabytes (suc n))) (lift (raise Kind.value_error message)) (pure tt)
        (Keeps-lift I (raise Kind.value_error message)) (Keeps-pure I tt)
  Keeps-below (negsuc n) free message = Keeps-pure I tt

  Keeps-size : Keeps I (ensure_workspace_size_limit P M C dir)
  unfolding ensure_workspace_size_limit
  Keeps-size =
      Keeps-if I (is_positive P M C C.max_workspace_size_mb)
        (asks (M.tree_size dir) >>= λ size.
          above_limit P M C C.max_workspace_size_mb size "workspace_too_large")
        (pure tt)
        (Keeps-bind I (asks (M.tree_size dir)) _ (machine.tree_size dir)
          (λ size. Keeps-above C.max_workspace_size_mb size _))
        (Keeps-pure I tt)

  Keeps-space : Keeps I (ensure_disk_space_available P M C dir)
  unfolding ensure_disk_space_available
  Keeps-space =
      Keeps-if I (is_positive P M C C.max_workspace_size_mb)
        (asks (M.disk_free dir) >>= λ free.
          below_limit P M C C.max_workspace_size_mb free "insufficient_disk_space")
        (pure tt)
        (Keeps-bind I (asks (M.disk_free dir)) _ (machine.disk_free dir)
          (λ free. Keeps-below C.max_workspace_size_mb free _))
        (Keeps-pure I tt)

  module _ (provider : ScmProvider) (run_id : String) where
    pub Keeps-clone_info : Keeps I (clone_info_for P M C provider event run_id dir)
    unfolding clone_info_for
    Keeps-clone_info = Keeps-bind I (asks (M.mkdir dir)) _ (machine.mkdir dir) λ _.
        Keeps-bind I (lift (provider.get_clone_info event)) _ (Keeps-lift I _) λ found.
          Keeps-bind I (lift (known P M C found)) _ (Keeps-lift I _) λ info.
            Keeps-bind I (lift (validate_clone_url info.clone_url)) _ (Keeps-lift I _)
              λ _. Keeps-bind I _ _ Keeps-space (λ _. Keeps-pure I info)

    pub Keeps-fetch_commits :
        (info : CloneInfo)
        → validate_clone_url info.clone_url ≡ ok tt
        → Keeps I (fetch_commits P M C provider event run_id dir info)
    unfolding fetch_commits
    Keeps-fetch_commits info valid =
        Keeps-bind I _ _ (Keeps-clone info.clone_url info.access_token info.access_username valid)
          λ _. Keeps-bind I _ _ (Keeps-target info.access_token info.access_username) λ _.
            Keeps-bind I _ _ (Keeps-verify event.source_commit_sha verify_source) λ _.
              Keeps-bind I _ _ (Keeps-verify event.target_commit_sha verify_target)
                λ _. Keeps-bind I _ _ Keeps-size λ _. Keeps-checkout
      where
        Keeps-checkout : Keeps I (checkout_source_detached P M C dir event.source_commit_sha)
        Keeps-checkout =
            unfold checkout_source_detached in
            (Keeps-bind I _ _ (Keeps-git _ C.clone_timeout [] checkout) (λ _. Keeps-pure I tt))

    pub Keeps-diff :
        Keeps I (generate_diff P M C dir event.target_commit_sha event.source_commit_sha)
    unfolding generate_diff
    Keeps-diff = Keeps-bind I _ _ (Keeps-git _ C.clone_timeout [] diff) λ result.
        Keeps-bind I (asks (M.write_text _ result)) _ (machine.write_text _ _) (λ _. Keeps-pure I _)

-- A clone is told only an address that was let through.
pub clone_info-valid :
    {S : Type 0} (P : Platform) (M : Machine S) (C : Config) (provider : ScmProvider)
    (event : PullRequestEvent) (run_id : String) (dir : FilePath) (s u : World S) (info : CloneInfo)
    → clone_info_for P M C provider event run_id dir s ≡ (ok info, u)
    → validate_clone_url info.clone_url ≡ ok tt
unfolding clone_info_for
clone_info-valid {S = S} P M C provider event run_id dir s u info h =
    bind_ok (asks (M.mkdir dir)) _ s h λ _ s1 _ h1.
      bind_ok (lift (provider.get_clone_info event)) _ s1 h1 λ found s2 _ h2.
        bind_ok (lift (known P M C found)) _ s2 h2 λ told s3 _ h3.
          bind_ok (lift (validate_clone_url told.clone_url)) _ s3 h3 λ _ s4 e h4.
            bind_ok (ensure_disk_space_available P M C dir) _ s4 h4 λ _ s5 _ h5.
              let valid : validate_clone_url told.clone_url ≡ ok tt =
                ap (λ (o : Result (Unit {0}) × World S). o.0) e in
              let same : told ≡ info = cc (ap (λ (o : Result CloneInfo × World S). o.0) h5) in
              subst (λ (i : CloneInfo). validate_clone_url i.clone_url ≡ ok tt) same valid
