-- ===== src/Workspace/Lifecycle/Refusal.antt =====
-- For which events a workspace has a place, and which place.
use partha_prime_agent.Prelude.{
  String, true, false, inl, inr, ◌≡◌, ◌↔◌, refl, sym, ap, ◌∙◌, arith, eq_iff, Bool-cases, ◌==◌,
  nat_eq, string_eq,
}
use partha_prime_agent.Prelude.Result.{ok, bind_result}
use partha_prime_agent.Platform.{Platform}
use partha_prime_agent.Paths.{FilePath}
use partha_prime_agent.Scm.{PullRequestEvent, ScmProvider}
use partha_prime_agent.Workspace.Names.{
  all_chars, is_safe_char, is_hex_digit, str_length, is_sha, is_safe_name, is_above,
  validate_commit_sha, validate_component, build_workspace_path,
}
use partha_prime_agent.Workspace.Names.Chars.{IsComponent}
use partha_prime_agent.Workspace.Names.Location.{Components, below, candidate-below, components}
use partha_prime_agent.Workspace.State.{Machine, Config}
use partha_prime_agent.Workspace.Lifecycle.{located}

-- A commit's name is a component.
hex-safe : (s : String) → all_chars is_hex_digit s ≡ true → all_chars is_safe_char s ≡ true
unfolding all_chars
hex-safe String.[] h = refl
hex-safe (String.◌∷◌ c s) h = ground (arith, hex-safe s)

sha-other : (s t : String) → is_sha s ≡ true → str_length t == 40 ≡ false → (s == t) ≡ false
unfolding is_sha
sha-other s t h short = elim (Bool-cases (s == t)) [
  | inl same ↦ let e = ap str_length ((eq_iff s t).0 same) in ground (arith, e)
  | inr other ↦ other
]

sha-IsComponent : (s : String) → is_sha s ≡ true → IsComponent s
unfolding is_sha str_length
sha-IsComponent s h = record {
  filled = sha-other s "" h refl;
  safe = hex-safe s (ground arith);
  not_dot = sha-other s "." h refl;
  not_dots = sha-other s ".." h refl;
}

component-passes : (s label : String) → IsComponent s → validate_component s label ≡ ok tt
unfolding validate_component is_safe_name
component-passes s label c = ground (arith, c.filled, c.safe, c.not_dot, c.not_dots)

commit-passes : (s : String) → is_sha s ≡ true → validate_commit_sha s ≡ ok s
unfolding validate_commit_sha
commit-passes s h = rw h refl

commit-passed : (s : String) {a : String} → validate_commit_sha s ≡ ok a → is_sha s ≡ true
unfolding validate_commit_sha
commit-passed s h = ground arith

module _ {S : Type 0} (P : Platform) (M : Machine S) (C : Config) (provider : ScmProvider)
    (event : PullRequestEvent) (run_id : String) where
  -- The event and the id of the run are such that the workspace has a place, which is `dir`.
  pub record IsPlaced (dir : FilePath) : Type 0 where
    pub source : is_sha event.source_commit_sha ≡ true
    pub target : is_sha event.target_commit_sha ≡ true
    pub repository : IsComponent event.repository_id
    pub pull_request : IsComponent event.pull_request_id
    pub run : IsComponent run_id
    pub place : M.resolve (below C.workspace_root event run_id) ≡ dir
    pub inside : is_above C.workspace_root dir ≡ true

  abbrev named :
      IsComponent event.repository_id
      → IsComponent event.pull_request_id
      → is_sha event.source_commit_sha ≡ true
      → IsComponent run_id
      → Components event run_id
  named repository pull_request source run = record {
    repository = repository;
    pull_request = pull_request;
    commit = sha-IsComponent event.source_commit_sha source;
    run = run;
  }

  placed : (dir : FilePath) → located P M C provider event run_id ≡ ok dir → IsPlaced dir
  unfolding located
  placed dir h = bind_result (validate_commit_sha event.source_commit_sha) _ h λ _ a h1.
      bind_result (validate_commit_sha event.target_commit_sha) _ h1 λ _ b h2.
        let (c, kept) = components M.resolve C.workspace_root event run_id dir h2 in
        let same = candidate-below C.workspace_root event run_id c in
        record {
          source = commit-passed event.source_commit_sha a;
          target = commit-passed event.target_commit_sha b;
          repository = c.repository;
          pull_request = c.pull_request;
          run = c.run;
          place = ap M.resolve (sym same) ∙ ground (arith, kept);
          inside = ground (arith, kept);
        }

  finds : (dir : FilePath) → IsPlaced dir → located P M C provider event run_id ≡ ok dir
  unfolding located build_workspace_path
  finds dir h =
      let c = named h.repository h.pull_request h.source h.run in
      rw (
        commit-passes event.source_commit_sha h.source,
        commit-passes event.target_commit_sha h.target,
        component-passes event.repository_id "repository_id" c.repository,
        component-passes event.pull_request_id "pull_request_id" c.pull_request,
        component-passes event.source_commit_sha "source_commit_sha" c.commit,
        component-passes run_id "workflow_run_id" c.run,
        candidate-below C.workspace_root event run_id c,
        h.place,
        h.inside,
      )

  -- The workspace of a run has the place `dir` exactly if both commits are 40 digits or letters from a to f,
  -- the ids of the repository, of the pull request and of the run have none but letters, digits,
  -- dots, underscores and dashes, at least one of these, and are neither "." nor "..", and `dir` is
  -- what the root with the two ids, the source commit and the run behind it resolves to, which lies
  -- below the root.
  pub located-ok : (dir : FilePath) → (located P M C provider event run_id ≡ ok dir) ↔ IsPlaced dir
  located-ok dir = (placed dir, finds dir)
