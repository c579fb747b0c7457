-- ===== src/Workspace/Names/Location.antt =====
-- Where the workspace of a run lies, and what is read from its path.
use partha_prime_agent.Prelude.{
  String, true, some, List, [], ◌∷◌, ◌++◌, ◌≡◌, refl, sym, eq_refl, append_assoc, arith, ap, ◌∙◌,
}
use partha_prime_agent.Prelude.Result.{ok, bind_result}
use partha_prime_agent.Paths.{FilePath, strip_prefix, relative_to}
use partha_prime_agent.Scm.{PullRequestEvent}
use partha_prime_agent.Workspace.Names.{
  validate_component, is_above, candidate_path, contained, build_workspace_path, decomposed,
  name_of, decompose_workspace_path,
}
use partha_prime_agent.Workspace.Names.Chars.{
  IsComponent, validate_component-IsComponent, div-IsComponent,
}

pub strip_prefix-append : (xs ys : List String) → strip_prefix xs (xs ++ ys) ≡ some ys
unfolding strip_prefix
strip_prefix-append [] ys = refl
strip_prefix-append (x ∷ xs) ys = rw (eq_refl x) (strip_prefix-append xs ys)

-- The components of a workspace's path, all let through.
pub record Components (event : PullRequestEvent) (run_id : String) : Type 0 where
  pub repository : IsComponent event.repository_id
  pub pull_request : IsComponent event.pull_request_id
  pub commit : IsComponent event.source_commit_sha
  pub run : IsComponent run_id

abbrev pub extended : FilePath → List String → FilePath
extended p parts = record { root = p.root; parts = p.parts ++ parts }

abbrev pub below : FilePath → PullRequestEvent → String → FilePath
below root event run_id = record {
  root = root.root;
  parts =
      root.parts
      ++ (event.repository_id ∷ event.pull_request_id ∷ event.source_commit_sha ∷ run_id ∷ []);
}

pub candidate-below :
    (root : FilePath) (event : PullRequestEvent) (run_id : String)
    → Components event run_id
    → candidate_path root event run_id ≡ below root event run_id
unfolding candidate_path
candidate-below root event run_id c = rw (
  div-IsComponent root event.repository_id c.repository,
  div-IsComponent (extended root (event.repository_id ∷ [])) event.pull_request_id c.pull_request,
  append_assoc,
  div-IsComponent (extended root (event.repository_id ∷ event.pull_request_id ∷ []))
      event.source_commit_sha c.commit,
  append_assoc,
  div-IsComponent
      (extended root (event.repository_id ∷ event.pull_request_id ∷ event.source_commit_sha ∷ []))
      run_id c.run,
  append_assoc,
)

module _ (resolve : FilePath → FilePath) (root : FilePath) (event : PullRequestEvent)
    (run_id : String) (p : FilePath)
    (built : build_workspace_path resolve root event run_id ≡ ok p) where
  pub components :
      Components event run_id
      × (contained resolve root (resolve (candidate_path root event run_id)) ≡ ok p)
  unfolding build_workspace_path
  components =
      bind_result (validate_component event.repository_id "repository_id") _ built λ _ a h1.
        bind_result (validate_component event.pull_request_id "pull_request_id") _ h1 λ _ b h2.
          bind_result (validate_component event.source_commit_sha "source_commit_sha") _ h2
            λ _ c h3. bind_result (validate_component run_id "workflow_run_id") _ h3 λ _ d h4. (
              record {
                repository = validate_component-IsComponent event.repository_id "repository_id" a;
                pull_request =
                    validate_component-IsComponent event.pull_request_id "pull_request_id" b;
                commit =
                    validate_component-IsComponent event.source_commit_sha "source_commit_sha" c;
                run = validate_component-IsComponent run_id "workflow_run_id" d;
              },
              h4,
            )

  -- The path that is built lies below the root, wherever links lead.
  pub build_workspace_path-is_above : is_above root p ≡ true
  build_workspace_path-is_above = ground (arith, components.1)

  module _
      (unlinked : resolve (candidate_path root event run_id)
        ≡ candidate_path root event run_id) where
    -- Without symbolic links in the way, the path is the root with the four components behind it.
    pub build_workspace_path-below : p ≡ below root event run_id
    build_workspace_path-below =
        let (c, inside) = components in
        let e : resolve (candidate_path root event run_id) ≡ p = ground (arith, inside) in
        sym e ∙ unlinked ∙ candidate-below root event run_id c

    relative :
        relative_to (below root event run_id) root
        ≡ some (record {
          root = "";
          parts =
              event.repository_id ∷ event.pull_request_id ∷ event.source_commit_sha ∷ run_id ∷ [];
        })
    unfolding relative_to
    relative = rw (eq_refl root.root, strip_prefix-append root.parts _)

    -- What is read from the path of a workspace is what the path was built from.
    pub decompose-build_workspace_path :
        decompose_workspace_path resolve root p
        ≡ (event.repository_id, event.pull_request_id, run_id)
    unfolding decompose_workspace_path
    decompose-build_workspace_path =
        let e : p ≡ candidate_path root event run_id =
          build_workspace_path-below ∙ sym (candidate-below root event run_id components.0) in
        let fixed : resolve p ≡ below root event run_id =
          ap resolve e ∙ unlinked ∙ sym e ∙ build_workspace_path-below in
        ap (decomposed resolve root (name_of resolve root p.parts))
          (ap (λ q. relative_to q root) fixed ∙ relative)

tails_of_below :
    (root : FilePath) (xs ys : List String) → extended root xs ≡ extended root ys → xs ≡ ys
tails_of_below root xs ys e = cc (
  strip_prefix-append root.parts xs,
  strip_prefix-append root.parts ys,
  ap (λ (p : FilePath). strip_prefix root.parts p.parts) e,
)

-- Without symbolic links in the way, two runs are given the same workspace only if they are about
-- the same repository, pull request and commit and have the same id.
pub build_workspace_path-injective :
    (resolve : FilePath → FilePath) (root p : FilePath) (event event' : PullRequestEvent)
    (run_id run_id' : String)
    → build_workspace_path resolve root event run_id ≡ ok p
    → build_workspace_path resolve root event' run_id' ≡ ok p
    → resolve (candidate_path root event run_id) ≡ candidate_path root event run_id
    → resolve (candidate_path root event' run_id') ≡ candidate_path root event' run_id'
    → (event.repository_id ≡ event'.repository_id)
      × (event.pull_request_id ≡ event'.pull_request_id)
      × (event.source_commit_sha ≡ event'.source_commit_sha)
      × (run_id ≡ run_id')
build_workspace_path-injective resolve root p event event' run_id run_id' built built' free free' =
    let e : below root event run_id ≡ below root event' run_id' =
      sym (build_workspace_path-below resolve root event run_id p built free)
      ∙ build_workspace_path-below resolve root event' run_id' p built' free' in
    ground (arith, tails_of_below root _ _ e)
