-- ===== src/Workspace/Stale/Sweep.antt =====
-- What a sweep removes.
use partha_prime_agent.Prelude.{
  ℕ, String, Bool, true, false, Option, List, [], ◌∷◌, ◌≡◌, sym, ap, ◌∙◌, subst, length, Bool-cases,
  inl, inr, All,
}
use partha_prime_agent.Prelude.Result.{Result}
use partha_prime_agent.Prelude.Exec.{bind_cases}
use partha_prime_agent.Prelude.Exec.Keeps.{Keeps, Keeps-bind, Keeps-pure}
use partha_prime_agent.Json.{ℤ}
use partha_prime_agent.Paths.{FilePath, path_eq}
use partha_prime_agent.Platform.{Platform}
use partha_prime_agent.Workspace.Names.{is_above}
use partha_prime_agent.Workspace.Names.Location.{extended}
use partha_prime_agent.Workspace.State.{Machine, Config, World}
use partha_prime_agent.Workspace.Stale.{
  parent, prune, prune_empty_parents, is_passed, reap, sweep, hours_or, cleanup_stale_workspaces,
}
use partha_prime_agent.Workspace.Lifecycle.{cleanup_workspace}
use partha_prime_agent.Workspace.Lifecycle.Audit.{recover-nothing}
use partha_prime_agent.Models.{AuditLog}
use partha_prime_agent.Workspace.Stale.Prune.{Snoc-view, parent-extended, prune-Keeps}

-- A path four levels below the root.
pub record IsPlace (root p : FilePath) : Type 0 where
  pub repository_id : String
  pub pull_request_id : String
  pub source_sha : String
  pub workflow_run_id : String
  pub place_is :
      p ≡ extended root (repository_id ∷ pull_request_id ∷ source_sha ∷ workflow_run_id ∷ [])

module _ {S : Type 0} (P : Platform) (M : Machine S) (C : Config) (now : ℕ) (hours : ℤ)
    (J : S → Type 0) (rows : (row : AuditLog) (s : S) → J s → J (M.write_audit row s).1)
    (dirs : (d : FilePath) (s : S)
      → is_above C.workspace_root d ≡ true
      → M.exists d s ≡ true
      → M.is_empty d s ≡ true
      → J s
      → J (M.rmdir d s).1)
    (trees : (p : FilePath) (s : S)
      → IsPlace C.workspace_root p
      → is_passed P M C now hours p s ≡ false
      → J s
      → J (M.rmtree p s)) where
  abbrev Outside : World S → Type 0
  Outside w = J w.outside

  cleanup-Keeps :
      (p : FilePath) (w : World S)
      → IsPlace C.workspace_root p
      → is_passed P M C now hours p w.outside ≡ false
      → Outside w
      → Outside (cleanup_workspace P M C p w).1
  unfolding cleanup_workspace
  cleanup-Keeps p w place expired j = elim (Bool-cases (M.exists p w.outside)) [
    | inl there ↦ rw there (
        subst (λ (o : Result (Unit {0}) × World S). Outside o.1) (sym (recover-nothing _ _))
          (rows _ _ (trees p w.outside place expired j)))
    | inr gone ↦ rw gone (
        subst (λ (o : Result (Unit {0}) × World S). Outside o.1) (sym (recover-nothing _ _))
          (rows _ _ j))
  ]

  pruned :
      (p : FilePath)
      → IsPlace C.workspace_root p
      → Keeps Outside (prune_empty_parents P M C (parent p))
  unfolding prune_empty_parents
  pruned p place =
      let parts = place.repository_id ∷ place.pull_request_id ∷ place.source_sha ∷ [] in
      let e : parent p ≡ extended C.workspace_root parts =
        ap parent place.place_is ∙ parent-extended C.workspace_root parts place.workflow_run_id in
      subst (λ q. Keeps Outside (prune P M C (length q.parts) q)) (sym e)
        (prune-Keeps P M C Outside (λ d w. dirs d w.outside) _ parts (Snoc-view parts))

  reap-Keeps : (p : FilePath) → IsPlace C.workspace_root p → Keeps Outside (reap P M C now hours p)
  unfolding reap
  reap-Keeps p place = record {
    apply = λ w j. elim (Bool-cases (is_passed P M C now hours p w.outside)) [
      | inl passed ↦ rw passed j
      | inr expired ↦ rw expired (
          bind_cases (λ (o : Result Bool × World S). Outside o.1) (cleanup_workspace P M C p) _ w
            (λ _ u e.
              (Keeps-bind Outside (prune_empty_parents P M C (parent p)) _ (pruned p place)
                  (λ _. Keeps-pure Outside true)).apply
                u
                (subst (λ (o : Result (Unit {0}) × World S). Outside o.1) e
                  (cleanup-Keeps p w place expired j)))
            (λ x u e.
              subst (λ (o : Result (Unit {0}) × World S). Outside o.1) e
                (cleanup-Keeps p w place expired j)))
    ];
  }

  sweep-Keeps :
      (ps : List FilePath)
      → All (IsPlace C.workspace_root) ps
      → Keeps Outside (sweep P M C now hours ps)
  unfolding sweep
  sweep-Keeps [] places = Keeps-pure Outside []
  sweep-Keeps (p ∷ ps) places =
      Keeps-bind Outside (reap P M C now hours p) _ (reap-Keeps p places.0) λ taken.
        Keeps-bind Outside (sweep P M C now hours ps) _ (sweep-Keeps ps places.1)
          λ cleaned. Keeps-pure Outside _

-- A sweep removes only directories four levels below the root whose retention is over, and empty
-- directories strictly below the root: whatever holds of the machine's state, if it survives such
-- a removal and the writing of audit rows, it survives the sweep. It is assumed that the glob of
-- four stars gives paths four levels below the root.
pub cleanup_stale_workspaces-Keeps :
    {S : Type 0} (P : Platform) (M : Machine S) (C : Config) (now : ℕ) (retention_hours : Option ℤ)
    (J : S → Type 0)
    → ((row : AuditLog) (s : S) → J s → J (M.write_audit row s).1)
    → ((d : FilePath) (s : S)
        → is_above C.workspace_root d ≡ true
        → M.exists d s ≡ true
        → M.is_empty d s ≡ true
        → J s
        → J (M.rmdir d s).1)
    → ((p : FilePath) (s : S)
        → IsPlace C.workspace_root p
        → is_passed P M C now (hours_or retention_hours C.retention_hours) p s ≡ false
        → J s
        → J (M.rmtree p s))
    → ((s : S) → All (IsPlace C.workspace_root) (M.glob s))
    → Keeps (λ (w : World S). J w.outside) (cleanup_stale_workspaces P M C now retention_hours)
unfolding cleanup_stale_workspaces
cleanup_stale_workspaces-Keeps {S = S} P M C now retention_hours J rows dirs trees globs = record {
  apply = λ w j. elim (Bool-cases (M.exists C.workspace_root w.outside)) [
    | inl there ↦ rw there (
        (sweep-Keeps P M C now (hours_or retention_hours C.retention_hours) J rows dirs trees
            (M.glob w.outside) (globs w.outside)).apply
          w j)
    | inr gone ↦ rw gone j
  ];
}
