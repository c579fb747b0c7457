-- ===== src/Workspace/Stale/Prune.antt =====
-- The loop over the parents of a workspace: what it removes, and that it ends.
use partha_prime_agent.Prelude.{
  false, Bool-cases, inl, inr, ℕ, zero, suc, ◌+◌, String, true, List, [], ◌∷◌, ◌++◌, ◌≡◌, refl, sym,
  fun_ext, ◌||◌, ap, ◌∙◌, subst, length, length-append, not, arith, eq_refl, if◌then◌else◌,
  append_assoc,
}
use mathlib.Core.List.{append-nil}
use partha_prime_agent.Prelude.Result.{Result, ok}
use partha_prime_agent.Prelude.Exec.{bind_cases, pure, ◌>>◌}
use partha_prime_agent.Prelude.Exec.Keeps.{Keeps, Keeps-pure}
use partha_prime_agent.Paths.{FilePath, path_eq, same_path_iff}
use partha_prime_agent.Platform.{Platform}
use partha_prime_agent.Workspace.Names.{is_above}
use partha_prime_agent.Workspace.Names.Location.{extended, strip_prefix-append}
use partha_prime_agent.Workspace.State.{Machine, Config, World, asks}
use partha_prime_agent.Workspace.Stale.{drop_last, parent, prune, prune_empty_parents, stops_at}

-- A list seen from its end.
pub data Snoc : List String → Type 0 where
  empty : Snoc []
  snoc : (xs : List String) (x : String) → Snoc xs → Snoc (xs ++ (x ∷ []))

Snoc-cons : (y : String) (xs : List String) → Snoc xs → Snoc (y ∷ xs)
Snoc-cons y xs empty = snoc [] y empty
Snoc-cons y xs (snoc init x h) = snoc (y ∷ init) x (Snoc-cons y init h)

pub Snoc-view : (xs : List String) → Snoc xs
Snoc-view [] = empty
Snoc-view (x ∷ xs) = Snoc-cons x xs (Snoc-view xs)

drop_last-snoc : (xs : List String) (x : String) → drop_last (xs ++ (x ∷ [])) ≡ xs
drop_last-snoc [] x = refl
drop_last-snoc (y ∷ []) x = refl
drop_last-snoc (y ∷ z ∷ zs) x = ap (λ rest. y ∷ rest) (drop_last-snoc (z ∷ zs) x)

pub parent-extended :
    (root : FilePath) (xs : List String) (x : String)
    → parent (extended root (xs ++ (x ∷ []))) ≡ extended root xs
parent-extended root xs x =
    ap (λ parts. record { root = root.root; parts = parts })
      (ap drop_last (sym (append_assoc root.parts xs (x ∷ [])))
        ∙ drop_last-snoc (root.parts ++ xs) x)

is_above-extended :
    (root : FilePath) (xs : List String) (x : String)
    → is_above root (extended root (xs ++ (x ∷ []))) ≡ true
unfolding is_above
is_above-extended root [] x = rw (eq_refl root.root, strip_prefix-append root.parts (x ∷ [])) refl
is_above-extended root (y ∷ ys) x =
    rw (eq_refl root.root, strip_prefix-append root.parts (y ∷ (ys ++ (x ∷ [])))) refl

module _ {S : Type 0} (P : Platform) (M : Machine S) (C : Config) where
  stops_at_root : (s : S) → stops_at P M C (extended C.workspace_root []) s ≡ true
  stops_at_root s =
      let same : extended C.workspace_root [] ≡ C.workspace_root =
        ap (λ parts. record { root = C.workspace_root.root; parts = parts })
          (append-nil C.workspace_root.parts) in
      ap
        (λ b.
          b
          || (not (M.exists (extended C.workspace_root []) s)
              || not (M.is_empty (extended C.workspace_root []) s)))
        ((same_path_iff (extended C.workspace_root []) C.workspace_root).1 same)

  prune_at_root :
      (fuel : ℕ) (w : World S) → prune P M C fuel (extended C.workspace_root []) w ≡ (ok tt, w)
  unfolding prune
  prune_at_root zero w = refl
  prune_at_root (suc fuel) w = rw (stops_at_root w.outside) refl

  -- One more turn is the same on both sides.
  prune_again :
      (m n : ℕ) (p : FilePath) (w : World S)
      → ((u : World S) → prune P M C m (parent p) u ≡ prune P M C n (parent p) u)
      → prune P M C (suc m) p w ≡ prune P M C (suc n) p w
  unfolding prune
  prune_again m n p w h =
      ap (λ rest. (if stops_at P M C p w.outside then pure tt else (asks (M.rmdir p) >> rest)) w)
        (fun_ext h)

  -- From a place `rest` below the root, more turns than `rest` has parts change nothing.
  pub prune_enough :
      (rest : List String) (k : ℕ) (w : World S)
      → prune P M C (length rest + k) (extended C.workspace_root rest) w
        ≡ prune P M C (length rest) (extended C.workspace_root rest) w
  prune_enough rest k w = go rest (Snoc-view rest) w
    where
      go :
          (rest : List String)
          → Snoc rest
          → (w : World S)
          → prune P M C (length rest + k) (extended C.workspace_root rest) w
            ≡ prune P M C (length rest) (extended C.workspace_root rest) w
      go rest empty w = prune_at_root _ w ∙ sym (prune_at_root _ w)
      go rest (snoc init x h) w =
          let e : length (init ++ (x ∷ [])) + k ≡ suc (length init + k) =
            omega (arith, length-append init (x ∷ [])) in
          let e' : length (init ++ (x ∷ [])) ≡ suc (length init) =
            omega (arith, length-append init (x ∷ [])) in
          rw (e, e')
            (prune_again (length init + k) (length init)
              (extended C.workspace_root (init ++ (x ∷ []))) w
              (λ u. rw (parent-extended C.workspace_root init x) (go init h u)))

  module _ (I : World S → Type 0)
      (removable : (d : FilePath) (w : World S)
        → is_above C.workspace_root d ≡ true
        → M.exists d w.outside ≡ true
        → M.is_empty d w.outside ≡ true
        → I w
        → I (asks (M.rmdir d) w).1) where
    -- One removal where the loop does not stop.
    removed :
        (d : FilePath) (w : World S)
        → is_above C.workspace_root d ≡ true
        → stops_at P M C d w.outside ≡ false
        → I w
        → I (asks (M.rmdir d) w).1
    removed d w above go i = removable d w above (ground arith) (ground arith) i

    pub prune-Keeps :
        (fuel : ℕ) (rest : List String)
        → Snoc rest
        → Keeps I (prune P M C fuel (extended C.workspace_root rest))
    unfolding prune
    prune-Keeps zero rest h = Keeps-pure I tt
    prune-Keeps (suc fuel) rest empty = record { apply = λ w i. rw (prune_at_root (suc fuel) w) i }
    prune-Keeps (suc fuel) rest (snoc init x h) = record {
      apply = λ w i.
          let d = extended C.workspace_root (init ++ (x ∷ [])) in
          let above = is_above-extended C.workspace_root init x in
          let next : Keeps I (prune P M C fuel (parent d)) =
            subst (λ p. Keeps I (prune P M C fuel p))
              (sym (parent-extended C.workspace_root init x)) (prune-Keeps fuel init h) in
          elim (Bool-cases (stops_at P M C d w.outside)) [
            | inl stop ↦ rw stop i
            | inr go ↦ rw go (
                bind_cases (λ (o : Result (Unit {0}) × World S). I o.1) (asks (M.rmdir d)) _ w
                  (λ _ u e.
                    next.apply u (
                      subst (λ (o : Result (Unit {0}) × World S). I o.1) e
                        (removed d w above go i)))
                  (λ _ u e.
                    subst (λ (o : Result (Unit {0}) × World S). I o.1) e (removed d w above go i)))
          ];
    }

  -- The turns that `_prune_empty_parents` is given are enough: from a place below the root, more of
  -- them change nothing.
  pub prune_empty_parents_enough :
      (rest : List String) (k : ℕ) (w : World S)
      → prune P M C
          (length (extended C.workspace_root rest).parts + k)
          (extended C.workspace_root rest)
          w
        ≡ prune_empty_parents P M C (extended C.workspace_root rest) w
  unfolding prune_empty_parents
  prune_empty_parents_enough rest k w =
      let e : length (C.workspace_root.parts ++ rest) + k
          ≡ length rest + (length C.workspace_root.parts + k) =
        omega (arith, length-append C.workspace_root.parts rest) in
      let e' : length (C.workspace_root.parts ++ rest)
          ≡ length rest + length C.workspace_root.parts =
        omega (arith, length-append C.workspace_root.parts rest) in
      ap (λ n. prune P M C n (extended C.workspace_root rest) w) e
      ∙ prune_enough rest (length C.workspace_root.parts + k) w
      ∙ sym (prune_enough rest (length C.workspace_root.parts) w)
      ∙ sym (ap (λ n. prune P M C n (extended C.workspace_root rest) w) e')
