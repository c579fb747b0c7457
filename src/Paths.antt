-- ===== src/Paths.antt =====
-- `pathlib.PurePosixPath`: a root and the parts below it.
use partha_prime_agent.Prelude.{
  String, Bool, Option, none, some, List, [], ◌∷◌, ◌++◌, not, ◌&&◌, ◌||◌, ◌<>◌, ◌≡◌, refl, ◌==◌,
  string_eq, filter, split, join, starts_with, if◌then◌else◌, true, false, Eq, eq_iff, ◌↔◌, arith,
}

pub record FilePath : Type 0 where
  -- "" of a relative path, "/" or "//"
  pub root : String
  pub parts : List String

abbrev pub is_absolute : FilePath → Bool
is_absolute p = not (p.root == "")

-- `Path(text)`: empty parts and single dots are dropped; two leading slashes, and no third, are kept.
unfoldable pub path : String → FilePath
path text = record {
  root =
      if starts_with text "//" && not (starts_with text "///")
      then "//"
      else if starts_with text "/"
      then "/"
      else "";
  parts = filter (λ part. not (part == "" || part == ".")) (split 47 text);
}

-- `str(path)`
unfoldable pub path_str : FilePath → String
path_str p = let text = p.root <> join "/" p.parts in if text == "" then "." else text

-- `path / text`: an absolute text replaces the path.
unfoldable pub ◌/◌ : FilePath → String → FilePath
unfolding path
p / text =
    let q = path text in
    if is_absolute q then q else record { root = p.root; parts = p.parts ++ q.parts }

infixl 70 ◌/◌
-- The parts behind a prefix, if it is one.
unfoldable pub strip_prefix : List String → List String → Option (List String)
strip_prefix [] parts = some parts
strip_prefix (q ∷ qs) [] = none
strip_prefix (q ∷ qs) (p ∷ ps) = let rest = strip_prefix qs ps in if q == p then rest else none

-- `p.relative_to(base)`: none where it raises ValueError
unfoldable pub relative_to : FilePath → FilePath → Option FilePath
unfolding strip_prefix
relative_to p base =
    if p.root == base.root
    then (elim (strip_prefix base.parts p.parts) [
      | none ↦ none
      | some rest ↦ some (record { root = ""; parts = rest })
    ])
    else none

path_runs : path_str (path "/a//./b/" / "c") ≡ "/a/b/c"
unfolding path_str ◌/◌ split join
path_runs = refl

-- `==` of two paths
abbrev same_parts : List String → List String → Bool
same_parts [] [] = true
same_parts [] (q ∷ qs) = false
same_parts (p ∷ ps) [] = false
same_parts (p ∷ ps) (q ∷ qs) = let rest = same_parts ps qs in p == q && rest

abbrev same_path : FilePath → FilePath → Bool
same_path p q = p.root == q.root && same_parts p.parts q.parts

same_parts_iff : (ps qs : List String) → (same_parts ps qs ≡ true) ↔ (ps ≡ qs)
same_parts_iff [] [] = ground arith
same_parts_iff [] (q ∷ qs) = ground arith
same_parts_iff (p ∷ ps) [] = ground arith
same_parts_iff (p ∷ ps) (q ∷ qs) = ground (arith, same_parts_iff ps qs, eq_iff p q)

pub same_path_iff : (p q : FilePath) → (same_path p q ≡ true) ↔ (p ≡ q)
same_path_iff p q = ground (arith, same_parts_iff p.parts q.parts, eq_iff p.root q.root)

instance abbrev pub path_eq : Eq FilePath
path_eq = record { same = same_path; same_iff = same_path_iff }
