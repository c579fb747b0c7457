-- ===== src/Workspace/Names/Chars.antt =====
-- A component that is let through is one part of a path.
use text.Mathlib.TextEquality.{starts_with_iff}
use text.Mathlib.TextLemmas.{nil-append, cons-append}
use partha_prime_agent.Prelude.{
  ℕ, String, Bool, true, false, [], ◌∷◌, ◌++◌, ◌≡◌, refl, arith, ap, ◌&&◌, ◌<>◌, ◌==◌, nat_eq,
  string_eq, split, starts_with, inl, inr, Bool-cases, if◌then◌else◌,
}
use partha_prime_agent.Prelude.Result.{ok}
use partha_prime_agent.Paths.{FilePath, path, is_absolute, ◌/◌}
use partha_prime_agent.Workspace.Names.{all_chars, is_safe_char, is_safe_name, validate_component}

pub all_chars-append :
    (p : ℕ → Bool) (s t : String) → all_chars p (s <> t) ≡ (all_chars p s && all_chars p t)
unfolding all_chars
all_chars-append p String.[] t = rw nil-append
all_chars-append p (String.◌∷◌ c s) t = rw cons-append (ground (arith, all_chars-append p s t))

all_chars-starts_with :
    (p : ℕ → Bool) (s t : String)
    → all_chars p s ≡ true
    → all_chars p t ≡ false
    → starts_with s t ≡ false
all_chars-starts_with p s t good bad = elim (Bool-cases (starts_with s t)) [
  | inl found ↦
      let (rest, e) = (starts_with_iff s t).0 found in
      ground (arith, all_chars-append p t rest, ap (all_chars p) e)
  | inr other ↦ other
]

split-safe : (s : String) → all_chars is_safe_char s ≡ true → split 47 s ≡ s ∷ []
unfolding all_chars split
split-safe String.[] h = refl
split-safe (String.◌∷◌ c s) h = ground (arith, split-safe s)

-- What `_validate_component` lets through.
pub record IsComponent (s : String) : Type 0 where
  pub filled : (s == "") ≡ false
  pub safe : all_chars is_safe_char s ≡ true
  pub not_dot : (s == ".") ≡ false
  pub not_dots : (s == "..") ≡ false

pub validate_component-IsComponent :
    (s label : String) {u : Unit {0}} → validate_component s label ≡ ok u → IsComponent s
unfolding validate_component is_safe_name
validate_component-IsComponent s label h = ground arith

path-IsComponent : (s : String) → IsComponent s → path s ≡ record { root = ""; parts = s ∷ [] }
unfolding path all_chars
path-IsComponent s c = rw (
  all_chars-starts_with is_safe_char s "/" c.safe refl,
  all_chars-starts_with is_safe_char s "//" c.safe refl,
  split-safe s c.safe,
  c.filled,
  c.not_dot,
)

-- Such a component goes behind the parts of a path.
pub div-IsComponent :
    (p : FilePath) (s : String)
    → IsComponent s
    → p / s ≡ record { root = p.root; parts = p.parts ++ (s ∷ []) }
unfolding ◌/◌
div-IsComponent p s c =
    ap
      (λ (q : FilePath).
        if is_absolute q then q else record { root = p.root; parts = p.parts ++ q.parts })
      (path-IsComponent s c)
