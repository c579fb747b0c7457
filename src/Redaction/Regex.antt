-- ===== src/Redaction/Regex.antt =====
-- What the program uses of Python's `re`: a pattern is one group followed by a rest, each a row of
-- atoms; repetitions take as much as they can and give back as much as they must.
use Prim.Native.Char.{Char, code}
use Prim.Native.String.{count}
use partha_prime_agent.Prelude.{
  ℕ, zero, suc, String, Bool, false, Option, none, some, List, [], ◌∷◌, ◌||◌, ◌&&◌, not, ◌+◌, ◌<>◌,
  ◌==◌, nat_eq, leb, if◌then◌else◌,
}

-- The code points that `\s` matches, and that `str.strip` removes.
unfoldable pub is_space : ℕ → Bool
is_space c =
    (leb 9 c && leb c 13)
    || (leb 28 c && leb c 32)
    || c == 133
    || c == 160
    || c == 5760
    || (leb 8192 c && leb c 8202)
    || c == 8232
    || c == 8233
    || c == 8239
    || c == 8287
    || c == 12288

mutual
  pub data Atom : Type 0 where
    -- a character of a class; the same, if there is one; at least so many of them
    chr : (ℕ → Bool) → Atom
    opt : (ℕ → Bool) → Atom
    rep : ℕ → (ℕ → Bool) → Atom
    -- `\b`
    boundary : Atom
    -- `(?:a|b)`
    either : Atoms → Atoms → Atom

  pub data Atoms : Type 0 where
    done : Atoms
    then_ : Atom → Atoms → Atoms

abbrev pub atoms : List Atom → Atoms
atoms [] = done
atoms (a ∷ rest) = then_ a (atoms rest)

abbrev pub one_of : List Atom → List Atom → Atom
one_of l r = either (atoms l) (atoms r)

pub record Pattern : Type 0 where
  pub group : List Atom
  pub rest : List Atom
  pub replacement : String

abbrev pub literal : String → List Atom
literal String.[] = []
literal (String.◌∷◌ c s) = chr (λ d. d == code c) ∷ literal s

-- A lower case ASCII letter under IGNORECASE: its capital too, U+017F for s and U+212A for k.
abbrev same_letter : ℕ → ℕ → Bool
same_letter c d =
    d == c
    || (leb 97 c && leb c 122 && (d + 32) == c)
    || (c == 115 && d == 383)
    || (c == 107 && d == 8490)

abbrev pub literal_ci : String → List Atom
literal_ci String.[] = []
literal_ci (String.◌∷◌ c s) = chr (same_letter (code c)) ∷ literal_ci s

abbrev pub repeat : ℕ → Atom → List Atom
repeat zero a = []
repeat (suc n) a = a ∷ repeat n a

-- Where a match stands: the character before, and the text ahead.
abbrev Place : Type 0
Place = Option Char × String

-- What was matched, and where that ended.
abbrev Match : Type 0
Match = String × Option Char × String

abbrev with_char : Char → Option Match → Option Match
with_char c none = none
with_char c (some (s, p, r)) = some (String.◌∷◌ c s, p, r)

abbrev or_else : Option Match → Option Match → Option Match
or_else none m = m
or_else (some x) m = some x

-- The text of what follows the group is dropped.
abbrev after_rest : Option Match → Option Match
after_rest none = none
after_rest (some (s, p, r)) = some ("", p, r)

module _ (is_word : ℕ → Bool) where
  word_at : Option Char → Bool
  word_at none = false
  word_at (some c) = is_word (code c)

  first : String → Option Char
  first String.[] = none
  first (String.◌∷◌ c s) = some c

  at_boundary : Option Char → String → Bool
  unfolding word_at first
  at_boundary before ahead =
      let a = word_at before in let b = word_at (first ahead) in (a && not b) || (not a && b)

  abbrev Rest : Type 0
  Rest = Option Char → String → Option Match

  -- One character more if that leads to a match, and the rest of the pattern if not.
  match_rep : ℕ → (ℕ → Bool) → Rest → Rest
  match_rep zero p k before String.[] = k before ""
  match_rep (suc n) p k before String.[] = none
  match_rep zero p k before (String.◌∷◌ c s) =
      let longer = with_char c (match_rep zero p k (some c) s) in
      let here = k before (String.◌∷◌ c s) in if p (code c) then or_else longer here else here
  match_rep (suc n) p k before (String.◌∷◌ c s) =
      let longer = with_char c (match_rep n p k (some c) s) in if p (code c) then longer else none

  match_chr : (ℕ → Bool) → Rest → Rest
  match_chr p k before String.[] = none
  match_chr p k before (String.◌∷◌ c s) = if p (code c) then with_char c (k (some c) s) else none

  mutual
    unfolding match_rep match_chr at_boundary

    match_atom : Atom → Rest → Rest
    match_atom (chr p) k before s = match_chr p k before s
    match_atom (opt p) k before s = or_else (match_chr p k before s) (k before s)
    match_atom (rep n p) k before s = match_rep n p k before s
    match_atom boundary k before s = if at_boundary before s then k before s else none
    match_atom (either l r) k before s =
        or_else (match_atoms l k before s) (match_atoms r k before s)

    match_atoms : Atoms → Rest → Rest
    match_atoms done k before s = k before s
    match_atoms (then_ a rest) k before s = match_atom a (match_atoms rest k) before s

  -- The text of the group, and where the whole match ends.
  match_at : Pattern → Rest
  unfolding match_atoms
  match_at p =
      match_atoms (atoms p.group)
        (λ before s. after_rest (match_atoms (atoms p.rest) (λ b r. some ("", b, r)) before s))

  -- `pattern.sub(r"\1" + replacement, text)` from a place on. A round consumes a character or more,
  -- since no pattern of the program matches the empty text.
  sub_loop : ℕ → Pattern → Option Char → String → String
  unfolding match_at
  sub_loop zero p before s = s
  sub_loop (suc fuel) p before String.[] = ""
  sub_loop (suc fuel) p before (String.◌∷◌ c s) = elim (match_at p before (String.◌∷◌ c s)) [
    | none ↦ String.◌∷◌ c (sub_loop fuel p (some c) s)
    | some (g, b, r) ↦ g <> (p.replacement <> sub_loop fuel p b r)
  ]

  unfoldable pub sub : Pattern → String → String
  unfolding sub_loop
  sub p text = sub_loop (count text) p none text
