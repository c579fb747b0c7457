-- ===== src/Prelude/Text.antt =====
-- What the program asks of `str`: concatenation, emptiness, prefixes and simple walks.
use Prim.Native.Nat.{ℕ, zero, suc, ◌/◌, ◌%◌}
use Prim.Native.Char.{Char, char, code}
use Prim.Native.String.{String}
pub use Prim.Native.String.{◌++◌ as ◌<>◌}
pub use text.Mathlib.Text.{starts_with}
use text.Mathlib.TextLemmas.{nil-append, cons-append}
use native.Mathlib.Omega.{arith}
use mathlib.Core.Bool.{Bool, true, not, ◌&&◌}
use mathlib.Core.List.{List, [], ◌∷◌}
use mathlib.Core.Path.{◌≡◌, refl}
use partha_prime_agent.Prelude.Tests.{ltb, ◌==◌, nat_eq, string_eq, if◌then◌else◌}

-- `bool(s)`
abbrev pub truthy : String → Bool
truthy s = not (s == "")

-- `s or default`
abbrev pub str_or : String → String → String
str_or s default = if truthy s then s else default

-- `s.isascii()`
unfoldable pub is_ascii : String → Bool
is_ascii String.[] = true
is_ascii (String.◌∷◌ c s) = ltb (code c) 128 && is_ascii s

pub is_ascii-append : (s t : String) → is_ascii (s <> t) ≡ (is_ascii s && is_ascii t)
unfolding is_ascii
is_ascii-append String.[] t = rw nil-append
is_ascii-append (String.◌∷◌ c s) t = rw cons-append (ground (arith, is_ascii-append s t))

-- `s[:n]`
unfoldable pub str_take : ℕ → String → String
str_take zero s = ""
str_take (suc n) String.[] = ""
str_take (suc n) (String.◌∷◌ c s) = String.◌∷◌ c (str_take n s)

-- `str(n)` of a natural number, at most `fuel` digits.
digit : ℕ → Char
digit zero = char 48 tt
digit (suc zero) = char 49 tt
digit (suc (suc zero)) = char 50 tt
digit (suc (suc (suc zero))) = char 51 tt
digit (suc (suc (suc (suc zero)))) = char 52 tt
digit (suc (suc (suc (suc (suc zero))))) = char 53 tt
digit (suc (suc (suc (suc (suc (suc zero)))))) = char 54 tt
digit (suc (suc (suc (suc (suc (suc (suc zero))))))) = char 55 tt
digit (suc (suc (suc (suc (suc (suc (suc (suc zero)))))))) = char 56 tt
digit n = char 57 tt

digits : ℕ → ℕ → String → String
digits zero n acc = acc
digits (suc f) n acc =
    let acc' = String.◌∷◌ (digit (n % 10)) acc in
    let rest = digits f (n / 10) acc' in if ltb n 10 then acc' else rest

unfoldable pub show_ℕ : ℕ → String
unfolding digits digit
show_ℕ n = digits (suc n) n ""

show_runs : show_ℕ 1207 ≡ "1207"
unfolding show_ℕ
show_runs = refl

-- `s.split(sep)` for a separator of one character.
cons_head : Char → List String → List String
cons_head c [] = String.◌∷◌ c "" ∷ []
cons_head c (p ∷ ps) = String.◌∷◌ c p ∷ ps

unfoldable pub split : ℕ → String → List String
unfolding cons_head
split sep String.[] = "" ∷ []
split sep (String.◌∷◌ c s) =
    let pieces = split sep s in if code c == sep then "" ∷ pieces else cons_head c pieces

-- `sep.join(pieces)`
unfoldable pub join : String → List String → String
join sep [] = ""
join sep (p ∷ []) = p
join sep (p ∷ q ∷ ps) = p <> (sep <> join sep (q ∷ ps))
