-- ===== src/Scm/Compare.antt =====
-- `hmac.compare_digest` on two `str`.
use partha_prime_agent.Prelude.{
  String, Bool, true, false, ◌&&◌, ◌≡◌, ◌↔◌, arith, ◌==◌, string_eq, eq_iff, is_ascii,
  is_ascii-append, ◌<>◌, Option, none, some, truthy, refl, if◌then◌else◌,
}
use partha_prime_agent.Prelude.Result.{Result, ok, Kind, raise}

-- It raises TypeError unless both texts are ASCII.
unfoldable pub compare_digest : String → String → Result Bool
compare_digest a b =
    if is_ascii a && is_ascii b
    then ok (a == b)
    else raise Kind.type_error "comparing strings with non-ASCII characters is not supported"

pub compare_digest-ok :
    (a b : String)
    → is_ascii b ≡ true
    → (compare_digest a b ≡ ok true) ↔ ((is_ascii a ≡ true) × (a ≡ b))
unfolding compare_digest
compare_digest-ok a b h = (λ e. ground (arith, eq_iff a b), λ e. ground (arith, eq_iff a b))

-- Against an ASCII text, the comparison passes for that text alone.
pub compare_digest-append :
    (s p d : String)
    → is_ascii p ≡ true
    → is_ascii d ≡ true
    → (compare_digest s (p <> d) ≡ ok true) ↔ (s ≡ p <> d)
compare_digest-append s p d hp hd =
    let ascii : is_ascii (p <> d) ≡ true = ground (arith, is_ascii-append p d) in
    (
      λ e. ((compare_digest-ok s (p <> d) ascii).0 e).1,
      λ e. (compare_digest-ok s (p <> d) ascii).1 (rw e ascii, e),
    )

-- The two tests that every provider makes first: no secret or no signature, no access.
unfoldable pub with_secret :
    (String → String → Result Bool) → Option String → Option String → Result Bool
with_secret check none signature = ok false
with_secret check (some secret) none = ok false
with_secret check (some secret) (some s) =
    if truthy secret then (if truthy s then check secret s else ok false) else ok false

pub with_secret-true :
    (check : String → String → Result Bool) (config signature : Option String)
    → (with_secret check config signature ≡ ok true) ↔ (
        (secret : String) × (s : String) × (config ≡ some secret)
        × (truthy secret ≡ true)
        × (signature ≡ some s)
        × (truthy s ≡ true)
        × (check secret s ≡ ok true))
unfolding with_secret
with_secret-true check none signature = (λ h. cc, λ (k, s, a, b, c, d, e). cc)
with_secret-true check (some secret) none = (λ h. cc, λ (k, s, a, b, c, d, e). cc)
with_secret-true check (some secret) (some s) = (
  λ h. (secret, s, refl, ground arith, refl, ground arith, ground arith),
  λ (k, t, a, b, c, d, e). ground arith,
)
