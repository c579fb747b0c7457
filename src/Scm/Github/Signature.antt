-- ===== src/Scm/Github/Signature.antt =====
-- Which webhook signatures `GitHubProvider.validate_webhook` accepts.
use text.Mathlib.TextPositions.{starts_with-append}
use text.Mathlib.TextEquality.{starts_with_iff}
use Prim.Native.Char.{Char, char, code}
use text.Mathlib.TextLemmas.{cons-append}
use partha_prime_agent.Prelude.{
  ℕ, String, true, false, Option, some, ◌≡◌, ◌≢◌, ◌↔◌, ◌⊎◌, inl, inr, ap, arith, ◌<>◌, Bool-cases,
  ◌<◌, ◌==◌, string_eq, eq_iff, starts_with, truthy, is_ascii, refl,
}
use partha_prime_agent.Prelude.Result.{ok}
use partha_prime_agent.Platform.{Platform, Bytes}
use partha_prime_agent.Scm.Defs.{ScmProviderConfig}
use partha_prime_agent.Scm.Compare.{compare_digest-append, with_secret-true}
use partha_prime_agent.Scm.Github.{check_signature, validate_webhook}

abbrev fourth : String → ℕ
fourth (String.◌∷◌ a (String.◌∷◌ b (String.◌∷◌ c (String.◌∷◌ d s)))) = code d
fourth s = 0

fourth-append :
    (a b c d : Char) (s t : String)
    → fourth (String.◌∷◌ a (String.◌∷◌ b (String.◌∷◌ c (String.◌∷◌ d s))) <> t) ≡ code d
fourth-append a b c d s t = simp cons-append

-- The two schemes never agree: their fourth characters differ.
sha1-ne-sha256 : (d r : String) → "sha1=" <> r ≢ "sha256=" <> d
sha1-ne-sha256 d r e = omega (
  arith,
  ap fourth e,
  fourth-append (char 115 tt) (char 104 tt) (char 97 tt) (char 49 tt) "=" r,
  fourth-append (char 115 tt) (char 104 tt) (char 97 tt) (char 50 tt) "56=" d,
)

starts_with-sha256 : (d : String) → starts_with ("sha256=" <> d) "sha1=" ≡ false
starts_with-sha256 d = elim (Bool-cases (starts_with ("sha256=" <> d) "sha1=")) [
  | inl e ↦
      let (r, same) = (starts_with_iff ("sha256=" <> d) "sha1=").0 e in
      absurd (sha1-ne-sha256 d r same)
  | inr e ↦ e
]

truthy_of_fourth : (s : String) → 0 < fourth s → truthy s ≡ true
truthy_of_fourth s h = elim (Bool-cases (s == "")) [
  | inl e ↦ absurd (omega (arith, ap fourth ((eq_iff s "").0 e)))
  | inr e ↦ rw e
]

module _ (P : Platform) (secret : String) (body : Bytes) where
  -- What `hexdigest` documents: its digits are ASCII.
  pub record HexDigests : Type 0 where
    pub sha1_is_ascii : is_ascii (P.hmac_sha1 secret body) ≡ true
    pub sha256_is_ascii : is_ascii (P.hmac_sha256 secret body) ≡ true

  abbrev pub Signs : String → Type 0
  Signs s = (s ≡ "sha1=" <> P.hmac_sha1 secret body) ⊎ (s ≡ "sha256=" <> P.hmac_sha256 secret body)

  check_signature_sound :
      (s : String) → HexDigests → check_signature P secret body s ≡ ok true → Signs s
  unfolding check_signature
  check_signature_sound s h e = elim (Bool-cases (starts_with s "sha1=")) [
    | inl one ↦ inl (
        (compare_digest-append s "sha1=" _ (unfold is_ascii in refl) h.sha1_is_ascii).0
          (rw one at e))
    | inr other ↦ elim (Bool-cases (starts_with s "sha256=")) [
      | inl two ↦ inr (
          (compare_digest-append s "sha256=" _ (unfold is_ascii in refl) h.sha256_is_ascii).0
            (rw (other, two) at e))
      | inr neither ↦ cc (rw (other, neither) at e)
    ]
  ]

  Signs-truthy : (s : String) → Signs s → truthy s ≡ true
  Signs-truthy s (inl e) = truthy_of_fourth s (rw e (rw fourth-append (omega arith)))
  Signs-truthy s (inr e) = truthy_of_fourth s (rw e (rw fourth-append (omega arith)))

  check_signature_complete :
      (s : String) → HexDigests → Signs s → check_signature P secret body s ≡ ok true
  unfolding check_signature
  check_signature_complete s h (inl e) = rw e (
      rw starts_with-append
        ((compare_digest-append _ "sha1=" _ (unfold is_ascii in refl) h.sha1_is_ascii).1 refl))
  check_signature_complete s h (inr e) = rw e (
      rw (starts_with-sha256, starts_with-append)
        ((compare_digest-append _ "sha256=" _ (unfold is_ascii in refl) h.sha256_is_ascii).1 refl))

-- The signature is accepted exactly if a secret that is not empty is configured and the header
-- is the sha1 or the sha256 digest of the body under it, behind its scheme. Digests are
-- assumed to be ASCII.
pub github_signature-true :
    (P : Platform) (config : ScmProviderConfig) (body : Bytes) (signature : Option String)
    → ((secret : String) → HexDigests P secret body)
    → (validate_webhook P config body signature ≡ ok true) ↔ (
        (secret : String) × (s : String) × (config.webhook_secret ≡ some secret)
        × (truthy secret ≡ true)
        × (signature ≡ some s)
        × Signs P secret body s)
unfolding validate_webhook
github_signature-true P config body signature hex =
    let gate =
      with_secret-true (λ secret s. check_signature P secret body s) config.webhook_secret
        signature in
    (
      λ h.
          let (k, s, a, b, c, d, e) = gate.0 h in
          (k, s, a, b, c, check_signature_sound P k body s (hex k) e),
      λ (k, s, a, b, c, e).
          gate.1 (
            k,
            s,
            a,
            b,
            c,
            Signs-truthy P k body s e,
            check_signature_complete P k body s (hex k) e,
          ),
    )
