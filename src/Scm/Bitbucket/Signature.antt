-- ===== src/Scm/Bitbucket/Signature.antt =====
-- Which webhook signatures `BitbucketProvider.validate_webhook` accepts.
use partha_prime_agent.Prelude.{
  String, true, Option, some, ◌≡◌, ◌↔◌, truthy, is_ascii, ap, refl, Bool, ◌∙◌,
}
use partha_prime_agent.Prelude.Result.{Result, ok}
use partha_prime_agent.Platform.{Platform, Bytes}
use partha_prime_agent.Scm.Defs.{ScmProviderConfig}
use partha_prime_agent.Scm.Compare.{compare_digest, compare_digest-ok, with_secret-true}
use partha_prime_agent.Scm.Bitbucket.{validate_webhook}

-- The signature is accepted exactly if a secret that is not empty is configured and the header
-- is the sha256 digest of the body under it, with no scheme in front. Digests are assumed to be
-- ASCII and not empty.
pub bitbucket_signature-true :
    (P : Platform) (config : ScmProviderConfig) (body : Bytes) (signature : Option String)
    → ((secret : String) → is_ascii (P.hmac_sha256 secret body) ≡ true)
    → ((secret : String) → truthy (P.hmac_sha256 secret body) ≡ true)
    → (validate_webhook P config body signature ≡ ok true) ↔ (
        (secret : String) × (config.webhook_secret ≡ some secret)
        × (truthy secret ≡ true)
        × (signature ≡ some (P.hmac_sha256 secret body)))
unfolding validate_webhook
bitbucket_signature-true P config body signature ascii filled =
    let check : String → String → Result Bool =
      λ secret s. compare_digest s (P.hmac_sha256 secret body) in
    let gate = with_secret-true check config.webhook_secret signature in
    (
      λ h.
          let (k, s, a, b, c, d, e) = gate.0 h in
          (k, a, b, c ∙ ap some ((compare_digest-ok s _ (ascii k)).0 e).1),
      λ (k, a, b, c). gate.1 (
        k,
        P.hmac_sha256 k body,
        a,
        b,
        c,
        filled k,
        (compare_digest-ok _ _ (ascii k)).1 (ascii k, refl),
      ),
    )
