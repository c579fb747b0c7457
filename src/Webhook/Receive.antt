-- ===== src/Webhook/Receive.antt =====
-- `WebhookService.handle_webhook` before its session: signature, decoding, parsing.
use partha_prime_agent.Prelude.{
  String, Bool, true, false, Option, none, some, [], ◌∷◌, ◌≡◌, ◌≢◌, refl, if◌then◌else◌,
}
use partha_prime_agent.Prelude.Result.{Result, ok, err, Kind, raise, ◌>>=◌}
use partha_prime_agent.Json.{Value}
use partha_prime_agent.Platform.{Platform, Bytes}
use partha_prime_agent.Scm.{PullRequestEvent, ScmProvider}

-- `json.loads(body.decode("utf-8"))`
abbrev pub decode : Option String → Result String
decode none = raise Kind.unicode_decode_error "invalid start byte"
decode (some text) = ok text

abbrev pub loads : Option Value → Result Value
loads none = raise Kind.json_decode_error "Expecting value"
loads (some v) = ok v

abbrev pub parse_body : Platform → ScmProvider → Bytes → Result (Option PullRequestEvent)
parse_body P provider body = do
  text ← decode (P.decode_utf8 body)
  payload ← loads (P.json_loads text)
  provider.parse_pull_request_event payload

unfoldable pub receive :
    Platform → ScmProvider → Bytes → Option String → Result (Option PullRequestEvent)
receive P provider [] signature = raise Kind.value_error "empty_body"
receive P provider (b ∷ bs) signature = do
  valid ← provider.validate_webhook (b ∷ bs) signature
  if valid then parse_body P provider (b ∷ bs) else raise Kind.permission_error "invalid_signature"

module _ (P : Platform) (provider : ScmProvider) (signature : Option String) where
  pub receive_unsigned :
      (body : Bytes)
      → body ≢ []
      → provider.validate_webhook body signature ≡ ok false
      → receive P provider body signature ≡ raise Kind.permission_error "invalid_signature"
  unfolding receive
  receive_unsigned [] filled rejected = absurd (filled refl)
  receive_unsigned (b ∷ bs) filled rejected = rw rejected

  pub receive_signed :
      (body : Bytes)
      → body ≢ []
      → provider.validate_webhook body signature ≡ ok true
      → receive P provider body signature ≡ parse_body P provider body
  unfolding receive
  receive_signed [] filled accepted = absurd (filled refl)
  receive_signed (b ∷ bs) filled accepted = rw accepted

  -- What passed was signed.
  pub receive-signed :
      (body : Bytes) (found : Option PullRequestEvent)
      → receive P provider body signature ≡ ok found
      → (body ≢ [])
        × (provider.validate_webhook body signature ≡ ok true)
        × (parse_body P provider body ≡ ok found)
  unfolding receive
  receive-signed [] found h = cc
  receive-signed (b ∷ bs) found h = go (provider.validate_webhook (b ∷ bs) signature) refl h
    where
      go :
          (v : Result Bool)
          → provider.validate_webhook (b ∷ bs) signature ≡ v
          → (v >>= λ valid.
              if valid
              then parse_body P provider (b ∷ bs)
              else raise Kind.permission_error "invalid_signature")
            ≡ ok found
          → ((b ∷ bs) ≢ [])
            × (provider.validate_webhook (b ∷ bs) signature ≡ ok true)
            × (parse_body P provider (b ∷ bs) ≡ ok found)
      go (ok true) e h = ((λ e. cc), e, h)
      go (ok false) e h = cc
      go (err x) e h = cc
