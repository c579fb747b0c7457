-- ===== src/Tests/Toy.antt =====
-- A platform on which the code can be run: bytes are told apart by the first.
use partha_prime_agent.Prelude.{
  ℕ, zero, suc, String, true, false, Option, none, some, [], ◌∷◌, ◌==◌, string_eq, if◌then◌else◌,
}
use partha_prime_agent.Prelude.Result.{ok}
use partha_prime_agent.Json.{Value, pos, int, str, obj, Fields, field, end}
use partha_prime_agent.Platform.{Platform, Host, Bytes}
use partha_prime_agent.Scm.{ScmProviderConfig, ScmProviderType}
use partha_prime_agent.Scm.Github.{github_provider}
use partha_prime_agent.Database.{Database}
use partha_prime_agent.Webhook.Idempotence.{Request}

-- A GitHub payload about a pull request.
abbrev pub payload : ℕ → Fields
payload pull = field "action" (str "opened") (
    field "pull_request"
      (obj (
        field "id" (int (pos pull)) (
          field "head" (obj (field "ref" (str "feature") (field "sha" (str "aaa") end)))
            (field "base" (obj (field "ref" (str "main") (field "sha" (str "bbb") end))) end))))
      (field "repository" (obj (field "id" (int (pos 1)) (field "full_name" (str "o/r") end))) end))

abbrev pub text_of : Bytes → Option String
text_of [] = none
text_of (suc zero ∷ bs) = some "first"
text_of (suc (suc zero) ∷ bs) = some "second"
text_of (b ∷ bs) = some "number"

abbrev pub value_of : String → Option Value
value_of text =
    if text == "first"
    then some (obj (payload 7))
    else if text == "second"
    then some (obj (payload 8))
    else some (int (pos 3))

abbrev pub hash_of : Bytes → String
hash_of (suc zero ∷ bs) = "h1"
hash_of (suc (suc zero) ∷ bs) = "h2"
hash_of bs = "h3"

abbrev pub toy : Platform
toy = record {
  hmac_sha256 = λ secret body. "d2";
  hmac_sha1 = λ secret body. "d1";
  sha256 = hash_of;
  encode_utf8 = λ text. [];
  decode_utf8 = text_of;
  json_loads = value_of;
  json_dumps = λ v. "{}";
  repr = λ v. "v";
  uuid_str = λ n. "u";
  json_error = λ text. "e";
  lower = λ s. s;
  upper = λ s. s;
  is_word = λ c. false;
}

abbrev pub toy_host : Host
toy_host = record { resolve = λ p. p; exists = λ p. true; read_text = λ p. ok "[]" }

abbrev pub toy_config : ScmProviderConfig
toy_config = record { provider_type = ScmProviderType.github; webhook_secret = some "key" }

abbrev pub empty_db : Database
empty_db = record {
  repositories = [];
  pull_requests = [];
  webhook_events = [];
  workflow_runs = [];
  audit_logs = [];
  scan_runs = [];
  findings = [];
  next_id = 0;
}

unfoldable pub request_of : Bytes → String → Request
request_of body correlation_id = record {
  provider = github_provider toy toy_config;
  clock = λ n. n;
  body = body;
  signature = some "sha256=d2";
  correlation_id = correlation_id;
  background = true;
}
