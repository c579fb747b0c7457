-- ===== src/Tests/ScmRuns.antt =====
-- Payloads and signatures of both providers.
use partha_prime_agent.Prelude.{
  String, true, Option, some, [], ◌∷◌, ◌≡◌, ◌↔◌, refl, truthy, is_ascii,
}
use partha_prime_agent.Prelude.Result.{ok}
use partha_prime_agent.Json.{pos, int, str, obj, Fields, field, end}
use partha_prime_agent.Scm.{PullRequestEvent, ScmProviderConfig, ScmProviderType}
use partha_prime_agent.Scm.Github
use partha_prime_agent.Scm.Github.Payload as GithubPayload
use partha_prime_agent.Scm.Github.Signature as GithubSignature
use partha_prime_agent.Scm.Bitbucket
use partha_prime_agent.Scm.Bitbucket.Payload as BitbucketPayload
use partha_prime_agent.Scm.Bitbucket.Signature as BitbucketSignature
use partha_prime_agent.Tests.Toy.{toy, toy_config, payload}

abbrev github_event : PullRequestEvent
github_event = record {
  event_type = "pull_request";
  repository_id = "1";
  pull_request_id = "7";
  source_branch = "feature";
  target_branch = "main";
  source_commit_sha = "aaa";
  target_commit_sha = "bbb";
  repository_full_name = "o/r";
  provider_event_id = some "opened";
}

github_event-some_example :
    (Github.parse_pull_request_event (obj (payload 7)) ≡ ok (some github_event)) ↔ (
      (p : Fields) × (obj (payload 7) ≡ obj p)
      × (action : String) × GithubPayload.Describes p github_event action)
github_event-some_example = GithubPayload.github_event-some (obj (payload 7)) github_event

-- One side of a pull request.
abbrev side : String → String → Fields
side name hash =
    field "branch" (obj (field "name" (str name) end))
      (field "commit" (obj (field "hash" (str hash) end)) end)

abbrev bitbucket_payload : Fields
bitbucket_payload = field "eventKey" (str "pr:created") (
    field "pullrequest"
      (obj (
        field "id" (int (pos 7)) (
          field "source" (obj (side "feature" "aaa"))
            (field "destination" (obj (side "main" "bbb")) end))))
      (field "repository" (obj (field "uuid" (str "{1}") (field "full_name" (str "o/r") end))) end))

abbrev bitbucket_event : PullRequestEvent
bitbucket_event = record github_event {
  repository_id = "{1}";
  provider_event_id = some "pr:created";
}

bitbucket_event-some_example :
    (Bitbucket.parse_pull_request_event (obj bitbucket_payload) ≡ ok (some bitbucket_event)) ↔ (
      (p : Fields) × (obj bitbucket_payload ≡ obj p)
      × (key : String) × BitbucketPayload.Describes p bitbucket_event key)
bitbucket_event-some_example =
    BitbucketPayload.bitbucket_event-some (obj bitbucket_payload) bitbucket_event

hex_digests : (key : String) → GithubSignature.HexDigests toy key (1 ∷ [])
unfolding is_ascii
hex_digests key = record { sha1_is_ascii = refl; sha256_is_ascii = refl }

github_signature-true_example :
    (Github.validate_webhook toy toy_config (1 ∷ []) (some "sha1=d1") ≡ ok true) ↔ (
      (secret : String) × (s : String) × (some "key" ≡ some secret)
      × (truthy secret ≡ true)
      × (some "sha1=d1" ≡ some s)
      × GithubSignature.Signs toy secret (1 ∷ []) s)
github_signature-true_example =
    GithubSignature.github_signature-true toy toy_config (1 ∷ []) (some "sha1=d1") hex_digests

abbrev bitbucket_config : ScmProviderConfig
bitbucket_config = record { provider_type = ScmProviderType.bitbucket; webhook_secret = some "key" }

digest_ascii : (secret : String) → is_ascii (toy.hmac_sha256 secret (1 ∷ [])) ≡ true
unfolding is_ascii
digest_ascii secret = refl

bitbucket_signature-true_example :
    (Bitbucket.validate_webhook toy bitbucket_config (1 ∷ []) (some "d2") ≡ ok true) ↔ (
      (secret : String) × (some "key" ≡ some secret)
      × (truthy secret ≡ true)
      × (◌≡◌ {A = Option String} (some "d2") (some "d2")))
bitbucket_signature-true_example =
    BitbucketSignature.bitbucket_signature-true toy bitbucket_config (1 ∷ []) (some "d2")
      digest_ascii (λ secret. refl)
