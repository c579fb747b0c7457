-- ===== src/Scm/Bitbucket.antt =====
-- src/protecto_prime_agent/integrations/bitbucket.py: `BitbucketProvider`
pub mod Payload
pub mod Signature
use partha_prime_agent.Prelude.{
  String, Bool, Option, none, some, List, [], ◌∷◌, ◌<>◌, contains, string_eq,
}
use partha_prime_agent.Prelude.Result.{Result, ok, Kind, raise}
use partha_prime_agent.Prelude.Maybe.{◌>>=◌, ◌>>◌, guard}
use partha_prime_agent.Json.{Value, obj, Fields, get, as_dict, as_str, as_nonempty_str, as_int_str}
use partha_prime_agent.Platform.{Platform, Bytes}
use partha_prime_agent.Scm.Defs.{ScmProviderConfig, PullRequestEvent, CloneInfo, ScmProvider}
use partha_prime_agent.Scm.Compare.{compare_digest, with_secret}

abbrev pub supported_events : List String
supported_events = "pr:created" ∷ "pr:updated" ∷ "pr:reopened" ∷ "pr:changed" ∷ []

abbrev pub target_branches : List String
target_branches = "main" ∷ "master" ∷ "develop" ∷ []

unfoldable pub validate_webhook : Platform → ScmProviderConfig → Bytes → Option String → Result Bool
unfolding with_secret
validate_webhook P config body =
    with_secret (λ secret s. compare_digest s (P.hmac_sha256 secret body)) config.webhook_secret

-- `parse_pull_request_event` of a dict; `none` is `return None`.
unfoldable pub parse_payload : Fields → Option PullRequestEvent
parse_payload payload = do
  event_key ← as_str (get "eventKey" payload)
  guard (contains supported_events event_key)
  pull_request ← as_dict (get "pullrequest" payload)
  destination ← as_dict (get "destination" pull_request)
  branch ← as_dict (get "branch" destination)
  target_branch ← as_str (get "name" branch)
  guard (contains target_branches target_branch)
  source ← as_dict (get "source" pull_request)
  source_branch ← as_dict (get "branch" source)
  source_branch_name ← as_nonempty_str (get "name" source_branch)
  source_commit ← as_dict (get "commit" source)
  target_commit ← as_dict (get "commit" destination)
  source_commit_sha ← as_str (get "hash" source_commit)
  target_commit_sha ← as_str (get "hash" target_commit)
  repository ← as_dict (get "repository" payload)
  repository_uuid ← as_nonempty_str (get "uuid" repository)
  full_name ← as_nonempty_str (get "full_name" repository)
  pr_id ← as_int_str (get "id" pull_request)
  some (record {
    event_type = "pull_request";
    repository_id = repository_uuid;
    pull_request_id = pr_id;
    source_branch = source_branch_name;
    target_branch = target_branch;
    source_commit_sha = source_commit_sha;
    target_commit_sha = target_commit_sha;
    repository_full_name = full_name;
    provider_event_id = some event_key;
  })

-- `payload.get` of what is no dict raises AttributeError.
unfoldable pub parse_pull_request_event : Value → Result (Option PullRequestEvent)
unfolding parse_payload
parse_pull_request_event (obj payload) = ok (parse_payload payload)
parse_pull_request_event v = raise Kind.attribute_error "object has no attribute 'get'"

unfoldable pub get_clone_info : PullRequestEvent → CloneInfo
get_clone_info event = record {
  clone_url = "https://bitbucket.org/" <> event.repository_full_name <> ".git";
  repository_name = event.repository_full_name;
  access_token = none;
  access_username = "x-access-token";
}

unfoldable pub bitbucket_provider : Platform → ScmProviderConfig → ScmProvider
bitbucket_provider P config = record {
  validate_webhook = validate_webhook P config;
  parse_pull_request_event = parse_pull_request_event;
  get_clone_info = λ event. ok (some (get_clone_info event));
}
