-- ===== src/Scm/Github.antt =====
-- src/protecto_prime_agent/integrations/github.py: `GitHubProvider`
pub mod Payload
pub mod Signature
use partha_prime_agent.Prelude.{
  String, Bool, true, false, Option, none, some, List, [], ◌∷◌, ◌<>◌, starts_with, contains,
  string_eq, truthy, if◌then◌else◌,
}
use partha_prime_agent.Prelude.Result.{Result, ok, Kind, raise}
use partha_prime_agent.Prelude.Maybe.{◌>>=◌, ◌>>◌, guard}
use partha_prime_agent.Json.{Value, obj, Fields, get, as_dict, as_str, as_nonempty_str, as_int_str}
use partha_prime_agent.Platform.{Platform, Bytes}
use partha_prime_agent.Scm.Defs.{ScmProviderConfig, PullRequestEvent, CloneInfo, ScmProvider}
use partha_prime_agent.Scm.Compare.{compare_digest, with_secret}

abbrev pub supported_actions : List String
supported_actions = "opened" ∷ "reopened" ∷ "synchronize" ∷ []

abbrev pub target_branches : List String
target_branches = "main" ∷ "master" ∷ "develop" ∷ []

-- The body of `validate_webhook` once there is a secret and a signature.
check_signature : Platform → String → Bytes → String → Result Bool
check_signature P secret body signature =
    if starts_with signature "sha1="
    then compare_digest signature ("sha1=" <> P.hmac_sha1 secret body)
    else if starts_with signature "sha256="
    then compare_digest signature ("sha256=" <> P.hmac_sha256 secret body)
    else ok false

unfoldable pub validate_webhook : Platform → ScmProviderConfig → Bytes → Option String → Result Bool
unfolding check_signature with_secret
validate_webhook P config body =
    with_secret (λ secret s. check_signature P secret body s) config.webhook_secret

-- `parse_pull_request_event` of a dict; `none` is `return None`.
unfoldable pub parse_payload : Fields → Option PullRequestEvent
parse_payload payload = do
  action ← as_str (get "action" payload)
  guard (contains supported_actions action)
  pull_request ← as_dict (get "pull_request" payload)
  pr_id ← as_int_str (get "id" pull_request)
  head ← as_dict (get "head" pull_request)
  base ← as_dict (get "base" pull_request)
  source_branch ← as_nonempty_str (get "ref" head)
  target_branch ← as_nonempty_str (get "ref" base)
  source_commit_sha ← as_nonempty_str (get "sha" head)
  target_commit_sha ← as_nonempty_str (get "sha" base)
  guard (contains target_branches target_branch)
  repository ← as_dict (get "repository" payload)
  repository_id ← as_int_str (get "id" repository)
  full_name ← as_nonempty_str (get "full_name" repository)
  some (record {
    event_type = "pull_request";
    repository_id = repository_id;
    pull_request_id = pr_id;
    source_branch = source_branch;
    target_branch = target_branch;
    source_commit_sha = source_commit_sha;
    target_commit_sha = target_commit_sha;
    repository_full_name = full_name;
    provider_event_id = some action;
  })

-- `payload.get` of what is no dict raises AttributeError.
unfoldable pub parse_pull_request_event : Value → Result (Option PullRequestEvent)
unfolding parse_payload
parse_pull_request_event (obj payload) = ok (parse_payload payload)
parse_pull_request_event v = raise Kind.attribute_error "object has no attribute 'get'"

unfoldable pub get_clone_info : PullRequestEvent → CloneInfo
get_clone_info event = record {
  clone_url = "https://github.com/" <> event.repository_full_name <> ".git";
  repository_name = event.repository_full_name;
  access_token = none;
  access_username = "x-access-token";
}

unfoldable pub github_provider : Platform → ScmProviderConfig → ScmProvider
github_provider P config = record {
  validate_webhook = validate_webhook P config;
  parse_pull_request_event = parse_pull_request_event;
  get_clone_info = λ event. ok (some (get_clone_info event));
}
