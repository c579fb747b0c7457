-- ===== src/Scm/Defs.antt =====
-- src/protecto_prime_agent/integrations/scm.py
use partha_prime_agent.Prelude.{String, Bool, Option}
use partha_prime_agent.Prelude.Result.{Result}
use partha_prime_agent.Json.{Value}
use partha_prime_agent.Platform.{Bytes}

pub data ScmProviderType : Type 0 where
  bitbucket github gitlab : ScmProviderType

pub record ScmProviderConfig : Type 0 where
  pub provider_type : ScmProviderType
  pub webhook_secret : Option String

pub record PullRequestEvent : Type 0 where
  pub event_type : String
  pub repository_id : String
  pub pull_request_id : String
  pub source_branch : String
  pub target_branch : String
  pub source_commit_sha : String
  pub target_commit_sha : String
  pub repository_full_name : String
  pub provider_event_id : Option String

pub record CloneInfo : Type 0 where
  pub clone_url : String
  pub repository_name : String
  pub access_token : Option String
  pub access_username : String

-- `class SCMProvider(Protocol)`: a call returns or raises.
pub record ScmProvider : Type 0 where
  pub validate_webhook : Bytes → Option String → Result Bool
  pub parse_pull_request_event : Value → Result (Option PullRequestEvent)
  pub get_clone_info : PullRequestEvent → Result (Option CloneInfo)
