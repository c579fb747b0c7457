-- ===== src/Scm/Github/Payload.antt =====
-- The payloads from which a GitHub event is read, described by the paths of their values.
use partha_prime_agent.Prelude.{
  String, true, some, refl, List, [], ◌∷◌, ◌≡◌, ◌↔◌, arith, contains, string_eq, truthy,
}
use partha_prime_agent.Prelude.Result.{ok}
use partha_prime_agent.Prelude.Maybe.{guard, bind_some}
use partha_prime_agent.Json.{
  Value, str, obj, Fields, get, at, as_dict, as_str, as_nonempty_str, as_int_str, as_str-eq-some,
  as_dict-eq-some, as_nonempty_str-eq-some,
}
use partha_prime_agent.Scm.Defs.{PullRequestEvent}
use partha_prime_agent.Scm.Github.{
  supported_actions, target_branches, parse_payload, parse_pull_request_event,
}

-- The text of an int at the end of a path.
abbrev pub IntAt : List String → Fields → String → Type 0
IntAt path p s = as_int_str (at path (obj p)) ≡ some s

-- A text that is not empty at the end of a path.
abbrev pub TextAt : List String → Fields → String → Type 0
TextAt path p s = (at path (obj p) ≡ some (str s)) × (truthy s ≡ true)

pub record Describes (p : Fields) (e : PullRequestEvent) (action : String) : Type 0 where
  pub event_type : e.event_type ≡ "pull_request"
  pub event_id : e.provider_event_id ≡ some action
  pub action_at : at ("action" ∷ []) (obj p) ≡ some (str action)
  pub supported : contains supported_actions action ≡ true
  pub pr_id : IntAt ("pull_request" ∷ "id" ∷ []) p e.pull_request_id
  pub source_ref : TextAt ("pull_request" ∷ "head" ∷ "ref" ∷ []) p e.source_branch
  pub source_sha : TextAt ("pull_request" ∷ "head" ∷ "sha" ∷ []) p e.source_commit_sha
  pub target_ref : TextAt ("pull_request" ∷ "base" ∷ "ref" ∷ []) p e.target_branch
  pub target_sha : TextAt ("pull_request" ∷ "base" ∷ "sha" ∷ []) p e.target_commit_sha
  pub target_is_protected : contains target_branches e.target_branch ≡ true
  pub repository : IntAt ("repository" ∷ "id" ∷ []) p e.repository_id
  pub full_name : TextAt ("repository" ∷ "full_name" ∷ []) p e.repository_full_name

complete :
    (p : Fields) (e : PullRequestEvent) (action : String)
    → Describes p e action
    → parse_payload p ≡ some e
unfolding parse_payload at as_dict as_str as_nonempty_str
complete p e action d = ground arith

sound :
    (p : Fields) (e : PullRequestEvent)
    → parse_payload p ≡ some e
    → (action : String) × Describes p e action
unfolding parse_payload at
sound p e h = bind_some (as_str (get "action" p)) _ h λ action a h1.
    bind_some (guard (contains supported_actions action)) _ h1 λ _ supported h2.
      bind_some (as_dict (get "pull_request" p)) _ h2 λ pull b h3.
        bind_some (as_int_str (get "id" pull)) _ h3 λ pr_id c h4.
          bind_some (as_dict (get "head" pull)) _ h4 λ head d h5.
            bind_some (as_dict (get "base" pull)) _ h5 λ base f h6.
              bind_some (as_nonempty_str (get "ref" head)) _ h6 λ source g h7.
                bind_some (as_nonempty_str (get "ref" base)) _ h7 λ target i h8.
                  bind_some (as_nonempty_str (get "sha" head)) _ h8 λ source_sha j h9.
                    bind_some (as_nonempty_str (get "sha" base)) _ h9 λ target_sha k h10.
                      bind_some (guard (contains target_branches target)) _ h10 λ _ protected h11.
                        bind_some (as_dict (get "repository" p)) _ h11 λ repo l h12.
                          bind_some (as_int_str (get "id" repo)) _ h12 λ repo_id m h13.
                            bind_some (as_nonempty_str (get "full_name" repo)) _ h13 λ name n h14. (
                              action,
                              ground (
                                arith,
                                as_str-eq-some _ _ a,
                                as_dict-eq-some _ _ b,
                                as_dict-eq-some _ _ d,
                                as_dict-eq-some _ _ f,
                                as_nonempty_str-eq-some _ _ g,
                                as_nonempty_str-eq-some _ _ i,
                                as_nonempty_str-eq-some _ _ j,
                                as_nonempty_str-eq-some _ _ k,
                                as_dict-eq-some _ _ l,
                                as_nonempty_str-eq-some _ _ n,
                              ),
                            )

-- `parse_pull_request_event` returns an event exactly for a dict in which every value of the
-- event stands at its path, is an int or a text that is not empty as required, the action is a
-- supported one and the base branch is main, master or develop.
pub github_event-some :
    (v : Value) (e : PullRequestEvent)
    → (parse_pull_request_event v ≡ ok (some e))
      ↔ ((p : Fields) × (v ≡ obj p) × (action : String) × Describes p e action)
unfolding parse_pull_request_event
github_event-some (obj p) e = (
  λ h. let (action, d) = sound p e (ground arith) in (p, refl, action, d),
  λ (q, same, action, d). ground (arith, complete q e action d),
)
github_event-some v e = (λ h. cc, λ (q, same, action, d). cc)
