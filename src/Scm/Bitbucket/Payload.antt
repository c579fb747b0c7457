-- ===== src/Scm/Bitbucket/Payload.antt =====
-- The payloads from which a Bitbucket event is read, described by the paths of their values.
use partha_prime_agent.Prelude.{
  String, true, some, refl, [], ◌∷◌, ◌≡◌, ◌↔◌, arith, contains, string_eq, truthy,
}
use partha_prime_agent.Prelude.Result.{ok}
use partha_prime_agent.Prelude.Maybe.{guard, bind_some}
use partha_prime_agent.Json.{
  Value, str, obj, Fields, get, at, as_dict, as_str, as_nonempty_str, as_int_str, as_str-eq-some,
  as_dict-eq-some, as_nonempty_str-eq-some,
}
use partha_prime_agent.Scm.Defs.{PullRequestEvent}
use partha_prime_agent.Scm.Bitbucket.{
  supported_events, target_branches, parse_payload, parse_pull_request_event,
}

pub record Describes (p : Fields) (e : PullRequestEvent) (key : String) : Type 0 where
  pub event_type : e.event_type ≡ "pull_request"
  pub event_id : e.provider_event_id ≡ some key
  pub key_at : at ("eventKey" ∷ []) (obj p) ≡ some (str key)
  pub supported : contains supported_events key ≡ true
  pub pr_id : as_int_str (at ("pullrequest" ∷ "id" ∷ []) (obj p)) ≡ some e.pull_request_id
  pub source_name :
      at ("pullrequest" ∷ "source" ∷ "branch" ∷ "name" ∷ []) (obj p) ≡ some (str e.source_branch)
  pub source_name_filled : truthy e.source_branch ≡ true
  pub source_hash :
      at ("pullrequest" ∷ "source" ∷ "commit" ∷ "hash" ∷ []) (obj p)
      ≡ some (str e.source_commit_sha)
  pub target_name :
      at ("pullrequest" ∷ "destination" ∷ "branch" ∷ "name" ∷ []) (obj p)
      ≡ some (str e.target_branch)
  pub target_hash :
      at ("pullrequest" ∷ "destination" ∷ "commit" ∷ "hash" ∷ []) (obj p)
      ≡ some (str e.target_commit_sha)
  pub target_is_protected : contains target_branches e.target_branch ≡ true
  pub uuid : at ("repository" ∷ "uuid" ∷ []) (obj p) ≡ some (str e.repository_id)
  pub uuid_filled : truthy e.repository_id ≡ true
  pub full_name : at ("repository" ∷ "full_name" ∷ []) (obj p) ≡ some (str e.repository_full_name)
  pub full_name_filled : truthy e.repository_full_name ≡ true

complete :
    (p : Fields) (e : PullRequestEvent) (key : String)
    → Describes p e key
    → parse_payload p ≡ some e
unfolding parse_payload at as_dict as_str as_nonempty_str
complete p e key d = ground arith

sound :
    (p : Fields) (e : PullRequestEvent)
    → parse_payload p ≡ some e
    → (key : String) × Describes p e key
unfolding parse_payload at
sound p e h = bind_some (as_str (get "eventKey" p)) _ h λ key a h1.
    bind_some (guard (contains supported_events key)) _ h1 λ _ supported h2.
      bind_some (as_dict (get "pullrequest" p)) _ h2 λ pull b h3.
        bind_some (as_dict (get "destination" pull)) _ h3 λ dest c h4.
          bind_some (as_dict (get "branch" dest)) _ h4 λ branch d h5.
            bind_some (as_str (get "name" branch)) _ h5 λ target f h6.
              bind_some (guard (contains target_branches target)) _ h6 λ _ protected h7.
                bind_some (as_dict (get "source" pull)) _ h7 λ source g h8.
                  bind_some (as_dict (get "branch" source)) _ h8 λ sbranch i h9.
                    bind_some (as_nonempty_str (get "name" sbranch)) _ h9 λ sname j h10.
                      bind_some (as_dict (get "commit" source)) _ h10 λ scommit k h11.
                        bind_some (as_dict (get "commit" dest)) _ h11 λ tcommit l h12.
                          bind_some (as_str (get "hash" scommit)) _ h12 λ ssha m h13.
                            bind_some (as_str (get "hash" tcommit)) _ h13 λ tsha n h14.
                              bind_some (as_dict (get "repository" p)) _ h14 λ repo o h15.
                                bind_some (as_nonempty_str (get "uuid" repo)) _ h15 λ uuid q h16.
                                  bind_some (as_nonempty_str (get "full_name" repo)) _ h16
                                    λ name r h17.
                                      bind_some (as_int_str (get "id" pull)) _ h17 λ pr_id s h18. (
                                        key,
                                        ground (
                                          arith,
                                          as_str-eq-some _ _ a,
                                          as_dict-eq-some _ _ b,
                                          as_dict-eq-some _ _ c,
                                          as_dict-eq-some _ _ d,
                                          as_str-eq-some _ _ f,
                                          as_dict-eq-some _ _ g,
                                          as_dict-eq-some _ _ i,
                                          as_nonempty_str-eq-some _ _ j,
                                          as_dict-eq-some _ _ k,
                                          as_dict-eq-some _ _ l,
                                          as_str-eq-some _ _ m,
                                          as_str-eq-some _ _ n,
                                          as_dict-eq-some _ _ o,
                                          as_nonempty_str-eq-some _ _ q,
                                          as_nonempty_str-eq-some _ _ r,
                                        ),
                                      )

-- `parse_pull_request_event` returns an event exactly for a dict in which every value of the
-- event stands at its path, is an int or a text as required, the names and ids among them that
-- may not be empty are not, the key is a supported one and the destination branch is main,
-- master or develop.
pub bitbucket_event-some :
    (v : Value) (e : PullRequestEvent)
    → (parse_pull_request_event v ≡ ok (some e))
      ↔ ((p : Fields) × (v ≡ obj p) × (key : String) × Describes p e key)
unfolding parse_pull_request_event
bitbucket_event-some (obj p) e = (
  λ h. let (key, d) = sound p e (ground arith) in (p, refl, key, d),
  λ (q, same, key, d). ground (arith, complete q e key d),
)
bitbucket_event-some v e = (λ h. cc, λ (q, same, key, d). cc)
