-- ===== src/Redaction.antt =====
-- `redact_secrets` of src/protecto_prime_agent/services/repository_workspace_service.py and
-- `sanitize_text` of src/protecto_prime_agent/scanners/normalization.py.
pub mod Regex
use partha_prime_agent.Prelude.{
  ℕ, suc, String, Bool, List, [], ◌∷◌, ◌++◌, ◌||◌, ◌&&◌, not, ◌≡◌, refl, ◌<>◌, ◌==◌, string_eq,
  nat_eq, leb, ltb, contains, if◌then◌else◌,
}
use partha_prime_agent.Redaction.Regex.{
  Atom, chr, opt, rep, boundary, one_of, Pattern, literal, literal_ci, sub, repeat, is_space,
}

abbrev between : ℕ → ℕ → ℕ → Bool
between lo hi c = leb lo c && leb c hi

is_alnum : ℕ → Bool
is_alnum c = between 65 90 c || between 97 122 c || between 48 57 c

is_upper_alnum : ℕ → Bool
is_upper_alnum c = between 65 90 c || between 48 57 c

abbrev pub redacted : String
redacted = "[REDACTED]"

-- (https?://)[^/\s@]+@ with \1[REDACTED]@
url_credential : Pattern
url_credential = record {
  group = literal "http" ++ (opt (λ c. c == 115) ∷ literal "://");
  rest = rep 1 (λ c. not (c == 47) && not (is_space c) && not (c == 64)) ∷ literal "@";
  replacement = "[REDACTED]@";
}

-- (?i)(x-access-token:)\S+ with \1[REDACTED]
access_token : Pattern
access_token = record {
  group = literal_ci "x-access-token:";
  rest = rep 1 (λ c. not (is_space c)) ∷ [];
  replacement = redacted;
}

-- (?i)(authorization:\s*(?:basic|bearer)\s+)\S+ with \1[REDACTED]
authorization : Pattern
authorization = record {
  group =
      literal_ci "authorization:"
      ++ (rep 0 is_space ∷ one_of (literal_ci "basic") (literal_ci "bearer") ∷ rep 1 is_space ∷ []);
  rest = rep 1 (λ c. not (is_space c)) ∷ [];
  replacement = redacted;
}

-- A pattern with no group: \b...\b with [REDACTED]
abbrev bare : List Atom → Pattern
bare body = record {
  group = [];
  rest = boundary ∷ (body ++ (boundary ∷ []));
  replacement = redacted;
}

-- \bghp_[A-Za-z0-9]{20,}\b
ghp_token : Pattern
ghp_token = bare (literal "ghp_" ++ (rep 20 is_alnum ∷ []))

-- \bgithub_pat_[A-Za-z0-9_]{20,}\b
github_pat : Pattern
github_pat = bare (literal "github_pat_" ++ (rep 20 (λ c. is_alnum c || c == 95) ∷ []))

-- \bgh[oprsu]_[A-Za-z0-9]{20,}\b
gh_token : Pattern
gh_token = bare (
    literal "gh"
    ++ (chr (λ c. contains (111 ∷ 112 ∷ 114 ∷ 115 ∷ 117 ∷ []) c) ∷ literal "_"
        ++ (rep 20 is_alnum ∷ [])))

-- \bATBB[A-Za-z0-9]{20,}\b
atbb_token : Pattern
atbb_token = bare (literal "ATBB" ++ (rep 20 is_alnum ∷ []))

-- \bAKIA[A-Z0-9]{16}\b
akia_key : Pattern
akia_key = bare (literal "AKIA" ++ repeat 16 (chr is_upper_alnum))

-- The patterns of both modules but the last one of normalization.py, in their order.
shared_patterns : List Pattern
unfolding url_credential access_token authorization ghp_token github_pat gh_token atbb_token
    is_alnum
shared_patterns =
    url_credential ∷ access_token ∷ authorization ∷ ghp_token ∷ github_pat ∷ gh_token ∷ atbb_token
    ∷ []

module _ (is_word : ℕ → Bool) where
  sub_all : List Pattern → String → String
  sub_all [] text = text
  sub_all (p ∷ ps) text = sub_all ps (sub is_word p text)

  -- `is_word` tells which characters `\w` matches.
  unfoldable pub redact_secrets : String → String
  unfolding sub_all sub shared_patterns
  redact_secrets text = if text == "" then text else sub_all shared_patterns text

  unfoldable pub sanitize_text : String → String
  unfolding sub_all sub shared_patterns akia_key is_upper_alnum
  sanitize_text text =
      if text == "" then text else sub_all (shared_patterns ++ (akia_key ∷ [])) text

ascii_word : ℕ → Bool
ascii_word c = is_alnum c || c == 95

redact_url :
    redact_secrets ascii_word "fatal: https://user:pw@host/x" ≡ "fatal: https://[REDACTED]@host/x"
unfolding redact_secrets ascii_word is_space
redact_url = refl

redact_tokens :
    redact_secrets ascii_word "Authorization:  Bearer abc x ghp_0123456789012345678901 y"
    ≡ "Authorization:  Bearer [REDACTED] x [REDACTED] y"
unfolding redact_secrets ascii_word is_space
redact_tokens = refl

-- Nineteen characters are no token.
redact_short : sanitize_text ascii_word "ghp_0123456789012345678" ≡ "ghp_0123456789012345678"
unfolding sanitize_text ascii_word is_space
redact_short = refl
