-- ===== src/Workspace/Names.antt =====
-- The checks on names and addresses, and where a workspace lies.
pub mod Chars
pub mod Location
use Prim.Native.Char.{code}
use partha_prime_agent.Prelude.{
  ℕ, suc, zero, ◌+◌, String, Bool, true, false, Option, none, some, List, [], ◌∷◌, ◌<>◌, not, ◌&&◌,
  ◌||◌, ◌==◌, nat_eq, string_eq, leb, truthy, starts_with, contains, length, if◌then◌else◌,
}
use partha_prime_agent.Prelude.Result.{Result, ok, Kind, raise, ◌>>=◌, ◌>>◌}
use partha_prime_agent.Paths.{FilePath, ◌/◌, strip_prefix, relative_to}
use partha_prime_agent.Scm.{PullRequestEvent}

unfoldable pub all_chars : (ℕ → Bool) → String → Bool
all_chars p String.[] = true
all_chars p (String.◌∷◌ c s) = p (code c) && all_chars p s

abbrev pub between : ℕ → ℕ → ℕ → Bool
between lo hi c = leb lo c && leb c hi

-- `[A-Za-z0-9._-]` and `[0-9a-f]`
abbrev pub is_safe_char : ℕ → Bool
is_safe_char c =
    between 65 90 c || (between 97 122 c || (between 48 57 c || (c == 46 || (c == 95 || c == 45))))

abbrev pub is_hex_digit : ℕ → Bool
is_hex_digit c = between 48 57 c || between 97 102 c

-- `SAFE_NAME_RE.fullmatch(value)`
unfoldable pub is_safe_name : String → Bool
unfolding all_chars
is_safe_name value = truthy value && all_chars is_safe_char value

unfoldable pub str_length : String → ℕ
str_length String.[] = 0
str_length (String.◌∷◌ c s) = suc (str_length s)

-- `SHA_RE.fullmatch(sha)`
unfoldable pub is_sha : String → Bool
unfolding all_chars str_length
is_sha sha = str_length sha == 40 && all_chars is_hex_digit sha

unfoldable pub validate_component : String → String → Result (Unit {0})
unfolding is_safe_name
validate_component value label =
    if not (truthy value) || not (is_safe_name value)
    then raise Kind.value_error ("invalid_" <> label)
    else if value == "." || value == ".."
    then raise Kind.value_error ("invalid_" <> label)
    else ok tt

unfoldable pub validate_commit_sha : String → Result String
unfolding is_sha
validate_commit_sha sha = if is_sha sha then ok sha else raise Kind.value_error "malformed_sha"

unfoldable pub validate_clone_url : String → Result (Unit {0})
unfolding all_chars
validate_clone_url clone_url =
    if starts_with clone_url "https://"
      || (starts_with clone_url "http://" || starts_with clone_url "file://")
    then (if all_chars (λ c. not (c == 64)) clone_url
        then ok tt
        else raise Kind.value_error "credential_in_clone_url")
    else raise Kind.value_error "unsupported_clone_url"

abbrev is_filled : Option (List String) → Bool
is_filled (some (part ∷ parts)) = true
is_filled o = false

-- `base in p.parents`
unfoldable pub is_above : FilePath → FilePath → Bool
unfolding strip_prefix
is_above base p = p.root == base.root && is_filled (strip_prefix base.parts p.parts)

-- `self.workspace_root / ... / workflow_run_id`
unfoldable pub candidate_path : FilePath → PullRequestEvent → String → FilePath
candidate_path workspace_root event workflow_run_id =
    workspace_root / event.repository_id / event.pull_request_id / event.source_commit_sha
    / workflow_run_id

module _ (resolve : FilePath → FilePath) (workspace_root : FilePath) where
  abbrev pub contained : FilePath → Result FilePath
  contained resolved =
      if is_above workspace_root resolved
      then ok resolved
      else raise Kind.value_error "workspace_path_escapes_root"

  unfoldable pub build_workspace_path : PullRequestEvent → String → Result FilePath
  unfolding validate_component candidate_path is_above
  build_workspace_path event workflow_run_id = do
    validate_component event.repository_id "repository_id"
    validate_component event.pull_request_id "pull_request_id"
    validate_component event.source_commit_sha "source_commit_sha"
    validate_component workflow_run_id "workflow_run_id"
    contained (resolve (candidate_path workspace_root event workflow_run_id))

  -- `path.name`: the last part
  abbrev pub name_of : List String → String
  name_of [] = ""
  name_of (part ∷ []) = part
  name_of (part ∷ p ∷ ps) = name_of (p ∷ ps)

  abbrev pub decomposed : String → Option FilePath → String × String × String
  decomposed name none = ("unknown", "unknown", name)
  decomposed name (some p) = elim p.parts [
    | repository_id ∷ pull_request_id ∷ source_sha ∷ workflow_run_id ∷ rest ↦
        (repository_id, pull_request_id, workflow_run_id)
    | _ ↦ ("unknown", "unknown", name)
  ]

  -- `_decompose_workspace_path`: the repository, the pull request and the run
  unfoldable pub decompose_workspace_path : FilePath → String × String × String
  decompose_workspace_path workspace_path =
      decomposed (name_of workspace_path.parts)
        (relative_to (resolve workspace_path) workspace_root)
