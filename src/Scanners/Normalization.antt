-- ===== src/Scanners/Normalization.antt =====
-- src/protecto_prime_agent/scanners/normalization.py; `sanitize_text` is in Redaction.antt.
use partha_prime_agent.Prelude.{
  String, Bool, true, false, Option, none, some, [], ◌∷◌, join, truthy, if◌then◌else◌,
}
use partha_prime_agent.Prelude.Result.{Result, ok, Kind, raise}
use partha_prime_agent.Json.{Value, str, null, truthy_value, str_of}
use partha_prime_agent.Platform.{Platform, Host}
use partha_prime_agent.Paths.{FilePath, path, path_str, is_absolute, relative_to}

-- `x is None`, for a value that may be missing
abbrev pub is_none : Option Value → Bool
is_none none = true
is_none (some null) = true
is_none (some v) = false

-- `file_path or ""`; what is neither false nor a text makes `join` raise TypeError
abbrev path_text : Option Value → Result String
path_text none = ok ""
path_text (some (str s)) = ok s
path_text (some v) =
    if truthy_value v then raise Kind.type_error "sequence item 2: expected str instance" else ok ""

abbrev line_text : (Value → String) → Option Value → String
line_text repr o = elim o [ none ↦ "" | some null ↦ "" | some v ↦ str_of repr v ]

-- The separator "\x1f"
abbrev pub unit_separator : String
unit_separator = String.◌∷◌ (Prim.Native.Char.char 31 tt) ""

module _ (P : Platform) where
  unfoldable pub fingerprint_of : String → String → String → String → String → String
  fingerprint_of scanner_name rule_id file_path line_number message = P.sha256 (
      P.encode_utf8
        (join unit_separator (scanner_name ∷ rule_id ∷ file_path ∷ line_number ∷ message ∷ [])))

  unfoldable pub compute_fingerprint :
      String → String → Option Value → Option Value → String → Result String
  unfolding fingerprint_of
  compute_fingerprint scanner_name rule_id file_path line_number message =
      elim (path_text file_path) [
        | Result.err e ↦ Result.err e
        | ok text ↦
            ok (fingerprint_of scanner_name rule_id text (line_text P.repr line_number) message)
      ]

abbrev or_self : FilePath → Option FilePath → FilePath
or_self p none = p
or_self p (some q) = q

-- The text for a candidate: below the workspace if it resolves to a place there, as it is if not.
unfoldable pub relative_text : Host → FilePath → FilePath → String
relative_text H candidate workspace = path_str (
    if is_absolute candidate
    then or_self candidate (relative_to (H.resolve candidate) (H.resolve workspace))
    else candidate)

-- `Path(raw_path)` of what is no text raises TypeError.
unfoldable pub to_relative_path : Host → Option Value → FilePath → Result (Option Value)
unfolding relative_text
to_relative_path H none workspace = ok none
to_relative_path H (some (str raw)) workspace =
    if truthy raw
    then ok (some (str (relative_text H (path raw) workspace)))
    else ok (some (str raw))
to_relative_path H (some v) workspace =
    if truthy_value v
    then raise Kind.type_error "expected str, bytes or os.PathLike object"
    else ok (some v)
