-- ===== src/Scanners/Adapters/Common.antt =====
-- What the adapters share: reading the report, and values with defaults.
use Prim.Native.Char.{code}
use partha_prime_agent.Prelude.{
  String, Option, none, some, List, [], ◌∷◌, ◌<>◌, ◌==◌, string_eq, ◌&&◌, if◌then◌else◌,
}
use partha_prime_agent.Prelude.Result.{Result, ok, Kind, raise, ◌>>=◌}
use partha_prime_agent.Json.{
  ℤ, pos, Value, str, arr, obj, Fields, end, get, value_or, str_of, items_list, field,
}
use partha_prime_agent.Redaction.{sanitize_text}
use partha_prime_agent.Redaction.Regex.{is_space}
use partha_prime_agent.Platform.{Platform}
use partha_prime_agent.Scanners.Interface.{NormalizedFinding}

abbrev pub zero_or_one : List ℤ
zero_or_one = pos 0 ∷ pos 1 ∷ []

-- `text.strip()`
lstrip : String → String
lstrip String.[] = ""
lstrip (String.◌∷◌ c s) = let rest = lstrip s in if is_space (code c) then rest else String.◌∷◌ c s

rstrip : String → String
rstrip String.[] = ""
rstrip (String.◌∷◌ c s) =
    let rest = rstrip s in if rest == "" && is_space (code c) then "" else String.◌∷◌ c rest

unfoldable pub strip : String → String
unfolding lstrip rstrip is_space
strip s = rstrip (lstrip s)

-- A report that is a list, or a dict with the items under a key; `none` is another shape.
pub data Shape : Type 0 where
  top_level : Shape
  under : String → Shape

-- The elements that `for item in x` goes through: a dict gives its keys, a text its characters,
-- and what cannot be iterated over raises TypeError.
keys_list : Fields → List Value
keys_list end = []
keys_list (field k v d) = str k ∷ keys_list d

chars_list : String → List Value
chars_list String.[] = []
chars_list (String.◌∷◌ c s) = str (String.◌∷◌ c "") ∷ chars_list s

unfoldable pub iterate : Value → Result (List Value)
unfolding items_list keys_list chars_list
iterate (arr vs) = ok (items_list vs)
iterate (obj d) = ok (keys_list d)
iterate (str s) = ok (chars_list s)
iterate v = raise Kind.type_error "object is not iterable"

module _ (P : Platform) (tool : String) where
  malformed : String → Result (List Value)
  malformed detail = raise Kind.value_error ("malformed_" <> (tool <> ("_output: " <> detail)))

  abbrev found_under : String → Option Value → Result (List Value)
  unfolding iterate malformed
  found_under key none = malformed ("expected a '" <> (key <> "' key"))
  found_under key (some v) = iterate v

  abbrev shaped : Shape → Value → Result (List Value)
  unfolding items_list malformed
  shaped top_level (arr vs) = ok (items_list vs)
  shaped top_level v = malformed "expected a JSON array"
  shaped (under key) (obj d) = found_under key (get key d)
  shaped (under key) v = malformed ("expected a '" <> (key <> "' key"))

  -- The items of a report; an empty one has none.
  unfoldable pub report_items : Shape → String → Result (List Value)
  unfolding malformed strip iterate
  report_items shape raw_output =
      let text = strip raw_output in
      if text == "" then ok [] else (elim (P.json_loads text) [
        | none ↦ malformed (P.json_error text)
        | some v ↦ shaped shape v
      ])

-- `for item in data: if not isinstance(item, dict): continue; ...`, a finding for each dict
unfoldable pub collect :
    (Fields → Result NormalizedFinding) → List Value → Result (List NormalizedFinding)
collect parse [] = ok []
collect parse (obj item ∷ items) = do
  finding ← parse item
  rest ← collect parse items
  ok (finding ∷ rest)
collect parse (v ∷ items) = collect parse items

module _ (P : Platform) where
  -- `sanitize_text(text)`
  unfoldable pub clean : String → String
  unfolding sanitize_text
  clean = sanitize_text P.is_word

  -- `str(item.get(key) or default)`
  unfoldable pub str_or_default : String → String → Fields → String
  unfolding str_of value_or
  str_or_default key default item = str_of P.repr (value_or (get key item) (str default))

  -- `str(item.get(key, default))`
  unfoldable pub str_get : String → String → Fields → String
  unfolding str_of
  str_get key default item = elim (get key item) [ none ↦ default | some v ↦ str_of P.repr v ]

  -- `sanitize_text(json.dumps(item, default=str))`
  unfoldable pub details : Fields → String
  unfolding clean
  details item = clean (P.json_dumps (obj item))
