-- ===== src/Platform.antt =====
-- The functions of Python's standard library that the program calls for their answers alone:
-- digests, UTF-8, the JSON text format. They enter as a parameter; the theorems hold for every
-- choice of them, and name the behaviour they need where they need some.
use partha_prime_agent.Prelude.{ℕ, List, String, Option, Bool}
use partha_prime_agent.Prelude.Result.{Result}
use partha_prime_agent.Json.{Value}
use partha_prime_agent.Paths.{FilePath}

abbrev pub Bytes : Type 0
Bytes = List ℕ

pub record Platform : Type 0 where
  -- `hmac.new(secret.encode("utf-8"), body, hashlib.sha256).hexdigest()`, and with sha1
  pub hmac_sha256 : String → Bytes → String
  pub hmac_sha1 : String → Bytes → String
  -- `hashlib.sha256(data).hexdigest()`
  pub sha256 : Bytes → String
  -- `text.encode("utf-8")`
  pub encode_utf8 : String → Bytes
  -- `body.decode("utf-8")`: nothing where it raises UnicodeDecodeError
  pub decode_utf8 : Bytes → Option String
  -- `json.loads(text)`: nothing where it raises JSONDecodeError
  pub json_loads : String → Option Value
  -- `json.dumps(value, default=str)`
  pub json_dumps : Value → String
  -- `str(value)` of a float, a list or a dict
  pub repr : Value → String
  -- `str(uuid)`
  pub uuid_str : ℕ → String
  -- `str(exc)` of the JSONDecodeError for a text
  pub json_error : String → String
  -- `text.lower()`, `text.upper()`
  pub lower : String → String
  pub upper : String → String
  -- whether `\w` matches a character
  pub is_word : ℕ → Bool

-- What the program asks of the file system while scanning.
pub record Host : Type 0 where
  -- `path.resolve()`
  pub resolve : FilePath → FilePath
  -- `path.exists()`
  pub exists : FilePath → Bool
  -- `path.read_text(encoding="utf-8")`
  pub read_text : FilePath → Result String
