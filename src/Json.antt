-- ===== src/Json.antt =====
-- What `json.loads` returns, and the tests and lookups that the program makes on it.
pub mod Keys
use partha_prime_agent.Prelude.{
  ℕ, zero, suc, contains, String, Bool, true, false, Option, none, some, ◌≡◌, refl, ◌<>◌, ◌==◌,
  string_eq, nat_eq, nat_beq_iff, Eq, ◌↔◌, truthy, show_ℕ, arith, List, [], ◌∷◌, if◌then◌else◌,
}
use partha_prime_agent.Prelude.Result.{Result, ok, Kind, raise}
use partha_prime_agent.Prelude.Maybe.{◌>>=◌}

-- A Python int; `negsuc n` is -(n + 1).
pub data ℤ : Type 0 where
  pos : ℕ → ℤ
  negsuc : ℕ → ℤ

unfoldable pub show_ℤ : ℤ → String
unfolding show_ℕ
show_ℤ (pos n) = show_ℕ n
show_ℤ (negsuc n) = "-" <> show_ℕ (suc n)

-- A float is kept as the answers that the program asks of it: whether it differs from zero, and
-- its text. A dict keeps its items in order, each key once.
mutual
  pub data Value : Type 0 where
    null : Value
    bool : Bool → Value
    int : ℤ → Value
    float : Bool → String → Value
    str : String → Value
    arr : Items → Value
    obj : Fields → Value

  pub data Fields : Type 0 where
    end : Fields
    field : String → Value → Fields → Fields

  pub data Items : Type 0 where
    nil : Items
    cons : Value → Items → Items

-- `d.get(key)`, where a missing key gives None
unfoldable pub get : String → Fields → Option Value
get k end = none
get k (field j v d) = if k == j then some v else get k d

-- `d.get(a)` of what may be missing or no dict: `isinstance(x, dict)` and `isinstance(x, str)`
unfoldable pub as_dict : Option Value → Option Fields
as_dict (some (obj d)) = some d
as_dict o = none

unfoldable pub as_str : Option Value → Option String
as_str (some (str s)) = some s
as_str o = none

-- `isinstance(x, str) and x`
unfoldable pub as_nonempty_str : Option Value → Option String
as_nonempty_str (some (str s)) = if truthy s then some s else none
as_nonempty_str o = none

-- `str(x)` if `isinstance(x, int)`: a bool is an int, and prints as one.
unfoldable pub as_int_str : Option Value → Option String
unfolding show_ℤ
as_int_str (some (int z)) = some (show_ℤ z)
as_int_str (some (bool true)) = some "True"
as_int_str (some (bool false)) = some "False"
as_int_str o = none

get_runs : get "b" (field "a" null (field "b" (int (negsuc 4)) end)) ≡ some (int (negsuc 4))
unfolding get
get_runs = refl

-- The value at a path of keys, each taken of a dict.
unfoldable pub at : List String → Value → Option Value
at (k ∷ []) (obj d) = get k d
at (k ∷ j ∷ ks) (obj d) = get k d >>= at (j ∷ ks)
at ks v = none

pub as_dict-eq-some : (o : Option Value) (d : Fields) → as_dict o ≡ some d → o ≡ some (obj d)
unfolding as_dict
as_dict-eq-some o d h = ground arith

pub as_str-eq-some : (o : Option Value) (s : String) → as_str o ≡ some s → o ≡ some (str s)
unfolding as_str
as_str-eq-some o s h = ground arith

pub as_nonempty_str-eq-some :
    (o : Option Value) (s : String)
    → as_nonempty_str o ≡ some s
    → (o ≡ some (str s)) × (truthy s ≡ true)
unfolding as_nonempty_str
as_nonempty_str-eq-some o s h = ground arith

-- `bool(x)`
unfoldable pub truthy_value : Value → Bool
truthy_value null = false
truthy_value (bool b) = b
truthy_value (int (pos zero)) = false
truthy_value (int z) = true
truthy_value (float nonzero text) = nonzero
truthy_value (str s) = truthy s
truthy_value (arr nil) = false
truthy_value (arr (cons v vs)) = true
truthy_value (obj end) = false
truthy_value (obj (field k v d)) = true

-- `x.get(key)`, which raises AttributeError where `x` is no dict
unfoldable pub get_of : String → Value → Result (Option Value)
get_of k (obj d) = ok (get k d)
get_of k v = raise Kind.attribute_error "object has no attribute 'get'"

-- `x or default`; a missing key is None, which is false
unfoldable pub value_or : Option Value → Value → Value
value_or none default = default
value_or (some v) default = if truthy_value v then v else default

-- `str(x)`; `repr` prints a float, a list or a dict
unfoldable pub str_of : (Value → String) → Value → String
unfolding show_ℤ
str_of repr null = "None"
str_of repr (bool true) = "True"
str_of repr (bool false) = "False"
str_of repr (int z) = show_ℤ z
str_of repr (str s) = s
str_of repr v = repr v

-- `d[key] = v`
unfoldable pub set_field : String → Value → Fields → Fields
set_field k v end = field k v end
set_field k v (field j w d) = if k == j then field k v d else field j w (set_field k v d)

-- `d.update(new)`, and `{**d, **new}`
unfoldable pub update_fields : Fields → Fields → Fields
unfolding set_field
update_fields end d = d
update_fields (field k v new) d = update_fields new (set_field k v d)

-- `{key: value for key, value in d.items() if key not in keys}`
unfoldable pub without : List String → Fields → Fields
without keys end = end
without keys (field j w d) =
    let rest = without keys d in if contains keys j then rest else field j w rest

unfoldable pub items_list : Items → List Value
items_list nil = []
items_list (cons v vs) = v ∷ items_list vs

-- `==` of two ints
abbrev int_beq : ℤ → ℤ → Bool
int_beq (pos a) (pos b) = a == b
int_beq (negsuc a) (negsuc b) = a == b
int_beq (pos a) (negsuc b) = false
int_beq (negsuc a) (pos b) = false

pub int_beq_iff : (a b : ℤ) → (int_beq a b ≡ true) ↔ (a ≡ b)
int_beq_iff (pos a) (pos b) = ground (arith, nat_beq_iff a b)
int_beq_iff (negsuc a) (negsuc b) = ground (arith, nat_beq_iff a b)
int_beq_iff (pos a) (negsuc b) = ground arith
int_beq_iff (negsuc a) (pos b) = ground arith

instance abbrev pub int_eq : Eq ℤ
int_eq = record { same = int_beq; same_iff = int_beq_iff }
