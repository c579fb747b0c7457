-- ===== src/Scanners/Registry/Lookup.antt =====
-- What the registry answers after registrations and selections.
use partha_prime_agent.Prelude.{
  String, Bool, true, false, none, some, List, [], ◌∷◌, ◌≡◌, refl, arith, contains, ◌==◌, string_eq,
  eq_iff, not, ◌&&◌, if◌then◌else◌,
}
use partha_prime_agent.Scanners.Interface.{ScannerAdapter}
use partha_prime_agent.Scanners.Registry.{
  ScannerRegistry, register, register_all, get, names, resolve_enabled,
}

-- After a registration, the adapter's name leads to it, and every other name to what it led to
-- before.
pub get-register :
    (name : String) (a : ScannerAdapter) (registry : ScannerRegistry)
    → get name (register a registry) ≡ (if a.name == name then some a else get name registry)
unfolding get register
get-register name a [] = refl
get-register name a (b ∷ bs) =
    ground
      (arith, get-register name a bs, eq_iff b.name a.name, eq_iff a.name name, eq_iff b.name name)

-- The names that a list holds, each once.
abbrev pub distinct : List String → Bool
distinct [] = true
distinct (n ∷ ns) = not (contains ns n) && distinct ns

contains-names-register :
    (a : ScannerAdapter) (name : String) (registry : ScannerRegistry)
    → (a.name == name) ≡ false
    → contains (names (register a registry)) name ≡ contains (names registry) name
unfolding register names
contains-names-register a name [] h = ground (arith, eq_iff a.name name, eq_iff name a.name)
contains-names-register a name (b ∷ bs) h = ground (
  arith,
  contains-names-register a name bs h,
  eq_iff b.name a.name,
  eq_iff a.name name,
  eq_iff name a.name,
  eq_iff name b.name,
)

register-distinct :
    (a : ScannerAdapter) (registry : ScannerRegistry)
    → distinct (names registry) ≡ true
    → distinct (names (register a registry)) ≡ true
unfolding register names
register-distinct a [] h = refl
register-distinct a (b ∷ bs) h = ground (
  arith,
  register-distinct a bs,
  contains-names-register a b.name bs,
  eq_iff b.name a.name,
  eq_iff a.name b.name,
)

-- However adapters are registered in a registry whose names are distinct, one name never stands
-- for two of them.
pub register_all-distinct :
    (adapters : List ScannerAdapter) (registry : ScannerRegistry)
    → distinct (names registry) ≡ true
    → distinct (names (register_all adapters registry)) ≡ true
unfolding register_all
register_all-distinct [] registry h = h
register_all-distinct (a ∷ more) registry h =
    register_all-distinct more (register a registry) (register-distinct a registry h)

-- Of the adapters selected for a request, a name leads to the registered one if it was asked for,
-- and to none if it was not; names that are not registered are passed over.
pub get-resolve_enabled :
    (name : String) (requested : List String) (registry : ScannerRegistry)
    → get name (resolve_enabled (some requested) registry)
      ≡ (if contains requested name then get name registry else none)
unfolding get resolve_enabled
get-resolve_enabled name requested [] = ground arith
get-resolve_enabled name requested (b ∷ bs) =
    ground (arith, get-resolve_enabled name requested bs, eq_iff b.name name)
