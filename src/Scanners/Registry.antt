-- ===== src/Scanners/Registry.antt =====
-- src/protecto_prime_agent/scanners/registry.py: `ScannerRegistry`, a dict by name that keeps the
-- order of first registration.
pub mod Lookup
use partha_prime_agent.Prelude.{
  String, Option, none, some, List, [], ◌∷◌, map, filter, contains, ◌==◌, string_eq, if◌then◌else◌,
}
use partha_prime_agent.Scanners.Interface.{ScannerAdapter}

-- The values of `_adapters`; each stands under its own name.
abbrev pub ScannerRegistry : Type 0
ScannerRegistry = List ScannerAdapter

-- `self._adapters[adapter.name] = adapter`
unfoldable pub register : ScannerAdapter → ScannerRegistry → ScannerRegistry
register a [] = a ∷ []
register a (b ∷ bs) = if b.name == a.name then a ∷ bs else b ∷ register a bs

unfoldable pub get : String → ScannerRegistry → Option ScannerAdapter
get name [] = none
get name (b ∷ bs) = if b.name == name then some b else get name bs

unfoldable pub names : ScannerRegistry → List String
names = map (λ (a : ScannerAdapter). a.name)

unfoldable pub resolve_enabled : Option (List String) → ScannerRegistry → List ScannerAdapter
resolve_enabled none registry = registry
resolve_enabled (some requested) registry =
    filter (λ (a : ScannerAdapter). contains requested a.name) registry

-- The adapters of `build_default_registry`, registered in turn.
unfoldable pub register_all : List ScannerAdapter → ScannerRegistry → ScannerRegistry
unfolding register
register_all [] registry = registry
register_all (a ∷ adapters) registry = register_all adapters (register a registry)
