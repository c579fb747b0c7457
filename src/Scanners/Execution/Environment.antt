-- ===== src/Scanners/Execution/Environment.antt =====
-- Which variables a scanner's process sees.
use partha_prime_agent.Prelude.{
  String, Bool, true, Option, none, some, List, [], ◌∷◌, ◌≡◌, refl, subst, arith, contains, ◌==◌,
  string_eq, eq_iff, if◌then◌else◌,
}
use partha_prime_agent.Scanners.Execution.{
  Env, lookup, assign, update, set_default, scanner_env_allowlist, select, build_minimal_env,
}

-- The value that the last assignment of a list gives a variable, or else the one before.
abbrev pub assigned : String → Env → Option String → Option String
assigned k [] before = before
assigned k ((j, v) ∷ e) before = assigned k e (if j == k then some v else before)

-- A variable without the extra ones: telemetry is off, an allowed one is as in the parent's
-- environment, the language has a default, and there is no other.
abbrev pub inherited : String → Env → Option String
inherited k environ =
    if "SEMGREP_SEND_METRICS" == k
    then some "off"
    else if contains scanner_env_allowlist k
    then (elim (lookup k environ) [
      | some v ↦ some v
      | none ↦ if "LANG" == k then some "C.UTF-8" else none
    ])
    else none

lookup-assign :
    (k j v : String) (e : Env) → lookup k (assign j v e) ≡ (if j == k then some v else lookup k e)
unfolding lookup assign
lookup-assign k j v [] = refl
lookup-assign k j v ((i, w) ∷ e) =
    ground (arith, lookup-assign k j v e, eq_iff i j, eq_iff i k, eq_iff j k)

lookup-update :
    (k : String) (extra e : Env) → lookup k (update extra e) ≡ assigned k extra (lookup k e)
unfolding update
lookup-update k [] e = refl
lookup-update k ((j, v) ∷ extra) e =
    rw (lookup-update k extra (assign j v e), lookup-assign k j v e)

lookup-select :
    (k : String) (keys : List String) (environ : Env)
    → lookup k (select keys environ) ≡ (if contains keys k then lookup k environ else none)
unfolding lookup select
lookup-select k [] environ = refl
lookup-select k (j ∷ keys) environ =
    ground (arith, lookup-select k keys environ, eq_iff j k, eq_iff k j)

lookup-set_default :
    (k j v : String) (e : Env)
    → lookup k (set_default j v e)
      ≡ (elim (lookup k e) [ some w ↦ some w | none ↦ if j == k then some v else none ])
unfolding set_default
lookup-set_default k j v e = ground (arith, lookup-assign k j v e, eq_iff j k)

defaulted :
    (m : Option String) (off allowed lang : Bool)
    → (lang ≡ true → allowed ≡ true)
    → ◌≡◌ {A = Option String}
        (if off then some "off" else (elim (if allowed then m else none) [
          | some w ↦ some w
          | none ↦ if lang then some "C.UTF-8" else none
        ]))
        (if off
          then some "off"
          else if allowed
          then (elim m [ some w ↦ some w | none ↦ if lang then some "C.UTF-8" else none ])
          else none)
defaulted m off allowed lang h = ground arith

lang_allowed : (k : String) → ("LANG" == k) ≡ true → contains scanner_env_allowlist k ≡ true
lang_allowed k h = subst (λ j. contains scanner_env_allowlist j ≡ true) ((eq_iff "LANG" k).0 h) refl

-- A scanner's variable has the value that the extra ones give it last, and is the inherited one
-- if they give it none; nothing else of the parent's environment reaches the scanner.
pub lookup-build_minimal_env :
    (k : String) (environ extra : Env)
    → lookup k (build_minimal_env environ extra) ≡ assigned k extra (inherited k environ)
unfolding build_minimal_env
lookup-build_minimal_env k environ extra =
    let base = set_default "LANG" "C.UTF-8" (select scanner_env_allowlist environ) in
    rw (
      lookup-update k extra (assign "SEMGREP_SEND_METRICS" "off" base),
      lookup-assign k "SEMGREP_SEND_METRICS" "off" base,
      lookup-set_default k "LANG" "C.UTF-8" (select scanner_env_allowlist environ),
      lookup-select k scanner_env_allowlist environ,
      defaulted (lookup k environ) ("SEMGREP_SEND_METRICS" == k) (contains scanner_env_allowlist k)
          ("LANG" == k) (lang_allowed k),
    )
