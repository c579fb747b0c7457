-- ===== src/Json/Keys.antt =====
-- A dict after its keys are set or left out.
use partha_prime_agent.Prelude.{
  String, false, List, ◌≡◌, refl, arith, contains, ◌==◌, string_eq, eq_iff,
}
use partha_prime_agent.Json.{Value, Fields, end, field, get, set_field, without}

pub get-without :
    (keys : List String) (k : String) (d : Fields)
    → contains keys k ≡ false
    → get k (without keys d) ≡ get k d
unfolding get without
get-without keys k end h = refl
get-without keys k (field j v d) h = ground (arith, get-without keys k d, eq_iff k j)

pub get-set_field :
    (k j : String) (v : Value) (d : Fields) → (k == j) ≡ false → get k (set_field j v d) ≡ get k d
unfolding get set_field
get-set_field k j v end h = ground arith
get-set_field k j v (field i w d) h =
    ground (arith, get-set_field k j v d, eq_iff j i, eq_iff k j, eq_iff k i)

pub set-set :
    (k : String) (v w : Value) (d : Fields) → set_field k v (set_field k w d) ≡ set_field k v d
unfolding set_field
set-set k v w end = ground (arith, eq_iff k k)
set-set k v w (field j u d) = ground (arith, set-set k v w d, eq_iff k k)

-- Two keys can be set in either order if one of them is there already.
pub set_comm :
    (k j : String) (v w u : Value) (d : Fields)
    → (k == j) ≡ false
    → set_field j w (set_field k v (set_field j u d)) ≡ set_field k v (set_field j w d)
unfolding set_field
set_comm k j v w u end h = ground (arith, eq_iff k j, eq_iff j k, eq_iff j j)
set_comm k j v w u (field i x d) h = ground (
  arith,
  set_comm k j v w u d,
  set-set j w u d,
  eq_iff k j,
  eq_iff j k,
  eq_iff j j,
  eq_iff k k,
  eq_iff k i,
  eq_iff j i,
)
