-- ===== src/Schema/Upgrade.antt =====
-- What the migration does to a database, and how its schema compares with the declared one.
use partha_prime_agent.Prelude.{
  String, Bool, true, false, some, List, [], ◌∷◌, ◌++◌, ◌&&◌, any, map, ◌==◌, string_eq, eq_iff,
  ◌≡◌, refl, sym, ap, ◌∙◌, arith, All,
}
use mathlib.Core.List.{append-nil}
use partha_prime_agent.Prelude.Keys.{is_key, All-append}
use partha_prime_agent.Schema.Defs.{
  Table, Index, Constraint, primary_key, unique, foreign_key, create_index, drop_table, Catalog,
  leads, refers_to, is_used, has_table, has_index, all, run,
}
use partha_prime_agent.Schema.Migration.{created, creates, upgrade, dropped, downgrade}
use partha_prime_agent.Schema.Beside.{beside, Apart, run-beside}

abbrev concat {ℓ} : {A : Type ℓ} → List (List A) → List A
concat [] = []
concat (xs ∷ more) = xs ++ concat more

abbrev Absent : Catalog → Table × List Index → Type 0
Absent c (t, indexes) =
    (has_table t.name c.tables ≡ false)
    × All (λ (i : Index). has_index i.name c.indexes ≡ false) indexes

-- None of the tables and indexes of the migration is there, and what is there refers to nothing
-- else.
pub record IsVacant (c : Catalog) : Type 0 where
  pub absent : All (Absent c) created
  pub references_inside : All (λ (t : Table). all (leads c.tables) t.constraints ≡ true) c.tables
  pub indexes_inside : All (λ (i : Index). has_table i.table c.tables ≡ true) c.indexes

Apart-indexes :
    (c : Catalog) (indexes : List Index)
    → All (λ (i : Index). has_index i.name c.indexes ≡ false) indexes
    → All (Apart c) (map create_index indexes)
Apart-indexes c [] h = tt
Apart-indexes c (i ∷ is) h = (h.0, Apart-indexes c is h.1)

Apart-creates :
    (c : Catalog) (ms : List (Table × List Index)) → All (Absent c) ms → All (Apart c) (creates ms)
unfolding creates
Apart-creates c [] h = tt
Apart-creates c ((t, indexes) ∷ ms) h = (
  h.0.0,
  All-append (Apart c) (map create_index indexes) (creates ms) (Apart-indexes c indexes h.0.1)
      (Apart-creates c ms h.1),
)

leads_known :
    (tables : List Table) (target key n : String)
    → leads tables (foreign_key n target key) ≡ true
    → has_table target tables ≡ true
leads_known [] target key n h = h
leads_known (t ∷ ts) target key n h = ground (arith, leads_known ts target key n)

unreferred :
    (tables : List Table) (n : String) (cs : List Constraint)
    → has_table n tables ≡ false
    → all (leads tables) cs ≡ true
    → any (refers_to n) cs ≡ false
unreferred tables n [] no' h = refl
unreferred tables n (primary_key c ∷ cs) no' h = unreferred tables n cs no' h
unreferred tables n (unique c ∷ cs) no' h = unreferred tables n cs no' h
unreferred tables n (foreign_key c target key ∷ cs) no' h =
    ground (arith, eq_iff target n, leads_known tables target key c, unreferred tables n cs)

unused :
    (tables all_tables : List Table) (n : String)
    → has_table n all_tables ≡ false
    → All (λ (t : Table). all (leads all_tables) t.constraints ≡ true) tables
    → any (is_used n) tables ≡ false
unused [] all_tables n no' h = refl
unused (t ∷ ts) all_tables n no' h =
    ground (arith, unreferred all_tables n t.constraints no' h.0, unused ts all_tables n no' h.1)

pub unindexed :
    (indexes : List Index) (tables : List Table) (n : String)
    → has_table n tables ≡ false
    → All (λ (i : Index). has_table i.table tables ≡ true) indexes
    → any (λ (i : Index). i.table == n) indexes ≡ false
unindexed [] tables n no' h = refl
unindexed (i ∷ is) tables n no' h = ground (arith, eq_iff i.table n, unindexed is tables n no' h.1)

abbrev pub names : List (Table × List Index) → List String
names = map (λ m. m.0.name)

pub missing_in :
    (c : Catalog) (ms : List (Table × List Index)) (n : String)
    → All (Absent c) ms
    → is_key n (names ms) ≡ true
    → has_table n c.tables ≡ false
missing_in c [] n h k = cc
missing_in c ((t, indexes) ∷ ms) n h k = ground (arith, eq_iff t.name n, missing_in c ms n h.1)

pub both : (a b : Bool) → (a && b) ≡ true → (a ≡ true) × (b ≡ true)
both true b h = (refl, h)
both false b h = cc

Apart-drops :
    (c : Catalog) (ns : List String)
    → IsVacant c
    → all (λ n. is_key n (names created)) ns ≡ true
    → All (Apart c) (map drop_table ns)
Apart-drops c [] v h = tt
Apart-drops c (n ∷ ns) v h =
    let (known, more) =
      both (is_key n (names created)) (all (λ m. is_key m (names created)) ns) h in
    let absent = missing_in c created n v.absent known in
    (
      (
        absent,
        unused c.tables c.tables n absent v.references_inside,
        unindexed c.indexes c.tables n absent v.indexes_inside,
      ),
      Apart-drops c ns v more,
    )

abbrev nothing : Catalog
nothing = record { tables = []; indexes = [] }

-- The schema of the migration alone.
abbrev pub migrated : Catalog
migrated = record { tables = map (λ m. m.0) created; indexes = concat (map (λ m. m.1) created) }

upgrade_alone : run upgrade nothing ≡ some migrated
unfolding run upgrade
upgrade_alone = refl

downgrade_alone : run downgrade migrated ≡ some nothing
unfolding run downgrade
downgrade_alone = refl

beside-nothing : (c : Catalog) → beside c nothing ≡ c
beside-nothing c = λ i. record { tables = append-nil c.tables i; indexes = append-nil c.indexes i }

pub upgrade-beside : (c : Catalog) → IsVacant c → run upgrade c ≡ some (beside c migrated)
unfolding upgrade
upgrade-beside c v =
    ap (run upgrade) (sym (beside-nothing c))
    ∙ run-beside upgrade c nothing migrated (Apart-creates c created v.absent) upgrade_alone

-- Where none of its tables and indexes is there, the upgrade succeeds, and the downgrade behind it
-- leads back to the catalog as it was.
pub downgrade-upgrade :
    (c : Catalog)
    → IsVacant c
    → (d : Catalog) × (run upgrade c ≡ some d) × (run downgrade d ≡ some c)
unfolding downgrade
downgrade-upgrade c v = (
  beside c migrated,
  upgrade-beside c v,
  run-beside downgrade c migrated nothing (Apart-drops c dropped v refl) downgrade_alone
      ∙ ap some (beside-nothing c),
)
