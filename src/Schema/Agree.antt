-- ===== src/Schema/Agree.antt =====
-- The schema that the migration leads to is the one that the models declare, and the migration is
-- refused where one of the declared tables is there already.
use partha_prime_agent.Prelude.{
  String, Bool, true, false, Option, none, some, List, [], ◌∷◌, ◌++◌, ◌&&◌, not, any, any-append,
  map, filter, filter-append, ◌==◌, string_eq, eq_iff, ◌≡◌, refl, ◌∙◌, arith, All, Bool-cases, inl,
  inr, if◌then◌else◌,
}
use mathlib.Core.List.{Perm, perm_middle}
use mathlib.Core.List.Perm
use partha_prime_agent.Prelude.Keys.{is_key}
use partha_prime_agent.Schema.Defs.{
  Table, Index, Operation, create_table, create_index, drop_table, Catalog, leads, has_table,
  has_index, is_over, all, run,
}
use partha_prime_agent.Schema.Migration.{created, upgrade}
use partha_prime_agent.Schema.Declared.{Model, metadata, table_of, indexes_of}
use partha_prime_agent.Schema.Beside.{beside}
use partha_prime_agent.Schema.Upgrade.{
  IsVacant, migrated, upgrade-beside, unindexed, missing_in, names, both,
}

abbrev pub table_named : String → List Table → Option Table
table_named n [] = none
table_named n (t ∷ ts) = if t.name == n then some t else table_named n ts

abbrev pub indexes_on : String → List Index → List Index
indexes_on n = filter (λ i. i.table == n)

-- The table of the model is there, with the declared columns in their order, and, in any order,
-- with the declared constraints and indexes.
pub record Declares (d : Catalog) (m : Model) : Type 0 where
  pub table : Table
  pub found : table_named m.tablename d.tables ≡ some table
  pub columns_agree : table.columns ≡ (table_of m).columns
  pub constraints_agree : Perm table.constraints (table_of m).constraints
  pub indexes_agree : Perm (indexes_on m.tablename d.indexes) (indexes_of m)

same_order :
    (t : Table) (m : Model)
    → table_named m.tablename migrated.tables ≡ some t
    → t.columns ≡ (table_of m).columns
    → Perm t.constraints (table_of m).constraints
    → Perm (indexes_on m.tablename migrated.indexes) (indexes_of m)
    → Declares migrated m
same_order t m found columns constraints indexes = record {
  table = t;
  found = found;
  columns_agree = columns;
  constraints_agree = constraints;
  indexes_agree = indexes;
}

migrated-Declares : All (Declares migrated) metadata
unfolding metadata
migrated-Declares = (
  same_order _ _ refl refl (Perm.refl _) (Perm.swap _ _ _),
  (
    same_order _ _ refl refl (Perm.swap _ _ _) (Perm.swap _ _ _),
    (
      same_order _ _ refl refl (Perm.swap _ _ _) (Perm.refl _),
      (
        same_order _ _ refl refl (Perm.swap _ _ _) (Perm.swap _ _ _),
        (
          same_order _ _ refl refl (Perm.swap _ _ _) (Perm.swap _ _ _),
          (
            same_order _ _ refl refl (Perm.trans (Perm.swap _ _ _) (perm_middle (_ ∷ _ ∷ []) []))
                (perm_middle (_ ∷ _ ∷ []) []),
            (
              same_order _ _ refl refl (Perm.swap _ _ _) (Perm.swap _ _ _),
              (
                same_order _ _ refl refl (Perm.swap _ _ _) (Perm.swap _ _ _),
                (
                  same_order _ _ refl refl (Perm.swap _ _ _) (Perm.swap _ _ _),
                  (same_order _ _ refl refl (Perm.refl _) (Perm.swap _ _ _), tt),
                ),
              ),
            ),
          ),
        ),
      ),
    ),
  ),
)

table_named-append :
    (n : String) (ts us : List Table)
    → has_table n ts ≡ false
    → table_named n (ts ++ us) ≡ table_named n us
table_named-append n [] us h = refl
table_named-append n (t ∷ ts) us h = ground (arith, table_named-append n ts us)

indexes_on-nil :
    (n : String) (is : List Index)
    → any (λ (i : Index). i.table == n) is ≡ false
    → indexes_on n is ≡ []
indexes_on-nil n [] h = refl
indexes_on-nil n (i ∷ is) h = ground (arith, indexes_on-nil n is)

Declares-beside :
    (c : Catalog) (v : IsVacant c) (m : Model)
    → has_table m.tablename c.tables ≡ false
    → Declares migrated m
    → Declares (beside c migrated) m
Declares-beside c v m absent h =
    let others =
      indexes_on-nil m.tablename c.indexes
        (unindexed c.indexes c.tables m.tablename absent v.indexes_inside) in
    record {
      table = h.table;
      found = table_named-append m.tablename c.tables migrated.tables absent ∙ h.found;
      columns_agree = h.columns_agree;
      constraints_agree = h.constraints_agree;
      indexes_agree = rw (filter-append, others) h.indexes_agree;
    }

Declares-all :
    (c : Catalog) (v : IsVacant c) (ms : List Model)
    → all (λ (m : Model). is_key m.tablename (names created)) ms ≡ true
    → All (Declares migrated) ms
    → All (Declares (beside c migrated)) ms
Declares-all c v [] k h = tt
Declares-all c v (m ∷ ms) k h =
    let (known, more) =
      both (is_key m.tablename (names created))
        (all (λ (m : Model). is_key m.tablename (names created)) ms) k in
    (
      Declares-beside c v m (missing_in c created m.tablename v.absent known) h.0,
      Declares-all c v ms more h.1,
    )

-- Where none of its tables and indexes is there, the upgrade succeeds, and then the table of each
-- model is there: its columns are those that the class declares, with their types and whether they
-- are nullable, in their order, and so are its keys, references, unique columns and indexes, in any
-- order.
pub upgrade-Declares :
    (c : Catalog)
    → IsVacant c
    → (d : Catalog) × (run upgrade c ≡ some d) × All (Declares d) metadata
unfolding metadata
upgrade-Declares c v =
    (beside c migrated, upgrade-beside c v, Declares-all c v metadata refl migrated-Declares)

abbrev makes : String → Operation → Bool
makes n (create_table t) = t.name == n
makes n _ = false

abbrev drops : Operation → Bool
drops (drop_table n) = true
drops _ = false

refused_where_there :
    (n : String) (ops : List Operation) (c : Catalog)
    → has_table n c.tables ≡ true
    → any drops ops ≡ false
    → any (makes n) ops ≡ true
    → run ops c ≡ none
unfolding run
refused_where_there n [] c there kept made = cc
refused_where_there n (create_table t ∷ ops) c there kept made =
    elim (Bool-cases (not (has_table t.name c.tables) && all (leads c.tables) t.constraints)) [
      | inl fits ↦ rw fits (
          refused_where_there n ops (record c { tables = c.tables ++ (t ∷ []) })
            (ground (arith, any-append (λ (u : Table). u.name == n) c.tables (t ∷ []))) kept
            (ground (arith, eq_iff t.name n)))
      | inr refused ↦ rw refused
    ]
refused_where_there n (create_index i ∷ ops) c there kept made =
    elim (Bool-cases (not (has_index i.name c.indexes) && any (is_over i) c.tables)) [
      | inl fits ↦
          rw fits (
            refused_where_there n ops (record c { indexes = c.indexes ++ (i ∷ []) }) there kept
              made)
      | inr refused ↦ rw refused
    ]
refused_where_there n (drop_table m ∷ ops) c there kept made = cc

-- Where a table of one of the models is there already, as after a start of the application, the
-- upgrade is refused.
pub upgrade_refused :
    (c : Catalog) (n : String)
    → is_key n (map (λ (m : Model). m.tablename) metadata) ≡ true
    → has_table n c.tables ≡ true
    → run upgrade c ≡ none
unfolding metadata upgrade
upgrade_refused c n declared there = refused_where_there n upgrade c there refl declared
