-- ===== src/Schema/Defs.antt =====
-- Tables, their constraints and indexes, and the statements that a migration is made of, with what
-- SQL says of them: a name is given once, a reference leads to the primary key of a table that is
-- there, and a table that others refer to is not dropped.
use partha_prime_agent.Prelude.{
  ℕ, String, Bool, true, false, Option, none, some, List, [], ◌∷◌, ◌++◌, ◌&&◌, not, any, filter,
  ◌==◌, string_eq, if◌then◌else◌,
}

pub data ColumnType : Type 0 where
  uuid text boolean integer : ColumnType
  -- `String(length=n)`
  string : ℕ → ColumnType
  -- `DateTime(timezone=True)`
  datetime : ColumnType

pub record Column : Type 0 where
  pub name : String
  pub type : ColumnType
  pub nullable : Bool

abbrev pub column : String → ColumnType → Bool → Column
column name type nullable = record { name = name; type = type; nullable = nullable }

pub data Constraint : Type 0 where
  primary_key : String → Constraint
  unique : String → Constraint
  -- The column, and the table and the column that it refers to.
  foreign_key : String → String → String → Constraint

pub record Table : Type 0 where
  pub name : String
  pub columns : List Column
  pub constraints : List Constraint

pub record Index : Type 0 where
  pub name : String
  pub table : String
  pub columns : List String
  pub is_unique : Bool

pub data Operation : Type 0 where
  create_table : Table → Operation
  create_index : Index → Operation
  drop_table : String → Operation

pub record Catalog : Type 0 where
  pub tables : List Table
  pub indexes : List Index

abbrev is_primary : String → Constraint → Bool
is_primary column (primary_key c) = c == column
is_primary column _ = false

abbrev pub refers_to : String → Constraint → Bool
refers_to n (foreign_key c target key) = target == n
refers_to n _ = false

-- A reference of the constraint leads to a primary key.
abbrev pub leads : List Table → Constraint → Bool
leads tables (foreign_key c target key) =
    any (λ (t : Table). t.name == target && any (is_primary key) t.constraints) tables
leads tables _ = true

abbrev pub all {ℓ} : {A : Type ℓ} → (A → Bool) → List A → Bool
all p [] = true
all p (x ∷ xs) = p x && all p xs

abbrev pub has_table : String → List Table → Bool
has_table n tables = any (λ (t : Table). t.name == n) tables

abbrev pub has_index : String → List Index → Bool
has_index n indexes = any (λ (i : Index). i.name == n) indexes

abbrev has_column : List Column → String → Bool
has_column columns n = any (λ (c : Column). c.name == n) columns

-- The columns of the index are columns of its table.
abbrev pub is_over : Index → Table → Bool
is_over i t = t.name == i.table && all (has_column t.columns) i.columns

-- Another table refers to the table of this name.
abbrev pub is_used : String → Table → Bool
is_used n t = not (t.name == n) && any (refers_to n) t.constraints

-- `none`: the database refuses the statement.
unfoldable pub apply : Operation → Catalog → Option Catalog
apply (create_table t) c =
    if not (has_table t.name c.tables) && all (leads c.tables) t.constraints
    then some (record c { tables = c.tables ++ (t ∷ []) })
    else none
apply (create_index i) c =
    if not (has_index i.name c.indexes) && any (is_over i) c.tables
    then some (record c { indexes = c.indexes ++ (i ∷ []) })
    else none
apply (drop_table n) c =
    if has_table n c.tables && not (any (is_used n) c.tables)
    then some (record {
      tables = filter (λ (t : Table). not (t.name == n)) c.tables;
      indexes = filter (λ (i : Index). not (i.table == n)) c.indexes;
    })
    else none

abbrev pub run_next : Option Catalog → (Catalog → Option Catalog) → Option Catalog
run_next none rest = none
run_next (some c) rest = rest c

unfoldable pub run : List Operation → Catalog → Option Catalog
unfolding apply
run [] c = some c
run (op ∷ ops) c = run_next (apply op c) (run ops)
