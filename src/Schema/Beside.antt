-- ===== src/Schema/Beside.antt =====
-- Statements about some tables beside others: what they do to a part of a catalog they do to the
-- whole, if they are not about the rest.
use partha_prime_agent.Prelude.{
  String, Bool, true, false, Option, none, some, List, [], ◌∷◌, ◌++◌, ◌&&◌, not, any, any-append,
  filter, filter-append, ◌==◌, string_eq, ◌≡◌, refl, ap, ◌∙◌, arith, append_assoc, All,
  if◌then◌else◌,
}
use partha_prime_agent.Schema.Defs.{
  Table, Index, Constraint, primary_key, unique, foreign_key, Operation, create_table, create_index,
  drop_table, Catalog, leads, is_used, is_over, has_table, has_index, all, apply, run, run_next,
}

abbrev pub beside : Catalog → Catalog → Catalog
beside c d = record { tables = c.tables ++ d.tables; indexes = c.indexes ++ d.indexes }

-- The statement is about nothing in the catalog.
abbrev pub Apart : Catalog → Operation → Type 0
Apart c (create_table t) = has_table t.name c.tables ≡ false
Apart c (create_index i) = has_index i.name c.indexes ≡ false
Apart c (drop_table n) =
    (has_table n c.tables ≡ false)
    × (any (is_used n) c.tables ≡ false)
    × (any (λ (i : Index). i.table == n) c.indexes ≡ false)

filter_none :
    {A : Type 0} (p : A → Bool) (xs : List A) → any p xs ≡ false → filter (λ x. not (p x)) xs ≡ xs
filter_none p [] h = refl
filter_none p (x ∷ xs) h = ground (arith, filter_none p xs)

leads-append :
    (xs ys : List Table) (cs : List Constraint)
    → all (leads ys) cs ≡ true
    → all (leads (xs ++ ys)) cs ≡ true
leads-append xs ys [] h = refl
leads-append xs ys (primary_key c ∷ cs) h = leads-append xs ys cs h
leads-append xs ys (unique c ∷ cs) h = leads-append xs ys cs h
leads-append xs ys (foreign_key c target key ∷ cs) h =
    rw any-append (ground (arith, leads-append xs ys cs))

if-some :
    {A : Type 0} (b : Bool) (x e : A) → (if b then some x else none) ≡ some e → (b ≡ true) × (x ≡ e)
if-some true x e h = (refl, cc)
if-some false x e h = cc

module _ (c d e : Catalog) where
  table-beside :
      (t : Table)
      → Apart c (create_table t)
      → apply (create_table t) d ≡ some e
      → apply (create_table t) (beside c d) ≡ some (beside c e)
  unfolding apply
  table-beside t apart h =
      let (fits, same) =
        if-some (not (has_table t.name d.tables) && all (leads d.tables) t.constraints)
          (record d { tables = d.tables ++ (t ∷ []) }) e h in
      let still : (not (has_table t.name (c.tables ++ d.tables))
            && all (leads (c.tables ++ d.tables)) t.constraints)
          ≡ true =
        ground (
          arith,
          any-append (λ (u : Table). u.name == t.name) c.tables d.tables,
          leads-append c.tables d.tables t.constraints,
        ) in
      rw still (
        ap (λ ts. some (record { tables = ts; indexes = c.indexes ++ d.indexes }))
          (append_assoc c.tables d.tables (t ∷ []))
        ∙ ap (λ x. some (beside c x)) same)

  index-beside :
      (i : Index)
      → Apart c (create_index i)
      → apply (create_index i) d ≡ some e
      → apply (create_index i) (beside c d) ≡ some (beside c e)
  unfolding apply
  index-beside i apart h =
      let (fits, same) =
        if-some (not (has_index i.name d.indexes) && any (is_over i) d.tables)
          (record d { indexes = d.indexes ++ (i ∷ []) }) e h in
      let still : (not (has_index i.name (c.indexes ++ d.indexes))
            && any (is_over i) (c.tables ++ d.tables))
          ≡ true =
        ground (
          arith,
          any-append (λ (j : Index). j.name == i.name) c.indexes d.indexes,
          any-append (is_over i) c.tables d.tables,
        ) in
      rw still (
        ap (λ is. some (record { tables = c.tables ++ d.tables; indexes = is }))
          (append_assoc c.indexes d.indexes (i ∷ []))
        ∙ ap (λ x. some (beside c x)) same)

  drop-beside :
      (n : String)
      → Apart c (drop_table n)
      → apply (drop_table n) d ≡ some e
      → apply (drop_table n) (beside c d) ≡ some (beside c e)
  unfolding apply
  drop-beside n apart h =
      let other_table = λ (t : Table). not (t.name == n) in
      let other_index = λ (i : Index). not (i.table == n) in
      let (fits, same) =
        if-some (has_table n d.tables && not (any (is_used n) d.tables))
          (record { tables = filter other_table d.tables; indexes = filter other_index d.indexes })
          e h in
      let still : (has_table n (c.tables ++ d.tables)
            && not (any (is_used n) (c.tables ++ d.tables)))
          ≡ true =
        ground (
          arith,
          any-append (λ (t : Table). t.name == n) c.tables d.tables,
          any-append (is_used n) c.tables d.tables,
        ) in
      let tables : filter other_table (c.tables ++ d.tables)
          ≡ c.tables ++ filter other_table d.tables =
        filter-append other_table c.tables d.tables
        ∙ ap (λ ts. ts ++ filter other_table d.tables)
            (filter_none (λ t. t.name == n) c.tables apart.0) in
      let indexes : filter other_index (c.indexes ++ d.indexes)
          ≡ c.indexes ++ filter other_index d.indexes =
        filter-append other_index c.indexes d.indexes
        ∙ ap (λ is. is ++ filter other_index d.indexes)
            (filter_none (λ i. i.table == n) c.indexes apart.2) in
      rw still (
        (λ i. some (record { tables = tables i; indexes = indexes i }))
        ∙ ap (λ x. some (beside c x)) same)

  apply-beside :
      (op : Operation)
      → Apart c op
      → apply op d ≡ some e
      → apply op (beside c d) ≡ some (beside c e)
  apply-beside (create_table t) = table-beside t
  apply-beside (create_index i) = index-beside i
  apply-beside (drop_table n) = drop-beside n

run_cases :
    (op : Operation) (ops : List Operation) (d e : Catalog)
    → run (op ∷ ops) d ≡ some e
    → (m : Catalog) × (apply op d ≡ some m) × (run ops m ≡ some e)
unfolding run
run_cases op ops d e h = go (apply op d) refl h
  where
    go :
        (o : Option Catalog)
        → apply op d ≡ o
        → run_next o (run ops) ≡ some e
        → (m : Catalog) × (apply op d ≡ some m) × (run ops m ≡ some e)
    go none eq h = cc
    go (some m) eq h = (m, eq, h)

-- What a run of statements does to some tables it does to them beside others, if no statement is
-- about those.
pub run-beside :
    (ops : List Operation) (c d e : Catalog)
    → All (Apart c) ops
    → run ops d ≡ some e
    → run ops (beside c d) ≡ some (beside c e)
unfolding run
run-beside [] c d e apart h = cc
run-beside (op ∷ ops) c d e apart h =
    let (m, first, rest) = run_cases op ops d e h in
    rw (apply-beside c d m op apart.0 first) (run-beside ops c m e apart.1 rest)
