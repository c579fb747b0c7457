-- ===== src/Tests/SchemaRuns.antt =====
-- The migration beside the table in which Alembic keeps its version, and where a table is there.
use partha_prime_agent.Prelude.{false, some, none, [], ◌∷◌, ◌≡◌, refl, All}
use partha_prime_agent.Schema.Defs.{Table, Catalog, string, column, primary_key, run}
use partha_prime_agent.Schema.Migration.{upgrade, downgrade, repositories_table}
use partha_prime_agent.Schema.Declared.{metadata}
use partha_prime_agent.Schema.Upgrade.{IsVacant, downgrade-upgrade}
use partha_prime_agent.Schema.Agree.{Declares, upgrade-Declares, upgrade_refused}

abbrev version_table : Table
version_table = record {
  name = "alembic_version";
  columns = column "version_num" (string 32) false ∷ [];
  constraints = primary_key "version_num" ∷ [];
}

abbrev stamped : Catalog
stamped = record { tables = version_table ∷ []; indexes = [] }

stamped-IsVacant : IsVacant stamped
stamped-IsVacant = record {
  absent = (
    (refl, (refl, (refl, tt))),
    (
      (refl, (refl, (refl, (refl, (refl, tt))))),
      (
        (refl, (refl, (refl, tt))),
        (
          (refl, (refl, (refl, tt))),
          (
            (refl, (refl, (refl, tt))),
            (
              (refl, (refl, (refl, (refl, tt)))),
              (
                (refl, (refl, (refl, tt))),
                (
                  (refl, (refl, (refl, tt))),
                  ((refl, (refl, (refl, tt))), ((refl, (refl, (refl, tt))), tt)),
                ),
              ),
            ),
          ),
        ),
      ),
    ),
  );
  references_inside = (refl, tt);
  indexes_inside = tt;
}

downgrade-upgrade_example :
    (d : Catalog) × (run upgrade stamped ≡ some d) × (run downgrade d ≡ some stamped)
downgrade-upgrade_example = downgrade-upgrade stamped stamped-IsVacant

upgrade-Declares_example :
    (d : Catalog) × (run upgrade stamped ≡ some d) × All (Declares d) metadata
upgrade-Declares_example = upgrade-Declares stamped stamped-IsVacant

-- What a start of the application leaves, as far as its first table.
abbrev started : Catalog
started = record { tables = version_table ∷ repositories_table ∷ []; indexes = [] }

upgrade_refused_example : run upgrade started ≡ none
unfolding metadata
upgrade_refused_example = upgrade_refused started "repositories" refl refl
