-- ===== src/Catalog/Dispatch.antt =====
-- Which queries src/catalog/mod.rs answers.
use postgresql_trino_gateway.Prelude.{◌≡◌, ◌↔◌, true, not, none, List, [], ◌∷◌, arith, all}
use postgresql_trino_gateway.Prelude.Text.{Text, codes}
use postgresql_trino_gateway.Wire.{FieldEncoder}
use postgresql_trino_gateway.Sql.{ParsedQuery}
use postgresql_trino_gateway.QueryInspection.{references_table}
use postgresql_trino_gateway.Catalog.{Dynamic, handle_catalog_query, handle_dynamic_catalog_query}

abbrev pub catalog_tables : List Text
catalog_tables =
    codes "pg_attribute"
    ∷ codes "pg_class"
    ∷ codes "pg_enum"
    ∷ codes "pg_namespace"
    ∷ codes "pg_range"
    ∷ codes "pg_type"
    ∷ []

-- A query goes on to Trino, past the static and the dynamic catalog, exactly when it references none
-- of the six catalog tables.
pub catalog_passes_iff :
    (encoder : FieldEncoder) (d : Dynamic) (parsed : ParsedQuery)
    → ((handle_catalog_query encoder parsed ≡ none)
        × (handle_dynamic_catalog_query d parsed ≡ none))
      ↔ (all (λ name. not (references_table parsed name)) catalog_tables ≡ true)
unfolding handle_catalog_query handle_dynamic_catalog_query
catalog_passes_iff encoder d parsed = (λ h. ground arith, λ h. ground arith)
