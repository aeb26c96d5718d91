-- ===== src/Examples/Catalog.antt =====
-- Catalog responses for one table.
use postgresql_trino_gateway.Prelude.{
  ℕ, ◌≡◌, ◌↔◌, refl, true, not, none, some, List, [], ◌∷◌, ◌++◌, all,
}
use postgresql_trino_gateway.Prelude.Text.{
  Text, codes, to_ascii_uppercase, eq_ignore_ascii_case, find,
}
use postgresql_trino_gateway.Prelude.Case.{ascii_only}
use postgresql_trino_gateway.Wire.{Value, string, number, unsigned}
use postgresql_trino_gateway.Sql.{ObjectName, ParsedQuery}
use postgresql_trino_gateway.QueryInspection.{
  references_table, references_table_in_schema, last_ident_eq, qualified_ok,
}
use postgresql_trino_gateway.Catalog.{handle_catalog_query, handle_dynamic_catalog_query}
use postgresql_trino_gateway.Catalog.Response.{json_str}
use postgresql_trino_gateway.Catalog.PgClass.{class_row}
use postgresql_trino_gateway.Catalog.Oids.{HasOid}
use postgresql_trino_gateway.Catalog.Dispatch.{catalog_tables, catalog_passes_iff}
use postgresql_trino_gateway.InfoSchema.{
  rewrite_info_schema_columns, type_mapping, powerbi_marker, end_marker,
}
use postgresql_trino_gateway.InfoSchema.Splice.{rewrite_info_schema_columns_splice}
use postgresql_trino_gateway.Intercept.Passing.{named}
use postgresql_trino_gateway.Examples.Fixtures.{plain_encoder, empty_catalog}

abbrev orders : List Value
orders = string (codes "sales") ∷ string (codes "orders") ∷ string (codes "BASE TABLE") ∷ []

abbrev order_id : List Value
order_id =
    string (codes "sales")
    ∷ string (codes "orders")
    ∷ string (codes "id")
    ∷ number (unsigned 1)
    ∷ string (codes "NO")
    ∷ string (codes "bigint")
    ∷ []

abbrev orders_oid : ℕ
orders_oid = 1638773579

orders_oid_found : HasOid (class_row ascii_only orders) orders_oid
unfolding class_row
orders_oid_found = refl

same_schema : json_str orders 0 (codes "public") ≡ json_str order_id 0 (codes "public")
unfolding json_str
same_schema = refl

same_table : json_str orders 1 [] ≡ json_str order_id 1 []
unfolding json_str
same_table = refl

-- A parse that references one table.
abbrev from_table : ObjectName → ParsedQuery
from_table name = some (record { statements = []; relations = name ∷ []; expressions = [] })

catalog_passes_iff_example :
    ((handle_catalog_query plain_encoder (from_table (named (codes "orders"))) ≡ none)
      × (handle_dynamic_catalog_query empty_catalog (from_table (named (codes "orders"))) ≡ none))
    ↔ (all
          (λ name. not (references_table (from_table (named (codes "orders"))) name))
          catalog_tables
        ≡ true)
catalog_passes_iff_example =
    catalog_passes_iff plain_encoder empty_catalog (from_table (named (codes "orders")))

abbrev powerbi_sql : Text
powerbi_sql = codes "select a, case when (data_type like '%unsigned%') then 1 end as DATA_TYPE, b"

abbrev powerbi_rewritten : Text
powerbi_rewritten = codes "select a, " ++ (type_mapping ++ (codes " AS DATA_TYPE" ++ codes ", b"))

powerbi_rewrites :
    rewrite_info_schema_columns powerbi_sql (from_table (named (codes "columns")))
    ≡ some powerbi_rewritten
unfolding rewrite_info_schema_columns references_table_in_schema last_ident_eq eq_ignore_ascii_case
    qualified_ok find to_ascii_uppercase
powerbi_rewrites = refl

rewrite_info_schema_columns_splice_example :
    (before span after : Text) × (powerbi_sql ≡ before ++ (span ++ after))
    × (powerbi_rewritten ≡ before ++ (type_mapping ++ (codes " AS DATA_TYPE" ++ after)))
    × ((inside rest : Text) × (to_ascii_uppercase span ≡ inside ++ end_marker)
        × (powerbi_marker ++ rest ≡ to_ascii_uppercase (span ++ after)))
rewrite_info_schema_columns_splice_example =
    rewrite_info_schema_columns_splice powerbi_sql powerbi_rewritten
      (from_table (named (codes "columns"))) powerbi_rewrites
