-- ===== src/Catalog/Stubs.antt =====
-- src/catalog/stubs.rs: responses that never depend on Trino.
use postgresql_trino_gateway.Prelude.{some, List, [], ◌∷◌}
use postgresql_trino_gateway.Prelude.Text.{codes}
use postgresql_trino_gateway.Wire.{PgType, PgWireResult, Response, FieldEncoder}
use postgresql_trino_gateway.Catalog.Response.{text_field, build_response}

module _ (encoder : FieldEncoder) where
  unfoldable pub empty_composite_fields : PgWireResult (List Response)
  empty_composite_fields =
      build_response encoder
        (text_field (codes "oid") PgType.int4
          ∷ text_field (codes "attname") PgType.varchar
          ∷ text_field (codes "atttypid") PgType.int4
          ∷ [])
        []

  unfoldable pub empty_enum_labels : PgWireResult (List Response)
  empty_enum_labels =
      build_response encoder
        (text_field (codes "oid") PgType.int4 ∷ text_field (codes "enumlabel") PgType.varchar ∷ [])
        []

  unfoldable pub empty_pg_range : PgWireResult (List Response)
  empty_pg_range =
      build_response encoder
        (text_field (codes "rngtypid") PgType.int4
          ∷ text_field (codes "rngsubtype") PgType.int4
          ∷ text_field (codes "rngmultitypid") PgType.int4
          ∷ [])
        []

  unfoldable pub respond_pg_namespace : PgWireResult (List Response)
  respond_pg_namespace =
      build_response encoder
        (text_field (codes "oid") PgType.int4 ∷ text_field (codes "nspname") PgType.varchar ∷ [])
        ((some (codes "11") ∷ some (codes "pg_catalog") ∷ [])
          ∷ (some (codes "2200") ∷ some (codes "public") ∷ [])
          ∷ (some (codes "13171") ∷ some (codes "information_schema") ∷ [])
          ∷ [])
