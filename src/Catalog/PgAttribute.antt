-- ===== src/Catalog/PgAttribute.antt =====
-- src/catalog/pg_attribute.rs: pg_attribute out of Trino's list of columns. postgres-types' oid of a
-- type is a parameter, as is Trino's `get_all`.
use postgresql_trino_gateway.Prelude.{
  ℕ, ◌-◌, ◌^◌, Option, none, some, List, [], ◌∷◌, map, if◌then◌else◌, leb, unwrap_or, or_else,
  Result, ok, err,
}
use postgresql_trino_gateway.Prelude.Text.{Text, codes, text_eq}
use postgresql_trino_gateway.Prelude.Case.{CaseTable}
use postgresql_trino_gateway.Prelude.Decimal.{to_decimal}
use postgresql_trino_gateway.Prelude.Int.{ℤ, pos, negsuc, to_string, parse_i64}
use postgresql_trino_gateway.Types.{trino_type_to_pg}
use postgresql_trino_gateway.Wire.{
  PgType, FieldInfo, api_error, PgWireResult, unsigned, negative, float, Value, null, boolean,
  number, string, compound, Response, FieldEncoder,
}
use postgresql_trino_gateway.Catalog.Response.{
  text_field, as_str, value_at, and_then, json_str, build_response,
}
use postgresql_trino_gateway.Catalog.PgClass.{table_oid}

-- `Value::as_i64`.
abbrev pub as_i64 : Value → Option ℤ
as_i64 (number (unsigned n)) = if leb n (2 ^ 63 - 1) then some (pos n) else none
as_i64 (number (negative n)) = some (negsuc n)
as_i64 (number (float sign n k)) = none
as_i64 null = none
as_i64 (boolean b) = none
as_i64 (string s) = none
as_i64 (compound t) = none

-- A number, or a string that is one.
abbrev pub ordinal_of : List Value → ℤ
ordinal_of values =
    unwrap_or
      (and_then (value_at values 3) (λ v. or_else (as_i64 v) (and_then (as_str v) parse_i64)))
      (pos 0)

abbrev pub columns_sql : Text
columns_sql =
    codes
      "SELECT table_schema, table_name, column_name, ordinal_position, is_nullable, data_type FROM information_schema.columns WHERE table_schema NOT IN ('information_schema') ORDER BY table_schema, table_name, ordinal_position"

abbrev pub attribute_schema : List FieldInfo
attribute_schema =
    text_field (codes "attrelid") PgType.int4
    ∷ text_field (codes "attname") PgType.varchar
    ∷ text_field (codes "atttypid") PgType.int4
    ∷ text_field (codes "attnum") PgType.int2
    ∷ text_field (codes "attnotnull") PgType.bool
    ∷ text_field (codes "attisdropped") PgType.bool
    ∷ []

module _ (case : CaseTable) (type_oid : PgType → ℕ) where
  unfoldable pub attribute_row : List Value → List (Option Text)
  unfolding json_str trino_type_to_pg
  attribute_row values =
      let schema_name = json_str values 0 (codes "public") in
      let tbl_name = json_str values 1 [] in
      let is_nullable = json_str values 4 (codes "YES") in
      let pg_type = trino_type_to_pg case (json_str values 5 (codes "varchar")) in
      some (to_decimal (table_oid schema_name tbl_name))
      ∷ some (json_str values 2 [])
      ∷ some (to_decimal (type_oid pg_type))
      ∷ some (to_string (ordinal_of values))
      ∷ some (if text_eq is_nullable (codes "NO") then codes "true" else codes "false")
      ∷ some (codes "false")
      ∷ []

  unfoldable pub respond_pg_attribute :
      FieldEncoder → (Text → Result Text (List (List Value))) → PgWireResult (List Response)
  unfolding attribute_row build_response
  respond_pg_attribute encoder get_all = elim (get_all columns_sql) [
    | err e ↦ err (api_error e)
    | ok dataset ↦ build_response encoder attribute_schema (map attribute_row dataset)
  ]
