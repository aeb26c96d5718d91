-- ===== src/Catalog/PgClass.antt =====
-- src/catalog/pg_class.rs: synthetic oids, and pg_class out of Trino's list of tables. A `u32` wraps
-- around. Trino's `get_all` is a parameter: the rows that the statement has, or why it failed.
use postgresql_trino_gateway.Prelude.{
  ℕ, ◌+◌, ◌-◌, ◌*◌, ◌%◌, ◌^◌, Option, some, List, [], ◌∷◌, map, if◌then◌else◌, Result, ok, err,
}
use postgresql_trino_gateway.Prelude.Text.{Text, codes, text_eq}
use postgresql_trino_gateway.Prelude.Case.{CaseTable, to_uppercase}
use postgresql_trino_gateway.Prelude.Decimal.{to_decimal, utf8_bytes}
use postgresql_trino_gateway.Wire.{
  PgType, FieldInfo, api_error, PgWireResult, Value, Response, FieldEncoder,
}
use postgresql_trino_gateway.Catalog.Response.{text_field, json_str, build_response}

abbrev pub base_table_oid : ℕ
base_table_oid = 16384

abbrev pub public_namespace_oid : ℕ
public_namespace_oid = 2200

abbrev pub base_namespace_oid : ℕ
base_namespace_oid = 20000

abbrev pub i32_max : ℕ
i32_max = 2 ^ 31 - 1

-- `h.wrapping_mul(33).wrapping_add(b)` on a `u32`.
abbrev pub mix : ℕ → ℕ → ℕ
mix h b = ((h * 33) % 2 ^ 32 + b) % 2 ^ 32

abbrev pub hash_bytes : ℕ → Text → ℕ
hash_bytes h [] = h
hash_bytes h (b ∷ bytes) = hash_bytes (mix h b) bytes

-- The loop over the parts behind the first.
abbrev pub hash_more : ℕ → List Text → ℕ
hash_more h [] = h
hash_more h (part ∷ parts) = hash_more (hash_bytes (mix h 0xFF) (utf8_bytes part)) parts

abbrev pub hash_parts : List Text → ℕ
hash_parts [] = 5381
hash_parts (part ∷ parts) = hash_more (hash_bytes 5381 (utf8_bytes part)) parts

unfoldable pub djb2_oid : List Text → ℕ → ℕ
djb2_oid parts base = base + hash_parts parts % (i32_max - base)

unfoldable pub table_oid : Text → Text → ℕ
unfolding djb2_oid
table_oid schema_name table_name = djb2_oid (schema_name ∷ table_name ∷ []) base_table_oid

unfoldable pub namespace_oid : Text → ℕ
unfolding djb2_oid
namespace_oid schema_name =
    if text_eq schema_name (codes "public")
    then public_namespace_oid
    else djb2_oid (schema_name ∷ []) base_namespace_oid

unfoldable pub relkind : CaseTable → Text → Text
relkind case table_type =
    let upper = to_uppercase case table_type in
    if text_eq upper (codes "BASE TABLE")
    then codes "r"
    else if text_eq upper (codes "VIEW")
    then codes "v"
    else codes "r"

abbrev pub tables_sql : Text
tables_sql =
    codes
      "SELECT table_schema, table_name, table_type FROM information_schema.tables WHERE table_schema NOT IN ('information_schema')"

abbrev pub class_schema : List FieldInfo
class_schema =
    text_field (codes "oid") PgType.int4
    ∷ text_field (codes "relname") PgType.varchar
    ∷ text_field (codes "relnamespace") PgType.int4
    ∷ text_field (codes "relkind") PgType.varchar
    ∷ []

unfoldable pub class_row : CaseTable → List Value → List (Option Text)
unfolding table_oid namespace_oid relkind json_str
class_row case values =
    let schema_name = json_str values 0 (codes "public") in
    let tbl_name = json_str values 1 [] in
    let tbl_type = json_str values 2 (codes "BASE TABLE") in
    some (to_decimal (table_oid schema_name tbl_name))
    ∷ some tbl_name
    ∷ some (to_decimal (namespace_oid schema_name))
    ∷ some (relkind case tbl_type)
    ∷ []

unfoldable pub respond_pg_class :
    CaseTable
    → FieldEncoder
    → (Text → Result Text (List (List Value)))
    → PgWireResult (List Response)
unfolding class_row build_response
respond_pg_class case encoder get_all = elim (get_all tables_sql) [
  | err e ↦ err (api_error e)
  | ok dataset ↦ build_response encoder class_schema (map (class_row case) dataset)
]
