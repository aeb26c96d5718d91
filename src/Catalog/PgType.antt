-- ===== src/Catalog/PgType.antt =====
-- src/catalog/pg_type.rs: the types that Npgsql and the JDBC driver load.
use postgresql_trino_gateway.Prelude.{ℕ, List, [], ◌∷◌, ◌++◌, Option, some, map, if◌then◌else◌}
use postgresql_trino_gateway.Prelude.Text.{Text, codes, text_eq}
use postgresql_trino_gateway.Prelude.Decimal.{to_decimal}
use postgresql_trino_gateway.Wire.{PgType, FieldInfo, PgWireResult, Response, FieldEncoder}
use postgresql_trino_gateway.Catalog.Response.{text_field, build_response}

pub record TypeEntry : Type 0 where
  pub oid : ℕ
  pub typname : Text
  pub typtype : Text
  pub elemtypoid : ℕ

-- An entry of a base, pseudo or array type.
abbrev entry : ℕ → Text → Text → ℕ → TypeEntry
entry oid typname typtype elemtypoid = record {
  oid = oid;
  typname = typname;
  typtype = typtype;
  elemtypoid = elemtypoid;
}

abbrev pub base_types : List TypeEntry
base_types =
    entry 16 (codes "bool") (codes "b") 0
    ∷ entry 17 (codes "bytea") (codes "b") 0
    ∷ entry 20 (codes "int8") (codes "b") 0
    ∷ entry 21 (codes "int2") (codes "b") 0
    ∷ entry 23 (codes "int4") (codes "b") 0
    ∷ entry 25 (codes "text") (codes "b") 0
    ∷ entry 26 (codes "oid") (codes "b") 0
    ∷ entry 114 (codes "json") (codes "b") 0
    ∷ entry 142 (codes "xml") (codes "b") 0
    ∷ entry 700 (codes "float4") (codes "b") 0
    ∷ entry 701 (codes "float8") (codes "b") 0
    ∷ entry 869 (codes "inet") (codes "b") 0
    ∷ entry 1042 (codes "bpchar") (codes "b") 0
    ∷ entry 1043 (codes "varchar") (codes "b") 0
    ∷ entry 1082 (codes "date") (codes "b") 0
    ∷ entry 1083 (codes "time") (codes "b") 0
    ∷ entry 1114 (codes "timestamp") (codes "b") 0
    ∷ entry 1184 (codes "timestamptz") (codes "b") 0
    ∷ entry 1186 (codes "interval") (codes "b") 0
    ∷ entry 1266 (codes "timetz") (codes "b") 0
    ∷ entry 1700 (codes "numeric") (codes "b") 0
    ∷ entry 2950 (codes "uuid") (codes "b") 0
    ∷ entry 3802 (codes "jsonb") (codes "b") 0
    ∷ []

abbrev pub pseudo_types : List TypeEntry
pseudo_types =
    entry 705 (codes "unknown") (codes "p") 0
    ∷ entry 2249 (codes "record") (codes "p") 0
    ∷ entry 2278 (codes "void") (codes "p") 0
    ∷ []

abbrev pub array_types : List TypeEntry
array_types =
    entry 199 (codes "_json") (codes "a") 114
    ∷ entry 1000 (codes "_bool") (codes "a") 16
    ∷ entry 1001 (codes "_bytea") (codes "a") 17
    ∷ entry 1005 (codes "_int2") (codes "a") 21
    ∷ entry 1007 (codes "_int4") (codes "a") 23
    ∷ entry 1009 (codes "_text") (codes "a") 25
    ∷ entry 1014 (codes "_bpchar") (codes "a") 1042
    ∷ entry 1015 (codes "_varchar") (codes "a") 1043
    ∷ entry 1016 (codes "_int8") (codes "a") 20
    ∷ entry 1021 (codes "_float4") (codes "a") 700
    ∷ entry 1022 (codes "_float8") (codes "a") 701
    ∷ entry 1028 (codes "_oid") (codes "a") 26
    ∷ entry 1041 (codes "_inet") (codes "a") 869
    ∷ entry 1115 (codes "_timestamp") (codes "a") 1114
    ∷ entry 1182 (codes "_date") (codes "a") 1082
    ∷ entry 1183 (codes "_time") (codes "a") 1083
    ∷ entry 1185 (codes "_timestamptz") (codes "a") 1184
    ∷ entry 1187 (codes "_interval") (codes "a") 1186
    ∷ entry 1231 (codes "_numeric") (codes "a") 1700
    ∷ entry 2951 (codes "_uuid") (codes "a") 2950
    ∷ entry 3807 (codes "_jsonb") (codes "a") 3802
    ∷ []

abbrev pub schema : List FieldInfo
schema =
    text_field (codes "nspname") PgType.varchar
    ∷ text_field (codes "typname") PgType.varchar
    ∷ text_field (codes "oid") PgType.int4
    ∷ text_field (codes "typrelid") PgType.int4
    ∷ text_field (codes "typbasetype") PgType.int4
    ∷ text_field (codes "type") PgType.varchar
    ∷ text_field (codes "elemoid") PgType.int4
    ∷ text_field (codes "ord") PgType.int4
    ∷ []

abbrev pub ord_of : Text → Text
ord_of typtype =
    if text_eq typtype (codes "a")
    then codes "3"
    else if text_eq typtype (codes "r")
    then codes "2"
    else if text_eq typtype (codes "d")
    then codes "1"
    else codes "0"

abbrev pub entry_to_row : TypeEntry → List (Option Text)
entry_to_row e =
    some (codes "pg_catalog")
    ∷ some e.typname
    ∷ some (to_decimal e.oid)
    ∷ some (codes "0")
    ∷ some (codes "0")
    ∷ some e.typtype
    ∷ some (to_decimal e.elemtypoid)
    ∷ some (ord_of e.typtype)
    ∷ []

abbrev pub entries : List TypeEntry
entries = base_types ++ (pseudo_types ++ array_types)

unfoldable pub respond_type_loading : FieldEncoder → PgWireResult (List Response)
respond_type_loading encoder = build_response encoder schema (map entry_to_row entries)
