-- ===== src/Types/Binary.antt =====
-- Cells in the binary format (src/types.rs).
use postgresql_trino_gateway.Prelude.{◌-◌, ◌^◌, refl}
use postgresql_trino_gateway.Prelude.Text.{Text, codes, text_eq}
use postgresql_trino_gateway.Prelude.Case.{CaseTable}
use postgresql_trino_gateway.Wire.{PgType, Value}
use postgresql_trino_gateway.Types.Libraries.{Libraries, Field}
use postgresql_trino_gateway.Types.Temporal.{to_sql, to_pg_text}
use postgresql_trino_gateway.Types.Json.{
  unsupported_binary_type, json_to_timestamp, json_to_timestamptz, json_to_date, json_to_time,
  json_to_timetz,
}
use postgresql_trino_gateway.Types.Cells.{binary_field}
use postgresql_trino_gateway.Types.Fields.{
  IsCell, IsSafe, integer-IsSafe, narrowed-IsSafe, text-IsSafe, bool-IsSafe, float-IsSafe,
  decimal-IsSafe, parsed-IsSafe,
}

module _ (libs : Libraries) (case : CaseTable) where
  -- A non-NULL cell in the binary format (if a number, one that serde_json makes) goes out with the
  -- wire type of its column, an integer in the range of `int2`, `int4` or `int8` and a `float4`
  -- narrowed to an `f32`, or it is refused with SQLSTATE 22P03, 22003 or 0A000.
  pub binary_field-IsSafe :
      (type_name : PgType → Text) (value : Value) (pg_type : PgType) (trino_type : Text)
      → IsCell value
      → IsSafe libs pg_type (binary_field libs case type_name value pg_type trino_type)
  unfolding binary_field json_to_timestamp json_to_timestamptz json_to_date json_to_time
      json_to_timetz unsupported_binary_type text_eq
  binary_field-IsSafe tn v PgType.bool t w = bool-IsSafe libs v t
  binary_field-IsSafe tn v PgType.int2 t w =
      integer-IsSafe libs v t PgType.int2 _ w (λ z i.
        narrowed-IsSafe libs PgType.int2 (2 ^ 15 - 1) (codes "int2") Field.int2 z (λ n r. r))
  binary_field-IsSafe tn v PgType.int4 t w =
      integer-IsSafe libs v t PgType.int4 _ w (λ z i.
        narrowed-IsSafe libs PgType.int4 (2 ^ 31 - 1) (codes "int4") Field.int4 z (λ n r. r))
  binary_field-IsSafe tn v PgType.int8 t w = integer-IsSafe libs v t PgType.int8 _ w (λ z i. i)
  binary_field-IsSafe tn v PgType.float4 t w =
      float-IsSafe libs v t PgType.float4 (λ f. Field.float4 (libs.as_f32 f)) (λ f. (f, refl))
  binary_field-IsSafe tn v PgType.float8 t w =
      float-IsSafe libs v t PgType.float8 Field.float8 (λ f. tt)
  binary_field-IsSafe tn v PgType.numeric t w = decimal-IsSafe libs v t
  binary_field-IsSafe tn v PgType.timestamp t w =
      parsed-IsSafe libs PgType.timestamp _ (codes "timestamp") v t Field.timestamp (λ a. tt)
  binary_field-IsSafe tn v PgType.timestamptz t w =
      parsed-IsSafe libs PgType.timestamptz _ (codes "timestamptz") v t Field.timestamptz (λ a. tt)
  binary_field-IsSafe tn v PgType.date t w =
      parsed-IsSafe libs PgType.date _ (codes "date") v t Field.date (λ a. tt)
  binary_field-IsSafe tn v PgType.time t w =
      parsed-IsSafe libs PgType.time _ (codes "time") v t Field.time (λ a. tt)
  binary_field-IsSafe tn v PgType.timetz t w =
      parsed-IsSafe libs PgType.timetz _ (codes "timetz") v t
        (λ z. Field.implemented (to_sql libs z) (to_pg_text libs z)) (λ a. tt)
  binary_field-IsSafe tn v PgType.varchar t w = text-IsSafe libs case v t PgType.varchar w (λ s. tt)
  binary_field-IsSafe tn v PgType.text t w = text-IsSafe libs case v t PgType.text w (λ s. tt)
  binary_field-IsSafe tn v PgType.bpchar t w = text-IsSafe libs case v t PgType.bpchar w (λ s. tt)
  binary_field-IsSafe tn v PgType.name t w = text-IsSafe libs case v t PgType.name w (λ s. tt)
  binary_field-IsSafe tn v PgType.unknown t w = text-IsSafe libs case v t PgType.unknown w (λ s. tt)
  binary_field-IsSafe tn v PgType.bytea t w = refl
  binary_field-IsSafe tn v PgType.interval t w = refl
  binary_field-IsSafe tn v PgType.jsonb t w = refl
  binary_field-IsSafe tn v PgType.uuid t w = refl
  binary_field-IsSafe tn v PgType.inet t w = refl
  binary_field-IsSafe tn v PgType.oid t w = refl
  binary_field-IsSafe tn v PgType.char t w = refl
  binary_field-IsSafe tn v PgType.bool_array t w = refl
  binary_field-IsSafe tn v PgType.int2_array t w = refl
  binary_field-IsSafe tn v PgType.int4_array t w = refl
  binary_field-IsSafe tn v PgType.int8_array t w = refl
  binary_field-IsSafe tn v PgType.float4_array t w = refl
  binary_field-IsSafe tn v PgType.float8_array t w = refl
  binary_field-IsSafe tn v PgType.numeric_array t w = refl
  binary_field-IsSafe tn v PgType.varchar_array t w = refl
  binary_field-IsSafe tn v PgType.bpchar_array t w = refl
  binary_field-IsSafe tn v PgType.bytea_array t w = refl
  binary_field-IsSafe tn v PgType.date_array t w = refl
  binary_field-IsSafe tn v PgType.time_array t w = refl
  binary_field-IsSafe tn v PgType.timetz_array t w = refl
  binary_field-IsSafe tn v PgType.timestamp_array t w = refl
  binary_field-IsSafe tn v PgType.timestamptz_array t w = refl
  binary_field-IsSafe tn v PgType.interval_array t w = refl
  binary_field-IsSafe tn v PgType.jsonb_array t w = refl
  binary_field-IsSafe tn v PgType.uuid_array t w = refl
  binary_field-IsSafe tn v PgType.inet_array t w = refl
  binary_field-IsSafe tn v PgType.text_array t w = refl
