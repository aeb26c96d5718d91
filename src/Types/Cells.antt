-- ===== src/Types/Cells.antt =====
-- The cell encoders of src/types.rs, in PostgreSQL's text and binary formats. The value that a cell
-- gives to pgwire's `encode_field` is a `Field`.
use postgresql_trino_gateway.Prelude.{
  ◌-◌, ◌^◌, Bool, true, false, Option, none, some, [], ◌∷◌, any, if◌then◌else◌, ok, err, ◌>>=◌,
}
use postgresql_trino_gateway.Prelude.Text.{Text, codes, text_eq, find, trim}
use postgresql_trino_gateway.Prelude.Case.{CaseTable, to_lowercase}
use postgresql_trino_gateway.Prelude.Decimal.{to_decimal}
use postgresql_trino_gateway.Prelude.Int.{to_string}
use postgresql_trino_gateway.Wire.{
  PgType, FieldFormat, PgWireResult, Float, nan, infinity, finite, Number, Value, null, boolean,
  number, string, compound,
}
use postgresql_trino_gateway.Catalog.Response.{as_str, and_then}
use postgresql_trino_gateway.TrinoStream.{Encoding}
use postgresql_trino_gateway.Types.{trino_type_to_pg}
use postgresql_trino_gateway.Types.Numbers.{as_i64, as_u64, as_f64, is_finite, fits_i64, cast_i64}
use postgresql_trino_gateway.Types.Libraries.{Libraries, Field}
use postgresql_trino_gateway.Types.Json.{
  out_of_range, unsupported_binary_type, narrowed, json_to_bool, json_to_i64, json_to_f64,
  json_to_decimal, json_to_timestamp, json_to_timestamptz, json_to_date, json_to_time,
  json_to_timetz,
}
use postgresql_trino_gateway.Types.Temporal.{
  parse_trino_timestamptz, parse_trino_timetz, to_pg_text, to_sql, render_timestamptz_text,
}

unfoldable pub base_type : Text → Text
base_type trino_type = elim (find (codes "(") (trim trino_type)) [
  | some (before, behind) ↦ trim before
  | none ↦ trim trino_type
]

abbrev pub is_integer_name : Text → Bool
is_integer_name name =
    any (λ t. text_eq t name)
      (codes "tinyint" ∷ codes "smallint" ∷ codes "integer" ∷ codes "bigint" ∷ [])

abbrev pub is_float_name : Text → Bool
is_float_name name = any (λ t. text_eq t name) (codes "real" ∷ codes "double" ∷ [])

module _ (libs : Libraries) (case : CaseTable) where
  unfoldable pub format_float_text : Float → Text
  format_float_text nan = codes "NaN"
  format_float_text (infinity true) = codes "-Infinity"
  format_float_text (infinity false) = codes "Infinity"
  format_float_text (finite sign m k) = libs.float_text (finite sign m k)

  -- A number that is neither an `i64` nor a `u64`, for an integer type.
  abbrev pub float_as_integer : Number → Option Float → Text
  float_as_integer n none = libs.number_text n
  float_as_integer n (some f) =
      if is_finite f
      then (if fits_i64 f then to_string (cast_i64 f) else libs.float_text f)
      else libs.number_text n

  abbrev pub integer_text : Number → Text
  integer_text n = elim (as_i64 n) [
    | some i ↦ to_string i
    | none ↦ elim (as_u64 n) [ some u ↦ to_decimal u | none ↦ float_as_integer n (as_f64 n) ]
  ]

  unfoldable pub encode_number : Number → Text → Text
  unfolding format_float_text
  encode_number n base =
      let name = to_lowercase case base in
      if is_integer_name name
      then integer_text n
      else if is_float_name name
      then (elim (as_f64 n) [ some f ↦ format_float_text f | none ↦ libs.number_text n ])
      else libs.number_text n

  unfoldable pub encode_value : Value → Text → Option Text
  unfolding encode_number base_type
  encode_value null trino_type = none
  encode_value (boolean true) trino_type = some (codes "true")
  encode_value (boolean false) trino_type = some (codes "false")
  encode_value (number n) trino_type = some (encode_number n (base_type trino_type))
  encode_value (string s) trino_type = some s
  encode_value (compound t) trino_type = some t

  -- What a `timestamptz` and a `timetz` are rendered to, where they parse.
  abbrev pub reshaped : PgType → Text → Option Text
  reshaped PgType.timestamptz s = elim (parse_trino_timestamptz libs s) [
    | some dt ↦ some (render_timestamptz_text libs dt)
    | none ↦ none
  ]
  reshaped PgType.timetz s = elim (parse_trino_timetz libs s) [
    | some t ↦ some (to_pg_text libs t)
    | none ↦ none
  ]
  reshaped pg_type s = none

  unfoldable pub text_value : Value → PgType → Text → Option Text
  unfolding encode_value
  text_value value pg_type trino_type = elim (and_then (as_str value) (reshaped pg_type)) [
    | some t ↦ some t
    | none ↦ encode_value value trino_type
  ]

  abbrev pub text_field_of : Option Text → Field libs
  text_field_of none = Field.null
  text_field_of (some t) = Field.str t

  -- The value that `encode_binary_cell` encodes, or its error.
  unfoldable pub binary_field : (PgType → Text) → Value → PgType → Text → PgWireResult (Field libs)
  unfolding encode_value json_to_bool json_to_i64 json_to_f64 json_to_decimal json_to_timestamp
      json_to_timestamptz json_to_date json_to_time json_to_timetz out_of_range
      unsupported_binary_type
  binary_field name value PgType.bool t = do b ← json_to_bool value t; ok (Field.bool b)
  binary_field name value PgType.int2 t = do
    n ← json_to_i64 libs value t
    v ← narrowed (2 ^ 15 - 1) (codes "int2") n
    ok (Field.int2 v)
  binary_field name value PgType.int4 t = do
    n ← json_to_i64 libs value t
    v ← narrowed (2 ^ 31 - 1) (codes "int4") n
    ok (Field.int4 v)
  binary_field name value PgType.int8 t = do n ← json_to_i64 libs value t; ok (Field.int8 n)
  binary_field name value PgType.float4 t = do
    f ← json_to_f64 libs value t
    ok (Field.float4 (libs.as_f32 f))
  binary_field name value PgType.float8 t = do f ← json_to_f64 libs value t; ok (Field.float8 f)
  binary_field name value PgType.numeric t = do
    d ← json_to_decimal libs value t
    ok (Field.numeric d)
  binary_field name value PgType.timestamp t = do
    s ← json_to_timestamp libs value t
    ok (Field.timestamp s)
  binary_field name value PgType.timestamptz t = do
    s ← json_to_timestamptz libs value t
    ok (Field.timestamptz s)
  binary_field name value PgType.date t = do d ← json_to_date libs value t; ok (Field.date d)
  binary_field name value PgType.time t = do s ← json_to_time libs value t; ok (Field.time s)
  binary_field name value PgType.timetz t = do
    z ← json_to_timetz libs value t
    ok (Field.implemented (to_sql libs z) (to_pg_text libs z))
  binary_field name value PgType.varchar t = ok (text_field_of (encode_value value t))
  binary_field name value PgType.text t = ok (text_field_of (encode_value value t))
  binary_field name value PgType.bpchar t = ok (text_field_of (encode_value value t))
  binary_field name value PgType.name t = ok (text_field_of (encode_value value t))
  binary_field name value PgType.unknown t = ok (text_field_of (encode_value value t))
  binary_field name value pg_type t = err (unsupported_binary_type (name pg_type) t)

  module _ (type_name : PgType → Text)
      (encode_field : FieldFormat → Field libs → PgWireResult (Option Text)) where
    unfoldable pub encode_binary_cell : Value → PgType → Text → PgWireResult (Option Text)
    unfolding binary_field
    encode_binary_cell value pg_type trino_type = do
      field ← binary_field type_name value pg_type trino_type
      encode_field FieldFormat.binary field

    abbrev pub encode_non_null : Value → PgType → Text → FieldFormat → PgWireResult (Option Text)
    encode_non_null value pg_type trino_type FieldFormat.text =
        encode_field FieldFormat.text (text_field_of (text_value value pg_type trino_type))
    encode_non_null value pg_type trino_type FieldFormat.binary =
        encode_binary_cell value pg_type trino_type

    unfoldable pub encode_cell : Value → PgType → Text → FieldFormat → PgWireResult (Option Text)
    unfolding encode_binary_cell text_value
    encode_cell null pg_type trino_type format = encode_field format Field.null
    encode_cell value pg_type trino_type format = encode_non_null value pg_type trino_type format

    -- The encoders, as src/trino_stream.rs calls them.
    abbrev pub encoding : Encoding
    encoding = record { trino_type_to_pg = trino_type_to_pg case; encode_cell = encode_cell }
