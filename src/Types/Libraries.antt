-- ===== src/Types/Libraries.antt =====
-- What the cell encoders of src/types.rs call: chrono, chrono-tz, rust_decimal, the texts and the
-- parser of floats, and pgwire's encoder of one field.
use postgresql_trino_gateway.Prelude.{ℕ, Bool, Option, Result}
use postgresql_trino_gateway.Prelude.Text.{Text}
use postgresql_trino_gateway.Prelude.Int.{ℤ}
use postgresql_trino_gateway.Wire.{Float, Number}

-- chrono's `LocalResult`: a local time may name no instant, one or two.
pub data LocalResult (A : Type 0) : Type 0 where
  gap : LocalResult A
  single : A → LocalResult A
  ambiguous : A → A → LocalResult A

-- What a type's `to_sql` writes: integers in network byte order.
pub data Put : Type 0 where
  put_i64 put_i32 : ℤ → Put

pub record Libraries : Type 1 where
  pub NaiveDate : Type 0
  pub NaiveTime : Type 0
  pub NaiveDateTime : Type 0
  -- `DateTime<FixedOffset>` and `DateTime<Utc>`.
  pub OffsetDateTime : Type 0
  pub UtcDateTime : Type 0
  pub Tz : Type 0
  pub Decimal : Type 0
  -- `parse_from_str(text, format)`.
  pub parse_date : Text → Text → Option NaiveDate
  pub parse_time : Text → Text → Option NaiveTime
  pub parse_date_time : Text → Text → Option NaiveDateTime
  pub parse_offset_date_time : Text → Text → Option OffsetDateTime
  pub with_timezone_utc : OffsetDateTime → UtcDateTime
  pub time_of : OffsetDateTime → NaiveTime
  -- The offset in seconds east of UTC, an `i32`.
  pub local_minus_utc : OffsetDateTime → ℤ
  -- `format(…)` of the time of day, and of the date and the time.
  pub format_time : NaiveTime → Text
  pub format_utc : UtcDateTime → Text
  pub time_nanosecond : NaiveTime → ℕ
  pub utc_nanosecond : UtcDateTime → ℕ
  -- `signed_duration_since(NaiveTime::MIN).num_microseconds()`.
  pub microseconds_of_day : NaiveTime → Option ℤ
  -- chrono-tz: a zone by its name, and `from_local_datetime` with the instant in UTC.
  pub parse_zone : Text → Option Tz
  pub from_local_datetime : Tz → NaiveDateTime → LocalResult UtcDateTime
  -- rust_decimal's `from_str_exact`.
  pub decimal_from_str_exact : Text → Option Decimal
  -- serde_json's text of a number, Rust's of a float, `parse::<f64>`, and `as f32`.
  pub number_text : Number → Text
  pub float_text : Float → Text
  pub parse_f64 : Text → Option Float
  pub as_f32 : Float → Float

-- A value for `DataRowEncoder::encode_field`; `implemented` is a type of the gateway's own, by what
-- its `to_sql` and its `to_sql_text` write.
pub data Field (libs : Libraries) : Type 0 where
  null : Field libs
  str : Text → Field libs
  bool : Bool → Field libs
  int2 int4 int8 : ℤ → Field libs
  float4 float8 : Float → Field libs
  numeric : libs.Decimal → Field libs
  timestamp : libs.NaiveDateTime → Field libs
  timestamptz : libs.UtcDateTime → Field libs
  date : libs.NaiveDate → Field libs
  time : libs.NaiveTime → Field libs
  implemented : Result Text (Put × Put) → Text → Field libs
