-- ===== src/Examples/Cells.antt =====
-- Cells and rows in both formats, with libraries that know one zone and find every time ambiguous.
use postgresql_trino_gateway.Prelude.{
  ℕ, ◌≡◌, ◌≢◌, ◌↔◌, refl, true, false, Option, none, some, [], ◌∷◌, ◌++◌, take, last, arith, ok,
  err, if◌then◌else◌,
}
use postgresql_trino_gateway.Prelude.Text.{
  Text, codes, text_eq, trim, trim_end_by, find, strip_prefix,
}
use postgresql_trino_gateway.Prelude.Case.{ascii_only, to_lowercase}
use postgresql_trino_gateway.Prelude.Decimal.{to_decimal}
use postgresql_trino_gateway.Prelude.Int.{pos, negsuc, to_string}
use postgresql_trino_gateway.Wire.{
  PgType, FieldFormat, FieldInfo, PgWireResult, Number, unsigned, float, number, string,
  TrinoColumn,
}
use postgresql_trino_gateway.TrinoStream.{encode_row}
use postgresql_trino_gateway.Types.Libraries.{LocalResult, Libraries, Field}
use postgresql_trino_gateway.Types.Temporal.{
  truncate_fraction, format_fraction, format_utc_offset, rsplit_once, parse_naive_datetime,
}
use postgresql_trino_gateway.Types.Json.{
  conversion_error, out_of_range, json_to_i64, json_to_timestamptz,
}
use postgresql_trino_gateway.Types.Cells.{
  is_integer_name, base_type, encode_value, text_value, binary_field, encoding, encode_cell,
}
use postgresql_trino_gateway.Types.Integers.{Denotes, InI64}
use postgresql_trino_gateway.Types.Columns.{json_to_i64_iff, integer_formats_agree}
use postgresql_trino_gateway.Types.Spelling.{
  read_offset, read_offset-format_utc_offset, read_fraction, IsMicros,
  read_fraction-format_fraction,
}
use postgresql_trino_gateway.Types.Truncation.{truncate_fraction-Digits}
use postgresql_trino_gateway.Types.Fields.{IsSafe}
use postgresql_trino_gateway.Types.Binary.{binary_field-IsSafe}
use postgresql_trino_gateway.Types.Rows.{RowError, encode_row-RowError}
use postgresql_trino_gateway.Types.Zones.{
  rendered, NamesLocalTime, named_instants, named_zone_instants,
}

abbrev libraries : Libraries
libraries = record {
  NaiveDate = Text;
  NaiveTime = ℕ;
  NaiveDateTime = Text;
  OffsetDateTime = Text;
  UtcDateTime = Text;
  Tz = Text;
  Decimal = Text;
  parse_date = λ s fmt. some s;
  parse_time = λ s fmt. some 0;
  parse_date_time = λ s fmt. some s;
  parse_offset_date_time = λ s fmt. none;
  with_timezone_utc = λ t. t;
  time_of = λ t. 0;
  local_minus_utc = λ t. pos 7200;
  format_time = λ t. codes "10:30:00";
  format_utc = λ t. t;
  time_nanosecond = λ t. t;
  utc_nanosecond = λ t. 0;
  microseconds_of_day = λ t. some (pos t);
  parse_zone = λ z. if text_eq z (codes "Europe/Berlin") then some z else none;
  from_local_datetime = λ tz t. LocalResult.ambiguous t t;
  decimal_from_str_exact = λ s. some s;
  number_text = λ n. codes "0";
  float_text = λ f. codes "0.5";
  parse_f64 = λ s. none;
  as_f32 = λ f. f;
}

-- 42.0, as Trino may send a BIGINT.
abbrev forty_two : Number
forty_two = float false 84 1

reads_forty_two : json_to_i64 libraries (number forty_two) (codes "bigint") ≡ ok (pos 42)
unfolding json_to_i64
reads_forty_two = refl

json_to_i64_iff_example :
    (json_to_i64 libraries (number forty_two) (codes "bigint") ≡ ok (pos 42))
    ↔ (Denotes forty_two (pos 42) × InI64 (pos 42))
json_to_i64_iff_example = json_to_i64_iff libraries forty_two (codes "bigint") (pos 42) tt

is_bigint : is_integer_name (to_lowercase ascii_only (base_type (codes "bigint"))) ≡ true
unfolding text_eq to_lowercase base_type find trim
is_bigint = refl

integer_formats_agree_example :
    encode_value libraries ascii_only (number forty_two) (codes "bigint")
    ≡ some (to_string (pos 42))
integer_formats_agree_example =
    integer_formats_agree libraries ascii_only forty_two (codes "bigint") (pos 42) tt is_bigint
      reads_forty_two

-- The text format cuts a fraction off where the binary one refuses.
formats_disagree :
    (encode_value libraries ascii_only (number (float false 85 1)) (codes "bigint")
      ≡ some (codes "42"))
    × (json_to_i64 libraries (number (float false 85 1)) (codes "bigint")
        ≡ err (conversion_error (codes "integer") (codes "bigint")))
unfolding json_to_i64 encode_value to_lowercase text_eq find trim to_decimal
formats_disagree = (refl, refl)

binary_field-IsSafe_example : IsSafe libraries PgType.int2 (
    binary_field libraries ascii_only
      (λ t. codes "int2")
      (number (unsigned 70000))
      PgType.int2
      (codes "smallint"))
binary_field-IsSafe_example =
    binary_field-IsSafe libraries ascii_only (λ t. codes "int2") (number (unsigned 70000))
      PgType.int2 (codes "smallint") (omega arith)

read_offset-format_utc_offset_example :
    read_offset (format_utc_offset (negsuc 12599)) ≡ negsuc 12599
read_offset-format_utc_offset_example = read_offset-format_utc_offset (negsuc 12599) (omega arith)

half_past : format_utc_offset (negsuc 12599) ≡ codes "-03:30"
unfolding format_utc_offset
half_past = refl

read_fraction-format_fraction_example :
    IsMicros 500000000 (read_fraction (format_fraction 500000000))
    × (last (format_fraction 500000000) ≢ some b'0')
read_fraction-format_fraction_example = read_fraction-format_fraction 500000000

half_a_second : format_fraction 500000000 ≡ codes ".5"
unfolding format_fraction trim_end_by
half_a_second = refl

truncate_fraction-Digits_example :
    truncate_fraction (codes "10:30:00" ++ (b'.' ∷ (codes "123456789012" ++ codes "+02:00")))
    ≡ codes "10:30:00" ++ (b'.' ∷ (take 9 (codes "123456789012") ++ codes "+02:00"))
truncate_fraction-Digits_example =
    truncate_fraction-Digits (codes "10:30:00") (codes "123456789012") (codes "+02:00")
      (ground arith) (ground arith) refl

abbrev plain_field : FieldFormat → Field libraries → PgWireResult (Option Text)
plain_field format field = ok none

abbrev small_column : FieldInfo
small_column = record { name = codes "n"; datatype = PgType.int2; format = FieldFormat.binary }

abbrev smallint : TrinoColumn
smallint = record { name = codes "n"; trino_type = codes "smallint" }

row_refused :
    encode_row
      (encoding libraries ascii_only (λ t. codes "int2") plain_field)
      (number (unsigned 70000) ∷ [])
      (smallint ∷ [])
      (small_column ∷ [])
    ≡ some (err (out_of_range (pos 70000) (codes "int2")))
unfolding encode_row encode_cell
row_refused = refl

encode_row-RowError_example :
    RowError libraries ascii_only
      (λ t. codes "int2")
      plain_field
      (small_column ∷ [])
      (out_of_range (pos 70000) (codes "int2"))
encode_row-RowError_example =
    encode_row-RowError libraries ascii_only (λ t. codes "int2") plain_field
      (number (unsigned 70000) ∷ []) (smallint ∷ []) (small_column ∷ [])
      (out_of_range (pos 70000) (codes "int2")) (omega arith, tt) row_refused

-- Half past two in the night in which the clocks go back.
abbrev twice : Text
twice = codes "2026-10-25 02:30:00 Europe/Berlin"

twice-NamesLocalTime : NamesLocalTime libraries twice
unfolding truncate_fraction rsplit_once trim find strip_prefix text_eq parse_naive_datetime
twice-NamesLocalTime = record {
  stamp = codes "2026-10-25 02:30:00";
  zone = codes "Europe/Berlin";
  tz = codes "Europe/Berlin";
  naive = codes "2026-10-25 02:30:00";
  no_offset = refl;
  splits = refl;
  is_zone = refl;
  is_time = refl;
}

named_zone_instants_example :
    ((t : libraries.UtcDateTime)
      → (json_to_timestamptz libraries (string twice) (codes "timestamp(3) with time zone") ≡ ok t)
        ↔ (named_instants libraries twice twice-NamesLocalTime ≡ t ∷ []))
    × (text_value libraries ascii_only
          (string twice)
          PgType.timestamptz
          (codes "timestamp(3) with time zone")
        ≡ some (rendered libraries twice (named_instants libraries twice twice-NamesLocalTime)))
named_zone_instants_example =
    named_zone_instants libraries twice ascii_only (codes "timestamp(3) with time zone")
      twice-NamesLocalTime
