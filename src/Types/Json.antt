-- ===== src/Types/Json.antt =====
-- What src/types.rs reads out of a JSON value for the binary format, and its errors.
use postgresql_trino_gateway.Prelude.{
  ℕ, Bool, true, false, Option, some, ◌++◌, leb, if◌then◌else◌, or_else, ok, err, ok_or,
}
use postgresql_trino_gateway.Prelude.Text.{Text, codes, text_eq, trim}
use postgresql_trino_gateway.Prelude.Int.{ℤ, pos, negsuc, to_string, parse_i64}
use postgresql_trino_gateway.Wire.{
  PgWireError, user_error, PgWireResult, Float, nan, infinity, Value, boolean, number, string,
}
use postgresql_trino_gateway.Catalog.Response.{as_str, and_then}
use postgresql_trino_gateway.Types.Numbers.{as_f64, f64_to_i64_exact, number_to_i64}
use postgresql_trino_gateway.Types.Libraries.{Libraries}
use postgresql_trino_gateway.Types.Temporal.{
  TimeTz, truncate_fraction, parse_naive_datetime, parse_trino_timestamptz, parse_trino_timetz,
}

abbrev pub error_of : Text → Text → PgWireError
error_of code message =
    user_error (record { severity = codes "ERROR"; code = code; message = message })

unfoldable pub conversion_error : Text → Text → PgWireError
conversion_error target trino_type = error_of (codes "22P03") (
    codes "gateway could not encode a Trino "
    ++ (trino_type ++ (codes " value as binary " ++ target)))

unfoldable pub out_of_range : ℤ → Text → PgWireError
out_of_range value target =
    error_of (codes "22003")
      (codes "value " ++ (to_string value ++ (codes " out of range for binary " ++ target)))

-- `type_name` is pgwire's name of the type.
unfoldable pub unsupported_binary_type : Text → Text → PgWireError
unsupported_binary_type type_name trino_type = error_of (codes "0A000") (
    codes "binary wire format for column type "
    ++ (type_name
        ++ (codes " (Trino "
            ++ (trino_type
                ++ codes
                    ") is not supported by the gateway; the client requested binary results for this column"))))

-- `i16::try_from` and `i32::try_from` of an `i64`: whether it fits in a signed word whose largest
-- number is `max`.
abbrev pub fits : ℕ → ℤ → Bool
fits max (pos n) = leb n max
fits max (negsuc n) = leb n max

-- `try_from`, with the error where the number does not fit.
abbrev pub narrowed : ℕ → Text → ℤ → PgWireResult ℤ
narrowed max target n = if fits max n then ok n else err (out_of_range n target)

unfoldable pub json_to_bool : Value → Text → PgWireResult Bool
unfolding conversion_error
json_to_bool (boolean b) trino_type = ok b
json_to_bool (string s) trino_type =
    if text_eq s (codes "true")
    then ok true
    else if text_eq s (codes "false")
    then ok false
    else err (conversion_error (codes "boolean") trino_type)
json_to_bool value trino_type = err (conversion_error (codes "boolean") trino_type)

-- `value.as_str()`, and what parses out of it.
abbrev pub parsed : {A : Type 0} → (Text → Option A) → Text → Value → Text → PgWireResult A
parsed parse target value trino_type =
    ok_or (and_then (as_str value) parse) (conversion_error target trino_type)

module _ (libs : Libraries) where
  unfoldable pub string_to_i64 : Text → Option ℤ
  string_to_i64 s =
      or_else (parse_i64 (trim s)) (and_then (libs.parse_f64 (trim s)) f64_to_i64_exact)

  unfoldable pub json_to_i64 : Value → Text → PgWireResult ℤ
  unfolding conversion_error number_to_i64 string_to_i64
  json_to_i64 (number n) trino_type =
      ok_or (number_to_i64 n) (conversion_error (codes "integer") trino_type)
  json_to_i64 (string s) trino_type =
      ok_or (string_to_i64 s) (conversion_error (codes "integer") trino_type)
  json_to_i64 value trino_type = err (conversion_error (codes "integer") trino_type)

  abbrev pub string_to_f64 : Text → Option Float
  string_to_f64 s =
      if text_eq s (codes "NaN")
      then some nan
      else if text_eq s (codes "Infinity")
      then some (infinity false)
      else if text_eq s (codes "-Infinity")
      then some (infinity true)
      else libs.parse_f64 s

  unfoldable pub json_to_f64 : Value → Text → PgWireResult Float
  unfolding conversion_error
  json_to_f64 (number n) trino_type = ok_or (as_f64 n) (conversion_error (codes "float") trino_type)
  json_to_f64 (string s) trino_type =
      ok_or (string_to_f64 (trim s)) (conversion_error (codes "float") trino_type)
  json_to_f64 value trino_type = err (conversion_error (codes "float") trino_type)

  abbrev pub exact_decimal : Text → Text → PgWireResult libs.Decimal
  exact_decimal s trino_type =
      ok_or (libs.decimal_from_str_exact (trim s)) (conversion_error (codes "numeric") trino_type)

  unfoldable pub json_to_decimal : Value → Text → PgWireResult libs.Decimal
  unfolding conversion_error
  json_to_decimal (string s) trino_type = exact_decimal s trino_type
  json_to_decimal (number n) trino_type = exact_decimal (libs.number_text n) trino_type
  json_to_decimal value trino_type = err (conversion_error (codes "numeric") trino_type)

  unfoldable pub json_to_timestamp : Value → Text → PgWireResult libs.NaiveDateTime
  unfolding conversion_error
  json_to_timestamp = parsed (λ s. parse_naive_datetime libs (trim s)) (codes "timestamp")

  unfoldable pub json_to_timestamptz : Value → Text → PgWireResult libs.UtcDateTime
  unfolding conversion_error
  json_to_timestamptz = parsed (parse_trino_timestamptz libs) (codes "timestamptz")

  unfoldable pub json_to_date : Value → Text → PgWireResult libs.NaiveDate
  unfolding conversion_error
  json_to_date = parsed (λ s. libs.parse_date (trim s) (codes "%Y-%m-%d")) (codes "date")

  unfoldable pub json_to_time : Value → Text → PgWireResult libs.NaiveTime
  unfolding conversion_error
  json_to_time =
      parsed (λ s. libs.parse_time (truncate_fraction (trim s)) (codes "%H:%M:%S%.f"))
        (codes "time")

  unfoldable pub json_to_timetz : Value → Text → PgWireResult (TimeTz libs)
  unfolding conversion_error
  json_to_timetz = parsed (parse_trino_timetz libs) (codes "timetz")
