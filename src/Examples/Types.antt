-- ===== src/Examples/Types.antt =====
-- Trino's type names.
use postgresql_trino_gateway.Prelude.{◌≡◌, refl, some, arith}
use postgresql_trino_gateway.Prelude.Text.{codes, ends_with, trim, text_eq, find, strip_prefix}
use postgresql_trino_gateway.Prelude.Case.{ascii_only, to_lowercase}
use postgresql_trino_gateway.Wire.{PgType}
use postgresql_trino_gateway.Types.{trino_type_to_pg}
use postgresql_trino_gateway.Types.Ascii.{IsAscii}
use postgresql_trino_gateway.Types.Arrays.{array_of}
use postgresql_trino_gateway.Types.Elements.{element_type, elements_of, trino_type_to_pg-array}

parametric_timestamptz :
    trino_type_to_pg ascii_only (codes "timestamp(6) with time zone") ≡ PgType.timestamptz
unfolding trino_type_to_pg ends_with to_lowercase trim text_eq find
parametric_timestamptz = refl

nested_parameters :
    trino_type_to_pg ascii_only (codes "map(varchar, array(integer))") ≡ PgType.jsonb
unfolding trino_type_to_pg ends_with to_lowercase trim strip_prefix text_eq find
nested_parameters = refl

decimal_array : trino_type_to_pg ascii_only (codes " ARRAY(Decimal(10, 2))") ≡ PgType.numeric_array
unfolding trino_type_to_pg ends_with to_lowercase trim strip_prefix text_eq find
decimal_array = refl

bigint-IsAscii : IsAscii (codes " BigInt ")
bigint-IsAscii = (
  omega arith,
  (
    omega arith,
    (omega arith, (omega arith, (omega arith, (omega arith, (omega arith, (omega arith, tt)))))),
  ),
)

trino_type_to_pg-array_example :
    element_type (trino_type_to_pg ascii_only (array_of (codes " BigInt ")))
    ≡ some (elements_of (trino_type_to_pg ascii_only (codes " BigInt ")))
trino_type_to_pg-array_example = trino_type_to_pg-array ascii_only (codes " BigInt ") bigint-IsAscii

nested_array : trino_type_to_pg ascii_only (codes "array(array(bigint))") ≡ PgType.text_array
unfolding trino_type_to_pg ends_with to_lowercase trim strip_prefix text_eq find
nested_array = refl
