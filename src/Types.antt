-- ===== src/Types.antt =====
-- src/types.rs: the PostgreSQL type of a Trino type. The text shrinks by seven code points at each
-- `array(…)`, once it is in lower case; the fuel is the text's length.
pub mod Ascii
pub mod Arrays
pub mod Elements
pub mod Numbers
pub mod Libraries
pub mod Temporal
pub mod Json
pub mod Cells
pub mod Integers
pub mod Columns
pub mod Spelling
pub mod Truncation
pub mod Ranges
pub mod Fields
pub mod Binary
pub mod Rows
pub mod Zones
use Prim.Native.Nat.{suc, zero}
use postgresql_trino_gateway.Prelude.{
  ℕ, Option, none, some, List, [], ◌∷◌, ◌++◌, if◌then◌else◌, length,
}
use postgresql_trino_gateway.Prelude.Text.{
  Text, codes, text_eq, ends_with, strip_prefix, find, trim,
}
use postgresql_trino_gateway.Prelude.Case.{CaseTable, to_lowercase}
use postgresql_trino_gateway.Wire.{PgType}

-- What stands behind the last code point that is `c`: `rfind(c)`.
abbrev pub behind_last : ℕ → Text → Option Text
behind_last c [] = none
behind_last c (d ∷ s) = elim (behind_last c s) [
  | some rest ↦ some rest
  | none ↦ if text_eq (d ∷ []) (c ∷ []) then some s else none
]

-- The span from the first `(` to the last `)` goes. A `)` that stands before the `(` only is no span.
unfoldable pub strip_type_params : Text → Text
strip_type_params normalized = elim (find (codes "(") normalized) [
  | none ↦ trim normalized
  | some (before, behind) ↦ elim (behind_last b')' behind) [
    | none ↦ trim normalized
    | some rest ↦ trim (before ++ rest)
  ]
]

unfoldable pub scalar_to_array : PgType → PgType
scalar_to_array PgType.bool = PgType.bool_array
scalar_to_array PgType.int2 = PgType.int2_array
scalar_to_array PgType.int4 = PgType.int4_array
scalar_to_array PgType.int8 = PgType.int8_array
scalar_to_array PgType.float4 = PgType.float4_array
scalar_to_array PgType.float8 = PgType.float8_array
scalar_to_array PgType.numeric = PgType.numeric_array
scalar_to_array PgType.varchar = PgType.varchar_array
scalar_to_array PgType.bpchar = PgType.bpchar_array
scalar_to_array PgType.bytea = PgType.bytea_array
scalar_to_array PgType.date = PgType.date_array
scalar_to_array PgType.time = PgType.time_array
scalar_to_array PgType.timetz = PgType.timetz_array
scalar_to_array PgType.timestamp = PgType.timestamp_array
scalar_to_array PgType.timestamptz = PgType.timestamptz_array
scalar_to_array PgType.interval = PgType.interval_array
scalar_to_array PgType.jsonb = PgType.jsonb_array
scalar_to_array PgType.uuid = PgType.uuid_array
scalar_to_array PgType.inet = PgType.inet_array
scalar_to_array _ = PgType.text_array

-- The rows of the `match` on the base name.
abbrev pub scalar_types : List (Text × PgType)
scalar_types =
    (codes "boolean", PgType.bool)
    ∷ (codes "tinyint", PgType.int2)
    ∷ (codes "smallint", PgType.int2)
    ∷ (codes "integer", PgType.int4)
    ∷ (codes "bigint", PgType.int8)
    ∷ (codes "real", PgType.float4)
    ∷ (codes "double", PgType.float8)
    ∷ (codes "decimal", PgType.numeric)
    ∷ (codes "varchar", PgType.varchar)
    ∷ (codes "char", PgType.bpchar)
    ∷ (codes "varbinary", PgType.bytea)
    ∷ (codes "date", PgType.date)
    ∷ (codes "time", PgType.time)
    ∷ (codes "time with time zone", PgType.timetz)
    ∷ (codes "timestamp", PgType.timestamp)
    ∷ (codes "timestamp with time zone", PgType.timestamptz)
    ∷ (codes "interval", PgType.interval)
    ∷ (codes "interval year to month", PgType.interval)
    ∷ (codes "interval day to second", PgType.interval)
    ∷ (codes "json", PgType.jsonb)
    ∷ (codes "uuid", PgType.uuid)
    ∷ (codes "ipaddress", PgType.inet)
    ∷ (codes "map", PgType.jsonb)
    ∷ (codes "row", PgType.jsonb)
    ∷ []

abbrev pub type_named : Text → List (Text × PgType) → PgType
type_named name [] = PgType.text
type_named name ((n, ty) ∷ rows) = if text_eq n name then ty else type_named name rows

unfoldable pub scalar_type : Text → PgType
unfolding strip_type_params
scalar_type normalized = type_named (strip_type_params normalized) scalar_types

-- All but the last code point.
abbrev pub but_last : Text → Text
but_last [] = []
but_last (c ∷ []) = []
but_last (c ∷ d ∷ s) = c ∷ but_last (d ∷ s)

-- The text between `array(` and a final `)`.
unfoldable pub array_element : Text → Option Text
array_element normalized =
    if ends_with normalized (codes ")")
    then (elim (strip_prefix (codes "array(") normalized) [
      | none ↦ none
      | some rest ↦ some (but_last rest)
    ])
    else none

module _ (case : CaseTable) where
  unfoldable pub normalize : Text → Text
  normalize trino_type = to_lowercase case (trim trino_type)

  unfoldable pub type_of : ℕ → Text → PgType
  unfolding normalize array_element scalar_type scalar_to_array
  type_of zero trino_type = scalar_type (normalize trino_type)
  type_of (suc fuel) trino_type = elim (array_element (normalize trino_type)) [
    | none ↦ scalar_type (normalize trino_type)
    | some inner ↦ scalar_to_array (type_of fuel inner)
  ]

  unfoldable pub trino_type_to_pg : Text → PgType
  unfolding type_of
  trino_type_to_pg trino_type = type_of (length trino_type) trino_type
