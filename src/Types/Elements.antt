-- ===== src/Types/Elements.antt =====
-- The element types of array columns: `trino_type_to_pg` on `array(…)` of src/types.rs.
use Prim.Native.Nat.{zero, suc}
use postgresql_trino_gateway.Prelude.{
  ℕ, ◌≡◌, refl, sym, ap, ◌∙◌, subst, inl, inr, Option, none, some, List, [], ◌∷◌, All, is_some,
  Bool-cases, Option-cases, if◌then◌else◌,
}
use postgresql_trino_gateway.Prelude.Text.{Text, text_eq}
use postgresql_trino_gateway.Prelude.Case.{CaseTable}
use postgresql_trino_gateway.Wire.{PgType}
use postgresql_trino_gateway.Types.{
  array_element, scalar_type, scalar_types, type_named, scalar_to_array, normalize, type_of,
  trino_type_to_pg,
}
use postgresql_trino_gateway.Types.Ascii.{IsAscii}
use postgresql_trino_gateway.Types.Arrays.{
  array_of, type_of-some, type_of-none, trino_type_to_pg_array_step,
}

-- PostgreSQL's own table of the elements of its array types (`typelem` of pg_type).
abbrev pub element_type : PgType → Option PgType
element_type PgType.bool_array = some PgType.bool
element_type PgType.int2_array = some PgType.int2
element_type PgType.int4_array = some PgType.int4
element_type PgType.int8_array = some PgType.int8
element_type PgType.float4_array = some PgType.float4
element_type PgType.float8_array = some PgType.float8
element_type PgType.numeric_array = some PgType.numeric
element_type PgType.varchar_array = some PgType.varchar
element_type PgType.bpchar_array = some PgType.bpchar
element_type PgType.bytea_array = some PgType.bytea
element_type PgType.date_array = some PgType.date
element_type PgType.time_array = some PgType.time
element_type PgType.timetz_array = some PgType.timetz
element_type PgType.timestamp_array = some PgType.timestamp
element_type PgType.timestamptz_array = some PgType.timestamptz
element_type PgType.interval_array = some PgType.interval
element_type PgType.jsonb_array = some PgType.jsonb
element_type PgType.uuid_array = some PgType.uuid
element_type PgType.inet_array = some PgType.inet
element_type PgType.text_array = some PgType.text
element_type ty = none

-- What a column of arrays of a type has as its elements: PostgreSQL has no arrays of arrays.
abbrev pub elements_of : PgType → PgType
elements_of ty = if is_some (element_type ty) then PgType.text else ty

abbrev HasArray : PgType → Type 0
HasArray ty = element_type (scalar_to_array ty) ≡ some (elements_of ty)

-- An array of arrays is an array of texts.
array-HasArray : (ty : PgType) → HasArray (scalar_to_array ty)
unfolding scalar_to_array
array-HasArray PgType.bool = refl
array-HasArray PgType.int2 = refl
array-HasArray PgType.int4 = refl
array-HasArray PgType.int8 = refl
array-HasArray PgType.float4 = refl
array-HasArray PgType.float8 = refl
array-HasArray PgType.numeric = refl
array-HasArray PgType.varchar = refl
array-HasArray PgType.bpchar = refl
array-HasArray PgType.bytea = refl
array-HasArray PgType.date = refl
array-HasArray PgType.time = refl
array-HasArray PgType.timetz = refl
array-HasArray PgType.timestamp = refl
array-HasArray PgType.timestamptz = refl
array-HasArray PgType.interval = refl
array-HasArray PgType.jsonb = refl
array-HasArray PgType.uuid = refl
array-HasArray PgType.inet = refl
array-HasArray PgType.text = refl
array-HasArray PgType.name = refl
array-HasArray PgType.unknown = refl
array-HasArray PgType.oid = refl
array-HasArray PgType.char = refl
array-HasArray PgType.bool_array = refl
array-HasArray PgType.int2_array = refl
array-HasArray PgType.int4_array = refl
array-HasArray PgType.int8_array = refl
array-HasArray PgType.float4_array = refl
array-HasArray PgType.float8_array = refl
array-HasArray PgType.numeric_array = refl
array-HasArray PgType.varchar_array = refl
array-HasArray PgType.bpchar_array = refl
array-HasArray PgType.bytea_array = refl
array-HasArray PgType.date_array = refl
array-HasArray PgType.time_array = refl
array-HasArray PgType.timetz_array = refl
array-HasArray PgType.timestamp_array = refl
array-HasArray PgType.timestamptz_array = refl
array-HasArray PgType.interval_array = refl
array-HasArray PgType.jsonb_array = refl
array-HasArray PgType.uuid_array = refl
array-HasArray PgType.inet_array = refl
array-HasArray PgType.text_array = refl

type_named-HasArray :
    (name : Text) (rows : List (Text × PgType))
    → All (λ (row : Text × PgType). HasArray row.1) rows
    → HasArray (type_named name rows)
unfolding scalar_to_array
type_named-HasArray name [] h = refl
type_named-HasArray name ((n, ty) ∷ rows) h = elim (Bool-cases (text_eq n name)) [
  | inl e ↦ rw e h.0
  | inr e ↦ rw e (type_named-HasArray name rows h.1)
]

scalar_types-HasArray : All (λ (row : Text × PgType). HasArray row.1) scalar_types
unfolding scalar_to_array
scalar_types-HasArray = (
  refl,
  (
    refl,
    (
      refl,
      (
        refl,
        (
          refl,
          (
            refl,
            (
              refl,
              (
                refl,
                (
                  refl,
                  (
                    refl,
                    (
                      refl,
                      (
                        refl,
                        (
                          refl,
                          (
                            refl,
                            (
                              refl,
                              (
                                refl,
                                (refl, (refl, (refl, (refl, (refl, (refl, (refl, (refl, tt)))))))),
                              ),
                            ),
                          ),
                        ),
                      ),
                    ),
                  ),
                ),
              ),
            ),
          ),
        ),
      ),
    ),
  ),
)

scalar_type-HasArray : (n : Text) → HasArray (scalar_type n)
unfolding scalar_type
scalar_type-HasArray n = type_named-HasArray _ scalar_types scalar_types-HasArray

type_of-HasArray : (case : CaseTable) (fuel : ℕ) (s : Text) → HasArray (type_of case fuel s)
unfolding type_of
type_of-HasArray case zero s = scalar_type-HasArray (normalize case s)
type_of-HasArray case (suc fuel) s = elim (Option-cases (array_element (normalize case s))) [
  | inl e ↦
      subst HasArray (sym (type_of-none case (suc fuel) s e))
        (scalar_type-HasArray (normalize case s))
  | inr (inner, e) ↦
      subst HasArray (sym (type_of-some case fuel s inner e))
        (array-HasArray (type_of case fuel inner))
]

-- A Trino array arrives as PostgreSQL's array type with elements of the type that the element itself
-- maps to, for every ASCII spelling of the element, in any case and with blanks around it; an array
-- of arrays, at any depth, arrives as an array of texts.
pub trino_type_to_pg-array :
    (case : CaseTable) (inner : Text)
    → IsAscii inner
    → element_type (trino_type_to_pg case (array_of inner))
      ≡ some (elements_of (trino_type_to_pg case inner))
unfolding trino_type_to_pg
trino_type_to_pg-array case inner h =
    ap element_type (trino_type_to_pg_array_step case inner h) ∙ type_of-HasArray case _ inner
