-- ===== src/Types/Fields.antt =====
-- The readers of src/types.rs for the binary columns, and the values that fit a column's type.
use Prim.Native.Nat.{suc}
use postgresql_trino_gateway.Prelude.{
  ℕ, ◌^◌, ◌<◌, ◌≡◌, refl, inl, inr, Bool, true, false, ◌||◌, Option, none, some, arith, leb, ok,
  err, ok_or, ◌>>=◌, Bool-cases,
}
use postgresql_trino_gateway.Prelude.Text.{Text, codes, text_eq, trim}
use postgresql_trino_gateway.Prelude.Case.{CaseTable}
use postgresql_trino_gateway.Prelude.Int.{ℤ, pos, negsuc}
use postgresql_trino_gateway.Wire.{
  PgType, PgWireError, user_error, PgWireResult, Float, Value, null, boolean, number, string,
  compound,
}
use postgresql_trino_gateway.Catalog.Response.{and_then, as_str}
use postgresql_trino_gateway.Types.Numbers.{as_f64, number_to_i64}
use postgresql_trino_gateway.Types.Libraries.{Libraries, Field}
use postgresql_trino_gateway.Types.Json.{
  conversion_error, out_of_range, narrowed, json_to_bool, json_to_i64, string_to_i64, json_to_f64,
  string_to_f64, json_to_decimal, parsed,
}
use postgresql_trino_gateway.Types.Cells.{encode_value, text_field_of}
use postgresql_trino_gateway.Types.Integers.{IsNumber, InI64, number_sound}
use postgresql_trino_gateway.Types.Ranges.{string_to_i64-InI64}

-- A value that is not NULL; a number is one that serde_json makes.
abbrev pub IsCell : Value → Type 0
IsCell null = ⊥
IsCell (number n) = IsNumber n
IsCell (boolean b) = Unit
IsCell (string s) = Unit
IsCell (compound t) = Unit

-- The range of a signed integer whose least value is `-bound`.
abbrev pub InRange : ℕ → ℤ → Type 0
InRange bound (pos n) = n < bound
InRange bound (negsuc n) = n < bound

module _ (libs : Libraries) where
  -- The values of a column's type: integers in its range, a `float4` narrowed to an `f32`.
  abbrev pub Fits : PgType → Field libs → Type 0
  Fits PgType.bool (Field.bool b) = Unit
  Fits PgType.int2 (Field.int2 z) = InRange (2 ^ 15) z
  Fits PgType.int4 (Field.int4 z) = InRange (2 ^ 31) z
  Fits PgType.int8 (Field.int8 z) = InI64 z
  Fits PgType.float4 (Field.float4 f) = (g : Float) × (f ≡ libs.as_f32 g)
  Fits PgType.float8 (Field.float8 f) = Unit
  Fits PgType.numeric (Field.numeric d) = Unit
  Fits PgType.timestamp (Field.timestamp t) = Unit
  Fits PgType.timestamptz (Field.timestamptz t) = Unit
  Fits PgType.date (Field.date d) = Unit
  Fits PgType.time (Field.time t) = Unit
  Fits PgType.timetz (Field.implemented sql text) = Unit
  Fits PgType.varchar (Field.str s) = Unit
  Fits PgType.text (Field.str s) = Unit
  Fits PgType.bpchar (Field.str s) = Unit
  Fits PgType.name (Field.str s) = Unit
  Fits PgType.unknown (Field.str s) = Unit
  Fits pg_type field = ⊥

  -- invalid_binary_representation, numeric_value_out_of_range, feature_not_supported.
  abbrev pub is_refusal : PgWireError → Bool
  is_refusal (user_error info) =
      text_eq info.code (codes "22P03")
      || text_eq info.code (codes "22003")
      || text_eq info.code (codes "0A000")
  is_refusal e = false

  abbrev pub IsSafe : PgType → PgWireResult (Field libs) → Type 0
  IsSafe pg_type (ok field) = Fits pg_type field
  IsSafe pg_type (err e) = is_refusal e ≡ true

  conversion_error-refusal : (target name : Text) → is_refusal (conversion_error target name) ≡ true
  unfolding conversion_error text_eq
  conversion_error-refusal target name = refl

  ok_or-IsSafe :
      {A : Type 0} (pg_type : PgType) (o : Option A) (target name : Text)
      (next : A → PgWireResult (Field libs))
      → ((a : A) → o ≡ some a → IsSafe pg_type (next a))
      → IsSafe pg_type (ok_or o (conversion_error target name) >>= next)
  ok_or-IsSafe pg_type none target name next h = conversion_error-refusal target name
  ok_or-IsSafe pg_type (some a) target name next h = h a refl

  -- An integer cell: `narrow` makes a field of the number, or refuses it.
  pub integer-IsSafe :
      (value : Value) (name : Text) (pg_type : PgType) (narrow : ℤ → PgWireResult (Field libs))
      → IsCell value
      → ((z : ℤ) → InI64 z → IsSafe pg_type (narrow z))
      → IsSafe pg_type (json_to_i64 libs value name >>= narrow)
  unfolding json_to_i64
  integer-IsSafe (number n) name pg_type narrow w h =
      ok_or-IsSafe pg_type (number_to_i64 n) (codes "integer") name narrow
        (λ z e. h z (number_sound z n w e).1)
  integer-IsSafe (string s) name pg_type narrow w h =
      ok_or-IsSafe pg_type (string_to_i64 libs s) (codes "integer") name narrow
        (λ z e. h z (string_to_i64-InI64 libs s z e))
  integer-IsSafe (boolean b) name pg_type narrow w h =
      conversion_error-refusal (codes "integer") name
  integer-IsSafe (compound t) name pg_type narrow w h =
      conversion_error-refusal (codes "integer") name
  integer-IsSafe null name pg_type narrow w h = absurd w

  pub narrowed-IsSafe :
      (pg_type : PgType) (bound : ℕ) (target : Text) (make : ℤ → Field libs) (z : ℤ)
      → ((n : ℤ) → InRange (suc bound) n → Fits pg_type (make n))
      → IsSafe pg_type (narrowed bound target z >>= λ v. ok (make v))
  unfolding out_of_range text_eq
  narrowed-IsSafe pg_type bound target make (pos n) h = elim (Bool-cases (leb n bound)) [
    | inl l ↦ rw l (h (pos n) (ground arith))
    | inr l ↦ rw l refl
  ]
  narrowed-IsSafe pg_type bound target make (negsuc n) h = elim (Bool-cases (leb n bound)) [
    | inl l ↦ rw l (h (negsuc n) (ground arith))
    | inr l ↦ rw l refl
  ]

  pub text-IsSafe :
      (case : CaseTable) (value : Value) (name : Text) (pg_type : PgType)
      → IsCell value
      → ((s : Text) → Fits pg_type (Field.str s))
      → Fits pg_type (text_field_of libs case (encode_value libs case value name))
  unfolding encode_value
  text-IsSafe case null name pg_type w h = absurd w
  text-IsSafe case (boolean true) name pg_type w h = h _
  text-IsSafe case (boolean false) name pg_type w h = h _
  text-IsSafe case (number n) name pg_type w h = h _
  text-IsSafe case (string s) name pg_type w h = h _
  text-IsSafe case (compound t) name pg_type w h = h _

  pub bool-IsSafe :
      (value : Value) (name : Text)
      → IsSafe PgType.bool (json_to_bool value name >>= λ b. ok (Field.bool b))
  unfolding json_to_bool
  bool-IsSafe (boolean b) name = tt
  bool-IsSafe (string s) name = elim (Bool-cases (text_eq s (codes "true"))) [
    | inl y ↦ rw y tt
    | inr y ↦ elim (Bool-cases (text_eq s (codes "false"))) [
      | inl n ↦ rw (y, n) tt
      | inr n ↦ rw (y, n) (conversion_error-refusal (codes "boolean") name)
    ]
  ]
  bool-IsSafe null name = conversion_error-refusal (codes "boolean") name
  bool-IsSafe (number n) name = conversion_error-refusal (codes "boolean") name
  bool-IsSafe (compound t) name = conversion_error-refusal (codes "boolean") name

  pub float-IsSafe :
      (value : Value) (name : Text) (pg_type : PgType) (make : Float → Field libs)
      → ((f : Float) → Fits pg_type (make f))
      → IsSafe pg_type (json_to_f64 libs value name >>= λ f. ok (make f))
  unfolding json_to_f64
  float-IsSafe (number n) name pg_type make h =
      ok_or-IsSafe pg_type (as_f64 n) (codes "float") name (λ f. ok (make f)) (λ f e. h f)
  float-IsSafe (string s) name pg_type make h =
      ok_or-IsSafe pg_type (string_to_f64 libs (trim s)) (codes "float") name (λ f. ok (make f))
        (λ f e. h f)
  float-IsSafe null name pg_type make h = conversion_error-refusal (codes "float") name
  float-IsSafe (boolean b) name pg_type make h = conversion_error-refusal (codes "float") name
  float-IsSafe (compound t) name pg_type make h = conversion_error-refusal (codes "float") name

  pub decimal-IsSafe :
      (value : Value) (name : Text)
      → IsSafe PgType.numeric (json_to_decimal libs value name >>= λ d. ok (Field.numeric d))
  unfolding json_to_decimal
  decimal-IsSafe (number n) name =
      ok_or-IsSafe PgType.numeric (libs.decimal_from_str_exact (trim (libs.number_text n)))
        (codes "numeric") name (λ d. ok (Field.numeric d)) (λ d e. tt)
  decimal-IsSafe (string s) name =
      ok_or-IsSafe PgType.numeric (libs.decimal_from_str_exact (trim s)) (codes "numeric") name
        (λ d. ok (Field.numeric d)) (λ d e. tt)
  decimal-IsSafe null name = conversion_error-refusal (codes "numeric") name
  decimal-IsSafe (boolean b) name = conversion_error-refusal (codes "numeric") name
  decimal-IsSafe (compound t) name = conversion_error-refusal (codes "numeric") name

  pub parsed-IsSafe :
      {A : Type 0} (pg_type : PgType) (parse : Text → Option A) (target : Text) (value : Value)
      (name : Text) (make : A → Field libs)
      → ((a : A) → Fits pg_type (make a))
      → IsSafe pg_type (parsed parse target value name >>= λ a. ok (make a))
  parsed-IsSafe pg_type parse target value name make h =
      ok_or-IsSafe pg_type (and_then (as_str value) parse) target name (λ a. ok (make a))
        (λ a e. h a)
