-- ===== src/Rewrite/Functions.antt =====
-- What the rewriter of casts and function names (src/rewrite/casts.rs, src/rewrite/functions.rs)
-- leaves to Trino.
use postgresql_trino_gateway.Prelude.{
  ◌≡◌, refl, Option, none, some, [], ◌∷◌, ◌==◌, ◌&&◌, unwrap_or, true, false, ℕ, Bool,
  if◌then◌else◌, ap,
}
use postgresql_trino_gateway.Prelude.Text.{
  Text, codes, text_eq, trim, strip_prefix, find, ends_with,
}
use postgresql_trino_gateway.Prelude.Case.{CaseTable, to_lowercase}
use postgresql_trino_gateway.Wire.{PgType}
use postgresql_trino_gateway.Sql.{ObjectNamePart, CastKind, DataType, Expr}
use postgresql_trino_gateway.Types.{trino_type_to_pg}
use postgresql_trino_gateway.Rewrite.{
  normalize_data_type, rewrite_cast, arg_count, new_name, rename_function,
}

-- The type that Trino reports for a column that is a cast to a type.
pub record ReportsTypes (reported : DataType → Text) : Type 0 where
  pub reports_varchar : reported (DataType.varchar none) ≡ codes "varchar"
  pub reports_small_int : reported (DataType.small_int none) ≡ codes "smallint"
  pub reports_integer : reported (DataType.integer none) ≡ codes "integer"
  pub reports_big_int : reported (DataType.big_int none) ≡ codes "bigint"
  pub reports_real : reported DataType.real ≡ codes "real"
  pub reports_double : reported DataType.double_precision ≡ codes "double"
  pub reports_boolean : reported DataType.boolean ≡ codes "boolean"
  pub reports_varbinary : reported (DataType.varbinary none) ≡ codes "varbinary"

-- The type of the wire protocol that PostgreSQL's own type names stand for.
abbrev pub pg_type_of : DataType → Option PgType
pg_type_of DataType.text = some PgType.text
pg_type_of (DataType.int2 n) = some PgType.int2
pg_type_of (DataType.int4 n) = some PgType.int4
pg_type_of (DataType.int8 n) = some PgType.int8
pg_type_of DataType.float4 = some PgType.float4
pg_type_of DataType.float8 = some PgType.float8
pg_type_of DataType.bool = some PgType.bool
pg_type_of DataType.bytea = some PgType.bytea
pg_type_of dt = none

module _ (case : CaseTable) (reported : DataType → Text) where
  -- The wire type of a column that Trino computes; Trino has no `::`.
  abbrev pub column_type : Expr → Option PgType
  column_type (Expr.cast_expr CastKind.double_colon e dt) = none
  column_type (Expr.cast_expr kind e dt) = some (trino_type_to_pg case (reported dt))
  column_type e = none

  -- A cast to `text` gives a column of the type `varchar`: Trino has no type of its own for it.
  cast_to_text :
      ReportsTypes reported
      → (e : Expr)
      → column_type (rewrite_cast (Expr.cast_expr CastKind.cast e DataType.text))
        ≡ some PgType.varchar
  unfolding rewrite_cast normalize_data_type trino_type_to_pg ends_with to_lowercase trim text_eq
      find strip_prefix
  cast_to_text r e = rw r.reports_varchar refl

module _ (case : CaseTable) (n : ℕ) where
  -- The name of a function with `n` arguments, as the rewriter leaves it.
  abbrev renamed : Text → Text
  renamed v = unwrap_or (new_name (to_lowercase case v) n) v

  settled_by :
      (agg log trunc : Bool) (v : Text)
      → new_name (to_lowercase case v) n ≡ (
          if agg
          then some (codes "listagg")
          else if log
          then some (codes "log10")
          else if trunc
          then some (codes "truncate")
          else none)
      → renamed (renamed v) ≡ renamed v
  unfolding new_name to_lowercase text_eq
  settled_by true log trunc v h = rw h refl
  settled_by false true trunc v h = rw h refl
  settled_by false false true v h = rw h refl
  settled_by false false false v h = rw (h, h) refl

  -- No name that the rewriter puts in is one that it renames.
  renamed_twice : (v : Text) → renamed (renamed v) ≡ renamed v
  unfolding new_name
  renamed_twice v =
      let lower = to_lowercase case v in
      settled_by (text_eq lower (codes "string_agg")) (text_eq lower (codes "log") && n == 1)
        (text_eq lower (codes "trunc")) v refl

-- Renaming a function a second time changes nothing.
rename_function_twice :
    (case : CaseTable) (e : Expr)
    → rename_function case (rename_function case e) ≡ rename_function case e
unfolding rename_function
rename_function_twice case (Expr.function (ObjectNamePart.identifier i ∷ []) args) =
    ap (λ v. Expr.function (ObjectNamePart.identifier (record i { value = v }) ∷ []) args)
      (renamed_twice case (arg_count args) i.value)
rename_function_twice case (Expr.function [] args) = refl
rename_function_twice case (Expr.function (ObjectNamePart.identifier i ∷ p ∷ ps) args) = refl
rename_function_twice case (Expr.function (ObjectNamePart.function_part k ∷ ps) args) = refl
rename_function_twice case (Expr.identifier i) = refl
rename_function_twice case (Expr.compound_identifier is) = refl
rename_function_twice case (Expr.value v) = refl
rename_function_twice case (Expr.cast_expr k e dt) = refl
rename_function_twice case (Expr.i_like n a e p c) = refl
rename_function_twice case (Expr.like n a e p c) = refl
rename_function_twice case (Expr.other_expr k) = refl
