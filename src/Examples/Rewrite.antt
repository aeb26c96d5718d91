-- ===== src/Examples/Rewrite.antt =====
-- Rewritten queries, casts and predicates.
use postgresql_trino_gateway.Prelude.{
  ℕ, ◌≡◌, refl, true, false, Option, none, some, List, [], ◌∷◌, if◌then◌else◌,
}
use postgresql_trino_gateway.Prelude.Text.{
  Text, codes, text_eq, ascii_lower, take_until, drop_until,
}
use postgresql_trino_gateway.Prelude.Decimal.{read}
use postgresql_trino_gateway.Sql.{
  ObjectNamePart, SqlValue, DataType, Expr, FunctionArguments, Arguments, FunctionArg,
  FunctionArgExpr, SetExpr, LimitClause, Query,
}
use postgresql_trino_gateway.Rewrite.{
  is_zero_literal, post_visit_query, rewrite_i_like, make_lower_call,
}
use postgresql_trino_gateway.Rewrite.Decimals.{parses_to_zero}
use postgresql_trino_gateway.Rewrite.Limits.{
  query_of, selected, ZeroCounts, post_visit_query-selected,
}
use postgresql_trino_gateway.Rewrite.Predicates.{mapped, holds}

zeros :
    parses_to_zero (codes "0") ≡ true
    × parses_to_zero (codes "-.0e5") ≡ true
    × parses_to_zero (codes "1e-400") ≡ true
    × parses_to_zero (codes "1e-323") ≡ false
    × parses_to_zero (codes "10") ≡ false
    × parses_to_zero (codes "0x") ≡ false
    × parses_to_zero (codes ".") ≡ false
unfolding parses_to_zero take_until drop_until
zeros = (refl, refl, refl, refl, refl, refl, refl)

abbrev number : Text → Expr
number n = Expr.value (SqlValue.number n false)

abbrev number_of : Expr → ℕ
number_of (Expr.value (SqlValue.number n long)) = read n 0
number_of e = 0

abbrev count : Expr → ℕ
count e = if is_zero_literal e then 0 else number_of e

zero_counts : ZeroCounts {A = ℕ} count (λ c rows. rows) (λ f rows. rows)
zero_counts e z = rw z refl

abbrev limit_and_offset : Text → Query
limit_and_offset n =
    query_of none none (SetExpr.other_body 0)
      (some (LimitClause.limit_offset (some (number n)) (some (number (codes "1"))) [])) none

abbrev rows : List ℕ
rows = 10 ∷ 11 ∷ 12 ∷ 13 ∷ []

two_rows :
    selected count (λ c rows. rows) (λ f rows. rows) (limit_and_offset (codes "2")) rows
    ≡ 11 ∷ 12 ∷ []
unfolding is_zero_literal parses_to_zero take_until drop_until
two_rows = refl

post_visit_query-selected_example :
    selected count
      (λ c rows. rows)
      (λ f rows. rows)
      (post_visit_query (limit_and_offset (codes "2")))
      rows
    ≡ selected count (λ c rows. rows) (λ f rows. rows) (limit_and_offset (codes "2")) rows
post_visit_query-selected_example =
    post_visit_query-selected count (λ c rows. rows) (λ f rows. rows) zero_counts
      (limit_and_offset (codes "2")) rows

abbrev text : Text → Expr
text s = Expr.value (SqlValue.single_quoted_string s)

-- Literals, and `lower`.
abbrev value : Expr → Option Text
value (Expr.value (SqlValue.single_quoted_string s)) = some s
value
      (Expr.function (ObjectNamePart.identifier i ∷ []) (
        FunctionArguments.argument_list
          (Arguments.cons (FunctionArg.unnamed (FunctionArgExpr.expr e)) Arguments.nil))) =
    let v = value e in if text_eq i.value (codes "lower") then mapped ascii_lower v else none
value e = none

abbrev percent_escaped : Expr
percent_escaped = Expr.i_like false false (text (codes "%")) (text (codes "A%")) (some (codes "A"))

-- An escape that is an upper-case letter is lost: `'%' ILIKE 'A%' ESCAPE 'A'` holds, and what it is
-- rewritten to does not.
escape_lost :
    holds ascii_lower value percent_escaped ≡ some true
    × holds ascii_lower value (rewrite_i_like percent_escaped) ≡ some false
unfolding rewrite_i_like make_lower_call ascii_lower text_eq
escape_lost = (refl, refl)

abbrev backslash_escaped : Expr
backslash_escaped = Expr.i_like false false (text (codes "a%")) (text (codes "A\\%")) none

-- PostgreSQL's default escape is lost: `'a%' ILIKE 'A\%'` holds, and what it is rewritten to does not,
-- since Trino's LIKE without ESCAPE takes the backslash for itself.
default_escape_lost :
    holds ascii_lower value backslash_escaped ≡ some true
    × holds ascii_lower value (rewrite_i_like backslash_escaped) ≡ some false
unfolding rewrite_i_like make_lower_call ascii_lower text_eq
default_escape_lost = (refl, refl)

abbrev reported : DataType → Text
reported (DataType.varchar n) = codes "varchar"
reported (DataType.small_int n) = codes "smallint"
reported (DataType.integer n) = codes "integer"
reported (DataType.big_int n) = codes "bigint"
reported DataType.real = codes "real"
reported DataType.double_precision = codes "double"
reported DataType.boolean = codes "boolean"
reported (DataType.varbinary n) = codes "varbinary"
reported dt = []
