-- ===== src/Rewrite.antt =====
-- src/rewrite: from PostgreSQL's SQL to Trino's. sqlparser's parser, its mutable visitors and its
-- printer are the interface `Sqlparser`.
pub mod Decimals
pub mod Limits
pub mod Predicates
pub mod Functions
use postgresql_trino_gateway.Prelude.{
  ℕ, suc, ◌==◌, Bool, true, false, not, ◌&&◌, Option, none, some, List, [], ◌∷◌, length, is_some,
  if◌then◌else◌, unwrap_or,
}
use postgresql_trino_gateway.Prelude.Text.{Text, codes, text_eq}
use postgresql_trino_gateway.Prelude.Case.{CaseTable, to_lowercase}
use postgresql_trino_gateway.Sql.{
  Ident, ObjectNamePart, ObjectName, SqlValue, number, CastKind, DataType, Expr, FunctionArguments,
  no_arguments, argument_list, Arguments, nil, cons, unnamed, FunctionArgExpr, LimitClause, Fetch,
  Query, Statement,
}
use postgresql_trino_gateway.Rewrite.Decimals.{parses_to_zero}

unfoldable pub is_zero_literal : Expr → Bool
is_zero_literal (Expr.value (number n long)) = parses_to_zero n
is_zero_literal e = false

-- `limit.take()`: the limit, where the clause has a limit and an offset and no `LIMIT BY`.
abbrev pub taken : Option LimitClause → Option Expr
taken (some (LimitClause.limit_offset limit (some offset) [])) = limit
taken clause = none

-- What `limit.take()` leaves.
abbrev pub left_over : Option LimitClause → Option LimitClause
left_over (some (LimitClause.limit_offset limit (some offset) [])) =
    some (LimitClause.limit_offset none (some offset) [])
left_over clause = clause

-- `LimitOffsetRewriter::post_visit_query`.
unfoldable pub post_visit_query : Query → Query
post_visit_query q = if is_some q.fetch then q else elim (taken q.limit_clause) [
  | none ↦ record q { limit_clause = left_over q.limit_clause }
  | some limit ↦
      if is_zero_literal limit
      then record q { limit_clause = some (LimitClause.limit_offset (some limit) none []) }
      else record q {
        limit_clause = left_over q.limit_clause;
        fetch = some (record { with_ties = false; percent = false; quantity = some limit });
      }
]

unfoldable pub normalize_data_type : DataType → DataType
normalize_data_type DataType.text = DataType.varchar none
normalize_data_type (DataType.int2 n) = DataType.small_int none
normalize_data_type (DataType.int4 n) = DataType.integer none
normalize_data_type (DataType.int8 n) = DataType.big_int none
normalize_data_type DataType.float4 = DataType.real
normalize_data_type DataType.float8 = DataType.double_precision
normalize_data_type DataType.bool = DataType.boolean
normalize_data_type DataType.bytea = DataType.varbinary none
normalize_data_type dt = dt

abbrev pub cast_kind : CastKind → CastKind
cast_kind CastKind.double_colon = CastKind.cast
cast_kind kind = kind

-- `CastRewriter::post_visit_expr`.
unfoldable pub rewrite_cast : Expr → Expr
rewrite_cast (Expr.cast_expr kind e dt) = Expr.cast_expr (cast_kind kind) e (normalize_data_type dt)
rewrite_cast e = e

unfoldable pub make_lower_call : Expr → Expr
make_lower_call inner =
    Expr.function
      (ObjectNamePart.identifier (record { value = codes "lower"; quote_style = none }) ∷ [])
      (argument_list (cons (unnamed (FunctionArgExpr.expr inner)) nil))

-- `ILikeRewriter::post_visit_expr`.
unfoldable pub rewrite_i_like : Expr → Expr
rewrite_i_like (Expr.i_like negated any e pattern escape_char) =
    Expr.like negated false (make_lower_call e) (make_lower_call pattern) escape_char
rewrite_i_like e = e

abbrev pub argument_count : Arguments → ℕ
argument_count nil = 0
argument_count (cons a rest) = suc (argument_count rest)

abbrev pub arg_count : FunctionArguments → ℕ
arg_count (argument_list args) = argument_count args
arg_count args = 0

-- Trino's name of a function, where it has another.
unfoldable pub new_name : Text → ℕ → Option Text
new_name lower args =
    if text_eq lower (codes "string_agg")
    then some (codes "listagg")
    else if text_eq lower (codes "log") && args == 1
    then some (codes "log10")
    else if text_eq lower (codes "trunc")
    then some (codes "truncate")
    else none

-- `FunctionRenamer::post_visit_expr`.
unfoldable pub rename_function : CaseTable → Expr → Expr
rename_function case (Expr.function (ObjectNamePart.identifier ident ∷ []) args) =
    Expr.function
      (ObjectNamePart.identifier (record ident {
        value = unwrap_or (new_name (to_lowercase case ident.value) (arg_count args)) ident.value;
      })
        ∷ [])
      args
rename_function case e = e

-- sqlparser: a parse fails as a whole; a visitor is run on each expression, or each query, of a
-- statement; a statement prints.
pub record Sqlparser : Type 0 where
  pub parse_statements : Text → Option (List Statement)
  pub post_visit_exprs : (Expr → Expr) → Statement → Statement
  pub post_visit_queries : (Query → Query) → Statement → Statement
  pub to_string : Statement → Text

module _ (sqlparser : Sqlparser) (case : CaseTable) where
  -- The four visitors, in their order.
  unfoldable pub visit_all : Statement → Statement
  visit_all stmt = sqlparser.post_visit_queries post_visit_query (
      sqlparser.post_visit_exprs (rename_function case)
        (sqlparser.post_visit_exprs rewrite_i_like (sqlparser.post_visit_exprs rewrite_cast stmt)))

  unfoldable pub rewrite_sql : Text → Text
  rewrite_sql sql = elim (sqlparser.parse_statements sql) [
    | some (stmt ∷ []) ↦ sqlparser.to_string (visit_all stmt)
    | some stmts ↦ sql
    | none ↦ sql
  ]
