-- ===== src/QueryInspection.antt =====
-- src/query_inspection.rs: what the routing decisions ask of a parsed query.
pub mod Matching
pub mod Bare
use postgresql_trino_gateway.Prelude.{
  ℕ, zero, suc, Bool, true, false, not, ◌&&◌, ◌||◌, ◌==◌, Option, none, some, List, [], ◌∷◌, ◌++◌,
  map, if◌then◌else◌, is_some, is_empty, length, first, last, any, or_else,
}
use postgresql_trino_gateway.Prelude.Text.{Text, codes, eq_ignore_ascii_case}
use postgresql_trino_gateway.Sql.{
  Ident, ObjectNamePart, ObjectName, SqlValue, single_quoted_string, number, other_value, Expr,
  FunctionArguments, no_arguments, subquery, argument_list, Arguments, nil, cons, FunctionArg,
  unnamed, named, expr_named, FunctionArgExpr, SelectItem, unnamed_expr, expr_with_alias,
  GroupByExpr, expressions, Select, SetExpr, select, other_body, Query, Statement, other_statement,
  Parsed, ParsedQuery,
}

abbrev pub as_ident : ObjectNamePart → Option Ident
as_ident (ObjectNamePart.identifier id) = some id
as_ident (ObjectNamePart.function_part n) = none

abbrev pub ident_eq : Text → Option Ident → Bool
ident_eq want none = false
ident_eq want (some id) = eq_ignore_ascii_case id.value want

abbrev and_then_ident : Option ObjectNamePart → Option Ident
and_then_ident none = none
and_then_ident (some p) = as_ident p

unfoldable pub last_ident_eq : ObjectName → Text → Bool
last_ident_eq parts want = ident_eq want (and_then_ident (last parts))

-- The second-to-last part.
abbrev pub second_last {ℓ} : {A : Type ℓ} → List A → Option A
second_last [] = none
second_last (a ∷ []) = none
second_last (a ∷ b ∷ []) = some a
second_last (a ∷ b ∷ c ∷ xs) = second_last (b ∷ c ∷ xs)

-- `match parts.len()` of `references_table_in_schema`.
unfoldable pub qualified_ok : Text → ObjectName → Bool
qualified_ok schema [] = false
qualified_ok schema (p ∷ []) = true
qualified_ok schema (p ∷ q ∷ parts) = ident_eq schema (and_then_ident (second_last (p ∷ q ∷ parts)))

module _ (parsed : ParsedQuery) where
  unfoldable pub references_table : Text → Bool
  references_table name = elim parsed [
    | none ↦ false
    | some stmts ↦ any (λ obj. last_ident_eq obj name) stmts.relations
  ]

  unfoldable pub references_table_in_schema : Text → Text → Bool
  references_table_in_schema schema name = elim parsed [
    | none ↦ false
    | some stmts ↦ any (λ obj. last_ident_eq obj name && qualified_ok schema obj) stmts.relations
  ]

abbrev pub is_call : Text → Expr → Bool
is_call name (Expr.function f args) = last_ident_eq f name
is_call name (Expr.identifier id) = false
is_call name (Expr.compound_identifier ids) = false
is_call name (Expr.value v) = false
is_call name (Expr.cast_expr k e t) = false
is_call name (Expr.i_like n a e p c) = false
is_call name (Expr.like n a e p c) = false
is_call name (Expr.other_expr n) = false

abbrev pub is_bare_identifier : Text → Expr → Bool
is_bare_identifier name (Expr.identifier id) = eq_ignore_ascii_case id.value name
is_bare_identifier name (Expr.function f args) = false
is_bare_identifier name (Expr.compound_identifier ids) = false
is_bare_identifier name (Expr.value v) = false
is_bare_identifier name (Expr.cast_expr k e t) = false
is_bare_identifier name (Expr.i_like n a e p c) = false
is_bare_identifier name (Expr.like n a e p c) = false
is_bare_identifier name (Expr.other_expr n) = false

abbrev string_literal : Expr → Option Text
string_literal (Expr.value (single_quoted_string s)) = some s
string_literal (Expr.value (number n long)) = none
string_literal (Expr.value (other_value n)) = none
string_literal (Expr.identifier id) = none
string_literal (Expr.function f args) = none
string_literal (Expr.compound_identifier ids) = none
string_literal (Expr.cast_expr k e t) = none
string_literal (Expr.i_like n a e p c) = none
string_literal (Expr.like n a e p c) = none
string_literal (Expr.other_expr n) = none

abbrev arg_literal : FunctionArgExpr → Option Text
arg_literal (FunctionArgExpr.expr e) = string_literal e
arg_literal FunctionArgExpr.wildcard = none
arg_literal (FunctionArgExpr.qualified_wildcard n) = none

unfoldable pub first_string_literal_arg : FunctionArguments → Option Text
first_string_literal_arg no_arguments = none
first_string_literal_arg (subquery n) = none
first_string_literal_arg (argument_list nil) = none
first_string_literal_arg (argument_list (cons (unnamed a) args)) = arg_literal a
first_string_literal_arg (argument_list (cons (named id a) args)) = arg_literal a
first_string_literal_arg (argument_list (cons (expr_named e a) args)) = arg_literal a

abbrev pub call_literal : Text → Expr → Option Text
call_literal name (Expr.function f args) =
    if last_ident_eq f name then first_string_literal_arg args else none
call_literal name (Expr.identifier id) = none
call_literal name (Expr.compound_identifier ids) = none
call_literal name (Expr.value v) = none
call_literal name (Expr.cast_expr k e t) = none
call_literal name (Expr.i_like n a e p c) = none
call_literal name (Expr.like n a e p c) = none
call_literal name (Expr.other_expr n) = none

-- The first item for which the function has a value.
abbrev pub find_map {ℓ κ} : {A : Type ℓ} {B : Type κ} → (A → Option B) → List A → Option B
find_map f [] = none
find_map f (x ∷ xs) = or_else (f x) (find_map f xs)

abbrev question_column : Text
question_column = codes "?column?"

abbrev name_of : Option Ident → Text
name_of none = question_column
name_of (some id) = id.value

unfoldable pub unnamed_select_name : Expr → Text
unnamed_select_name (Expr.identifier id) = id.value
unnamed_select_name (Expr.compound_identifier parts) = name_of (last parts)
unnamed_select_name (Expr.function f args) = name_of (and_then_ident (last f))
unnamed_select_name (Expr.value v) = question_column
unnamed_select_name (Expr.cast_expr k e t) = question_column
unnamed_select_name (Expr.i_like n a e p c) = question_column
unnamed_select_name (Expr.like n a e p c) = question_column
unnamed_select_name (Expr.other_expr n) = question_column

abbrev pub item_name : SelectItem → Text
item_name (unnamed_expr e) = unnamed_select_name e
item_name (expr_with_alias e alias) = alias.value
item_name SelectItem.wildcard = codes "*"
item_name (SelectItem.qualified_wildcard name) = name ++ codes ".*"

abbrev pub has_group_by : GroupByExpr → Bool
has_group_by (expressions exprs mods) = not (is_empty exprs) || not (is_empty mods)
has_group_by (GroupByExpr.all mods) = true

-- The tests on the clauses of the query and of its SELECT.
unfoldable pub plain_query : Query → Bool
plain_query q =
    not (is_some q.with_clause || is_some q.order_by || is_some q.limit_clause || is_some q.fetch)

unfoldable pub plain_select : Select → Bool
plain_select s = not (
    not (is_empty s.from)
    || is_some s.selection
    || has_group_by s.group_by
    || is_some s.having
    || not (is_empty s.cluster_by)
    || not (is_empty s.distribute_by)
    || not (is_empty s.sort_by)
    || is_some s.qualify
    || not (length s.projection == 1))

abbrev pub select_of : SetExpr → Option Select
select_of (select s) = some s
select_of (other_body n) = none

abbrev query_of : Statement → Option Query
query_of (Statement.query q) = some q
query_of (other_statement n) = none

unfoldable pub bare_select_of : Query → Option Select
unfolding plain_query plain_select
bare_select_of q =
    if plain_query q
    then (elim (select_of q.body) [
      | none ↦ none
      | some s ↦ if plain_select s then some s else none
    ])
    else none

-- The names of a SELECT's columns.
abbrev pub column_names : Option Query → List Text
column_names none = []
column_names (some q) = elim (select_of q.body) [ none ↦ [] | some s ↦ map item_name s.projection ]

abbrev pub first_query : List Statement → Option Query
first_query [] = none
first_query (s ∷ ss) = query_of s

-- `stmts.len() != 1` and the query of the one statement.
abbrev pub single_query : List Statement → Option Query
single_query [] = none
single_query (s ∷ []) = query_of s
single_query (s ∷ t ∷ ss) = none

module _ (parsed : ParsedQuery) where
  unfoldable pub calls_function : Text → Bool
  calls_function name = elim parsed [
    | none ↦ false
    | some stmts ↦ any (is_call name) stmts.expressions
  ]

  unfoldable pub calls_function_or_keyword : Text → Bool
  unfolding calls_function
  calls_function_or_keyword name = if calls_function name then true else elim parsed [
    | none ↦ false
    | some stmts ↦ any (is_bare_identifier name) stmts.expressions
  ]

  unfoldable pub function_string_arg : Text → Option Text
  function_string_arg name = elim parsed [
    | none ↦ none
    | some stmts ↦ find_map (call_literal name) stmts.expressions
  ]

  unfoldable pub returns_rows : Bool
  returns_rows = elim parsed [ none ↦ false | some stmts ↦ is_some (first_query stmts.statements) ]

  unfoldable pub select_column_names : List Text
  select_column_names = elim parsed [
    | none ↦ []
    | some stmts ↦ column_names (first_query stmts.statements)
  ]

  unfoldable pub bare_select : Option Select
  unfolding bare_select_of
  bare_select = elim parsed [
    | none ↦ none
    | some stmts ↦ elim (single_query stmts.statements) [ none ↦ none | some q ↦ bare_select_of q ]
  ]

  unfoldable pub is_bare_scalar_select : Bool
  unfolding bare_select
  is_bare_scalar_select = is_some bare_select
