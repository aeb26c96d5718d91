-- ===== src/Sql.antt =====
-- The part of sqlparser's syntax tree that the gateway's code looks into. What it only carries along
-- is a number.
use postgresql_trino_gateway.Prelude.{ℕ, Bool, Option, List}
use postgresql_trino_gateway.Prelude.Text.{Text}

pub record Ident : Type 0 where
  pub value : Text
  pub quote_style : Option ℕ

pub data ObjectNamePart : Type 0 where
  identifier : Ident → ObjectNamePart
  function_part : ℕ → ObjectNamePart

abbrev pub ObjectName : Type 0
ObjectName = List ObjectNamePart

pub data SqlValue : Type 0 where
  number : Text → Bool → SqlValue
  single_quoted_string : Text → SqlValue
  other_value : ℕ → SqlValue

pub data CastKind : Type 0 where
  cast try_cast safe_cast double_colon : CastKind

pub data DataType : Type 0 where
  text float4 float8 real double_precision bool boolean bytea : DataType
  varchar int2 int4 int8 small_int integer big_int varbinary : Option ℕ → DataType
  other_type : ℕ → DataType

mutual
  pub data Expr : Type 0 where
    identifier : Ident → Expr
    compound_identifier : List Ident → Expr
    function : ObjectName → FunctionArguments → Expr
    value : SqlValue → Expr
    cast_expr : CastKind → Expr → DataType → Expr
    i_like : Bool → Bool → Expr → Expr → Option Text → Expr
    like : Bool → Bool → Expr → Expr → Option Text → Expr
    other_expr : ℕ → Expr

  pub data FunctionArguments : Type 0 where
    no_arguments : FunctionArguments
    subquery : ℕ → FunctionArguments
    argument_list : Arguments → FunctionArguments

  pub data Arguments : Type 0 where
    nil : Arguments
    cons : FunctionArg → Arguments → Arguments

  pub data FunctionArg : Type 0 where
    unnamed : FunctionArgExpr → FunctionArg
    named : Ident → FunctionArgExpr → FunctionArg
    expr_named : Expr → FunctionArgExpr → FunctionArg

  pub data FunctionArgExpr : Type 0 where
    expr : Expr → FunctionArgExpr
    wildcard : FunctionArgExpr
    qualified_wildcard : ℕ → FunctionArgExpr

pub data SelectItem : Type 0 where
  unnamed_expr : Expr → SelectItem
  expr_with_alias : Expr → Ident → SelectItem
  wildcard : SelectItem
  -- The name as it prints.
  qualified_wildcard : Text → SelectItem

pub data GroupByExpr : Type 0 where
  expressions : List Expr → List ℕ → GroupByExpr
  all : List ℕ → GroupByExpr

pub record Select : Type 0 where
  pub projection : List SelectItem
  pub from : List ℕ
  pub selection : Option Expr
  pub group_by : GroupByExpr
  pub having : Option Expr
  pub cluster_by : List Expr
  pub distribute_by : List Expr
  pub sort_by : List Expr
  pub qualify : Option Expr

pub data SetExpr : Type 0 where
  select : Select → SetExpr
  other_body : ℕ → SetExpr

pub data LimitClause : Type 0 where
  limit_offset : Option Expr → Option Expr → List Expr → LimitClause
  offset_comma_limit : Expr → Expr → LimitClause

pub record Fetch : Type 0 where
  pub with_ties : Bool
  pub percent : Bool
  pub quantity : Option Expr

pub record Query : Type 0 where
  pub with_clause : Option ℕ
  pub body : SetExpr
  pub order_by : Option ℕ
  pub limit_clause : Option LimitClause
  pub fetch : Option Fetch

pub data Statement : Type 0 where
  query : Query → Statement
  other_statement : ℕ → Statement

-- A parsed text, with the relations and the expressions in the order in which sqlparser's
-- `visit_relations` and `visit_expressions` come to them.
pub record Parsed : Type 0 where
  pub statements : List Statement
  pub relations : List ObjectName
  pub expressions : List Expr

-- `ParsedQuery`: nothing if the text does not parse.
abbrev pub ParsedQuery : Type 0
ParsedQuery = Option Parsed
