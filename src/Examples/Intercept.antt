-- ===== src/Examples/Intercept.antt =====
-- Queries that stop at the gateway, and one that should not.
use postgresql_trino_gateway.InfoSchema.{intercept_missing_information_schema}
use postgresql_trino_gateway.Catalog.{handle_catalog_query}
use postgresql_trino_gateway.Prelude.{◌≡◌, ◌↔◌, ◌⊎◌, refl, true, false, none, [], ◌∷◌, is_empty}
use postgresql_trino_gateway.Prelude.Text.{codes, trim, starts_with, text_eq}
use postgresql_trino_gateway.Prelude.Case.{ascii_only, to_uppercase}
use postgresql_trino_gateway.Sql.{Expr, argument_list, nil, cons, unnamed, FunctionArgExpr, Parsed}
use postgresql_trino_gateway.QueryInspection.{
  is_bare_scalar_select, references_table, references_table_in_schema,
}
use postgresql_trino_gateway.Intercept.{passes, answers, normalized, tagged, try_intercept}
use postgresql_trino_gateway.Intercept.Passing.{
  is_command, is_foreign, named, version_call, try_intercept_passes_iff,
}
use postgresql_trino_gateway.Examples.Fixtures.{plain_encoder}

begin_acknowledged :
    try_intercept plain_encoder ascii_only (codes " begin; ") none [] [] false
    ≡ answers (tagged (codes "BEGIN"))
unfolding try_intercept trim starts_with to_uppercase text_eq
begin_acknowledged = refl

select_passes : try_intercept plain_encoder ascii_only (codes "SELECT 1") none [] [] false ≡ passes
unfolding try_intercept trim starts_with to_uppercase text_eq is_bare_scalar_select references_table
    handle_catalog_query references_table_in_schema intercept_missing_information_schema
select_passes = refl

-- `COMMIT WORK` is no `COMMIT`.
commit_work_passes :
    try_intercept plain_encoder ascii_only (codes "COMMIT WORK") none [] [] false ≡ passes
unfolding try_intercept trim starts_with to_uppercase text_eq is_bare_scalar_select references_table
    handle_catalog_query references_table_in_schema intercept_missing_information_schema
commit_work_passes = refl

try_intercept_passes_iff_example :
    (try_intercept plain_encoder ascii_only (codes "SELECT 1") none [] [] false ≡ passes) ↔ (
      (is_empty (trim (codes "SELECT 1")) ≡ true)
      ⊎ ((is_command (to_uppercase ascii_only (normalized (codes "SELECT 1"))) ≡ false)
          × (is_foreign none ≡ true)))
try_intercept_passes_iff_example =
    try_intercept_passes_iff plain_encoder ascii_only (codes "SELECT 1") none [] [] false

-- `length(version())`
abbrev length_call : Expr
length_call =
    Expr.function (named (codes "length"))
      (argument_list (cons (unnamed (FunctionArgExpr.expr version_call)) nil))

abbrev version_parse : Parsed
version_parse = record { statements = []; relations = []; expressions = version_call ∷ [] }
