-- ===== src/Examples/QueryPipeline.antt =====
-- A batch whose second statement fails, and a statement without a result.
use postgresql_trino_gateway.InfoSchema.{
  intercept_missing_information_schema, rewrite_info_schema_columns,
}
use postgresql_trino_gateway.QueryInspection.{
  is_bare_scalar_select, references_table, references_table_in_schema,
}
use postgresql_trino_gateway.Prelude.Case.{to_uppercase}
use postgresql_trino_gateway.Prelude.{
  ◌≤◌, ◌≡◌, refl, true, none, some, List, [], ◌∷◌, length, if◌then◌else◌, ok, arith, ◌==◌,
}
use postgresql_trino_gateway.Prelude.Text.{Text, codes, text_eq, trim, starts_with}
use postgresql_trino_gateway.ErrorMapping.{trino_error_to_pg}
use postgresql_trino_gateway.Sql.{Statement, other_statement, ParsedQuery}
use postgresql_trino_gateway.Prelude.Case.{ascii_only}
use postgresql_trino_gateway.Rewrite.{Sqlparser, rewrite_sql}
use postgresql_trino_gateway.Wire.{Response, query, execution, error, pages, PageStream}
use postgresql_trino_gateway.Session.{set_active_query_id}
use postgresql_trino_gateway.Catalog.{handle_dynamic_catalog_query, handle_catalog_query}
use postgresql_trino_gateway.Intercept.{passes, try_intercept}
use postgresql_trino_gateway.TrinoStream.{
  QueryResult, Reply, page, failed, open_stream, extract_direct_rows, execute_trino_query,
  build_pg_schema,
}
use postgresql_trino_gateway.QueryPipeline.{
  Env, Ended, done, Store, split_statements, intercepted, process_single_statement, process_query,
  trino_sql,
}
use postgresql_trino_gateway.QueryPipeline.Batch.{BatchAnswers, Ran, process_query-BatchAnswers}
use postgresql_trino_gateway.QueryPipeline.Idle.{LeavesSlot, process_single_statement-slot}
use postgresql_trino_gateway.Examples.Fixtures.{
  secure_config, empty_gateway, plain, queued, column, last_rows, empty_catalog,
}

-- The text `a;b` has the statements `a` and `b`; no other text parses.
abbrev pub parse : Text → ParsedQuery
parse sql =
    if text_eq sql (codes "a;b")
    then some (record {
      statements = other_statement 0 ∷ other_statement 1 ∷ [];
      relations = [];
      expressions = [];
    })
    else none

abbrev print : Statement → Text
print (Statement.query q) = codes "q"
print (other_statement n) = if n == 0 then codes "a" else codes "b"

abbrev pub parser : Sqlparser
parser = record {
  parse_statements = λ sql. none;
  post_visit_exprs = λ f s. s;
  post_visit_queries = λ f s. s;
  to_string = print;
}

abbrev pub env : Env
env = record {
  parse_sql = parse;
  sqlparser = parser;
  case = ascii_only;
  encoding = plain;
  dynamic = empty_catalog;
}

abbrev store : Store
store = record { gateway = empty_gateway; submitted = [] }

abbrev a_stream : PageStream
a_stream =
    (open_stream plain (column ∷ []) (extract_direct_rows last_rows.rows) none (some 3) none).1

abbrev batch_out : List Response
batch_out = query a_stream.schema (pages a_stream) ∷ error (trino_error_to_pg (codes "boom")) ∷ []

abbrev batch_replies : List Reply
batch_replies = page last_rows ∷ failed (codes "boom") ∷ []

abbrev batch_store : Store
batch_store =
    (process_query env secure_config (some 3) none true (codes "a;b") batch_replies store).0

two_statements : 2 ≤ length (split_statements env (codes "a;b"))
unfolding split_statements text_eq
two_statements = omega arith

batch_runs :
    process_query env secure_config (some 3) none true (codes "a;b") batch_replies store
    ≡ (batch_store, done (ok batch_out) [])
unfolding process_query split_statements text_eq process_single_statement try_intercept trim
    starts_with to_uppercase is_bare_scalar_select references_table handle_catalog_query
    references_table_in_schema intercept_missing_information_schema handle_dynamic_catalog_query
    execute_trino_query build_pg_schema
batch_runs = refl

both_submitted : batch_store.submitted ≡ codes "b" ∷ codes "a" ∷ []
unfolding process_query split_statements text_eq process_single_statement try_intercept trim
    starts_with to_uppercase is_bare_scalar_select references_table handle_catalog_query
    references_table_in_schema intercept_missing_information_schema handle_dynamic_catalog_query
    execute_trino_query build_pg_schema trino_sql rewrite_info_schema_columns rewrite_sql
both_submitted = refl

process_query-BatchAnswers_example :
    BatchAnswers (length (split_statements env (codes "a;b"))) batch_out
    × Ran env secure_config
        (some 3)
        none
        true
        (split_statements env (codes "a;b"))
        batch_replies
        store
        batch_out
        []
        batch_store
process_query-BatchAnswers_example =
    process_query-BatchAnswers env secure_config (some 3) none true (codes "a;b") batch_replies []
      store batch_store batch_out two_statements batch_runs

-- Trino's one reply to a DDL statement: no columns, no rows, no next page.
abbrev pub ddl_done : QueryResult
ddl_done = record queued { next_uri = none }

abbrev ddl_end : Store × Ended (List Response)
ddl_end =
    process_single_statement env secure_config (some 3) none true (codes "drop table t")
      (page ddl_done ∷ []) store

pub ddl_passes : intercepted env secure_config (some 3) none true (codes "drop table t") ≡ passes
unfolding try_intercept trim starts_with to_uppercase text_eq is_bare_scalar_select references_table
    handle_catalog_query references_table_in_schema intercept_missing_information_schema
ddl_passes = refl

pub ddl_foreign : handle_dynamic_catalog_query empty_catalog (parse (codes "drop table t")) ≡ none
unfolding handle_dynamic_catalog_query references_table text_eq
ddl_foreign = refl

-- The id of the ended query is still there.
ddl_runs :
    (ddl_end.1 ≡ done (ok (execution (codes "OK") ∷ [])) [])
    × (ddl_end.0.gateway.slots 3 ≡ some (codes "q1"))
unfolding process_single_statement try_intercept trim starts_with to_uppercase text_eq
    is_bare_scalar_select references_table handle_catalog_query references_table_in_schema
    intercept_missing_information_schema handle_dynamic_catalog_query execute_trino_query
    build_pg_schema set_active_query_id
ddl_runs = (refl, refl)

process_single_statement-slot_example :
    (ddl_end.0.submitted ≡ trino_sql env (codes "drop table t") ∷ [])
    × LeavesSlot env secure_config 3 none true (page ddl_done ∷ []) empty_gateway ddl_end
process_single_statement-slot_example =
    process_single_statement-slot env secure_config 3 none true (codes "drop table t")
      (page ddl_done ∷ []) store ddl_passes ddl_foreign
