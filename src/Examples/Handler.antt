-- ===== src/Examples/Handler.antt =====
-- Two clients, of whom one runs a query that waits for Trino, and prepares a statement.
use postgresql_trino_gateway.Prelude.{
  ◌≡◌, refl, inl, true, false, none, some, [], ◌∷◌, arith, leb, length, ok,
}
use postgresql_trino_gateway.Prelude.Text.{Text, codes, text_eq, trim, starts_with}
use postgresql_trino_gateway.Prelude.Case.{to_uppercase}
use postgresql_trino_gateway.Catalog.{handle_catalog_query, handle_dynamic_catalog_query}
use postgresql_trino_gateway.InfoSchema.{intercept_missing_information_schema}
use postgresql_trino_gateway.QueryInspection.{
  is_bare_scalar_select, references_table, references_table_in_schema,
}
use postgresql_trino_gateway.Intercept.{try_intercept}
use postgresql_trino_gateway.Session.{
  i32, key_equality, CancelKey, ConnectionState, on_cancel_request,
}
use postgresql_trino_gateway.Startup.World.{Reach, start}
use postgresql_trino_gateway.TrinoStream.{
  page, extract_direct_rows, open_stream, execute_trino_query, build_pg_schema, run_stream,
}
use postgresql_trino_gateway.QueryPipeline.{
  process_query, process_single_statement, simple_query, split_statements,
}
use postgresql_trino_gateway.Handler.{Backend, query, responses, fields, response, Handled, handle}
use postgresql_trino_gateway.Handler.Isolation.{backend, served, handle-Reach, handle_isolated}
use postgresql_trino_gateway.Handler.Cancel.{
  SentToTrino, answered, for_rows, awaited_query_cancelled,
}
use postgresql_trino_gateway.Handler.Once.{
  SubmitsOnce, described, executed, described_portal_runs_once,
}
use postgresql_trino_gateway.QueryExtended.{
  Portal, fields_of, do_describe_portal, first_response, insert_cached,
}
use postgresql_trino_gateway.QueryExtended.Once.{HasRoom}
use postgresql_trino_gateway.Wire.{FieldFormat, Response, pages, PageStream}
use postgresql_trino_gateway.Examples.Fixtures.{plain, queued, column, first_rows}
use postgresql_trino_gateway.Examples.QueryPipeline.{env, ddl_done, ddl_foreign, ddl_passes}
use postgresql_trino_gateway.Examples.Startup.{
  two_clients, two_clients_reached, session_of, client_of, bob_live,
}

abbrev bob_key : CancelKey
bob_key = (2, i32 8)

abbrev bob : ConnectionState
bob = session_of (codes "bob") 1

abbrev drop_table : Text
drop_table = codes "drop table t"

handle-Reach_example : Reach start (
    served bob_key bob
      (handle env bob true (query drop_table) (backend two_clients [] (page queued ∷ [])))
      two_clients)
handle-Reach_example =
    handle-Reach env two_clients bob_key bob true (query drop_table) [] (page queued ∷ [])
      two_clients_reached bob_live

handle_isolated_example :
    on_cancel_request
      (1, i32 7)
      (handle env bob true
        (query drop_table)
        (backend two_clients [] (page queued ∷ []))).backend.store.gateway
    ≡ on_cancel_request (1, i32 7) two_clients.gateway
handle_isolated_example =
    handle_isolated env two_clients bob_key bob true (query drop_table) [] (page queued ∷ [])
      (1, i32 7) two_clients_reached bob_live (λ e. cc)

one_piece : leb (length (split_statements env drop_table)) 1 ≡ true
unfolding split_statements text_eq
one_piece = refl

sent_to_trino : SentToTrino env two_clients bob_key bob true drop_table [] first_rows []
sent_to_trino = (one_piece, ddl_passes, ddl_foreign)

abbrev rows_handled : Handled
rows_handled =
    handle env bob true (query drop_table) (backend two_clients [] (page first_rows ∷ []))

abbrev row_stream : PageStream
row_stream =
    (open_stream plain (column ∷ []) (extract_direct_rows first_rows.rows) first_rows.next_uri
      (some bob.active_query_id) none).1

-- Bob's handler has answered with a stream, which has sent the first page's row and waits.
waits_for_rows :
    (answered env two_clients bob_key bob true drop_table [] first_rows []
      ≡ responses (ok (Response.query row_stream.schema (pages row_stream) ∷ [])))
    × ((run_stream plain row_stream [] rows_handled.backend.store.gateway).1.1 ≡ false)
unfolding handle simple_query process_query split_statements text_eq process_single_statement
    try_intercept trim starts_with to_uppercase is_bare_scalar_select references_table
    handle_catalog_query references_table_in_schema intercept_missing_information_schema
    handle_dynamic_catalog_query execute_trino_query build_pg_schema run_stream
waits_for_rows = (refl, refl)

awaited_query_cancelled_example :
    on_cancel_request bob_key (run_stream plain row_stream [] rows_handled.backend.store.gateway).0
    ≡ some (client_of (codes "bob"), first_rows.id)
awaited_query_cancelled_example =
    awaited_query_cancelled env two_clients bob_key bob true drop_table [] first_rows []
      two_clients_reached bob_live sent_to_trino
      (run_stream plain row_stream [] rows_handled.backend.store.gateway).0
      (for_rows row_stream.schema row_stream [] waits_for_rows.0 waits_for_rows.1)

-- Bob prepares the statement and executes it; Trino replies once.
abbrev prepared : Portal
prepared = record {
  name = codes "p";
  statement = drop_table;
  result_column_format = λ i. FieldFormat.binary;
}

abbrev one_reply : Backend
one_reply = backend two_clients [] (page ddl_done ∷ [])

has_room : HasRoom bob.portals prepared.name
has_room = (refl, inl (omega arith))

no_fields : (described env bob true prepared one_reply).answer ≡ fields (ok [])
unfolding handle do_describe_portal first_response process_query split_statements text_eq
    process_single_statement try_intercept trim starts_with to_uppercase is_bare_scalar_select
    references_table handle_catalog_query references_table_in_schema
    intercept_missing_information_schema handle_dynamic_catalog_query execute_trino_query
    build_pg_schema insert_cached
no_fields = refl

described_portal_runs_once_example :
    SubmitsOnce env drop_table [] (executed env bob true prepared one_reply).backend.store.submitted
    × ((executed env bob true prepared one_reply).backend
        ≡ (described env bob true prepared one_reply).backend)
    × ((r : Response) × ((executed env bob true prepared one_reply).answer ≡ response (ok r))
        × (fields_of r ≡ []))
described_portal_runs_once_example =
    described_portal_runs_once env bob true prepared one_reply [] has_room one_piece no_fields
