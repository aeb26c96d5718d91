-- ===== src/Examples/TrinoStream.antt =====
-- A result of two pages, whose columns come with the second.
use postgresql_trino_gateway.Prelude.{◌≡◌, refl, true, none, some, List, [], ◌∷◌, ok}
use postgresql_trino_gateway.Prelude.Text.{codes}
use postgresql_trino_gateway.Wire.{string, PageStream}
use postgresql_trino_gateway.Session.{Gateway}
use postgresql_trino_gateway.TrinoStream.{
  Reply, page, finished, extract_direct_rows, execute_trino_query, run_stream, encoder_of,
  open_stream, encode_row, build_pg_schema,
}
use postgresql_trino_gateway.TrinoStream.Rows.{run_stream-render, render, prepend, page_chain}
use postgresql_trino_gateway.TrinoStream.Panics.{NoPanic, run_stream-NoPanic}
use postgresql_trino_gateway.Examples.Fixtures.{
  empty_gateway, plain, queued, column, last_rows, first_rows,
}

abbrev stream : PageStream
stream =
    (open_stream plain (column ∷ []) ((string (codes "x") ∷ []) ∷ []) (some (codes "u2")) (some 3)
      none).1

abbrev replies : List Reply
replies = page first_rows ∷ page last_rows ∷ []

abbrev running : Gateway
running = (execute_trino_query plain (some 3) none (page queued ∷ replies) empty_gateway).0

opens :
    execute_trino_query plain (some 3) none (page queued ∷ replies) empty_gateway
    ≡ (running, finished (ok (stream.schema, stream)) (page last_rows ∷ []))
unfolding execute_trino_query
opens = refl

both_rows :
    (run_stream plain stream (page last_rows ∷ []) running).1
    ≡ (some (ok (some (codes "x") ∷ [])) ∷ some (ok (some (codes "y") ∷ [])) ∷ [], true)
unfolding run_stream encode_row build_pg_schema
both_rows = refl

run_stream-render_example :
    (run_stream plain stream (page last_rows ∷ []) running).1
    ≡ render
        (encoder_of plain stream)
        (prepend (extract_direct_rows queued.rows) (page_chain replies queued.next_uri))
run_stream-render_example =
    run_stream-render plain (some 3) none queued replies (page last_rows ∷ []) empty_gateway running
      stream.schema stream opens

run_stream-NoPanic_example :
    NoPanic plain (run_stream plain stream (page last_rows ∷ []) running).1.0
run_stream-NoPanic_example =
    run_stream-NoPanic plain (some 3) none queued replies (page last_rows ∷ []) empty_gateway
      running stream.schema stream opens
