-- ===== src/QueryExtended/Runs.antt =====
-- How often src/query_extended.rs runs the query pipeline.
use postgresql_trino_gateway.Prelude.{◌≡◌, ◌⊎◌, Option, none, some, arith}
use postgresql_trino_gateway.Prelude.Text.{Text}
use postgresql_trino_gateway.QueryExtended.{
  Format, Portal, StoredStatement, Conn, Pipeline, on_cache, take_cached, insert_cached,
  first_response, require_state, do_query, do_describe_statement, do_describe_portal,
}

module _ (pipeline : Pipeline) where
  open pipeline use {World, process_query, returns_rows}

  -- The pipeline has not been run, or once, on the text in the format.
  abbrev pub AtMostOnce : Text → Option Format → Conn World → Conn World → Type 0
  AtMostOnce sql format c c' =
      (c'.world ≡ c.world) ⊎ (c'.world ≡ (process_query sql format c.is_secure c.world).0)

  pub do_query-AtMostOnce :
      (portal : Portal) (c : Conn World)
      → AtMostOnce portal.statement
          (some portal.result_column_format)
          c
          (do_query pipeline portal c).0
  unfolding do_query on_cache take_cached first_response
  do_query-AtMostOnce portal c = ground arith

  pub do_describe_portal-AtMostOnce :
      (portal : Portal) (c : Conn World)
      → AtMostOnce portal.statement
          (some portal.result_column_format)
          c
          (do_describe_portal pipeline portal c).0
  unfolding do_describe_portal on_cache require_state insert_cached first_response
  do_describe_portal-AtMostOnce portal c = ground arith

  pub do_describe_statement-AtMostOnce :
      (stmt : StoredStatement) (c : Conn World)
      → AtMostOnce stmt.statement none c (do_describe_statement pipeline stmt c).0
  unfolding do_describe_statement on_cache require_state first_response
  do_describe_statement-AtMostOnce stmt c = ground arith
