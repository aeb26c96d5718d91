-- ===== src/QueryPipeline.antt =====
-- src/query_pipeline.rs and the simple-query handler of src/query_simple.rs. sqlparser, pgwire's row
-- encoder and Trino's `get_all` are in the parameters; Trino's replies come as a list, in the order
-- of the requests.
pub mod Single
pub mod Batch
pub mod Idle
use postgresql_trino_gateway.Prelude.{
  ℕ, Bool, true, false, Option, none, some, List, [], ◌∷◌, ◌++◌, map, if◌then◌else◌, leb, ltb,
  length, is_empty, Result, ok, err,
}
use postgresql_trino_gateway.Prelude.Text.{Text, codes}
use postgresql_trino_gateway.Config.{Config}
use postgresql_trino_gateway.Sql.{Statement, ParsedQuery}
use postgresql_trino_gateway.Wire.{
  FieldFormat, FieldInfo, PgWireError, PgWireResult, user_error, api_error, invalid_password,
  io_error, Response, query, execution, error, pages, PageStream, ActiveQueryId,
}
use postgresql_trino_gateway.Session.{Gateway, ConnectionState}
use postgresql_trino_gateway.TrinoStream.{
  Reply, Encoding, Progress, finished, waiting, Opened, execute_trino_query, drop_stream,
}
use postgresql_trino_gateway.Prelude.Case.{CaseTable}
use postgresql_trino_gateway.Rewrite.{Sqlparser, rewrite_sql}
use postgresql_trino_gateway.Catalog.{Dynamic, Responses, handle_dynamic_catalog_query}
use postgresql_trino_gateway.InfoSchema.{rewrite_info_schema_columns}
use postgresql_trino_gateway.Intercept.{Intercepted, passes, answers, panics, try_intercept}

-- What the pipeline calls: sqlparser, Unicode's case tables, the encoders and Trino.
pub record Env : Type 0 where
  pub parse_sql : Text → ParsedQuery
  pub sqlparser : Sqlparser
  pub case : CaseTable
  pub encoding : Encoding
  pub dynamic : Dynamic

-- A call ends, with the replies left over; it waits for a reply; or it panics.
pub data Ended (A : Type 0) : Type 0 where
  done : PgWireResult A → List Reply → Ended A
  awaits : Ended A
  panicked : Ended A

-- The gateway, and the statements that were submitted to Trino, newest first.
pub record Store : Type 0 where
  pub gateway : Gateway
  pub submitted : List Text

-- What a call leaves, and how it ended.
abbrev pub Run : Type 0 → Type 0
Run A = List Reply → Store → Store × Ended A

-- A parse that has several statements is split into their printed forms.
abbrev pub pieces_of : (Statement → Text) → Text → ParsedQuery → List Text
pieces_of print sql none = sql ∷ []
pieces_of print sql (some p) =
    if ltb 1 (length p.statements) then map print p.statements else sql ∷ []

-- An answer that is there ends the call; else `next` runs.
abbrev pub answered_or :
    Option Responses
    → List Reply
    → Store
    → Store × Ended (List Response)
    → Store × Ended (List Response)
answered_or (some result) replies s next = (s, done result replies)
answered_or none replies s next = next

abbrev pub intercepted_or :
    Intercepted → List Reply → Store → Store × Ended (List Response) → Store × Ended (List Response)
intercepted_or (answers result) replies s next = (s, done result replies)
intercepted_or panics replies s next = (s, panicked)
intercepted_or passes replies s next = next

module _ (env : Env) where
  unfoldable pub split_statements : Text → List Text
  split_statements sql = pieces_of env.sqlparser.to_string sql (env.parse_sql sql)

  -- The statement for Trino: the columns of information_schema first, then the rewriter.
  unfoldable pub trino_sql : Text → Text
  trino_sql sql =
      rewrite_sql env.sqlparser env.case
        (elim (rewrite_info_schema_columns sql (env.parse_sql sql)) [
          | none ↦ sql
          | some rewritten ↦ rewritten
        ])

  -- The end of `process_single_statement`: no schema is DDL or DML, and the stream is dropped.
  unfoldable pub respond : List Text → Opened → Store × Ended (List Response)
  unfolding drop_stream
  respond log (g, waiting) = (record { gateway = g; submitted = log }, awaits)
  respond log (g, finished (err e) rest) =
      (record { gateway = g; submitted = log }, done (err e) rest)
  respond log (g, finished (ok (schema, st)) rest) =
      if is_empty schema
      then (
        record { gateway = drop_stream false st g; submitted = log },
        done (ok (execution (codes "OK") ∷ [])) rest,
      )
      else (record { gateway = g; submitted = log }, done (ok (query schema (pages st) ∷ [])) rest)

  module _ (config : Config) (active_query_id : Option ActiveQueryId)
      (result_format : Option (ℕ → FieldFormat)) (client_is_secure : Bool) where
    abbrev pub intercepted : Text → Intercepted
    intercepted sql =
        try_intercept env.dynamic.encoder env.dynamic.case sql (env.parse_sql sql)
          config.trino_catalog config.trino_schema client_is_secure

    -- The statement goes to Trino.
    unfoldable pub forward : Text → Run (List Response)
    unfolding respond
    forward sql replies s =
        respond (trino_sql sql ∷ s.submitted)
          (execute_trino_query env.encoding active_query_id result_format replies s.gateway)

    unfoldable pub process_single_statement : Text → Run (List Response)
    unfolding forward
    process_single_statement sql replies s = intercepted_or (intercepted sql) replies s (
        answered_or (handle_dynamic_catalog_query env.dynamic (env.parse_sql sql)) replies s
          (forward sql replies s))

    -- The loop over the pieces, with the responses so far.
    unfoldable pub process_pieces : List Text → List Response → Run (List Response)
    process_pieces [] out replies s = (s, done (ok out) replies)
    process_pieces (stmt ∷ stmts) out replies s =
        let (s1, ended) = process_single_statement stmt replies s in
        elim ended [
          | awaits ↦ (s1, awaits)
          | panicked ↦ (s1, panicked)
          | done (ok responses) rest ↦ process_pieces stmts (out ++ responses) rest s1
          | done (err (user_error info)) rest ↦ (s1, done (ok (out ++ error info ∷ [])) rest)
          | done (err (api_error t)) rest ↦ (s1, done (err (api_error t)) rest)
          | done (err (invalid_password t)) rest ↦ (s1, done (err (invalid_password t)) rest)
          | done (err (io_error t)) rest ↦ (s1, done (err (io_error t)) rest)
        ]

    unfoldable pub process_query : Text → Run (List Response)
    unfolding process_pieces
    process_query sql replies s =
        let pieces = split_statements sql in
        if leb (length pieces) 1
        then process_single_statement sql replies s
        else process_pieces pieces [] replies s

  -- `do_query` of src/query_simple.rs, on the session of the connection.
  unfoldable pub simple_query : Option ConnectionState → Bool → Text → Run (List Response)
  unfolding process_query
  simple_query none client_is_secure sql replies s =
      (s, done (err (api_error (codes "Connection state not found"))) replies)
  simple_query (some conn_state) client_is_secure sql replies s =
      process_query conn_state.config (some conn_state.active_query_id) none client_is_secure sql
        replies s
