-- ===== src/Handler.antt =====
-- src/handler.rs: the handlers that serve the messages of an open connection, over one gateway. The
-- pipeline that the extended handler is given is that of src/query_pipeline.rs.
pub mod Writes
pub mod Isolation
pub mod Cancel
pub mod Once
use postgresql_trino_gateway.Prelude.{
  ℕ, Bool, true, false, Option, none, some, List, [], Result, ok, err, unwrap_or,
}
use postgresql_trino_gateway.Prelude.Text.{Text, codes}
use postgresql_trino_gateway.Wire.{FieldInfo, PgWireResult, api_error, Response}
use postgresql_trino_gateway.QueryInspection.{returns_rows}
use postgresql_trino_gateway.Session.{PortalCache, ConnectionState}
use postgresql_trino_gateway.TrinoStream.{Reply}
use postgresql_trino_gateway.QueryPipeline.{
  Env, Ended, done, awaits, panicked, Store, process_query, simple_query,
}
use postgresql_trino_gateway.QueryExtended.{
  Portal, StoredStatement, DescribeStatementResponse, Conn, Pipeline, do_query, do_describe_portal,
  do_describe_statement,
}

-- The gateway, Trino's replies to come, and whether the call has stopped: it awaits a reply or has
-- panicked, and what it is said to result in does not count.
pub record Backend : Type 0 where
  pub store : Store
  pub replies : List Reply
  pub stopped : Bool

abbrev pub settled : Store × Ended (List Response) → Backend × PgWireResult (List Response)
settled (s, done r rest) = (record { store = s; replies = rest; stopped = false }, r)
settled (s, awaits) =
    (record { store = s; replies = []; stopped = true }, err (api_error (codes "no reply yet")))
settled (s, panicked) =
    (record { store = s; replies = []; stopped = true }, err (api_error (codes "panicked")))

-- A message of a client, past the startup.
pub data Message : Type 0 where
  query : Text → Message
  execute : Portal → Message
  describe_portal : Portal → Message
  describe_statement : StoredStatement → Message

pub data Answer : Type 0 where
  responses : PgWireResult (List Response) → Answer
  response : PgWireResult Response → Answer
  fields : PgWireResult (List FieldInfo) → Answer
  statement : PgWireResult DescribeStatementResponse → Answer

-- What a handler leaves, and its answer.
pub record Handled : Type 0 where
  pub backend : Backend
  pub portals : PortalCache
  pub answer : Answer

module _ (env : Env) (state : ConnectionState) (client_is_secure : Bool) where
  -- `process_query`, as src/query_extended.rs calls it.
  abbrev pub pipeline : Pipeline
  pipeline = record {
    World = Backend;
    process_query = λ sql format secure b. settled (
        process_query env state.config (some state.active_query_id) format secure sql b.replies
          b.store);
    returns_rows = λ sql. returns_rows (env.parse_sql sql);
  }

  abbrev pub conn : Backend → Conn Backend
  conn b = record { portals = some state.portals; is_secure = client_is_secure; world = b }

  abbrev pub handled :
      {A : Type 0} → (PgWireResult A → Answer) → Conn Backend × PgWireResult A → Handled
  handled answer (c, r) = record {
    backend = c.world;
    portals = unwrap_or c.portals state.portals;
    answer = answer r;
  }

  -- `simple_query_handler` and `extended_query_handler`.
  unfoldable pub handle : Message → Backend → Handled
  handle (query sql) b =
      let (b', r) =
        settled (simple_query env (some state) client_is_secure sql b.replies b.store) in
      record { backend = b'; portals = state.portals; answer = responses r }
  handle (execute portal) b = handled response (do_query pipeline portal (conn b))
  handle (describe_portal portal) b = handled fields (do_describe_portal pipeline portal (conn b))
  handle (describe_statement stmt) b =
      handled statement (do_describe_statement pipeline stmt (conn b))
