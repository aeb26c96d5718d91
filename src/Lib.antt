-- ===== src/Lib.antt =====
-- The gateway lets PostgreSQL clients query Trino: it speaks PostgreSQL's wire protocol (through
-- pgwire) on one side and Trino's REST protocol (through trino-rust-client) on the other. This
-- library models its logic and proves what makes it correct.
--
-- How the parts interact: at start, `main` (src/main.rs) has `validate` (src/policy.rs) accept or
-- refuse the configuration, builds the TLS acceptor (src/tls.rs) and runs the accept loop
-- (src/server.rs), and drains the connections when it ends. For each client, `on_startup`
-- (src/startup.rs) checks credentials, allocates a cancel key and registers the connection
-- (src/session.rs). A query comes through the simple or the extended handler (src/query_simple.rs,
-- src/query_extended.rs) to `process_query` (src/query_pipeline.rs), which splits it into
-- statements and asks in turn `try_intercept` (src/intercept.rs, with src/info_schema.rs and the
-- static tables of src/catalog), the dynamic catalog (src/catalog) and Trino
-- (src/trino_stream.rs), for which src/rewrite turns the statement into Trino's SQL and
-- src/types.rs encodes the cells of the result. Errors of Trino are mapped and sanitised
-- (src/error_mapping.rs). A cancel request (src/cancel.rs) finds the running query by the
-- connection's key.
--
-- Which file models what:
--   Config: the settings of src/config.rs.
--   Policy, Policy/Posture: src/policy.rs; a log line is an item of a list beside the result.
--   ErrorMapping and its children: src/error_mapping.rs; a text is a list of code points with
--     UTF-8 lengths, so that `find`, `truncate` and char boundaries are those of the source.
--   Wire: the types of pgwire, serde_json and trino-rust-client that the code builds.
--   Session: src/session.rs and src/cancel.rs; a shared slot is an address in a heap.
--   Startup: src/startup.rs; Startup/World: the connections of a gateway as a step relation (open,
--     write a slot or a portal cache, close); its other children: the theorems.
--   TrinoStream and its children: src/trino_stream.rs; Trino's replies are a list in the order of
--     the requests, and a computation that needs a reply beyond it waits.
--   QueryExtended and its children: src/query_extended.rs over the interface `Pipeline`.
--   Handler and its children: src/handler.rs, the handlers of an open connection together, with
--     src/query_pipeline.rs as the extended handler's `Pipeline`; a call that awaits a reply of
--     Trino or has panicked is marked as stopped.
--   Sql, QueryInspection and its children: src/query_inspection.rs over the part of sqlparser's
--     tree that it looks into; a parse carries the relations and expressions in visiting order.
--   Catalog and its children: src/catalog; InfoSchema: src/info_schema.rs; Intercept:
--     src/intercept.rs; QueryPipeline: src/query_pipeline.rs and src/query_simple.rs.
--   Rewrite and its children: src/rewrite; sqlparser's traversal applies each visitor, and the
--     zero test of a LIMIT reads the literal as an `f64` is read.
--   Types: `trino_type_to_pg` of src/types.rs, which names the PostgreSQL type of a Trino type.
--     Types/Numbers, Types/Json, Types/Temporal and Types/Cells: the encoders of cells; a finite
--     float is a sign and a fraction over a power of two, and the libraries they call are the
--     fields of `Libraries` (Types/Libraries). `encoding` (Types/Cells) fills the interface of the
--     stream. The other children hold the theorems.
--   Server, Server/Capacity, Server/Reaping: src/server.rs; a round of the loop lists what its
--     environment does before and between the polls.
--   Main and its children: src/main.rs; the drain is a function of the events it waits for.
--   Tls, Tls/Acceptor: src/tls.rs.
--   Prelude: texts, maps, results, decimal and UTF-8 forms, and their laws. Examples: runs on
--     concrete inputs.
--
-- Bounds and fuel: `mask_loop` and `strip_prefixes` run on fuel for each code point of their text;
-- each round shortens the text, so the fuel is never used up. `digits` has fuel for each digit.
-- `type_of` has fuel for each code point, and each `array(…)` takes seven. A `u32` hash and the
-- pid counter wrap around; the connections' invariant is stated up to the counter's first wrap.
-- `shift` has fuel for the eleven bits that a `u64` has more than the significand of an `f64`.
--
-- What is not modelled: command-line parsing and the handler factory, which hands out the
-- handlers. sqlparser, pgwire, trino-rust-client, rustls, chrono, chrono-tz, rust_decimal, the
-- printing and parsing of floats, the operating system, name resolution and Unicode's case tables
-- are parameters. Log lines are modelled only in src/policy.rs and src/server.rs, and a panic only
-- where the code slices a text or indexes a schema.
pub mod Catalog
pub mod Config
pub mod ErrorMapping
pub mod Examples
pub mod Handler
pub mod InfoSchema
pub mod Intercept
pub mod Main
pub mod Policy
pub mod Prelude
pub mod QueryExtended
pub mod QueryInspection
pub mod QueryPipeline
pub mod Rewrite
pub mod Server
pub mod Session
pub mod Sql
pub mod Startup
pub mod Tls
pub mod TrinoStream
pub mod Types
pub mod Wire
