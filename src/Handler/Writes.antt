-- ===== src/Handler/Writes.antt =====
-- What a query does to the gateway and its slots (src/trino_stream.rs, src/query_pipeline.rs).
use postgresql_trino_gateway.Prelude.{
  ℕ, ◌≡◌, refl, inl, inr, Bool, Option, none, some, List, [], ◌∷◌, ◌++◌, ok, err, unwrap_or, leb,
  length, Option-cases, Bool-cases,
}
use postgresql_trino_gateway.Prelude.Text.{Text}
use postgresql_trino_gateway.Config.{Config}
use postgresql_trino_gateway.Wire.{
  FieldFormat, user_error, api_error, invalid_password, io_error, Value, TrinoColumn, ActiveQueryId,
  Response,
}
use postgresql_trino_gateway.Session.{Gateway, set_active_query_id}
use postgresql_trino_gateway.Catalog.{Responses}
use postgresql_trino_gateway.TrinoStream.{
  Reply, page, failed, Encoding, finished, waiting, Opened, extract_direct_rows, poll_columns,
  execute_trino_query, drop_stream,
}
use postgresql_trino_gateway.Intercept.{Intercepted, passes, answers, panics}
use postgresql_trino_gateway.QueryPipeline.{
  Env, Ended, done, awaits, panicked, Store, answered_or, intercepted_or, respond, forward,
  process_single_statement, process_pieces, process_query, split_statements,
}

-- A gateway after some writes of one slot.
pub data Writes (slot : Option ActiveQueryId) (g : Gateway) : Gateway → Type 0 where
  untouched : Writes slot g g
  further :
      {h h' : Gateway} (id : Option Text)
      → Writes slot g h
      → h' ≡ set_active_query_id slot id h
      → Writes slot g h'

module _ (slot : Option ActiveQueryId) where
  once-Writes : (id : Option Text) (g : Gateway) → Writes slot g (set_active_query_id slot id g)
  once-Writes id g = further id untouched refl

  append-Writes : {g h k : Gateway} → Writes slot g h → Writes slot h k → Writes slot g k
  append-Writes p untouched = p
  append-Writes p (further id q e) = further id (append-Writes p q) e

  module _ (encoding : Encoding) (format : Option (ℕ → FieldFormat)) where
    poll_columns-Writes :
        (replies : List Reply) (columns : List TrinoColumn) (rows : List (List Value))
        (uri : Option Text) (g : Gateway)
        → Writes slot g (poll_columns encoding slot format replies columns rows uri g).0
    unfolding poll_columns
    poll_columns-Writes replies (c ∷ cs) rows uri g = untouched
    poll_columns-Writes [] [] rows none g = untouched
    poll_columns-Writes (r ∷ replies) [] rows none g = untouched
    poll_columns-Writes [] [] rows (some url) g = untouched
    poll_columns-Writes (failed m ∷ replies) [] rows (some url) g = once-Writes none g
    poll_columns-Writes (page p ∷ replies) [] rows (some url) g = elim (Option-cases p.error) [
      | inr (m, e) ↦ rw e (once-Writes none g)
      | inl e ↦ rw e (
          poll_columns-Writes replies (unwrap_or p.columns []) (rows ++ extract_direct_rows p.rows)
            p.next_uri g)
    ]

    execute_trino_query-Writes :
        (replies : List Reply) (g : Gateway)
        → Writes slot g (execute_trino_query encoding slot format replies g).0
    unfolding execute_trino_query
    execute_trino_query-Writes [] g = untouched
    execute_trino_query-Writes (failed m ∷ replies) g = untouched
    execute_trino_query-Writes (page p ∷ replies) g =
        let g1 = set_active_query_id slot (some p.id) g in
        append-Writes (once-Writes (some p.id) g) (elim (Option-cases p.error) [
          | inr (m, e) ↦ rw e (once-Writes none g1)
          | inl e ↦ rw e (
              poll_columns-Writes replies (unwrap_or p.columns []) (extract_direct_rows p.rows)
                p.next_uri g1)
        ])

  module _ (env : Env) where
    respond-Writes :
        (log : List Text) (g : Gateway) (o : Opened)
        → Writes slot g o.0
        → Writes slot g (respond env log o).0.gateway
    unfolding respond drop_stream
    respond-Writes log g (h, waiting) w = w
    respond-Writes log g (h, finished (err e) rest) w = w
    respond-Writes log g (h, finished (ok ([], st)) rest) w = w
    respond-Writes log g (h, finished (ok (f ∷ fs, st)) rest) w = w

    answered_or-Writes :
        (m : Option Responses) (replies : List Reply) (s : Store)
        (next : Store × Ended (List Response))
        → Writes slot s.gateway next.0.gateway
        → Writes slot s.gateway (answered_or m replies s next).0.gateway
    answered_or-Writes none replies s next w = w
    answered_or-Writes (some r) replies s next w = untouched

    intercepted_or-Writes :
        (i : Intercepted) (replies : List Reply) (s : Store) (next : Store × Ended (List Response))
        → Writes slot s.gateway next.0.gateway
        → Writes slot s.gateway (intercepted_or i replies s next).0.gateway
    intercepted_or-Writes passes replies s next w = w
    intercepted_or-Writes (answers r) replies s next w = untouched
    intercepted_or-Writes panics replies s next w = untouched

    module _ (config : Config) (format : Option (ℕ → FieldFormat)) (secure : Bool) where
      process_single_statement-Writes :
          (sql : Text) (replies : List Reply) (s : Store)
          → Writes slot s.gateway
              (process_single_statement env config slot format secure sql replies s).0.gateway
      unfolding process_single_statement forward
      process_single_statement-Writes sql replies s = intercepted_or-Writes _ replies s _ (
          answered_or-Writes _ replies s _ (
            respond-Writes _ s.gateway _
              (execute_trino_query-Writes env.encoding format replies s.gateway)))

      process_pieces-Writes :
          (stmts : List Text) (out : List Response) (replies : List Reply) (s : Store)
          → Writes slot s.gateway
              (process_pieces env config slot format secure stmts out replies s).0.gateway
      unfolding process_pieces
      process_pieces-Writes [] out replies s = untouched
      process_pieces-Writes (stmt ∷ stmts) out replies s =
          go (ran.1) refl (process_pieces-Writes stmts)
        where
          ran : Store × Ended (List Response)
          ran = process_single_statement env config slot format secure stmt replies s

          first : Writes slot s.gateway ran.0.gateway
          first = process_single_statement-Writes stmt replies s

          go :
              (ended : Ended (List Response))
              → ran.1 ≡ ended
              → ((out' : List Response) (more : List Reply) (s1 : Store)
                  → Writes slot s1.gateway
                      (process_pieces env config slot format secure stmts out' more s1).0.gateway)
              → Writes slot s.gateway
                  (process_pieces env config slot format secure
                    (stmt ∷ stmts)
                    out
                    replies
                    s).0.gateway
          go awaits q ih = rw (q, process_pieces) first
          go panicked q ih = rw (q, process_pieces) first
          go (done (ok r) more) q ih =
              rw (q, process_pieces) (append-Writes first (ih (out ++ r) more ran.0))
          go (done (err (user_error info)) more) q ih = rw (q, process_pieces) first
          go (done (err (api_error t)) more) q ih = rw (q, process_pieces) first
          go (done (err (invalid_password t)) more) q ih = rw (q, process_pieces) first
          go (done (err (io_error t)) more) q ih = rw (q, process_pieces) first

      pub process_query-Writes :
          (sql : Text) (replies : List Reply) (s : Store)
          → Writes slot s.gateway
              (process_query env config slot format secure sql replies s).0.gateway
      unfolding process_query
      process_query-Writes sql replies s =
          elim (Bool-cases (leb (length (split_statements env sql)) 1)) [
            | inl y ↦ rw y (process_single_statement-Writes sql replies s)
            | inr n ↦ rw n (process_pieces-Writes (split_statements env sql) [] replies s)
          ]
