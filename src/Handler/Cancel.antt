-- ===== src/Handler/Cancel.antt =====
-- Cancel requests for a simple query that waits for Trino, for its columns or for rows:
-- src/handler.rs, src/trino_stream.rs and src/cancel.rs together.
use postgresql_trino_gateway.Prelude.{
  ℕ, ◌≡◌, refl, sym, ap, ◌∙◌, Bool, true, false, Option, none, some, List, [], ◌∷◌, arith, leb,
  length, ok, err,
}
use postgresql_trino_gateway.Prelude.Text.{Text}
use postgresql_trino_gateway.Prelude.Map.{get, get-insert_self}
use postgresql_trino_gateway.Wire.{
  FieldFormat, FieldInfo, PgWireResult, Response, pages, PageStream, ActiveQueryId,
}
use postgresql_trino_gateway.Catalog.{handle_dynamic_catalog_query}
use postgresql_trino_gateway.Intercept.{passes}
use postgresql_trino_gateway.Session.{
  key_equality, Gateway, CancelKey, ConnectionState, on_cancel_request,
}
use postgresql_trino_gateway.Startup.World.{World, Reach, start}
use postgresql_trino_gateway.Startup.Connections.{owner_query, on_cancel_request_owner}
use postgresql_trino_gateway.TrinoStream.{
  QueryResult, Reply, page, finished, waiting, Opened, execute_trino_query, run_stream,
}
use postgresql_trino_gateway.TrinoStream.Slot.{SlotAfter, execute-SlotAfter}
use postgresql_trino_gateway.QueryPipeline.{
  Env, Store, respond, forward, intercepted, process_single_statement, process_query, simple_query,
  split_statements, trino_sql,
}
use postgresql_trino_gateway.Handler.{Backend, settled, query, Answer, responses, handle}
use postgresql_trino_gateway.Handler.Isolation.{backend, served, handle-Reach}

responses_inj : (a b : PgWireResult (List Response)) → responses a ≡ responses b → a ≡ b
responses_inj a b h = ground arith

module _ (env : Env) where
  -- A call that waits has left the id in the slot.
  awaits-slot :
      (slot : ActiveQueryId) (format : Option (ℕ → FieldFormat)) (log : List Text) (o : Opened)
      (id : Text)
      → SlotAfter env.encoding slot format (some id) o
      → (settled (respond env log o)).0.stopped ≡ true
      → (settled (respond env log o)).0.store.gateway.slots slot ≡ some id
  unfolding respond
  awaits-slot slot format log (g, waiting) id a h = a
  awaits-slot slot format log (g, finished (err e) rest) id a h = absurd (ground arith)
  awaits-slot slot format log (g, finished (ok ([], st)) rest) id a h = absurd (ground arith)
  awaits-slot slot format log (g, finished (ok (f ∷ fs, st)) rest) id a h = absurd (ground arith)

  -- A call that opened a stream of rows has left the id in the slot, which the stream will clear.
  streams-slot :
      (slot : ActiveQueryId) (format : Option (ℕ → FieldFormat)) (log : List Text) (o : Opened)
      (id : Text) (schema : List FieldInfo) (st : PageStream)
      → SlotAfter env.encoding slot format (some id) o
      → (settled (respond env log o)).1 ≡ ok (Response.query schema (pages st) ∷ [])
      → (settled (respond env log o)).0.store.gateway.slots slot ≡ some id
  unfolding respond
  streams-slot slot format log (g, waiting) id schema st a h = absurd (ground arith)
  streams-slot slot format log (g, finished (err e) rest) id schema st a h = absurd (ground arith)
  streams-slot slot format log (g, finished (ok ([], u)) rest) id schema st a h =
      absurd (ground arith)
  streams-slot slot format log (g, finished (ok (f ∷ fs, u)) rest) id schema st a h = a.0

  waiting_stream :
      (st : PageStream) (later : List Reply) (g : Gateway)
      → (run_stream env.encoding st later g).1.1 ≡ false
      → (run_stream env.encoding st later g).0 ≡ g
  unfolding run_stream
  waiting_stream st later g h = rw h refl

  module _ (w : World) (k : CancelKey) (s : ConnectionState) (secure : Bool) (sql : Text)
      (log : List Text) (p : QueryResult) (replies : List Reply) where
    abbrev pub SentToTrino : Type 0
    SentToTrino =
        (leb (length (split_statements env sql)) 1 ≡ true)
        × (intercepted env s.config (some s.active_query_id) none secure sql ≡ passes)
        × (handle_dynamic_catalog_query env.dynamic (env.parse_sql sql) ≡ none)

    -- The message with the first page of its result.
    abbrev pub awaited : Backend
    awaited = (handle env s secure (query sql) (backend w log (page p ∷ replies))).backend

    abbrev pub answered : Answer
    answered = (handle env s secure (query sql) (backend w log (page p ∷ replies))).answer

    -- The gateway while the query waits for Trino: for its columns, in the handler's call; or for
    -- rows, in the stream that the handler answers with, which has not ended on the replies so far.
    pub data WaitsForTrino : Gateway → Type 0 where
      for_columns : awaited.stopped ≡ true → WaitsForTrino awaited.store.gateway
      for_rows :
          (schema : List FieldInfo) (st : PageStream) (later : List Reply)
          → answered ≡ responses (ok (Response.query schema (pages st) ∷ []))
          → (run_stream env.encoding st later awaited.store.gateway).1.1 ≡ false
          → WaitsForTrino (run_stream env.encoding st later awaited.store.gateway).0

    -- The first page in `execute_trino_query`.
    abbrev opening : Opened
    opening =
        execute_trino_query env.encoding (some s.active_query_id) none (page p ∷ replies) w.gateway

    abbrev store : Store
    store = record { gateway = w.gateway; submitted = log }

    single_piece :
        leb (length (split_statements env sql)) 1 ≡ true
        → process_query env s.config
            (some s.active_query_id)
            none
            secure
            sql
            (page p ∷ replies)
            store
          ≡ process_single_statement env s.config
              (some s.active_query_id)
              none
              secure
              sql
              (page p ∷ replies)
              store
    unfolding process_query
    single_piece n = rw n refl

    sent :
        SentToTrino
        → process_single_statement env s.config
            (some s.active_query_id)
            none
            secure
            sql
            (page p ∷ replies)
            store
          ≡ respond env (trino_sql env sql ∷ log) opening
    unfolding process_single_statement forward
    sent (n, i, d) = rw (i, d) refl

    awaited-respond :
        SentToTrino → awaited ≡ (settled (respond env (trino_sql env sql ∷ log) opening)).0
    unfolding handle simple_query
    awaited-respond t = ap (λ x. (settled x).0) (single_piece t.0 ∙ sent t)

    awaited-slot :
        SentToTrino
        → awaited.stopped ≡ true
        → awaited.store.gateway.slots s.active_query_id ≡ some p.id
    awaited-slot t h =
        ap (λ (b : Backend). b.store.gateway.slots s.active_query_id) (awaited-respond t)
        ∙ awaits-slot s.active_query_id none (trino_sql env sql ∷ log) opening p.id
            (execute-SlotAfter env.encoding s.active_query_id none p replies w.gateway)
            (sym (ap (λ (b : Backend). b.stopped) (awaited-respond t)) ∙ h)

    cancelled :
        Reach start w
        → get k w.live ≡ some s
        → awaited.store.gateway.slots s.active_query_id ≡ some p.id
        → on_cancel_request k awaited.store.gateway ≡ some (s.trino_client, p.id)
    cancelled r h a =
        let m = handle env s secure (query sql) (backend w log (page p ∷ replies)) in
        on_cancel_request_owner k
          (handle-Reach env w k s secure (query sql) log (page p ∷ replies) r h)
        ∙ ap (owner_query (served k s m w))
            (get-insert_self k (record s { portals = m.portals }) w.live)
        ∙ ground (arith, a)

    answered-respond :
        SentToTrino
        → answered ≡ responses (settled (respond env (trino_sql env sql ∷ log) opening)).1
    unfolding handle simple_query
    answered-respond t = ap (λ x. responses (settled x).1) (single_piece t.0 ∙ sent t)

    streamed-slot :
        SentToTrino
        → (schema : List FieldInfo) (st : PageStream)
        → answered ≡ responses (ok (Response.query schema (pages st) ∷ []))
        → awaited.store.gateway.slots s.active_query_id ≡ some p.id
    streamed-slot t schema st h =
        ap (λ (b : Backend). b.store.gateway.slots s.active_query_id) (awaited-respond t)
        ∙ streams-slot s.active_query_id none (trino_sql env sql ∷ log) opening p.id schema st
            (execute-SlotAfter env.encoding s.active_query_id none p replies w.gateway)
            (responses_inj _ _ (sym (answered-respond t) ∙ h))

    -- In a reachable state, while a simple query of one statement that goes to Trino waits after a
    -- first page, for its columns or for more rows, a cancel request with the key of its open
    -- connection cancels that query, through that connection's client.
    pub awaited_query_cancelled :
        Reach start w
        → get k w.live ≡ some s
        → SentToTrino
        → (g : Gateway) → WaitsForTrino g
        → on_cancel_request k g ≡ some (s.trino_client, p.id)
    awaited_query_cancelled r h t g (for_columns a) = cancelled r h (awaited-slot t a)
    awaited_query_cancelled r h t g (for_rows schema st later a e) =
        ap (on_cancel_request k) (waiting_stream st later awaited.store.gateway e)
        ∙ cancelled r h (streamed-slot t schema st a)
