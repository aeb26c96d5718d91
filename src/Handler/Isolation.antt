-- ===== src/Handler/Isolation.antt =====
-- The messages of one connection (src/handler.rs) among the steps of the gateway's connections.
use postgresql_trino_gateway.Prelude.{
  ◌≡◌, ◌≢◌, refl, ap, ◌∙◌, inl, inr, Bool, false, Option, none, some, List,
}
use postgresql_trino_gateway.Prelude.Text.{Text}
use postgresql_trino_gateway.Prelude.Map.{get}
use postgresql_trino_gateway.Wire.{Response}
use postgresql_trino_gateway.Session.{
  key_equality, CancelKey, ConnectionState, Gateway, on_cancel_request,
}
use postgresql_trino_gateway.Startup.World.{World, cached, Reach, start, write, cache, next}
use postgresql_trino_gateway.Startup.Connections.{write_isolated}
use postgresql_trino_gateway.TrinoStream.{Reply}
use postgresql_trino_gateway.QueryPipeline.{
  Env, Ended, done, awaits, panicked, Store, process_query, simple_query,
}
use postgresql_trino_gateway.QueryExtended.{
  Format, Conn, do_query, do_describe_portal, do_describe_statement,
}
use postgresql_trino_gateway.QueryExtended.Runs.{
  AtMostOnce, do_query-AtMostOnce, do_describe_portal-AtMostOnce, do_describe_statement-AtMostOnce,
}
use postgresql_trino_gateway.Handler.{
  Backend, settled, Message, query, execute, describe_portal, describe_statement, Handled, pipeline,
  conn, handle,
}
use postgresql_trino_gateway.Handler.Writes.{Writes, untouched, further, process_query-Writes}

settled-gateway : (x : Store × Ended (List Response)) → (settled x).0.store.gateway ≡ x.0.gateway
settled-gateway (s, done r rest) = refl
settled-gateway (s, awaits) = refl
settled-gateway (s, panicked) = refl

module _ (env : Env) (s : ConnectionState) (secure : Bool) where
  ran-Writes :
      (sql : Text) (format : Option Format) (b : Backend) (c' : Conn Backend)
      → AtMostOnce (pipeline env s secure) sql format (conn env s secure b) c'
      → Writes (some s.active_query_id) b.store.gateway c'.world.store.gateway
  ran-Writes sql format b c' h =
      let x =
        process_query env s.config (some s.active_query_id) format secure sql b.replies b.store in
      let own : Writes (some s.active_query_id) b.store.gateway (settled x).0.store.gateway =
        rw (settled-gateway x) (
          process_query-Writes (some s.active_query_id) env s.config format secure sql b.replies
            b.store) in
      elim h [ inl e ↦ rw e untouched | inr e ↦ rw e own ]

  -- A message of a connection changes the gateway by writes of that connection's slot only.
  handle-Writes :
      (m : Message) (b : Backend)
      → Writes
          (some s.active_query_id)
          b.store.gateway
          (handle env s secure m b).backend.store.gateway
  unfolding handle simple_query
  handle-Writes (query sql) b =
      rw (settled-gateway (simple_query env (some s) secure sql b.replies b.store)) (
        process_query-Writes (some s.active_query_id) env s.config none secure sql b.replies
          b.store)
  handle-Writes (execute portal) b =
      ran-Writes _ _ b (do_query (pipeline env s secure) portal (conn env s secure b)).0
        (do_query-AtMostOnce (pipeline env s secure) portal (conn env s secure b))
  handle-Writes (describe_portal portal) b =
      ran-Writes _ _ b (do_describe_portal (pipeline env s secure) portal (conn env s secure b)).0
        (do_describe_portal-AtMostOnce (pipeline env s secure) portal (conn env s secure b))
  handle-Writes (describe_statement stmt) b =
      ran-Writes _ _ b (do_describe_statement (pipeline env s secure) stmt (conn env s secure b)).0
        (do_describe_statement-AtMostOnce (pipeline env s secure) stmt (conn env s secure b))

-- The connections after a message of one of them.
abbrev pub served : CancelKey → ConnectionState → Handled → World → World
served k s h w = cached k s h.portals (record w { gateway = h.backend.store.gateway })

-- The gateway as it is, and Trino's replies to come.
abbrev pub backend : World → List Text → List Reply → Backend
backend w log replies = record {
  store = record { gateway = w.gateway; submitted = log };
  replies = replies;
  stopped = false;
}

module _ (w : World) (k : CancelKey) (s : ConnectionState) (r : Reach start w)
    (h : get k w.live ≡ some s) where
  -- Writes of an open connection's slot are steps of the connections.
  Writes-Reach :
      {g : Gateway}
      → Writes (some s.active_query_id) w.gateway g
      → Reach start (record w { gateway = g })
  Writes-Reach untouched = r
  Writes-Reach (further id p e) =
      next (Writes-Reach p) (write k s id h (ap (λ g. record w { gateway = g }) e))

  Writes-isolated :
      (j : CancelKey) {g : Gateway}
      → j ≢ k
      → Writes (some s.active_query_id) w.gateway g
      → on_cancel_request j g ≡ on_cancel_request j w.gateway
  Writes-isolated j ne untouched = refl
  Writes-isolated j ne (further id p e) =
      ap (on_cancel_request j) e
      ∙ write_isolated k j s id (Writes-Reach p) h ne
      ∙ Writes-isolated j ne p

module _ (env : Env) (w : World) (k : CancelKey) (s : ConnectionState) (secure : Bool) (m : Message)
    (log : List Text) (replies : List Reply) where
  -- Whatever a message of an open connection asks for, and whatever Trino replies, also where the
  -- handler still waits for a reply: what it does to the gateway of a reachable state is a sequence
  -- of steps of the connections, so that what holds in every reachable state holds afterwards.
  pub handle-Reach :
      Reach start w
      → get k w.live ≡ some s
      → Reach start (served k s (handle env s secure m (backend w log replies)) w)
  handle-Reach r h =
      next (Writes-Reach w k s r h (handle-Writes env s secure m (backend w log replies)))
        (cache k s (handle env s secure m (backend w log replies)).portals h refl)

  -- A message of one connection of a reachable state, whatever it asks for and whatever Trino
  -- replies, does not change what a cancel request with the key of another connection cancels.
  pub handle_isolated :
      (j : CancelKey)
      → Reach start w
      → get k w.live ≡ some s
      → j ≢ k
      → on_cancel_request j (handle env s secure m (backend w log replies)).backend.store.gateway
        ≡ on_cancel_request j w.gateway
  handle_isolated j r h ne =
      Writes-isolated w k s r h j ne (handle-Writes env s secure m (backend w log replies))
