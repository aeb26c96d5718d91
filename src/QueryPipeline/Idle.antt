-- ===== src/QueryPipeline/Idle.antt =====
-- The connection's slot after a statement that goes to Trino (src/query_pipeline.rs).
use postgresql_trino_gateway.Prelude.{
  ℕ, ◌≡◌, refl, sym, subst, Bool, Option, none, some, List, [], ◌∷◌, ok, err,
}
use postgresql_trino_gateway.Prelude.Text.{Text}
use postgresql_trino_gateway.Config.{Config}
use postgresql_trino_gateway.Wire.{FieldFormat, Response, ActiveQueryId}
use postgresql_trino_gateway.Session.{Gateway}
use postgresql_trino_gateway.Catalog.{handle_dynamic_catalog_query}
use postgresql_trino_gateway.TrinoStream.{
  Reply, page, failed, finished, waiting, Opened, execute_trino_query,
}
use postgresql_trino_gateway.TrinoStream.Slot.{SlotAfter, execute-SlotAfter}
use postgresql_trino_gateway.Intercept.{passes}
use postgresql_trino_gateway.QueryPipeline.{
  Env, Ended, done, awaits, panicked, Store, respond, forward, intercepted,
  process_single_statement, trino_sql,
}

module _ (env : Env) (config : Config) (slot : ActiveQueryId) (format : Option (ℕ → FieldFormat))
    (secure : Bool) where
  -- What the slot holds after the call, once a first page has come with the id of the query.
  abbrev pub HoldsId : (id : Text) → Store × Ended (List Response) → Type 0
  HoldsId id (s', done (ok out) rest) = s'.gateway.slots slot ≡ some id
  HoldsId id (s', done (err e) rest) = s'.gateway.slots slot ≡ none
  HoldsId id (s', awaits) = s'.gateway.slots slot ≡ some id
  HoldsId id (s', panicked) = ⊥

  -- The same for all replies; without a first page the call has not touched the gateway.
  abbrev pub LeavesSlot : List Reply → Gateway → Store × Ended (List Response) → Type 0
  LeavesSlot [] g x = x.0.gateway ≡ g
  LeavesSlot (failed m ∷ replies) g x = x.0.gateway ≡ g
  LeavesSlot (page p ∷ replies) g x = HoldsId p.id x

  respond-HoldsId :
      (log : List Text) (o : Opened) (id : Text)
      → SlotAfter env.encoding slot format (some id) o
      → HoldsId id (respond env log o)
  unfolding respond
  respond-HoldsId log (g, waiting) id a = a
  respond-HoldsId log (g, finished (err e) left) id a = a
  respond-HoldsId log (g, finished (ok ([], st)) left) id a = a.0
  respond-HoldsId log (g, finished (ok (f ∷ fs, st)) left) id a = a.0

  respond-submitted : (log : List Text) (o : Opened) → (respond env log o).0.submitted ≡ log
  unfolding respond
  respond-submitted log (g, waiting) = refl
  respond-submitted log (g, finished (err e) left) = refl
  respond-submitted log (g, finished (ok ([], st)) left) = refl
  respond-submitted log (g, finished (ok (f ∷ fs, st)) left) = refl

  forward-LeavesSlot :
      (sql : Text) (replies : List Reply) (s : Store)
      → LeavesSlot replies s.gateway (forward env config (some slot) format secure sql replies s)
  unfolding forward execute_trino_query respond
  forward-LeavesSlot sql [] s = refl
  forward-LeavesSlot sql (failed m ∷ replies) s = refl
  forward-LeavesSlot sql (page p ∷ replies) s =
      respond-HoldsId (trino_sql env sql ∷ s.submitted)
        (execute_trino_query env.encoding (some slot) format (page p ∷ replies) s.gateway) p.id
        (execute-SlotAfter env.encoding slot format p replies s.gateway)

  forwarded :
      (sql : Text) (replies : List Reply) (s : Store)
      → intercepted env config (some slot) format secure sql ≡ passes
      → handle_dynamic_catalog_query env.dynamic (env.parse_sql sql) ≡ none
      → process_single_statement env config (some slot) format secure sql replies s
        ≡ forward env config (some slot) format secure sql replies s
  unfolding process_single_statement
  forwarded sql replies s i d = rw (i, d) refl

  -- A statement that is not answered locally is submitted exactly once, in its rewritten form,
  -- whatever Trino replies. After a first page the connection's slot holds the query's id while more
  -- is awaited, and it keeps it when the call ends with a response, also for DDL or DML, which has
  -- ended; it is empty when the call ends with an error. Without a first page the gateway is
  -- untouched.
  pub process_single_statement-slot :
      (sql : Text) (replies : List Reply) (s : Store)
      → intercepted env config (some slot) format secure sql ≡ passes
      → handle_dynamic_catalog_query env.dynamic (env.parse_sql sql) ≡ none
      → ((process_single_statement env config (some slot) format secure sql replies s).0.submitted
          ≡ trino_sql env sql ∷ s.submitted)
        × LeavesSlot replies s.gateway
            (process_single_statement env config (some slot) format secure sql replies s)
  unfolding forward
  process_single_statement-slot sql replies s i d =
      let e = sym (forwarded sql replies s i d) in
      (
        subst
            (λ (x : Store × Ended (List Response)). x.0.submitted ≡ trino_sql env sql ∷ s.submitted)
            e (respond-submitted (trino_sql env sql ∷ s.submitted) _),
        subst (LeavesSlot replies s.gateway) e (forward-LeavesSlot sql replies s),
      )
