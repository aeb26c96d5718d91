-- ===== src/Handler/Once.antt =====
-- How often a prepared statement reaches Trino: src/query_extended.rs on top of
-- src/query_pipeline.rs.
use postgresql_trino_gateway.Prelude.{
  ℕ, ◌≡◌, ◌⊎◌, refl, sym, ap, ◌∙◌, subst, inl, inr, Bool, true, Option, none, some, List, [], ◌∷◌,
  arith, leb, length, ok, err, unwrap_or, Result-cases,
}
use postgresql_trino_gateway.Prelude.Text.{Text}
use postgresql_trino_gateway.Config.{Config}
use postgresql_trino_gateway.Wire.{FieldFormat, FieldInfo, ActiveQueryId, Response}
use postgresql_trino_gateway.Session.{PortalCache, ConnectionState}
use postgresql_trino_gateway.Catalog.{Responses, handle_dynamic_catalog_query}
use postgresql_trino_gateway.TrinoStream.{Reply, finished, waiting, Opened, execute_trino_query}
use postgresql_trino_gateway.Intercept.{Intercepted, passes, answers, panics}
use postgresql_trino_gateway.QueryPipeline.{
  Env, Ended, done, awaits, panicked, Store, intercepted, answered_or, intercepted_or, respond,
  forward, process_single_statement, process_query, split_statements, trino_sql,
}
use postgresql_trino_gateway.QueryExtended.{
  Portal, Conn, Pipeline, fields_of, do_query, do_describe_portal, first_response, insert_cached,
}
use postgresql_trino_gateway.QueryExtended.Once.{HasRoom, describe_execute_once}
use postgresql_trino_gateway.Handler.{
  Backend, settled, execute, describe_portal, fields, response, Handled, pipeline, conn, handle,
}

-- What a call adds to the statements that Trino got: nothing, or the statement in Trino's form.
abbrev pub SubmitsOnce : Env → Text → List Text → List Text → Type 0
SubmitsOnce env sql log log' = (log' ≡ log) ⊎ (log' ≡ trino_sql env sql ∷ log)

respond-submitted :
    (env : Env) (log : List Text) (o : Opened) → (respond env log o).0.submitted ≡ log
unfolding respond
respond-submitted env log (g, waiting) = refl
respond-submitted env log (g, finished (err e) rest) = refl
respond-submitted env log (g, finished (ok ([], st)) rest) = refl
respond-submitted env log (g, finished (ok (f ∷ fs, st)) rest) = refl

module _ (env : Env) (sql : Text) (replies : List Reply) (s : Store)
    (next : Store × Ended (List Response)) where
  answered_or-SubmitsOnce :
      (m : Option Responses)
      → SubmitsOnce env sql s.submitted next.0.submitted
      → SubmitsOnce env sql s.submitted (answered_or m replies s next).0.submitted
  answered_or-SubmitsOnce none h = h
  answered_or-SubmitsOnce (some r) h = inl refl

  intercepted_or-SubmitsOnce :
      (i : Intercepted)
      → SubmitsOnce env sql s.submitted next.0.submitted
      → SubmitsOnce env sql s.submitted (intercepted_or i replies s next).0.submitted
  intercepted_or-SubmitsOnce passes h = h
  intercepted_or-SubmitsOnce (answers r) h = inl refl
  intercepted_or-SubmitsOnce panics h = inl refl

module _ (env : Env) (config : Config) (slot : Option ActiveQueryId)
    (format : Option (ℕ → FieldFormat)) (secure : Bool) (sql : Text) (replies : List Reply)
    (s : Store) where
  process_single_statement-SubmitsOnce :
      SubmitsOnce env sql s.submitted
        (process_single_statement env config slot format secure sql replies s).0.submitted
  unfolding process_single_statement forward
  process_single_statement-SubmitsOnce =
      let sent = forward env config slot format secure sql replies s in
      let catalog = handle_dynamic_catalog_query env.dynamic (env.parse_sql sql) in
      let opening = execute_trino_query env.encoding slot format replies s.gateway in
      intercepted_or-SubmitsOnce env sql replies s (answered_or catalog replies s sent)
        (intercepted env config slot format secure sql)
        (answered_or-SubmitsOnce env sql replies s sent catalog
          (inr (respond-submitted env (trino_sql env sql ∷ s.submitted) opening)))

  process_query-SubmitsOnce :
      leb (length (split_statements env sql)) 1 ≡ true
      → SubmitsOnce env sql s.submitted
          (process_query env config slot format secure sql replies s).0.submitted
  unfolding process_query
  process_query-SubmitsOnce h = rw h process_single_statement-SubmitsOnce

settled-submitted :
    (x : Store × Ended (List Response)) → (settled x).0.store.submitted ≡ x.0.submitted
settled-submitted (s, done r rest) = refl
settled-submitted (s, awaits) = refl
settled-submitted (s, panicked) = refl

module _ (P : Pipeline) where
  open P use {World, process_query}

  -- A description that succeeds has a response of the pipeline.
  described_response :
      (p : Portal) (c : Conn World) (fs : List FieldInfo)
      → (do_describe_portal P p c).1 ≡ ok fs
      → (w : World) × (r : Response) × (rs : List Response) × (process_query p.statement
            (some p.result_column_format)
            c.is_secure
            c.world
          ≡ (w, ok (r ∷ rs)))
  unfolding do_describe_portal first_response
  described_response p c fs h =
      let ran = process_query p.statement (some p.result_column_format) c.is_secure c.world in
      elim (Result-cases ran.1) [
        | inr (e, q) ↦ absurd (ground (arith, q))
        | inl ([], q) ↦ absurd (ground (arith, q))
        | inl (r ∷ rs, q) ↦ (ran.0, r, rs, ap (λ x. (ran.0, x)) q)
      ]

  -- A description leaves the connection's state in its place.
  described_conn :
      (p : Portal) (c : Conn World) (cache : PortalCache)
      → c.portals ≡ some cache
      → (do_describe_portal P p c).0 ≡ record {
        portals = some (unwrap_or (do_describe_portal P p c).0.portals cache);
        is_secure = c.is_secure;
        world = (do_describe_portal P p c).0.world;
      }
  unfolding do_describe_portal first_response insert_cached
  described_conn p c cache h = ground arith

module _ (env : Env) (s : ConnectionState) (secure : Bool) (p : Portal) (b : Backend) where
  abbrev pub described : Handled
  described = handle env s secure (describe_portal p) b

  -- The execution that follows, on the connection as the description left it.
  abbrev pub executed : Handled
  executed =
      handle env (record s { portals = described.portals }) secure (execute p) described.backend

  -- A portal of one statement that is described, successfully and with room in the cache, and then
  -- executed, reaches Trino at most once in all: the execution leaves the gateway and Trino's replies
  -- alone, and answers with the response whose fields the description gave.
  pub described_portal_runs_once :
      (fs : List FieldInfo)
      → HasRoom s.portals p.name
      → leb (length (split_statements env p.statement)) 1 ≡ true
      → described.answer ≡ fields (ok fs)
      → SubmitsOnce env p.statement b.store.submitted executed.backend.store.submitted
        × (executed.backend ≡ described.backend)
        × ((r : Response) × (executed.answer ≡ response (ok r)) × (fields_of r ≡ fs))
  unfolding handle
  described_portal_runs_once fs room one h =
      let P = pipeline env s secure in
      let c = conn env s secure b in
      let ok_fields : (do_describe_portal P p c).1 ≡ ok fs = cc in
      let (w, r, rs, q) = described_response P p c fs ok_fields in
      let (d, answered, w1, w2, e) =
        describe_execute_once P p p c s.portals w r rs refl room q refl refl in
      let same = described_conn P p c s.portals refl in
      let x =
        process_query env s.config (some s.active_query_id) (some p.result_column_format) secure
          p.statement b.replies b.store in
      let alone : executed.backend ≡ described.backend =
        ap (λ c. (do_query P p c).0.world) (sym same) ∙ w2 ∙ sym w1 in
      let log : executed.backend.store.submitted ≡ x.0.submitted =
        ap (λ (b : Backend). b.store.submitted) (alone ∙ w1 ∙ sym (ap (λ x. x.0) q))
        ∙ settled-submitted x in
      (
        subst (SubmitsOnce env p.statement b.store.submitted) (sym log) (
            process_query-SubmitsOnce env s.config (some s.active_query_id)
              (some p.result_column_format) secure p.statement b.replies b.store one),
        alone,
        (r, ap response (ap (λ c. (do_query P p c).1) (sym same) ∙ answered), cc),
      )
