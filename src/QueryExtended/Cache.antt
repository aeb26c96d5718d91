-- ===== src/QueryExtended/Cache.antt =====
-- The invariants of the portal cache over any sequence of calls (src/query_extended.rs).
use mathlib.Core.Path.{subst₂}
use postgresql_trino_gateway.Prelude.{
  ◌≤◌, ◌≡◌, ◌⊎◌, inl, inr, refl, ◌∙◌, sym, subst, Bool, Option, some, List, [], ◌∷◌, arith, length,
  ok, err, Bool-cases, Option-cases, Result-cases,
}
use postgresql_trino_gateway.Prelude.Text.{Text, text_eq}
use postgresql_trino_gateway.Prelude.Equality.{text_equality, text_eq_iff}
use postgresql_trino_gateway.Prelude.Map.{get}
use postgresql_trino_gateway.Wire.{Response, PgWireResult}
use postgresql_trino_gateway.Session.{CachedPortalResponse, PortalCache, max_cached_portals}
use postgresql_trino_gateway.QueryExtended.{
  Portal, StoredStatement, Conn, Pipeline, Format, first_response, do_query, do_describe_portal,
  do_describe_statement, take_cached, insert_cached, empty_response_error,
}
use postgresql_trino_gateway.QueryExtended.Entries.{
  take_cached-get, take_cached-found, insert_cached-get, length-take_cached, length-insert_cached,
}

-- The response is the first that the pipeline gave for this text, in some state and format.
pub data Produced (pipeline : Pipeline) (sql : Text) (r : Response) : Type 0 where
  produced_by :
      (format : Option Format) (secure : Bool) (w w' : pipeline.World) (rs : List Response)
      → pipeline.process_query sql format secure w ≡ (w', ok (r ∷ rs))
      → Produced pipeline sql r

pub record CacheInv (pipeline : Pipeline) (cache : PortalCache) : Type 0 where
  pub bounded : length cache.entries ≤ max_cached_portals
  pub produced :
      (name : Text) (entry : CachedPortalResponse)
      → get name cache.entries ≡ some entry
      → Produced pipeline entry.query entry.response

-- What a handler may do to a connection: the cache, if it changes, keeps the invariant.
abbrev pub ConnInv : (pipeline : Pipeline) → Conn pipeline.World → Type 0
ConnInv pipeline c = (cache : PortalCache) → c.portals ≡ some cache → CacheInv pipeline cache

module _ (pipeline : Pipeline) where
  open pipeline use {World, process_query, returns_rows}

  take_cached-CacheInv :
      (cache : PortalCache) (name : Text)
      → CacheInv pipeline cache
      → CacheInv pipeline (take_cached cache name).0
  take_cached-CacheInv cache name v = record {
    bounded = omega (arith, v.bounded, length-take_cached cache name);
    produced = λ j entry h. v.produced j entry (take_cached-get cache name j entry h);
  }

  insert_cached-CacheInv :
      (cache : PortalCache) (name : Text) (new : CachedPortalResponse)
      → CacheInv pipeline cache
      → Produced pipeline new.query new.response
      → CacheInv pipeline (insert_cached cache name new).0
  insert_cached-CacheInv cache name new v p = record {
    bounded = length-insert_cached cache name new v.bounded;
    produced = λ j entry h. elim (insert_cached-get cache name j new entry h) [
      | inl e ↦ subst (λ n. Produced pipeline n.query n.response) e p
      | inr old ↦ v.produced j entry old
    ];
  }

  first_response-Produced :
      (sql : Text) (format : Option Format) (c : Conn World) (r : Response)
      → (first_response pipeline sql format c).1 ≡ ok r
      → Produced pipeline sql r
  unfolding first_response
  first_response-Produced sql format c r h =
      go (process_query sql format c.is_secure c.world) refl h
    where
      go :
          (x : World × PgWireResult (List Response))
          → process_query sql format c.is_secure c.world ≡ x
          → (elim x.1 [
            | err e ↦ err e
            | ok responses ↦ elim responses [ [] ↦ err empty_response_error | r ∷ rs ↦ ok r ]
          ])
            ≡ ok r
          → Produced pipeline sql r
      go (w, err e) q h = cc
      go (w, ok []) q h = cc
      go (w, ok (r' ∷ rs)) q h = produced_by format c.is_secure c.world w rs (ground (arith, q))

  first_response-portals :
      (sql : Text) (format : Option Format) (c : Conn World)
      → (first_response pipeline sql format c).0.portals ≡ c.portals
  unfolding first_response
  first_response-portals sql format c = refl

  do_query-portals :
      (p : Portal) (c : Conn World) {cache : PortalCache}
      → (do_query pipeline p c).0.portals ≡ some cache
      → (old : PortalCache) × (c.portals ≡ some old) × (cache ≡ (take_cached old p.name).0)
  unfolding do_query first_response
  do_query-portals p c h = elim (Option-cases c.portals) [
    | inl e ↦ ground arith
    | inr (old, e) ↦ (old, e, ground arith)
  ]

  do_query-ConnInv :
      (p : Portal) (c : Conn World)
      → ConnInv pipeline c
      → ConnInv pipeline (do_query pipeline p c).0
  do_query-ConnInv p c v cache h =
      let (old, e, same) = do_query-portals p c {cache = cache} h in
      rw same (take_cached-CacheInv old p.name (v old e))

  do_describe_portal-portals :
      (p : Portal) (c : Conn World) {cache : PortalCache}
      → (do_describe_portal pipeline p c).0.portals ≡ some cache
      → (c.portals ≡ some cache)
        ⊎ ((old : PortalCache) × (r : Response) × (c.portals ≡ some old)
            × ((first_response pipeline p.statement (some p.result_column_format) c).1 ≡ ok r)
            × (cache ≡ (insert_cached old p.name (record { query = p.statement; response = r })).0))
  unfolding do_describe_portal first_response
  do_describe_portal-portals p c {cache} h = elim (Option-cases c.portals) [
    | inl e ↦ ground arith
    | inr (old, e) ↦
        elim (Result-cases
          (first_response pipeline p.statement (some p.result_column_format) c).1) [
            | inl (r, got) ↦ inr (old, r, e, got, ground arith)
            | inr (bad, got) ↦ inl (ground arith)
          ]
  ]

  do_describe_portal-ConnInv :
      (p : Portal) (c : Conn World)
      → ConnInv pipeline c
      → ConnInv pipeline (do_describe_portal pipeline p c).0
  do_describe_portal-ConnInv p c v cache h =
      elim (do_describe_portal-portals p c {cache = cache} h) [
        | inl e ↦ v cache e
        | inr (old, r, e, got, same) ↦ rw same (
            insert_cached-CacheInv old p.name _ (v old e)
              (first_response-Produced p.statement (some p.result_column_format) c r got))
      ]

  do_describe_statement-portals :
      (stmt : StoredStatement) (c : Conn World)
      → (do_describe_statement pipeline stmt c).0.portals ≡ c.portals
  unfolding do_describe_statement first_response
  do_describe_statement-portals stmt c = ground arith

  pub data Call : Type 0 where
    executes describes : Portal → Call
    describes_statement : StoredStatement → Call

  unfoldable pub step : Conn World → Call → Conn World
  step c (executes p) = (do_query pipeline p c).0
  step c (describes p) = (do_describe_portal pipeline p c).0
  step c (describes_statement stmt) = (do_describe_statement pipeline stmt c).0

  unfoldable pub run : Conn World → List Call → Conn World
  unfolding step
  run c [] = c
  run c (call ∷ calls) = run (step c call) calls

  step-ConnInv :
      (c : Conn World) (call : Call) → ConnInv pipeline c → ConnInv pipeline (step c call)
  unfolding step
  step-ConnInv c (executes p) v = do_query-ConnInv p c v
  step-ConnInv c (describes p) v = do_describe_portal-ConnInv p c v
  step-ConnInv c (describes_statement stmt) v =
      λ cache h. v cache (sym (do_describe_statement-portals stmt c) ∙ h)

  -- Over any sequence of calls the cache stays within its cap, and each entry holds a response that
  -- the pipeline gave for the entry's own query.
  pub run-ConnInv :
      (c : Conn World) (calls : List Call) → ConnInv pipeline c → ConnInv pipeline (run c calls)
  unfolding run
  run-ConnInv c [] v = v
  run-ConnInv c (call ∷ calls) v = run-ConnInv (step c call) calls (step-ConnInv c call v)

  -- Where an answer of `do_query` comes from.
  do_query-answer :
      (p : Portal) (c : Conn World) (r : Response)
      → (do_query pipeline p c).1 ≡ ok r
      → ((old : PortalCache) × (entry : CachedPortalResponse) × (c.portals ≡ some old)
          × (get p.name old.entries ≡ some entry)
          × (entry.query ≡ p.statement)
          × (entry.response ≡ r))
        ⊎ ((first_response pipeline p.statement (some p.result_column_format) c).1 ≡ ok r)
  unfolding do_query first_response
  do_query-answer p c r h = elim (Option-cases c.portals) [
    | inl e ↦ inr (ground arith)
    | inr (old, e) ↦ elim (Result-cases (take_cached old p.name).1) [
      | inr (bad, t) ↦ inr (ground arith)
      | inl (cached, t) ↦ elim (Option-cases cached) [
        | inl n ↦ inr (ground arith)
        | inr (entry, n) ↦ elim (Bool-cases (text_eq entry.query p.statement)) [
          | inl same ↦ inl (
            old,
            entry,
            e,
            take_cached-found old p.name entry (rw n at t),
            (text_eq_iff entry.query p.statement).0 same,
            ground arith,
          )
          | inr other ↦ inr (ground arith)
        ]
      ]
    ]
  ]

  -- After any sequence of calls, an execution that succeeds answers with a response that the
  -- pipeline gave for the executed statement, never with one of another statement.
  pub do_query-Produced :
      (c : Conn World) (calls : List Call) (p : Portal) (r : Response)
      → ConnInv pipeline c
      → (do_query pipeline p (run c calls)).1 ≡ ok r
      → Produced pipeline p.statement r
  do_query-Produced c calls p r v h =
      let d = run c calls in
      elim (do_query-answer p d r h) [
        | inr fresh ↦ first_response-Produced p.statement (some p.result_column_format) d r fresh
        | inl (old, entry, e, found, same, answer) ↦
            subst₂ (Produced pipeline) same answer
              ((run-ConnInv c calls v old e).produced p.name entry found)
      ]
