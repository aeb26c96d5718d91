-- ===== src/QueryExtended/Once.antt =====
-- How often a statement runs when a portal is described and executed (src/query_extended.rs).
use postgresql_trino_gateway.Prelude.{
  ◌≤◌, ◌<◌, ◌≡◌, ◌≢◌, ◌⊎◌, true, false, none, some, List, ◌∷◌, arith, length, ok,
}
use postgresql_trino_gateway.Prelude.Text.{Text}
use postgresql_trino_gateway.Prelude.Equality.{text_equality, text_eq_iff}
use postgresql_trino_gateway.Prelude.Map.{get, insert, remove, contains_key, get-insert_self}
use postgresql_trino_gateway.Wire.{Response}
use postgresql_trino_gateway.Session.{CachedPortalResponse, PortalCache, max_cached_portals}
use postgresql_trino_gateway.QueryExtended.{
  Portal, Conn, Pipeline, first_response, do_query, do_describe_portal, take_cached, insert_cached,
  fields_of,
}

-- The cache takes an entry for the portal: it is not poisoned, and has room or the portal's name.
abbrev pub HasRoom : PortalCache → Text → Type 0
HasRoom cache name =
    (cache.poisoned ≡ false)
    × ((length cache.entries < max_cached_portals) ⊎ (contains_key name cache.entries ≡ true))

module _ (pipeline : Pipeline) where
  open pipeline use {World, process_query}

  -- Where the cache is not poisoned and has room or the portal's name, and the pipeline answers the
  -- description of a portal with a response, an execution of that name and statement runs nothing: it
  -- returns that response, whatever result format it asks for, leaves the pipeline's state as the
  -- description did, and uses the entry up.
  pub describe_execute_once :
      (p q : Portal) (c : Conn World) (cache : PortalCache) (w : World) (r : Response)
      (rs : List Response)
      → c.portals ≡ some cache
      → HasRoom cache p.name
      → process_query p.statement (some p.result_column_format) c.is_secure c.world
        ≡ (w, ok (r ∷ rs))
      → q.name ≡ p.name
      → q.statement ≡ p.statement
      → let (c1, described) = do_describe_portal pipeline p c in
        let (c2, executed) = do_query pipeline q c1 in
        (described ≡ ok (fields_of r))
        × (executed ≡ ok r)
        × (c1.world ≡ w)
        × (c2.world ≡ w)
        × (c2.portals
            ≡ some (record cache {
              entries =
                  remove p.name
                    (insert p.name (record { query = p.statement; response = r }) cache.entries);
            }))
  unfolding do_query do_describe_portal first_response take_cached insert_cached
  describe_execute_once p q c cache w r rs e room run n s = ground (
    arith,
    get-insert_self p.name (record { query = p.statement; response = r }) cache.entries,
    text_eq_iff p.statement p.statement,
    text_eq_iff p.statement q.statement,
  )

  -- An execution whose portal name was bound to another statement since the description discards the
  -- cached entry and runs its own statement.
  execute_rebound :
      (q : Portal) (c : Conn World) (cache : PortalCache) (entry : CachedPortalResponse)
      → c.portals ≡ some cache
      → cache.poisoned ≡ false
      → get q.name cache.entries ≡ some entry
      → entry.query ≢ q.statement
      → do_query pipeline q c
        ≡ first_response pipeline q.statement
            (some q.result_column_format)
            (record c { portals = some (record cache { entries = remove q.name cache.entries }) })
  unfolding do_query first_response take_cached
  execute_rebound q c cache entry e ok_lock found other =
      ground (arith, text_eq_iff entry.query q.statement)

  -- A description that meets a full cache still answers with the columns; the cache stays as it is,
  -- and the execution runs the statement a second time.
  describe_full_cache :
      (p : Portal) (c : Conn World) (cache : PortalCache) (w : World) (r : Response)
      (rs : List Response)
      → c.portals ≡ some cache
      → cache.poisoned ≡ false
      → max_cached_portals ≤ length cache.entries
      → get p.name cache.entries ≡ none
      → process_query p.statement (some p.result_column_format) c.is_secure c.world
        ≡ (w, ok (r ∷ rs))
      → let (c1, described) = do_describe_portal pipeline p c in
        (described ≡ ok (fields_of r))
        × (c1.portals ≡ some cache)
        × ((do_query pipeline p c1).1
            ≡ (first_response pipeline p.statement (some p.result_column_format) c1).1)
        × ((do_query pipeline p c1).0.world
            ≡ (process_query p.statement (some p.result_column_format) c.is_secure w).0)
  unfolding do_query do_describe_portal first_response take_cached insert_cached
  describe_full_cache p c cache w r rs e ok_lock full absent run = ground arith
