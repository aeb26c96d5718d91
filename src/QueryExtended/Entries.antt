-- ===== src/QueryExtended/Entries.antt =====
-- What `take_cached` and `insert_cached` (src/query_extended.rs) do to the entries.
use postgresql_trino_gateway.Prelude.{◌≤◌, ◌≡◌, ◌⊎◌, some, arith, length, ok}
use postgresql_trino_gateway.Prelude.Text.{Text}
use postgresql_trino_gateway.Prelude.Equality.{text_equality}
use postgresql_trino_gateway.Prelude.Map.{
  get, get-insert_inv, get-remove_inv, length-insert, length-remove,
}
use postgresql_trino_gateway.Session.{CachedPortalResponse, PortalCache, max_cached_portals}
use postgresql_trino_gateway.QueryExtended.{take_cached, insert_cached}

pub take_cached-get :
    (cache : PortalCache) (name j : Text) (entry : CachedPortalResponse)
    → get j (take_cached cache name).0.entries ≡ some entry
    → get j cache.entries ≡ some entry
unfolding take_cached
take_cached-get cache name j entry h = ground (arith, get-remove_inv name j entry cache.entries)

pub take_cached-found :
    (cache : PortalCache) (name : Text) (entry : CachedPortalResponse)
    → (take_cached cache name).1 ≡ ok (some entry)
    → get name cache.entries ≡ some entry
unfolding take_cached
take_cached-found cache name entry h = ground arith

pub insert_cached-get :
    (cache : PortalCache) (name j : Text) (new entry : CachedPortalResponse)
    → get j (insert_cached cache name new).0.entries ≡ some entry
    → (new ≡ entry) ⊎ (get j cache.entries ≡ some entry)
unfolding insert_cached
insert_cached-get cache name j new entry h =
    ground (arith, get-insert_inv name j new entry cache.entries)

pub length-take_cached :
    (cache : PortalCache) (name : Text)
    → length (take_cached cache name).0.entries ≤ length cache.entries
unfolding take_cached
length-take_cached cache name = ground (arith, length-remove name cache.entries)

pub length-insert_cached :
    (cache : PortalCache) (name : Text) (new : CachedPortalResponse)
    → length cache.entries ≤ max_cached_portals
    → length (insert_cached cache name new).0.entries ≤ max_cached_portals
unfolding insert_cached
length-insert_cached cache name new h = ground (arith, length-insert name new cache.entries)
