-- ===== src/Startup/World.antt =====
-- The connections of one gateway as a step relation: sessions are opened as in src/startup.rs, their
-- queries write the slots as in src/trino_stream.rs and the portal caches as in src/query_extended.rs,
-- and closing drops them as in src/session.rs.
use postgresql_trino_gateway.Prelude.{ℕ, ◌+◌, ◌^◌, ◌<◌, ◌≡◌, Option, none, some, List, []}
use postgresql_trino_gateway.Prelude.Text.{Text}
use postgresql_trino_gateway.Prelude.Map.{get, insert, remove}
use postgresql_trino_gateway.Config.{Config}
use postgresql_trino_gateway.Session.{
  key_equality, TrinoClient, CancelEntry, CancelKey, PortalCache, ConnectionState, Gateway,
  set_active_query_id, drop_connection_state,
}
use postgresql_trino_gateway.Startup.{open_session}

-- The shared state, and the connections that are open, by their cancel keys.
pub record World : Type 0 where
  pub gateway : Gateway
  pub live : List (CancelKey × ConnectionState)

abbrev pub opened : Config → TrinoClient → ℕ → World → World
opened config client secret w =
    let (g, s) = open_session config client secret w.gateway in
    record { gateway = g; live = insert s.cancel_key s w.live }

abbrev pub wrote : ConnectionState → Option Text → World → World
wrote s id w = record w { gateway = set_active_query_id (some s.active_query_id) id w.gateway }

abbrev pub cached : CancelKey → ConnectionState → PortalCache → World → World
cached k s portals w = record w { live = insert k (record s { portals = portals }) w.live }

abbrev pub closed : CancelKey → ConnectionState → World → World
closed k s w = record { gateway = drop_connection_state s w.gateway; live = remove k w.live }

pub data Step (w : World) : World → Type 0 where
  -- A client connects; the pid counter has not wrapped around.
  connect :
      (config : Config) (client : TrinoClient) (secret : ℕ) {w' : World}
      → w.gateway.connection_pid + 1 < 2 ^ 32
      → w' ≡ opened config client secret w
      → Step w w'
  -- A query of an open connection is submitted, or ends.
  write :
      (k : CancelKey) (s : ConnectionState) (id : Option Text) {w' : World}
      → get k w.live ≡ some s
      → w' ≡ wrote s id w
      → Step w w'
  -- The portal cache of an open connection changes.
  cache :
      (k : CancelKey) (s : ConnectionState) (portals : PortalCache) {w' : World}
      → get k w.live ≡ some s
      → w' ≡ cached k s portals w
      → Step w w'
  -- An open connection ends.
  close :
      (k : CancelKey) (s : ConnectionState) {w' : World}
      → get k w.live ≡ some s
      → w' ≡ closed k s w
      → Step w w'

pub data Reach (w : World) : World → Type 0 where
  here : Reach w w
  next : {u v : World} → Reach w u → Step u v → Reach w v

abbrev pub start : World
start = record {
  gateway = record { connection_pid = 1; registry = []; slots = λ _. none; next_slot = 0 };
  live = [];
}

abbrev pub entry_of : Option ConnectionState → Option CancelEntry
entry_of none = none
entry_of (some s) =
    some (record { trino_client = s.trino_client; active_query_id = s.active_query_id })

-- The registry is the image of the open connections; keys and slots are handed out once.
pub record Inv (w : World) : Type 0 where
  pub registered : (k : CancelKey) → get k w.gateway.registry ≡ entry_of (get k w.live)
  pub keyed : (k : CancelKey) (s : ConnectionState) → get k w.live ≡ some s → s.cancel_key ≡ k
  pub below :
      (k : CancelKey) (s : ConnectionState)
      → get k w.live ≡ some s
      → (k.0 < w.gateway.connection_pid) × (s.active_query_id < w.gateway.next_slot)
  pub apart :
      (k j : CancelKey) (s t : ConnectionState)
      → get k w.live ≡ some s
      → get j w.live ≡ some t
      → s.active_query_id ≡ t.active_query_id
      → k ≡ j
