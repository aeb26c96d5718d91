-- ===== src/Startup/Connections.antt =====
-- The connections' invariant over the steps of src/startup.rs, src/trino_stream.rs,
-- src/query_extended.rs and src/session.rs.
use postgresql_trino_gateway.Prelude.{
  ℕ, ◌+◌, ◌^◌, ◌<◌, ◌≡◌, ◌≢◌, ◌↔◌, refl, inl, inr, true, false, Option, none, some, [], arith,
  Option-cases,
}
use postgresql_trino_gateway.Prelude.Text.{Text}
use postgresql_trino_gateway.Prelude.Equality.{equal}
use postgresql_trino_gateway.Prelude.Map.{get, get-insert, get-remove}
use postgresql_trino_gateway.Config.{Config}
use postgresql_trino_gateway.Session.{
  i32, key_equality, TrinoClient, CancelEntry, CancelKey, PortalCache, ConnectionState,
  on_cancel_request, set_active_query_id, drop_connection_state,
}
use postgresql_trino_gateway.Startup.{open_session}
use postgresql_trino_gateway.Startup.World.{
  World, opened, wrote, cached, closed, Step, Reach, start, entry_of, Inv, connect, write, cache,
  close, here, next,
}

start-Inv : Inv start
start-Inv = record {
  registered = λ k. unfold get in refl;
  keyed = λ k s h. unfold get in ground arith;
  below = λ k s h. unfold get in ground arith;
  apart = λ k j s t h. unfold get in ground arith;
}

equal_iff : (k j : CancelKey) → (equal k j ≡ true) ↔ (k ≡ j)
equal_iff = key_equality.beq_iff

module _ (config : Config) (client : TrinoClient) (secret : ℕ) (w : World) (v : Inv w) where
  abbrev new_key : CancelKey
  new_key = (w.gateway.connection_pid, i32 secret)

  abbrev new_session : ConnectionState
  new_session = record {
    trino_client = client;
    config = config;
    portals = record { poisoned = false; entries = [] };
    active_query_id = w.gateway.next_slot;
    cancel_key = new_key;
  }

  abbrev new_entry : CancelEntry
  new_entry = record { trino_client = client; active_query_id = w.gateway.next_slot }

  opened-registered :
      (k : CancelKey)
      → get k (opened config client secret w).gateway.registry
        ≡ entry_of (get k (opened config client secret w).live)
  unfolding open_session
  opened-registered k = ground (
    arith,
    get-insert new_key k new_entry w.gateway.registry,
    get-insert new_key k new_session w.live,
    v.registered k,
  )

  opened-keyed :
      (k : CancelKey) (s : ConnectionState)
      → get k (opened config client secret w).live ≡ some s
      → s.cancel_key ≡ k
  unfolding open_session
  opened-keyed k s h =
      ground (arith, get-insert new_key k new_session w.live, equal_iff new_key k, v.keyed k s)

  opened-below :
      (k : CancelKey) (s : ConnectionState)
      → w.gateway.connection_pid + 1 < 2 ^ 32
      → get k (opened config client secret w).live ≡ some s
      → (k.0 < (opened config client secret w).gateway.connection_pid)
        × (s.active_query_id < (opened config client secret w).gateway.next_slot)
  unfolding open_session
  opened-below k s b h =
      ground (arith, get-insert new_key k new_session w.live, equal_iff new_key k, v.below k s)

  opened-apart :
      (k j : CancelKey) (s t : ConnectionState)
      → get k (opened config client secret w).live ≡ some s
      → get j (opened config client secret w).live ≡ some t
      → s.active_query_id ≡ t.active_query_id
      → k ≡ j
  unfolding open_session
  opened-apart k j s t h g e = ground (
    arith,
    get-insert new_key k new_session w.live,
    get-insert new_key j new_session w.live,
    equal_iff new_key k,
    equal_iff new_key j,
    v.below k s,
    v.below j t,
    v.apart k j s t,
  )

  opened-Inv : w.gateway.connection_pid + 1 < 2 ^ 32 → Inv (opened config client secret w)
  opened-Inv b = record {
    registered = opened-registered;
    keyed = opened-keyed;
    below = λ k s. opened-below k s b;
    apart = opened-apart;
  }

wrote-Inv : (s : ConnectionState) (id : Option Text) (w : World) → Inv w → Inv (wrote s id w)
unfolding set_active_query_id
wrote-Inv s id w v = record {
  registered = v.registered;
  keyed = v.keyed;
  below = v.below;
  apart = v.apart;
}

cached-Inv :
    (k : CancelKey) (s : ConnectionState) (portals : PortalCache) (w : World)
    → get k w.live ≡ some s
    → Inv w
    → Inv (cached k s portals w)
cached-Inv k s portals w h v =
    let s' : ConnectionState = record s { portals = portals } in
    record {
      registered = λ j. ground (arith, get-insert k j s' w.live, equal_iff k j, v.registered j);
      keyed = λ j t g.
          ground (arith, get-insert k j s' w.live, equal_iff k j, v.keyed j t, v.keyed k s h);
      below = λ j t g.
          ground (arith, get-insert k j s' w.live, equal_iff k j, v.below j t, v.below k s h);
      apart = λ i j t u g f e. ground (
        arith,
        get-insert k i s' w.live,
        get-insert k j s' w.live,
        equal_iff k i,
        equal_iff k j,
        v.apart i j t u,
        v.apart k j s u h,
        v.apart i k t s,
      );
    }

closed-Inv :
    (k : CancelKey) (s : ConnectionState) (w : World)
    → get k w.live ≡ some s
    → Inv w
    → Inv (closed k s w)
unfolding drop_connection_state
closed-Inv k s w h v = record {
  registered = λ j. ground (
    arith,
    v.keyed k s h,
    get-remove k j w.gateway.registry,
    get-remove s.cancel_key j w.gateway.registry,
    get-remove k j w.live,
    v.registered j,
  );
  keyed = λ j t g. ground (arith, get-remove k j w.live, v.keyed j t);
  below = λ j t g. ground (arith, get-remove k j w.live, v.below j t);
  apart = λ i j t u g f e.
      ground (arith, get-remove k i w.live, get-remove k j w.live, v.apart i j t u);
}

Step-Inv : {w w' : World} → Step w w' → Inv w → Inv w'
Step-Inv (connect config client secret b e) v = rw e (opened-Inv config client secret _ v b)
Step-Inv (write k s id h e) v = rw e (wrote-Inv s id _ v)
Step-Inv (cache k s portals h e) v = rw e (cached-Inv k s portals _ h v)
Step-Inv (close k s h e) v = rw e (closed-Inv k s _ h v)

-- Whatever connections come, go and run queries, the cancel registry is exactly the image of the
-- open connections, under their own keys, and no two of them share a slot.
pub Reach-Inv : {w : World} → Reach start w → Inv w
Reach-Inv here = start-Inv
Reach-Inv (next r st) = Step-Inv st (Reach-Inv r)

-- The request that a cancel key stands for: the running query of the connection that owns the key.
abbrev pub owner_query : World → Option ConnectionState → Option (TrinoClient × Text)
owner_query w none = none
owner_query w (some s) = elim (w.gateway.slots s.active_query_id) [
  | none ↦ none
  | some query_id ↦ some (s.trino_client, query_id)
]

-- In every reachable state a cancel request cancels the running query of the open connection with
-- that very key, through that connection's client, and does nothing for any other key or when that
-- connection is idle.
pub on_cancel_request_owner :
    {w : World} (k : CancelKey)
    → Reach start w
    → on_cancel_request k w.gateway ≡ owner_query w (get k w.live)
unfolding on_cancel_request
on_cancel_request_owner {w} k r = elim (Option-cases (get k w.live)) [
  | inl e ↦ ground (arith, (Reach-Inv r).registered k)
  | inr (s, e) ↦ ground (arith, (Reach-Inv r).registered k)
]

-- A step that writes the slot of one connection changes no other connection's running query.
pub write_isolated :
    {w : World} (k j : CancelKey) (s : ConnectionState) (id : Option Text)
    → Reach start w
    → get k w.live ≡ some s
    → j ≢ k
    → on_cancel_request j (wrote s id w).gateway ≡ on_cancel_request j w.gateway
unfolding on_cancel_request set_active_query_id
write_isolated {w} k j s id r h ne =
    let v = Reach-Inv r in
    elim (Option-cases (get j w.live)) [
      | inl e ↦ ground (arith, v.registered j)
      | inr (t, e) ↦ ground (arith, v.registered j, v.apart k j s t h e)
    ]
