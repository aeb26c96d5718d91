-- ===== src/Session.antt =====
-- src/session.rs and src/cancel.rs: the cancel registry, the slots of running queries, the state of
-- a connection and the `CancelRequest` handler. The registry's mutex recovers from poisoning, so it
-- leaves no trace; a slot is a cell of a heap that connections and the registry share by its address.
use Prim.Native.Nat.{suc}
use postgresql_trino_gateway.Prelude.{
  ℕ, ◌≡◌, ◌↔◌, Bool, true, false, Option, none, some, List, ◌==◌, if◌then◌else◌, arith, ==_iff,
}
use postgresql_trino_gateway.Prelude.Text.{Text, text_eq}
use postgresql_trino_gateway.Prelude.Equality
use postgresql_trino_gateway.Prelude.Equality.{Eq, text_eq_iff}
use postgresql_trino_gateway.Prelude.Map.{get, insert, remove}
use postgresql_trino_gateway.Config.{Config}
use postgresql_trino_gateway.Wire.{ActiveQueryId, Response}

-- pgwire's `SecretKey`.
pub data SecretKey : Type 0 where
  i32 : ℕ → SecretKey
  bytes : Text → SecretKey

abbrev pub secret_eq : SecretKey → SecretKey → Bool
secret_eq (i32 a) (i32 b) = a == b
secret_eq (i32 a) (bytes t) = false
secret_eq (bytes s) (i32 b) = false
secret_eq (bytes s) (bytes t) = text_eq s t

pub secret_eq_iff : (a b : SecretKey) → (secret_eq a b ≡ true) ↔ (a ≡ b)
secret_eq_iff (i32 a) (i32 b) = ground (arith, ==_iff a b)
secret_eq_iff (i32 a) (bytes t) = ground arith
secret_eq_iff (bytes s) (i32 b) = ground arith
secret_eq_iff (bytes s) (bytes t) = ground (arith, text_eq_iff s t)

-- What `build_trino_client` sets on the client's builder.
pub record TrinoClient : Type 0 where
  pub user : Text
  pub host : Text
  pub port : ℕ
  pub catalog : Text
  pub schema : Text
  pub secure : Bool
  pub no_verify : Bool
  pub auth : Option (Text × Text)
  pub auth_http_insecure : Bool

pub record CancelEntry : Type 0 where
  pub trino_client : TrinoClient
  pub active_query_id : ActiveQueryId

-- The `(pid, secret_key)` pair of `BackendKeyData`; a pid is an `i32` as its bit pattern.
abbrev pub CancelKey : Type 0
CancelKey = ℕ × SecretKey

secret_equality : Eq SecretKey
secret_equality = record { beq = secret_eq; beq_iff = secret_eq_iff }

-- Keys are compared part by part.
instance unfoldable pub key_equality : Eq CancelKey
unfolding secret_equality
key_equality = Equality.pair_equality ⦃a = Equality.nat_equality⦄ ⦃b = secret_equality⦄

abbrev pub Registry : Type 0
Registry = List (CancelKey × CancelEntry)

-- A cached response, with the SQL text that it answers.
pub record CachedPortalResponse : Type 0 where
  pub query : Text
  pub response : Response

-- The portal cache behind its mutex.
pub record PortalCache : Type 0 where
  pub poisoned : Bool
  pub entries : List (Text × CachedPortalResponse)

abbrev pub max_cached_portals : ℕ
max_cached_portals = 64

pub record ConnectionState : Type 0 where
  pub trino_client : TrinoClient
  pub config : Config
  pub portals : PortalCache
  pub active_query_id : ActiveQueryId
  pub cancel_key : CancelKey

-- What the connections share: the pid counter of src/startup.rs, the registry and the slots.
pub record Gateway : Type 0 where
  pub connection_pid : ℕ
  pub registry : Registry
  pub slots : ActiveQueryId → Option Text
  pub next_slot : ActiveQueryId

-- The slot of a query is written.
abbrev pub write_slot :
    ActiveQueryId → Option Text → (ActiveQueryId → Option Text) → ActiveQueryId → Option Text
write_slot a id slots b = if a == b then id else slots b

unfoldable pub register_cancel : CancelKey → TrinoClient → Gateway → Gateway × ActiveQueryId
register_cancel key trino_client g =
    let slot = g.next_slot in
    (
      record g {
        registry =
            insert key (record { trino_client = trino_client; active_query_id = slot }) g.registry;
        slots = write_slot slot none g.slots;
        next_slot = suc slot;
      },
      slot,
    )

unfoldable pub lookup_cancel : CancelKey → Gateway → Option (TrinoClient × ActiveQueryId)
lookup_cancel key g = elim (get key g.registry) [
  | none ↦ none
  | some e ↦ some (e.trino_client, e.active_query_id)
]

unfoldable pub unregister_cancel : CancelKey → Gateway → Gateway
unregister_cancel key g = record g { registry = remove key g.registry }

-- `Drop for ConnectionState`.
unfoldable pub drop_connection_state : ConnectionState → Gateway → Gateway
unfolding unregister_cancel
drop_connection_state state g = unregister_cancel state.cancel_key g

-- `on_cancel_request`: the query that Trino is asked to cancel, if any. What Trino answers is logged
-- and has no other effect.
unfoldable pub on_cancel_request : CancelKey → Gateway → Option (TrinoClient × Text)
unfolding lookup_cancel
on_cancel_request key g = elim (lookup_cancel key g) [
  | none ↦ none
  | some (trino_client, slot) ↦ elim (g.slots slot) [
    | none ↦ none
    | some query_id ↦ some (trino_client, query_id)
  ]
]

-- `set_active_query_id` of src/trino_stream.rs.
unfoldable pub set_active_query_id : Option ActiveQueryId → Option Text → Gateway → Gateway
set_active_query_id none id g = g
set_active_query_id (some slot) id g = record g { slots = write_slot slot id g.slots }
