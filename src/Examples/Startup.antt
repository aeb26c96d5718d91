-- ===== src/Examples/Startup.antt =====
-- Startup messages, a password, and the connections of a gateway with two clients.
use postgresql_trino_gateway.Prelude.{
  ℕ, ◌+◌, ◌<◌, ◌^◌, ◌≡◌, ◌⊎◌, refl, true, false, none, some, [], Result, ok, err, unwrap_or, arith,
}
use postgresql_trino_gateway.Prelude.Text.{Text, codes}
use postgresql_trino_gateway.Prelude.Map.{get, insert}
use postgresql_trino_gateway.Policy.{listen_addr_is_loopback, cleartext_requires_tls, validate}
use postgresql_trino_gateway.Session.{
  i32, TrinoClient, ConnectionState, on_cancel_request, set_active_query_id, key_equality,
}
use postgresql_trino_gateway.Startup.{
  tls_required, startup, password_message, Answers, on_startup, open_session,
}
use postgresql_trino_gateway.Startup.Auth.{
  challenge_is_private, session_needs_credentials, refuses_basic_over_http,
}
use postgresql_trino_gateway.Startup.World.{
  World, connect, write, Reach, here, next, Inv, start, opened, wrote,
}
use postgresql_trino_gateway.Startup.Connections.{owner_query, Reach-Inv, on_cancel_request_owner}
use postgresql_trino_gateway.Startup.Steps.{entered, on_startup-Reach}
use postgresql_trino_gateway.Examples.Fixtures.{
  secure_config, plain_http_config, any_resolver, tls_client, challenged_client, state_of, willing,
}

secure_valid : (validate any_resolver secure_config).1 ≡ ok cleartext_requires_tls
unfolding validate
secure_valid = refl

plain_http_valid : (validate any_resolver plain_http_config).1 ≡ ok cleartext_requires_tls
unfolding validate
plain_http_valid = refl

alice_challenged :
    (on_startup secure_config willing (startup (some (codes "alice"))) (state_of tls_client)).1
    ≡ ok tt
unfolding on_startup
alice_challenged = refl

challenge_is_private_example :
    ((state_of tls_client).client.is_secure ≡ true)
    ⊎ (listen_addr_is_loopback any_resolver secure_config.listen_addr ≡ ok true)
challenge_is_private_example =
    challenge_is_private any_resolver secure_config cleartext_requires_tls willing
      (some (codes "alice")) (state_of tls_client) secure_valid refl alice_challenged

tls_is_required : tls_required secure_config ≡ true
unfolding tls_required
tls_is_required = refl

-- The session that alice's password opens.
abbrev alice_session : ConnectionState
alice_session = record {
  trino_client = record {
    user = codes "alice";
    host = codes "trino.local";
    port = 8443;
    catalog = codes "hive";
    schema = codes "default";
    secure = true;
    no_verify = false;
    auth = some (codes "alice", codes "secret");
    auth_http_insecure = false;
  };
  config = secure_config;
  portals = record { poisoned = false; entries = [] };
  active_query_id = 0;
  cancel_key = (1, i32 42);
}

alice_in :
    (on_startup secure_config willing password_message
      (state_of challenged_client)).0.client.session
    ≡ some alice_session
unfolding on_startup
alice_in = refl

session_needs_credentials_example :
    (password_message ≡ password_message)
    × ((password : Text) × (willing.into_password ≡ ok password)
        × (alice_session.trino_client.auth
            ≡ some (unwrap_or (state_of challenged_client).client.user [], password)))
    × (willing.probe alice_session.trino_client ≡ ok tt)
session_needs_credentials_example =
    session_needs_credentials secure_config willing password_message (state_of challenged_client)
      alice_session refl refl alice_in

-- A builder that refuses Basic auth over plain HTTP.
abbrev strict_build : TrinoClient → Result Text (Unit {0})
strict_build t = elim (refuses_basic_over_http t) [ true ↦ err (codes "insecure") | false ↦ ok tt ]

abbrev strict : Answers
strict = record willing { build = strict_build }

strict_builds : (t : TrinoClient) → refuses_basic_over_http t ≡ false → strict.build t ≡ ok tt
strict_builds t h = ground arith

abbrev pub client_of : Text → TrinoClient
client_of user = record alice_session.trino_client { user = user; auth = none }

-- The pids are 1 and 2, the slots 0 and 1.
abbrev pub session_of : Text → ℕ → ConnectionState
session_of user n = record {
  trino_client = client_of user;
  config = secure_config;
  portals = record { poisoned = false; entries = [] };
  active_query_id = n;
  cancel_key = (n + 1, i32 (n + 7));
}

abbrev one_client : World
one_client = opened secure_config (client_of (codes "alice")) 7 start

abbrev pub two_clients : World
two_clients = opened secure_config (client_of (codes "bob")) 8 one_client

abbrev bob_runs : World
bob_runs = wrote (session_of (codes "bob") 1) (some (codes "q2")) two_clients

pub bob_live : get (2, i32 8) two_clients.live ≡ some (session_of (codes "bob") 1)
unfolding get open_session insert key_equality
bob_live = refl

small_pid : one_client.gateway.connection_pid + 1 < 2 ^ 32
unfolding open_session
small_pid = omega arith

pub two_clients_reached : Reach start two_clients
two_clients_reached =
    next (next here (connect secure_config (client_of (codes "alice")) 7 (omega arith) refl))
      (connect secure_config (client_of (codes "bob")) 8 small_pid refl)

bob_runs_reached : Reach start bob_runs
bob_runs_reached =
    next two_clients_reached
      (write (2, i32 8) (session_of (codes "bob") 1) (some (codes "q2")) bob_live refl)

-- Bob's key cancels bob's query.
bob_cancels :
    on_cancel_request (2, i32 8) bob_runs.gateway ≡ some (client_of (codes "bob"), codes "q2")
unfolding on_cancel_request get set_active_query_id open_session insert key_equality
bob_cancels = refl

Reach-Inv_example : Inv bob_runs
Reach-Inv_example = Reach-Inv bob_runs_reached

on_cancel_request_owner_example :
    on_cancel_request (2, i32 8) bob_runs.gateway
    ≡ owner_query bob_runs (get (2, i32 8) bob_runs.live)
on_cancel_request_owner_example = on_cancel_request_owner (2, i32 8) bob_runs_reached

third_pid : bob_runs.gateway.connection_pid + 1 < 2 ^ 32
unfolding set_active_query_id open_session
third_pid = omega arith

-- Alice's password comes while bob's query runs.
on_startup-Reach_example :
    let s =
      (on_startup secure_config willing password_message
        (record { gateway = bob_runs.gateway; client = challenged_client })).0 in
    Reach start
      (entered secure_config willing s.client.session (record bob_runs { gateway = s.gateway }))
on_startup-Reach_example =
    on_startup-Reach secure_config willing password_message bob_runs challenged_client
      bob_runs_reached third_pid refl
