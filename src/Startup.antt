-- ===== src/Startup.antt =====
-- src/startup.rs: the startup handler of a connection. What the network, the random generator,
-- pgwire and Trino answer is a parameter; log lines are left out.
pub mod Auth
pub mod World
pub mod Connections
pub mod Steps
use postgresql_trino_gateway.Prelude.{
  ℕ, ◌+◌, ◌%◌, ◌^◌, ◌≡◌, Bool, true, false, not, ◌&&◌, Option, none, some, List, [], ◌∷◌,
  if◌then◌else◌, is_some, unwrap_or, Result, ok, err,
}
use postgresql_trino_gateway.Prelude.Text.{Text, codes}
use postgresql_trino_gateway.Config.{Config}
use postgresql_trino_gateway.ErrorMapping.{ErrorInfo}
use postgresql_trino_gateway.Wire.{
  PgWireError, PgWireResult, user_error, api_error, invalid_password,
}
use postgresql_trino_gateway.Session.{
  SecretKey, i32, TrinoClient, CancelKey, ConnectionState, Gateway, register_cancel,
  drop_connection_state,
}

abbrev pub server_params : List (Text × Text)
server_params =
    (codes "server_version", codes "16.6")
    ∷ (codes "server_version_num", codes "160006")
    ∷ (codes "server_encoding", codes "UTF8")
    ∷ (codes "client_encoding", codes "UTF8")
    ∷ (codes "DateStyle", codes "ISO, MDY")
    ∷ (codes "integer_datetimes", codes "on")
    ∷ (codes "standard_conforming_strings", codes "on")
    ∷ (codes "TimeZone", codes "UTC")
    ∷ (codes "IntervalStyle", codes "postgres")
    ∷ (codes "in_hot_standby", codes "off")
    ∷ (codes "search_path", codes "\"$user\", public")
    ∷ (codes "is_superuser", codes "on")
    ∷ (codes "default_transaction_read_only", codes "off")
    ∷ (codes "application_name", codes "")
    ∷ (codes "max_identifier_length", codes "63")
    ∷ (codes "transaction_isolation", codes "read committed")
    ∷ []

-- The frontend messages that the handler tells apart; a startup message may name a user.
pub data FrontendMessage : Type 0 where
  startup : Option Text → FrontendMessage
  password_message : FrontendMessage
  other_message : FrontendMessage

pub data BackendMessage : Type 0 where
  cleartext_password : BackendMessage
  authentication_finished : CancelKey → List (Text × Text) → BackendMessage

pub data WireState : Type 0 where
  awaiting_startup authentication_in_progress : WireState

-- pgwire's `ClientInfo`: the connection's state on the wire, the `user` of its metadata, and the
-- `ConnectionState` in its session extensions. Sent messages stand newest first.
pub record ClientInfo : Type 0 where
  pub is_secure : Bool
  pub user : Option Text
  pub state : WireState
  pub pid_and_secret_key : Option CancelKey
  pub session : Option ConnectionState
  pub sent : List BackendMessage

-- The answers of pgwire, of the random generator and of Trino during one call of the handler.
-- `build` is the builder of trino-rust-client, `probe` is the query `SELECT 1`.
pub record Answers : Type 0 where
  pub negotiation : PgWireResult (Unit {0})
  pub sending : PgWireResult (Unit {0})
  pub finishing : PgWireResult (Unit {0})
  pub into_password : PgWireResult Text
  pub secret : ℕ
  pub build : TrinoClient → Result Text (Unit {0})
  pub probe : TrinoClient → Result Text (Unit {0})

pub record State : Type 0 where
  pub gateway : Gateway
  pub client : ClientInfo

-- A handler runs on the state; an error keeps what was done before it.
abbrev pub Handler : Type 0 → Type 0
Handler A = State → State × PgWireResult A

infixl 5 ◌>>=◌ ◌>>◌
abbrev pub ◌>>=◌ : {A B : Type 0} → Handler A → (A → Handler B) → Handler B
◌>>=◌ m f s = let (s', r) = m s in elim r [ ok a ↦ f a s' | err e ↦ (s', err e) ]

abbrev pub ◌>>◌ : {B : Type 0} → Handler (Unit {0}) → Handler B → Handler B
m >> k = m >>= λ _. k

abbrev answer : {A : Type 0} → PgWireResult A → Handler A
answer r s = (s, r)

abbrev change : (State → State) → Handler (Unit {0})
change f s = (f s, ok tt)

-- `CONNECTION_PID.fetch_add(1)`, and a random `i32`.
unfoldable pub new_pid_and_secret_key : ℕ → Gateway → Gateway × CancelKey
new_pid_and_secret_key secret g =
    (record g { connection_pid = (g.connection_pid + 1) % 2 ^ 32 }, (g.connection_pid, i32 secret))

-- The part of `establish_session` that touches the shared state.
unfoldable pub open_session : Config → TrinoClient → ℕ → Gateway → Gateway × ConnectionState
unfolding new_pid_and_secret_key register_cancel
open_session config trino_client secret g =
    let (g1, key) = new_pid_and_secret_key secret g in
    let (g2, slot) = register_cancel key trino_client g1 in
    (
      g2,
      record {
        trino_client = trino_client;
        config = config;
        portals = record { poisoned = false; entries = [] };
        active_query_id = slot;
        cancel_key = key;
      },
    )

-- A session that a new one replaces is dropped.
drop_replaced : Option ConnectionState → Gateway → Gateway
drop_replaced none g = g
drop_replaced (some old) g = drop_connection_state old g

unfoldable pub install_session : Config → TrinoClient → ℕ → State → State
unfolding open_session drop_replaced drop_connection_state
install_session config trino_client secret s =
    let (g, session) = open_session config trino_client secret s.gateway in
    record s {
      gateway = drop_replaced s.client.session g;
      client = record s.client {
        pid_and_secret_key = some session.cancel_key;
        session = some session;
      };
    }

abbrev pub key_of : ClientInfo → CancelKey
key_of c = unwrap_or c.pid_and_secret_key (0, i32 0)

abbrev send : BackendMessage → State → State
send m s = record s { client = record s.client { sent = m ∷ s.client.sent } }

module _ (config : Config) where
  unfoldable pub tls_required : Bool
  tls_required = is_some config.tls_cert && is_some config.tls_key

  -- The settings that the builder is given.
  unfoldable pub trino_settings : Option Text → Option Text → TrinoClient
  trino_settings user password =
      let trino_user = unwrap_or user config.trino_user in
      record {
        user = trino_user;
        host = config.trino_host;
        port = config.trino_port;
        catalog = config.trino_catalog;
        schema = config.trino_schema;
        secure = config.trino_ssl;
        no_verify = config.trino_tls_no_verify;
        auth = elim password [ none ↦ none | some pw ↦ some (trino_user, pw) ];
        auth_http_insecure = elim password [
          | none ↦ false
          | some pw ↦ config.trino_allow_plaintext_auth
        ];
      }

module _ (config : Config) (answers : Answers) where
  unfoldable pub establish_session : TrinoClient → Handler (Unit {0})
  unfolding install_session
  establish_session trino_client = do
    change (install_session config trino_client answers.secret)
    answer answers.finishing
    change (λ s. send (authentication_finished (key_of s.client) server_params) s)

  unfoldable pub build_trino_client : Option Text → Option Text → PgWireResult TrinoClient
  unfolding trino_settings
  build_trino_client user password =
      let settings = trino_settings config user password in
      elim (answers.build settings) [ ok _ ↦ ok settings | err e ↦ err (api_error e) ]

  tls_refusal : PgWireError
  tls_refusal = user_error (record {
    severity = codes "FATAL";
    code = codes "28000";
    message = codes "TLS is required for password authentication on this server";
  })

  refuse_plaintext : Handler (Unit {0})
  unfolding tls_required tls_refusal
  refuse_plaintext s =
      if config.auth && tls_required config && not s.client.is_secure
      then (s, err tls_refusal)
      else (s, ok tt)

  -- The metadata are extended: a message without a user leaves the one that is there.
  save_user : Option Text → State → State
  save_user none s = s
  save_user (some user) s = record s { client = record s.client { user = some user } }

  challenge : Handler (Unit {0})
  challenge = do
    change (λ s. record s { client = record s.client { state = authentication_in_progress } })
    answer answers.sending
    change (send cleartext_password)

  on_startup_message : Option Text → Handler (Unit {0})
  unfolding refuse_plaintext save_user challenge establish_session build_trino_client
  on_startup_message user = do
    answer answers.negotiation
    change (save_user user)
    refuse_plaintext
    (if config.auth then challenge else (do
      trino_client ← answer (build_trino_client none none)
      establish_session trino_client))

  -- Any failure of the probe is a wrong password for the client.
  check_credentials : Text → TrinoClient → Handler (Unit {0})
  check_credentials user trino_client s = elim (answers.probe trino_client) [
    | ok _ ↦ (s, ok tt)
    | err e ↦ (s, err (invalid_password user))
  ]

  on_password : Handler (Unit {0})
  unfolding check_credentials establish_session build_trino_client
  on_password s =
      let user = unwrap_or s.client.user [] in
      (do
        password ← answer answers.into_password
        trino_client ← answer (build_trino_client (some user) (some password))
        check_credentials user trino_client
        establish_session trino_client)
        s

  unfoldable pub on_startup : FrontendMessage → Handler (Unit {0})
  unfolding on_startup_message on_password
  on_startup (startup user) = on_startup_message user
  on_startup password_message = on_password
  on_startup other_message =
      answer (err (api_error (codes "Expected Startup message during connection setup")))
