-- ===== src/Startup/Auth.antt =====
-- When the startup handler (src/startup.rs) asks for a password, opens a session, and forwards the
-- password to Trino, under a configuration that passed src/policy.rs.
use postgresql_trino_gateway.Prelude.{
  ◌≡◌, ◌⊎◌, inl, inr, refl, Bool, true, false, not, ◌&&◌, Option, none, some, [], arith, is_some,
  unwrap_or, ok, Result-cases,
}
use postgresql_trino_gateway.Prelude.Text.{Text, codes}
use postgresql_trino_gateway.Config.{Config}
use postgresql_trino_gateway.Policy.{
  Resolver, AuthPosture, disabled_loopback, disabled_open_bind, cleartext_requires_tls,
  cleartext_loopback, listen_addr_is_loopback, validate,
}
use postgresql_trino_gateway.Policy.Posture.{validate_iff, PostureHolds}
use postgresql_trino_gateway.Wire.{sqlstate}
use postgresql_trino_gateway.Session.{TrinoClient, ConnectionState}
use postgresql_trino_gateway.Startup.{
  FrontendMessage, startup, password_message, other_message, Answers, State, on_startup,
  tls_required, build_trino_client, trino_settings,
}

posture_auth :
    (r : Resolver) (c : Config) (p : AuthPosture)
    → c.auth ≡ true
    → PostureHolds r c p
    → (tls_required c ≡ true) ⊎ (listen_addr_is_loopback r c.listen_addr ≡ ok true)
unfolding tls_required
posture_auth r c disabled_loopback a h = ground arith
posture_auth r c disabled_open_bind a h = ground arith
posture_auth r c cleartext_requires_tls a h = ground arith
posture_auth r c cleartext_loopback a h = ground arith

challenge_needs_tls :
    (c : Config) (a : Answers) (user : Option Text) (s : State)
    → c.auth ≡ true
    → tls_required c ≡ true
    → (on_startup c a (startup user) s).1 ≡ ok tt
    → s.client.is_secure ≡ true
unfolding on_startup
challenge_needs_tls c a user s auth tls h = ground arith

-- A gateway with a valid configuration goes on to ask for a password only over TLS or on a loopback
-- listener: with `--auth` on, no other startup message succeeds.
pub challenge_is_private :
    (r : Resolver) (c : Config) (p : AuthPosture) (a : Answers) (user : Option Text) (s : State)
    → (validate r c).1 ≡ ok p
    → c.auth ≡ true
    → (on_startup c a (startup user) s).1 ≡ ok tt
    → (s.client.is_secure ≡ true) ⊎ (listen_addr_is_loopback r c.listen_addr ≡ ok true)
challenge_is_private r c p a user s v auth h =
    elim (posture_auth r c p auth ((validate_iff r c p).0 v).0) [
      | inl tls ↦ inl (challenge_needs_tls c a user s auth tls h)
      | inr loopback ↦ inr loopback
    ]

-- A plaintext client of a server with `--auth` and TLS is refused with SQLSTATE 28000 before
-- anything is sent or registered.
plaintext_client_refused :
    (c : Config) (a : Answers) (user : Option Text) (s : State)
    → c.auth ≡ true
    → tls_required c ≡ true
    → s.client.is_secure ≡ false
    → a.negotiation ≡ ok tt
    → let (s', r) = on_startup c a (startup user) s in
      (sqlstate r ≡ some (codes "28000"))
      × (s'.client.sent ≡ s.client.sent)
      × (s'.client.session ≡ s.client.session)
      × (s'.gateway ≡ s.gateway)
unfolding on_startup
plaintext_client_refused c a user s auth tls plain neg = ground arith

-- With `--auth` on, a connection gets its session only from a password message whose password Trino
-- has just accepted for the user of the startup message; the session's client carries both.
pub session_needs_credentials :
    (c : Config) (a : Answers) (m : FrontendMessage) (s : State) (session : ConnectionState)
    → c.auth ≡ true
    → s.client.session ≡ none
    → (on_startup c a m s).0.client.session ≡ some session
    → (m ≡ password_message)
      × ((password : Text) × (a.into_password ≡ ok password)
          × (session.trino_client.auth ≡ some (unwrap_or s.client.user [], password)))
      × (a.probe session.trino_client ≡ ok tt)
unfolding on_startup
session_needs_credentials c a (startup user) s session auth fresh h = ground arith
session_needs_credentials c a other_message s session auth fresh h = ground arith
session_needs_credentials c a password_message s session auth fresh h =
    elim (Result-cases a.into_password) [
      | inr (e, bad) ↦ ground arith
      | inl (password, good) ↦ (refl, (password, good, ground arith), ground arith)
    ]

-- trino-rust-client's documented refusal: Basic auth over HTTP that was not opted into.
abbrev pub refuses_basic_over_http : TrinoClient → Bool
refuses_basic_over_http t = is_some t.auth && not t.secure && not t.auth_http_insecure

-- The policy check rules out the builder's refusal: with a builder that refuses only Basic auth over
-- plain HTTP, every client that a valid configuration with `--auth` asks for is built.
build_trino_client_succeeds :
    (r : Resolver) (c : Config) (p : AuthPosture) (a : Answers) (user password : Option Text)
    → (validate r c).1 ≡ ok p
    → c.auth ≡ true
    → ((t : TrinoClient) → refuses_basic_over_http t ≡ false → a.build t ≡ ok tt)
    → build_trino_client c a user password ≡ ok (trino_settings c user password)
unfolding build_trino_client
build_trino_client_succeeds r c p a user none v auth builder =
    ground (arith, builder (trino_settings c user none))
build_trino_client_succeeds r c p a user (some pw) v auth builder =
    ground (arith, builder (trino_settings c user (some pw)), (validate_iff r c p).0 v)
