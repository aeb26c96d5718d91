-- ===== src/Startup/Steps.antt =====
-- The startup handler (src/startup.rs) as a step of the gateway's connections.
use postgresql_trino_gateway.Prelude.{
  ◌+◌, ◌^◌, ◌<◌, ◌≡◌, ◌⊎◌, refl, inl, inr, Option, none, some, [], arith, unwrap_or, ok, err,
}
use postgresql_trino_gateway.Prelude.Map.{insert}
use postgresql_trino_gateway.Config.{Config}
use postgresql_trino_gateway.Session.{key_equality, TrinoClient, ConnectionState}
use postgresql_trino_gateway.Startup.{
  Answers, FrontendMessage, startup, password_message, other_message, ClientInfo, State,
  trino_settings, open_session, install_session, establish_session, build_trino_client, on_startup,
}
use postgresql_trino_gateway.Startup.World.{World, Reach, start, connect, next}

module _ (c : Config) (a : Answers) where
  -- The client that a session gets.
  abbrev client_for : FrontendMessage → State → TrinoClient
  client_for password_message s =
      trino_settings c (some (unwrap_or s.client.user []))
        (some (elim a.into_password [ ok password ↦ password | err e ↦ [] ]))
  client_for m s = trino_settings c none none

  -- The handler leaves the gateway alone and opens no session, or it opens one.
  abbrev OpensAtMostOne : TrinoClient → State → State → Type 0
  OpensAtMostOne t s s' =
      ((s'.gateway ≡ s.gateway) × (s'.client.session ≡ none))
      ⊎ ((s'.gateway ≡ (open_session c t a.secret s.gateway).0)
          × (s'.client.session ≡ some (open_session c t a.secret s.gateway).1))

  on_startup-OpensAtMostOne :
      (m : FrontendMessage) (s : State)
      → s.client.session ≡ none
      → OpensAtMostOne (client_for m s) s (on_startup c a m s).0
  unfolding on_startup establish_session build_trino_client install_session
  on_startup-OpensAtMostOne (startup user) s h = ground arith
  on_startup-OpensAtMostOne password_message s h = ground arith
  on_startup-OpensAtMostOne other_message s h = ground arith

  -- The connections after a startup message: a session that was opened is one of them.
  abbrev pub entered : Option ConnectionState → World → World
  entered none w = w
  entered (some session) w = record w { live = insert session.cancel_key session w.live }

  -- A startup message or a password of a client that has no session yet is a step of the gateway's
  -- connections, or none, whatever pgwire, the random generator and Trino answer, and also where
  -- the handler fails half-way, while the pid counter has not wrapped around: the state
  -- afterwards, with the session that was opened (if any) among the open connections, is reachable
  -- again.
  pub on_startup-Reach :
      (m : FrontendMessage) (w : World) (client : ClientInfo)
      → Reach start w
      → w.gateway.connection_pid + 1 < 2 ^ 32
      → client.session ≡ none
      → let s = (on_startup c a m (record { gateway = w.gateway; client = client })).0 in
        Reach start (entered s.client.session (record w { gateway = s.gateway }))
  on_startup-Reach m w client r b h =
      let s : State = record { gateway = w.gateway; client = client } in
      elim (on_startup-OpensAtMostOne m s h) [
        | inl (g, e) ↦ rw (e, g) r
        | inr (g, e) ↦ rw (e, g) (next r (connect c (client_for m s) a.secret b refl))
      ]
