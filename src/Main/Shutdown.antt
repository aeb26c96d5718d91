-- ===== src/Main/Shutdown.antt =====
-- The way from a signal to the exit of the process (src/main.rs with src/server.rs).
use postgresql_trino_gateway.Prelude.{
  ◌≤◌, ◌≡◌, ◌≢◌, ◌⊎◌, inl, inr, refl, ap, ◌∙◌, Bool, true, false, Option, none, some, List, [], ◌∷◌,
  ◌++◌, arith, All, Result, ok, err, Bool-cases,
}
use postgresql_trino_gateway.Prelude.Text.{Text}
use postgresql_trino_gateway.Config.{Config}
use postgresql_trino_gateway.Server.{
  TaskResult, Server, started, admit, end_tasks, Round, Served, serving, returned, accepted,
  join_or_accept, iteration, go_on, serve,
}
use postgresql_trino_gateway.Main.{
  DrainEvent, Drained, draining, drain, Outside, Listening, listen, exited, after_serve,
  from_listening, main,
}
use postgresql_trino_gateway.Main.Drain.{timers, drain_ends}

-- The listener gives a connection, or nothing.
abbrev pub accepts : Option (Result Text Text) → Bool
accepts none = true
accepts (some (ok peer)) = true
accepts (some (err e)) = false

abbrev pub NoAcceptError : Round → Type 0
NoAcceptError r = accepts r.accept ≡ true

-- The loop goes on or is shut down.
abbrev Continues : Served → Type 0
Continues o = ((s : Server) × (o ≡ serving s)) ⊎ ((s : Server) × (o ≡ returned (ok s)))

accepted-Continues :
    (incoming : Option (Result Text Text)) (s : Server)
    → accepts incoming ≡ true
    → Continues (accepted incoming s)
accepted-Continues none s h = inl (s, refl)
accepted-Continues (some (ok peer)) s h = inl (admit peer s, refl)
accepted-Continues (some (err e)) s h = absurd (ground arith)

join_or_accept-Continues :
    (r : Round) (ended : List TaskResult) (s : Server)
    → NoAcceptError r
    → Continues (join_or_accept r ended s)
join_or_accept-Continues r (result ∷ rest) s h = inl (_, refl)
join_or_accept-Continues r [] s h = accepted-Continues r.accept (end_tasks r.between s) h

iteration-Continues : (r : Round) (s : Server) → NoAcceptError r → Continues (iteration r s)
unfolding iteration
iteration-Continues r s h = elim (Bool-cases r.shutdown) [
  | inl y ↦ rw y (inr (_, refl))
  | inr n ↦ rw n (join_or_accept-Continues r (end_tasks r.before s).ended (end_tasks r.before s) h)
]

-- A round with a signal ends the loop.
serve_shutdown :
    (before : List Round) (r : Round) (after : List Round) (s : Server)
    → All NoAcceptError before
    → r.shutdown ≡ true
    → (tasks : Server) × (serve (before ++ r ∷ after) s ≡ returned (ok tasks))
unfolding serve iteration
serve_shutdown [] r after s h y = (end_tasks r.before s, rw y refl)
serve_shutdown (b ∷ before) r after s h y = elim (iteration-Continues b s h.0) [
  | inl (s', e) ↦
      let (tasks, t) = serve_shutdown before r after s' h.1 y in
      (tasks, ap (go_on (serve (before ++ r ∷ after))) e ∙ t)
  | inr (s', e) ↦ (s', ap (go_on (serve (before ++ r ∷ after))) e)
]

-- A gateway that has come as far as its accept loop and gets a signal, with no error of the listener
-- before, exits by the second timer of its drain, whatever its connections do.
pub main_exits :
    (outside : Outside) (config : Config) (l : Listening outside) (before : List Round) (r : Round)
    (after : List Round) (events : List DrainEvent)
    → listen outside config ≡ ok l
    → All NoAcceptError before
    → r.shutdown ≡ true
    → 2 ≤ timers events
    → (d : Drained) × (main outside config (before ++ r ∷ after) events ≡ exited d) × (d ≢ draining)
unfolding main
main_exits outside config l before r after events e h y t =
    let (tasks, q) = serve_shutdown before r after (started l.max_connections) h y in
    (
      drain tasks events,
      ap (from_listening outside (before ++ r ∷ after) events) e
          ∙ ap (after_serve outside events) q,
      drain_ends tasks events t,
    )
