-- ===== src/Main.antt =====
-- src/main.rs: from the configuration to the accept loop, and the drain at the end. The operating
-- system and rustls answer through `Outside`.
pub mod Drain
pub mod Start
pub mod Shutdown
use postgresql_trino_gateway.Prelude.{
  ℕ, zero, suc, ◌+◌, ◌==◌, Bool, Option, none, some, List, [], ◌∷◌, ◌++◌, length, if◌then◌else◌,
  Result, ok, err, ◌>>=◌,
}
use postgresql_trino_gateway.Prelude.Text.{Text, codes}
use postgresql_trino_gateway.Prelude.Int.{parse_u64}
use postgresql_trino_gateway.Config.{Config}
use postgresql_trino_gateway.Policy.{Resolver, PolicyError, AuthPosture, validate}
use postgresql_trino_gateway.Tls.{Rustls, TlsError, build_acceptor}
use postgresql_trino_gateway.Server.{
  TaskResult, log_task_result, Server, started, Round, Served, serving, returned, serve,
}

-- Seconds.
abbrev pub default_shutdown_drain_timeout : ℕ
default_shutdown_drain_timeout = 25

abbrev pub parsed_timeout : Option ℕ → ℕ
parsed_timeout none = default_shutdown_drain_timeout
parsed_timeout (some secs) = secs

-- `GATEWAY_SHUTDOWN_DRAIN_TIMEOUT_SECS`, if it is set.
unfoldable pub parse_drain_timeout : Option Text → ℕ
unfolding parse_u64
parse_drain_timeout none = default_shutdown_drain_timeout
parse_drain_timeout (some v) = parsed_timeout (parse_u64 v)

-- While the gateway drains, a task ends or the running timer does.
pub data DrainEvent : Type 0 where
  task_ended : TaskResult → DrainEvent
  timer_elapsed : DrainEvent

-- `while let Some(res) = tasks.join_next().await`, under a timeout: no task is left, or the timer
-- ended with some left, or more events are awaited.
pub data Joined : Type 0 where
  all_joined : List DrainEvent → Joined
  timed_out : ℕ → List DrainEvent → Joined
  waiting : ℕ → Joined

unfoldable pub join_all : ℕ → List DrainEvent → Joined
join_all zero events = all_joined events
join_all (suc n) [] = waiting (suc n)
join_all (suc n) (task_ended result ∷ events) = join_all n events
join_all (suc n) (timer_elapsed ∷ events) = timed_out (suc n) events

-- How `drain` ends: at once, with every task joined, or with `still_running` tasks aborted, of which
-- `left` have not unwound within the grace period.
pub data Drained : Type 0 where
  nothing_in_flight all_drained draining : Drained
  aborted : (still_running left : ℕ) → Drained

abbrev pub unwound : ℕ → Joined → Drained
unwound still_running (all_joined events) = aborted still_running 0
unwound still_running (timed_out left events) = aborted still_running left
unwound still_running (waiting left) = draining

abbrev pub drained : Joined → Drained
drained (all_joined events) = all_drained
drained (timed_out still_running events) = unwound still_running (join_all still_running events)
drained (waiting left) = draining

-- Tasks that have ended already are joined without waiting.
unfoldable pub drain : Server → List DrainEvent → Drained
unfolding join_all
drain tasks events =
    if length tasks.running + length tasks.ended == 0
    then nothing_in_flight
    else drained (join_all (length tasks.running) events)

pub data StartError : Type 0 where
  policy : PolicyError → StartError
  tls : TlsError → StartError
  no_connections : StartError
  io : Text → StartError

-- What the process gets from outside.
pub record Outside : Type 1 where
  pub resolver : Resolver
  pub rustls : Rustls
  pub drain_timeout_var : Option Text
  pub bind : Text → Result Text (Unit {0})
  pub signal : Result Text (Unit {0})

-- An error of `?`, as it leaves `main`.
abbrev or_fail : {E A : Type 0} → Result E A → (E → StartError) → Result StartError A
or_fail (ok a) f = ok a
or_fail (err e) f = err (f e)

abbrev require_connections : ℕ → Result StartError (Unit {0})
require_connections max_connections = if max_connections == 0 then err no_connections else ok tt

module _ (outside : Outside) where
  open outside use {resolver, rustls, drain_timeout_var, bind, signal}

  -- What `serve` and `drain` are given.
  pub record Listening : Type 0 where
    pub tls_acceptor : Option rustls.Acceptor
    pub max_connections : ℕ
    pub drain_timeout : ℕ

  -- One path alone is ignored, with a line in the log.
  unfoldable pub acceptor_of : Option Text → Option Text → Result TlsError (Option rustls.Acceptor)
  acceptor_of (some cert) (some key) = do
    acceptor ← build_acceptor rustls cert key
    ok (some acceptor)
  acceptor_of none none = ok none
  acceptor_of (some cert) none = ok none
  acceptor_of none (some key) = ok none

  abbrev pub drain_timeout_from_env : ℕ
  drain_timeout_from_env = parse_drain_timeout drain_timeout_var

  -- `main` as far as the accept loop.
  unfoldable pub listen : Config → Result StartError Listening
  unfolding acceptor_of
  listen config = do
    posture ← or_fail (validate resolver config).1 policy
    acceptor ← or_fail (acceptor_of config.tls_cert config.tls_key) tls
    limit ← require_connections config.max_connections
    listener ← or_fail (bind config.listen_addr) io
    sigterm ← or_fail signal io
    ok (record {
      tls_acceptor = acceptor;
      max_connections = config.max_connections;
      drain_timeout = drain_timeout_from_env;
    })

  -- What `main` comes to, for what the rounds and the drain bring: an error, the running loop, or the
  -- end of the drain.
  pub data Exit : Type 0 where
    failed : StartError → Exit
    looping : Server → Exit
    exited : Drained → Exit

  abbrev pub after_serve : List DrainEvent → Served → Exit
  after_serve events (serving s) = looping s
  after_serve events (returned (err e)) = failed (io e)
  after_serve events (returned (ok tasks)) = exited (drain tasks events)

  abbrev pub from_listening : List Round → List DrainEvent → Result StartError Listening → Exit
  from_listening rounds events (err e) = failed e
  from_listening rounds events (ok l) =
      after_serve events (serve rounds (started l.max_connections))

  unfoldable pub main : Config → List Round → List DrainEvent → Exit
  unfolding listen
  main config rounds events = from_listening rounds events (listen config)
