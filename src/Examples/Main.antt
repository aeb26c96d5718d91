-- ===== src/Examples/Main.antt =====
-- A gateway from its start to its drain.
use postgresql_trino_gateway.Prelude.{
  ℕ, ◌≡◌, ◌≢◌, refl, true, false, none, some, List, [], ◌∷◌, arith, ok,
}
use postgresql_trino_gateway.Prelude.Text.{Text, codes}
use postgresql_trino_gateway.Policy.{validate}
use postgresql_trino_gateway.Tls.{Rustls, build_acceptor, load_certs}
use postgresql_trino_gateway.Server.{
  TaskResult, LogLine, Server, started, Round, serving, iteration, serve,
}
use postgresql_trino_gateway.Server.Capacity.{ServedBounded, serve-IsBounded}
use postgresql_trino_gateway.Server.Reaping.{reaped, serve_reaps}
use postgresql_trino_gateway.Main.{
  parse_drain_timeout, DrainEvent, task_ended, timer_elapsed, Drained, draining, all_drained,
  aborted, drain, Outside, Listening, listen, exited, main,
}
use postgresql_trino_gateway.Main.Shutdown.{main_exits}
use postgresql_trino_gateway.Main.Start.{ListensSafely, listen_safe}
use postgresql_trino_gateway.Examples.Fixtures.{secure_config, any_resolver}

-- A round in which nothing happens but that a connection waits.
abbrev waiting_peer : Text → Round
waiting_peer peer = record { before = []; shutdown = false; between = []; accept = some (ok peer) }

abbrev signalled : Round
signalled = record { before = []; shutdown = true; between = []; accept = none }

-- With a cap of one, the second connection is dropped; the first ends while a third waits, and its
-- task is joined first.
abbrev first_ends : Round
first_ends = record (waiting_peer (codes "c")) { before = (0, TaskResult.panicked) ∷ [] }

abbrev busy : List Round
busy =
    waiting_peer (codes "a") ∷ waiting_peer (codes "b") ∷ first_ends ∷ waiting_peer (codes "c") ∷ []

busy_serves :
    serve busy (started 1)
    ≡ serving (record {
      permits = 0;
      running = codes "c" ∷ [];
      ended = [];
      log = LogLine.connection_rejected (codes "b") ∷ LogLine.task_panicked ∷ [];
    })
unfolding serve iteration
busy_serves = refl

serve-IsBounded_example : ServedBounded 1 (serve busy (started 1))
serve-IsBounded_example = serve-IsBounded 1 busy

-- The bound is met: a task ends between the two polls, and a connection is accepted.
abbrev late_end : Round
late_end = record (waiting_peer (codes "b")) { between = (0, TaskResult.completed) ∷ [] }

one_more :
    serve (waiting_peer (codes "a") ∷ late_end ∷ []) (started 1)
    ≡ serving (record {
      permits = 0;
      running = codes "b" ∷ [];
      ended = TaskResult.completed ∷ [];
      log = [];
    })
unfolding serve iteration
one_more = refl

abbrev two_ended : Server
two_ended = record (started 4) { ended = TaskResult.completed ∷ TaskResult.failed ∷ [] }

serve_reaps_example :
    serve (waiting_peer (codes "a") ∷ waiting_peer (codes "b") ∷ []) two_ended
    ≡ serving (reaped two_ended)
serve_reaps_example =
    serve_reaps (waiting_peer (codes "a") ∷ waiting_peer (codes "b") ∷ []) two_ended refl
      ((refl, refl), ((refl, refl), tt))

abbrev two_running : Server
two_running = record (started 4) { permits = 2; running = codes "a" ∷ codes "b" ∷ [] }

abbrev hanging : List DrainEvent
hanging = task_ended TaskResult.completed ∷ timer_elapsed ∷ timer_elapsed ∷ []

one_hangs : drain two_running hanging ≡ aborted 1 1
unfolding drain
one_hangs = refl

-- Every file holds one certificate and its key.
abbrev one_certificate : Rustls
one_certificate = record {
  Certificate = ℕ;
  PrivateKey = ℕ;
  Acceptor = ℕ;
  pem_file_iter = λ path. ok (ok 7 ∷ []);
  key_from_pem_file = λ path. ok 7;
  protocol_versions = ok tt;
  with_single_cert = λ certs key. ok key;
}

abbrev outside : Outside
outside = record {
  resolver = any_resolver;
  rustls = one_certificate;
  drain_timeout_var = some (codes "60");
  bind = λ addr. ok tt;
  signal = ok tt;
}

abbrev listening : Listening outside
listening = record { tls_acceptor = some 7; max_connections = 100; drain_timeout = 60 }

listens : listen outside secure_config ≡ ok listening
unfolding listen build_acceptor load_certs validate parse_drain_timeout
listens = refl

listen_safe_example : ListensSafely outside secure_config listening
listen_safe_example = listen_safe outside secure_config listening listens

accepts : build_acceptor one_certificate (codes "cert.pem") (codes "key.pem") ≡ ok 7
unfolding build_acceptor
accepts = refl

runs_and_drains :
    main outside secure_config
      (waiting_peer (codes "a") ∷ signalled ∷ [])
      (task_ended TaskResult.completed ∷ [])
    ≡ exited all_drained
unfolding main build_acceptor load_certs validate parse_drain_timeout serve iteration drain
runs_and_drains = refl

main_exits_example :
    (d : Drained) × (main outside secure_config (waiting_peer (codes "a") ∷ signalled ∷ []) hanging
      ≡ exited d)
    × (d ≢ draining)
main_exits_example =
    main_exits outside secure_config listening (waiting_peer (codes "a") ∷ []) signalled [] hanging
      listens (refl, tt) refl (omega arith)
