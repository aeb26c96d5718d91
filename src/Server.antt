-- ===== src/Server.antt =====
-- src/server.rs: the accept loop. What the listener, the signal and the connection tasks do between
-- two polls comes as a list of rounds; the semaphore of tokio is its number of free permits.
pub mod Capacity
pub mod Reaping
use Prim.Native.Nat.{zero, suc}
use postgresql_trino_gateway.Prelude.{
  ℕ, ◌-◌, Bool, Option, none, some, List, [], ◌∷◌, ◌++◌, if◌then◌else◌, Result, ok, err,
}
use postgresql_trino_gateway.Prelude.Text.{Text}

-- What a connection task ended with: a value, a panic, a cancellation, or another `JoinError`.
pub data TaskResult : Type 0 where
  completed panicked cancelled failed : TaskResult

-- The lines that are logged, with a peer's address.
pub data LogLine : Type 0 where
  connection_rejected : Text → LogLine
  task_panicked task_failed : LogLine

unfoldable pub log_task_result : TaskResult → List LogLine
log_task_result TaskResult.completed = []
log_task_result TaskResult.panicked = LogLine.task_panicked ∷ []
log_task_result TaskResult.cancelled = []
log_task_result TaskResult.failed = LogLine.task_failed ∷ []

-- The semaphore's free permits; the tasks in the `JoinSet` that still run, each holding a permit, by
-- their peer; and those that have ended and are not joined yet.
pub record Server : Type 0 where
  pub permits : ℕ
  pub running : List Text
  pub ended : List TaskResult
  pub log : List LogLine

abbrev pub started : ℕ → Server
started max_connections = record { permits = max_connections; running = []; ended = []; log = [] }

-- The item at a position, and the others.
abbrev pub extract {ℓ} : {A : Type ℓ} → ℕ → List A → Option (A × List A)
extract i [] = none
extract zero (x ∷ xs) = some (x, xs)
extract (suc i) (x ∷ xs) = elim (extract i xs) [ none ↦ none | some (y, ys) ↦ some (y, x ∷ ys) ]

-- A task ends: it drops its permit and is there for the `JoinSet` to see, in one step. (The permit
-- is dropped first; a poll between the two would see the permit free and the task still running.)
unfoldable pub end_task : ℕ × TaskResult → Server → Server
end_task (i, result) s = elim (extract i s.running) [
  | none ↦ s
  | some (peer, others) ↦ record s {
    permits = suc s.permits;
    running = others;
    ended = s.ended ++ result ∷ [];
  }
]

unfoldable pub end_tasks : List (ℕ × TaskResult) → Server → Server
unfolding end_task
end_tasks [] s = s
end_tasks (e ∷ es) s = end_tasks es (end_task e s)

-- An accepted connection: `try_acquire_owned`, then the task, or the socket is dropped.
unfoldable pub admit : Text → Server → Server
admit peer s = elim s.permits [
  | zero ↦ record s { log = s.log ++ LogLine.connection_rejected peer ∷ [] }
  | suc free ↦ record s { permits = free; running = s.running ++ peer ∷ [] }
]

-- One round of the loop, as its environment makes it: tasks that end before the poll, the signal,
-- tasks that end after the poll of the `JoinSet` and before that of the listener, and what the
-- listener gives.
pub record Round : Type 0 where
  pub before : List (ℕ × TaskResult)
  pub shutdown : Bool
  pub between : List (ℕ × TaskResult)
  pub accept : Option (Result Text Text)

-- The loop goes on, or `serve` returns.
pub data Served : Type 0 where
  serving : Server → Served
  returned : Result Text Server → Served

abbrev pub accepted : Option (Result Text Text) → Server → Served
accepted none s = serving s
accepted (some (err e)) s = returned (err e)
accepted (some (ok peer)) s = serving (admit peer s)

-- The branches that are ready are taken in the order in which they are written (`biased`).
abbrev pub join_or_accept : Round → List TaskResult → Server → Served
join_or_accept r (result ∷ rest) s =
    serving (record s { ended = rest; log = s.log ++ log_task_result result })
join_or_accept r [] s = accepted r.accept (end_tasks r.between s)

unfoldable pub iteration : Round → Server → Served
unfolding admit end_tasks log_task_result
iteration r s =
    let s' = end_tasks r.before s in
    if r.shutdown then returned (ok s') else join_or_accept r s'.ended s'

-- What follows a round, if the loop goes on.
abbrev pub go_on : (Server → Served) → Served → Served
go_on next (serving s) = next s
go_on next (returned result) = returned result

-- `serve`, for the rounds that have been.
unfoldable pub serve : List Round → Server → Served
serve [] s = serving s
serve (r ∷ rs) s = go_on (serve rs) (iteration r s)
