-- ===== src/Main/Drain.antt =====
-- The drain timeout and the drain of src/main.rs.
use Prim.Native.Nat.{zero, suc}
use postgresql_trino_gateway.Prelude.{
  ℕ, ◌+◌, ◌-◌, ◌^◌, ◌≤◌, ◌==◌, ◌≡◌, ◌≢◌, inl, inr, refl, ap, ◌∙◌, some, List, [], ◌∷◌, ◌++◌, map,
  length, arith, leb, if◌then◌else◌, Bool-cases,
}
use postgresql_trino_gateway.Prelude.Decimal.{to_decimal}
use postgresql_trino_gateway.Prelude.Parsing.{parse_u64-to_decimal}
use postgresql_trino_gateway.Server.{TaskResult, Server}
use postgresql_trino_gateway.Main.{
  parse_drain_timeout, parsed_timeout, default_shutdown_drain_timeout, DrainEvent, task_ended,
  timer_elapsed, Joined, all_joined, timed_out, waiting, join_all, nothing_in_flight, all_drained,
  draining, unwound, drained, drain,
}

abbrev pub timers : List DrainEvent → ℕ
timers [] = 0
timers (task_ended result ∷ events) = timers events
timers (timer_elapsed ∷ events) = suc (timers events)

-- What `join_next` leaves of the timers: all of them, or one less.
abbrev LeavesTimers : ℕ → Joined → Type 0
LeavesTimers t (all_joined events) = Unit
LeavesTimers t (timed_out n events) = t ≤ suc (timers events)
LeavesTimers t (waiting n) = t ≡ 0

join_all-LeavesTimers :
    (n : ℕ) (events : List DrainEvent) → LeavesTimers (timers events) (join_all n events)
unfolding join_all
join_all-LeavesTimers zero events = tt
join_all-LeavesTimers (suc n) [] = refl
join_all-LeavesTimers (suc n) (task_ended result ∷ events) = join_all-LeavesTimers n events
join_all-LeavesTimers (suc n) (timer_elapsed ∷ events) = omega arith

unwound-ne-draining : (n t : ℕ) (j : Joined) → LeavesTimers t j → 1 ≤ t → unwound n j ≢ draining
unwound-ne-draining n t (all_joined events) h l = λ e. cc
unwound-ne-draining n t (timed_out m events) h l = λ e. cc
unwound-ne-draining n t (waiting m) h l = absurd (omega (arith, h))

drained-ne-draining : (t : ℕ) (j : Joined) → LeavesTimers t j → 2 ≤ t → drained j ≢ draining
drained-ne-draining t (all_joined events) h l = λ e. cc
drained-ne-draining t (timed_out n events) h l =
    unwound-ne-draining n (timers events) (join_all n events) (join_all-LeavesTimers n events)
      (omega (arith, h))
drained-ne-draining t (waiting n) h l = absurd (omega (arith, h))

-- The drain ends by its second timer, whatever the tasks do: a task that hangs cannot keep the
-- process from its exit.
pub drain_ends :
    (tasks : Server) (events : List DrainEvent) → 2 ≤ timers events → drain tasks events ≢ draining
unfolding drain
drain_ends tasks events h = elim (Bool-cases (length tasks.running + length tasks.ended == 0)) [
  | inl y ↦ rw y (λ e. cc)
  | inr n ↦ rw n (
      drained-ne-draining (timers events) (join_all (length tasks.running) events)
        (join_all-LeavesTimers (length tasks.running) events) h)
]

join_all_graceful :
    (n : ℕ) (results : List TaskResult) (events : List DrainEvent)
    → n ≤ length results
    → (rest : List DrainEvent) × (join_all n (map task_ended results ++ events) ≡ all_joined rest)
unfolding join_all
join_all_graceful zero results events h = (_, refl)
join_all_graceful (suc n) [] events h = absurd (omega arith)
join_all_graceful (suc n) (r ∷ rs) events h = join_all_graceful n rs events (omega arith)

-- If every running task ends before the timer, no task is aborted.
drain_graceful :
    (tasks : Server) (results : List TaskResult) (events : List DrainEvent)
    → length tasks.running ≤ length results
    → drain tasks (map task_ended results ++ events)
      ≡ (if length tasks.running + length tasks.ended == 0 then nothing_in_flight else all_drained)
unfolding drain
drain_graceful tasks results events h =
    let (rest, e) = join_all_graceful (length tasks.running) results events h in
    ap
      (λ j. if length tasks.running + length tasks.ended == 0 then nothing_in_flight else drained j)
      e

-- The drain timeout of a variable that holds a `u64` in decimal is that number of seconds; a larger
-- number is ignored and the default applies.
parse_drain_timeout-to_decimal :
    (n : ℕ)
    → parse_drain_timeout (some (to_decimal n))
      ≡ (if leb n (2 ^ 64 - 1) then n else default_shutdown_drain_timeout)
unfolding parse_drain_timeout
parse_drain_timeout-to_decimal n = ap parsed_timeout (parse_u64-to_decimal n) ∙ ground arith
