-- ===== src/Server/Reaping.antt =====
-- The joining of ended tasks in src/server.rs, while connections keep coming.
use postgresql_trino_gateway.Prelude.{
  ◌≡◌, refl, ap, ◌∙◌, false, List, [], ◌∷◌, ◌++◌, append_assoc, append-nil, arith, length, All,
}
use postgresql_trino_gateway.Server.{
  TaskResult, LogLine, log_task_result, Server, end_tasks, Round, serving, go_on, join_or_accept,
  iteration, serve,
}

-- No signal, and no task that ends before the poll; connections may wait to be accepted.
abbrev pub IsQuiet : Round → Type 0
IsQuiet r = (r.before ≡ []) × (r.shutdown ≡ false)

-- The lines of several results.
abbrev pub log_of : List TaskResult → List LogLine
log_of [] = []
log_of (result ∷ rest) = log_task_result result ++ log_of rest

abbrev pub reaped : Server → Server
reaped s = record s { ended = []; log = s.log ++ log_of s.ended }

iteration_reaps :
    (r : Round) (s : Server) (result : TaskResult) (rest : List TaskResult)
    → IsQuiet r
    → s.ended ≡ result ∷ rest
    → iteration r s ≡ serving (record s { ended = rest; log = s.log ++ log_task_result result })
unfolding iteration end_tasks
iteration_reaps r s result rest q e =
    rw (q.0, q.1)
      (ap (λ ended. join_or_accept (record r { before = []; shutdown = false }) ended s) e)

serve_reaps_from :
    (rs : List Round) (s : Server) (ended : List TaskResult)
    → s.ended ≡ ended
    → length rs ≡ length ended
    → All IsQuiet rs
    → serve rs s ≡ serving (record s { ended = []; log = s.log ++ log_of ended })
unfolding serve
serve_reaps_from [] s [] e l q = rw append-nil (λ i. serving (record s { ended = e i }))
serve_reaps_from [] s (x ∷ xs) e l q = absurd (omega (arith, l))
serve_reaps_from (r ∷ rs) s [] e l q = absurd (omega (arith, l))
serve_reaps_from (r ∷ rs) s (x ∷ xs) e l q =
    ap (go_on (serve rs)) (iteration_reaps r s x xs q.0 e)
    ∙ serve_reaps_from rs (record s { ended = xs; log = s.log ++ log_task_result x }) xs refl
        (omega (arith, l)) q.1
    ∙ rw append_assoc refl

-- In as many rounds as there are ended tasks, with no signal and no further task that ends before
-- a poll, all of them are joined and their results logged, however many connections wait
-- meanwhile, and no connection is taken before.
pub serve_reaps :
    (rs : List Round) (s : Server)
    → length rs ≡ length s.ended
    → All IsQuiet rs
    → serve rs s ≡ serving (reaped s)
serve_reaps rs s l q = serve_reaps_from rs s s.ended refl l q
