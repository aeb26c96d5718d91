-- ===== src/QueryPipeline/Batch.antt =====
-- What a batch of statements answers (src/query_pipeline.rs).
use Prim.Native.Nat.{suc}
use postgresql_trino_gateway.Prelude.{
  ℕ, ◌<◌, ◌≤◌, ◌≡◌, refl, sym, ap, ◌∙◌, subst, Bool, false, Option, none, some, List, [], ◌∷◌, ◌++◌,
  append_assoc, append-nil, arith, length, All, leb, ok, err,
}
use postgresql_trino_gateway.Prelude.Text.{Text}
use postgresql_trino_gateway.Config.{Config}
use postgresql_trino_gateway.ErrorMapping.{ErrorInfo}
use postgresql_trino_gateway.Wire.{
  FieldFormat, user_error, api_error, invalid_password, io_error, Response, error, ActiveQueryId,
}
use postgresql_trino_gateway.Catalog.{Responses}
use postgresql_trino_gateway.TrinoStream.{Reply, finished, waiting, Opened}
use postgresql_trino_gateway.Intercept.{Intercepted, passes, answers, panics}
use postgresql_trino_gateway.QueryPipeline.{
  Env, Ended, done, awaits, panicked, Store, answered_or, intercepted_or, respond, forward,
  process_single_statement, process_pieces, process_query, split_statements,
}
use postgresql_trino_gateway.QueryPipeline.Single.{
  NotError, One, failed_with, single, OneMaybe, nothing, just, OneAnswer, goes_on, answered,
  stopped, try_intercept-One, handle_dynamic_catalog_query-One,
}

data OneEnded : Ended (List Response) → Type 0 where
  ends : {r : Responses} {rest : List Reply} → One r → OneEnded (done r rest)
  hangs : OneEnded awaits
  dies : OneEnded panicked

respond-One : (env : Env) (log : List Text) (o : Opened) → OneEnded (respond env log o).1
unfolding respond
respond-One env log (g, waiting) = hangs
respond-One env log (g, finished (err e) rest) = ends (failed_with e)
respond-One env log (g, finished (ok ([], st)) rest) = ends (single _ tt)
respond-One env log (g, finished (ok (f ∷ fs, st)) rest) = ends (single _ tt)

answered_or-One :
    (m : Option Responses) (replies : List Reply) (s : Store) (next : Store × Ended (List Response))
    → OneMaybe m
    → OneEnded next.1
    → OneEnded (answered_or m replies s next).1
answered_or-One none replies s next nothing q = q
answered_or-One (some r) replies s next (just p) q = ends p

intercepted_or-One :
    (i : Intercepted) (replies : List Reply) (s : Store) (next : Store × Ended (List Response))
    → OneAnswer i
    → OneEnded next.1
    → OneEnded (intercepted_or i replies s next).1
intercepted_or-One passes replies s next goes_on q = q
intercepted_or-One (answers r) replies s next (answered p) q = ends p
intercepted_or-One panics replies s next stopped q = dies

module _ (env : Env) (config : Config) (slot : Option ActiveQueryId)
    (format : Option (ℕ → FieldFormat)) (secure : Bool) where
  forward-One :
      (sql : Text) (replies : List Reply) (s : Store)
      → OneEnded (forward env config slot format secure sql replies s).1
  unfolding forward
  forward-One sql replies s = respond-One env _ _

  process_single_statement-One :
      (sql : Text) (replies : List Reply) (s : Store)
      → OneEnded (process_single_statement env config slot format secure sql replies s).1
  unfolding process_single_statement
  process_single_statement-One sql replies s =
      intercepted_or-One _ replies s _
        (try_intercept-One env.dynamic.encoder env.dynamic.case sql (env.parse_sql sql)
          config.trino_catalog config.trino_schema secure)
        (answered_or-One _ replies s _
          (handle_dynamic_catalog_query-One env.dynamic (env.parse_sql sql))
          (forward-One sql replies s))

-- The answers of a batch of `n` statements: one for each and none an error, or those of the first
-- few statements and the error of the next.
pub data BatchAnswers (n : ℕ) : List Response → Type 0 where
  all_ran : {out : List Response} → length out ≡ n → All NotError out → BatchAnswers n out
  stopped_at :
      (good : List Response) (info : ErrorInfo)
      → length good < n
      → All NotError good
      → BatchAnswers n (good ++ error info ∷ [])

more_answers :
    {n : ℕ} {out : List Response} (r : Response)
    → NotError r
    → BatchAnswers n out
    → BatchAnswers (suc n) (r ∷ out)
more_answers r h (all_ran e a) = all_ran (ap suc e) (h, a)
more_answers r h (stopped_at good info lt a) = stopped_at (r ∷ good) info (omega (arith, lt)) (h, a)

module _ (env : Env) (config : Config) (slot : Option ActiveQueryId)
    (format : Option (ℕ → FieldFormat)) (secure : Bool) where
  abbrev runs_one : Text → List Reply → Store → Store × Ended (List Response)
  runs_one = process_single_statement env config slot format secure

  abbrev runs_all : List Text → List Response → List Reply → Store → Store × Ended (List Response)
  runs_all = process_pieces env config slot format secure

  -- A run of statements from the replies and the store to the responses, the replies left and the
  -- store left: each starts where the one before ended, and the first one that fails is the last.
  pub data Ran : List Text → List Reply → Store → List Response → List Reply → Store → Type 0 where
    ran_none : {replies : List Reply} {s : Store} → Ran [] replies s [] replies s
    ran_one :
        {stmt : Text} {stmts : List Text} {replies more rest : List Reply} {s s1 s' : Store}
        {r : Response} {out : List Response}
        → runs_one stmt replies s ≡ (s1, done (ok (r ∷ [])) more)
        → NotError r
        → Ran stmts more s1 out rest s'
        → Ran (stmt ∷ stmts) replies s (r ∷ out) rest s'
    ran_failed :
        {stmt : Text} {stmts : List Text} {replies rest : List Reply} {s s' : Store}
        {info : ErrorInfo}
        → runs_one stmt replies s ≡ (s', done (err (user_error info)) rest)
        → Ran (stmt ∷ stmts) replies s (error info ∷ []) rest s'

  Ran-BatchAnswers :
      {stmts : List Text} {replies rest : List Reply} {s s' : Store} {out : List Response}
      → Ran stmts replies s out rest s'
      → BatchAnswers (length stmts) out
  Ran-BatchAnswers ran_none = all_ran refl tt
  Ran-BatchAnswers (ran_one {r = r} e n t) = more_answers r n (Ran-BatchAnswers t)
  Ran-BatchAnswers (ran_failed {info = info} e) = stopped_at [] info (omega arith) tt

  -- What the loop adds to the responses so far.
  abbrev Added :
      List Text → List Reply → Store → List Response → List Response → List Reply → Store → Type 0
  Added stmts replies s out final rest s' =
      (new : List Response) × (final ≡ out ++ new) × Ran stmts replies s new rest s'

  one_more :
      (stmt : Text) (stmts : List Text) (replies more rest : List Reply) (s s1 s' : Store)
      (out final : List Response) (r : Response)
      → runs_one stmt replies s ≡ (s1, done (ok (r ∷ [])) more)
      → NotError r
      → Added stmts more s1 (out ++ r ∷ []) final rest s'
      → Added (stmt ∷ stmts) replies s out final rest s'
  one_more stmt stmts replies more rest s s1 s' out final r q h (new, e, a) =
      (r ∷ new, e ∙ append_assoc out (r ∷ []) new, ran_one q h a)

  process_pieces-Added :
      (stmts : List Text) (out final : List Response) (replies rest : List Reply) (s s' : Store)
      → runs_all stmts out replies s ≡ (s', done (ok final) rest)
      → Added stmts replies s out final rest s'
  unfolding process_pieces
  process_pieces-Added [] out final replies rest s s' h = (
    [],
    ground (arith, append-nil out),
    subst (λ left. Ran [] replies s [] left s') (ground arith)
        (subst (Ran [] replies s [] replies) (ground arith) ran_none),
  )
  process_pieces-Added (stmt ∷ stmts) out final replies rest s s' h =
      go (runs_one stmt replies s) refl
        (process_single_statement-One env config slot format secure stmt replies s)
        (λ out' more s1. process_pieces-Added stmts out' final more rest s1 s')
    where
      go :
          (x : Store × Ended (List Response))
          → runs_one stmt replies s ≡ x
          → OneEnded x.1
          → ((out' : List Response) (more : List Reply) (s1 : Store)
              → runs_all stmts out' more s1 ≡ (s', done (ok final) rest)
              → Added stmts more s1 out' final rest s')
          → Added (stmt ∷ stmts) replies s out final rest s'
      go (s1, awaits) q hangs ih = ground (arith, q)
      go (s1, panicked) q dies ih = ground (arith, q)
      go (s1, done _ more) q (ends (single r n)) ih =
          one_more stmt stmts replies more rest s s1 s' out final r q n
            (ih (out ++ r ∷ []) more s1 (ground (arith, q)))
      go (s1, done _ more) q (ends (failed_with (user_error info))) ih =
          (error info ∷ [], ground (arith, q), ran_failed (ground (arith, q, h)))
      go (s1, done _ more) q (ends (failed_with (api_error t))) ih = ground (arith, q)
      go (s1, done _ more) q (ends (failed_with (invalid_password t))) ih = ground (arith, q)
      go (s1, done _ more) q (ends (failed_with (io_error t))) ih = ground (arith, q)

  -- A query of several statements that ends with responses has run them in their order, each with
  -- the replies and the store that the one before it left, up to the first that failed: none behind
  -- it is submitted or takes a reply, and the store left is the one after it. There is one response
  -- for each statement, none an error, or the responses of the first few and, last, the error of the
  -- one that failed.
  pub process_query-BatchAnswers :
      (sql : Text) (replies rest : List Reply) (s s' : Store) (out : List Response)
      → 2 ≤ length (split_statements env sql)
      → process_query env config slot format secure sql replies s ≡ (s', done (ok out) rest)
      → BatchAnswers (length (split_statements env sql)) out
        × Ran (split_statements env sql) replies s out rest s'
  unfolding process_query
  process_query-BatchAnswers sql replies rest s s' out several h =
      let pieces = split_statements env sql in
      let long : leb (length pieces) 1 ≡ false = ground arith in
      let (new, e, a) = process_pieces-Added pieces [] out replies rest s s' (ground arith) in
      let ran = subst (λ o. Ran pieces replies s o rest s') (sym e) a in (Ran-BatchAnswers ran, ran)
