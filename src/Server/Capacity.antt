-- ===== src/Server/Capacity.antt =====
-- How many connections src/server.rs serves, and how many tasks it keeps.
use Prim.Native.Nat.{zero, suc}
use postgresql_trino_gateway.Prelude.{
  ℕ, ◌+◌, ◌≤◌, ◌≡◌, refl, Option, none, some, List, [], ◌∷◌, arith, length, length-append, ◌∙◌,
  Result, ok, err, Option-cases, Bool-cases, inl, inr,
}
use postgresql_trino_gateway.Prelude.Text.{Text}
use postgresql_trino_gateway.Server.{
  TaskResult, Server, started, extract, end_task, end_tasks, admit, Round, Served, serving,
  returned, accepted, join_or_accept, iteration, go_on, serve,
}

-- The tasks in the `JoinSet`.
abbrev pub tracked : Server → ℕ
tracked s = length s.running + length s.ended

-- Each permit that is not free is held by a running task, and the set of tasks is bounded.
pub record IsBounded (max_connections : ℕ) (s : Server) : Type 0 where
  pub balanced : s.permits + length s.running ≡ max_connections
  pub bounded : tracked s ≤ suc max_connections

abbrev pub ServedBounded : ℕ → Served → Type 0
ServedBounded max (serving s) = IsBounded max s
ServedBounded max (returned (ok s)) = IsBounded max s
ServedBounded max (returned (err e)) = Unit

length-extract {ℓ} :
    {A : Type ℓ} (i : ℕ) (xs : List A) {x : A} {ys : List A}
    → extract i xs ≡ some (x, ys)
    → length xs ≡ suc (length ys)
length-extract i [] h = ground arith
length-extract zero (x ∷ xs) h = ground arith
length-extract (suc i) (x ∷ xs) h = elim (Option-cases (extract i xs)) [
  | inl e ↦ absurd (ground arith)
  | inr ((y, ys'), e) ↦ ground (arith, length-extract i xs e)
]

module _ (max : ℕ) where
  -- An ending task gives its permit back and stays in the set.
  end_task_counts :
      (e : ℕ × TaskResult) (s : Server)
      → s.permits + length s.running ≡ max
      → ((end_task e s).permits + length (end_task e s).running ≡ max)
        × (tracked (end_task e s) ≡ tracked s)
  unfolding end_task
  end_task_counts (i, result) s h = elim (Option-cases (extract i s.running)) [
    | inl e ↦ ground arith
    | inr ((peer, others), e) ↦
        ground (arith, length-extract i s.running e, length-append s.ended (result ∷ []))
  ]

  end_tasks_counts :
      (es : List (ℕ × TaskResult)) (s : Server)
      → s.permits + length s.running ≡ max
      → ((end_tasks es s).permits + length (end_tasks es s).running ≡ max)
        × (tracked (end_tasks es s) ≡ tracked s)
  unfolding end_tasks
  end_tasks_counts [] s h = (h, refl)
  end_tasks_counts (e ∷ es) s h =
      let (b, t) = end_task_counts e s h in
      let (b', t') = end_tasks_counts es (end_task e s) b in (b', t' ∙ t)

  -- A connection is served if a permit is free.
  admit-IsBounded :
      (peer : Text) (s : Server)
      → s.permits + length s.running ≡ max
      → tracked s ≤ max
      → IsBounded max (admit peer s)
  unfolding admit
  admit-IsBounded peer s h t = counts s.permits refl
    where
      counts : (p : ℕ) → s.permits ≡ p → IsBounded max (admit peer s)
      counts zero e = ground arith
      counts (suc free) e = ground (arith, length-append s.running (peer ∷ []))

  accepted-IsBounded :
      (incoming : Option (Result Text Text)) (s : Server)
      → s.permits + length s.running ≡ max
      → tracked s ≤ max
      → ServedBounded max (accepted incoming s)
  accepted-IsBounded none s h t = ground arith
  accepted-IsBounded (some (err e)) s h t = tt
  accepted-IsBounded (some (ok peer)) s h t = admit-IsBounded peer s h t

  join_or_accept-IsBounded :
      (r : Round) (ended : List TaskResult) (s : Server)
      → s.ended ≡ ended
      → IsBounded max s
      → ServedBounded max (join_or_accept r ended s)
  join_or_accept-IsBounded r (result ∷ rest) s e h = ground arith
  join_or_accept-IsBounded r [] s e h =
      let (b, t) = end_tasks_counts r.between s h.balanced in
      accepted-IsBounded r.accept (end_tasks r.between s) b (ground arith)

  iteration-IsBounded :
      (r : Round) (s : Server) → IsBounded max s → ServedBounded max (iteration r s)
  unfolding iteration
  iteration-IsBounded r s h =
      let s' = end_tasks r.before s in
      let (b, t) = end_tasks_counts r.before s h.balanced in
      let h' : IsBounded max s' = ground arith in
      elim (Bool-cases r.shutdown) [
        | inl y ↦ rw y h'
        | inr n ↦ rw n (join_or_accept-IsBounded r s'.ended s' refl h')
      ]

  go_on-IsBounded :
      (next : Server → Served)
      → ((s : Server) → IsBounded max s → ServedBounded max (next s))
      → (o : Served) → ServedBounded max o
      → ServedBounded max (go_on next o)
  go_on-IsBounded next h (serving s) b = h s b
  go_on-IsBounded next h (returned (ok s)) b = b
  go_on-IsBounded next h (returned (err e)) b = b

  serve-IsBounded_from :
      (rs : List Round) (s : Server) → IsBounded max s → ServedBounded max (serve rs s)
  unfolding serve
  serve-IsBounded_from [] s h = h
  serve-IsBounded_from (r ∷ rs) s h =
      go_on-IsBounded (serve rs) (serve-IsBounded_from rs) (iteration r s)
        (iteration-IsBounded r s h)

-- However connections come and go, permits and running tasks add up to the cap, and the loop keeps at
-- most one task more than the cap in its set, ended ones included; so it is when it returns.
pub serve-IsBounded :
    (max_connections : ℕ) (rs : List Round)
    → ServedBounded max_connections (serve rs (started max_connections))
serve-IsBounded max rs = serve-IsBounded_from max rs (started max) (omega arith)
