-- ===== src/Rewrite/Limits.antt =====
-- What `LimitOffsetRewriter` (src/rewrite/limit_offset.rs) does to the rows that a query selects, and
-- to the order of its clauses.
use postgresql_trino_gateway.Prelude.{
  ℕ, ◌≡◌, refl, sym, subst, inl, inr, Bool, true, false, not, ◌&&◌, Option, none, some, List, [],
  take, drop, ◌∷◌, if◌then◌else◌, Bool-cases,
}
use postgresql_trino_gateway.Sql.{Expr, SetExpr, LimitClause, Fetch, Query}
use postgresql_trino_gateway.Rewrite.{is_zero_literal, post_visit_query}

abbrev pub query_of :
    (with_clause order_by : Option ℕ) → SetExpr → Option LimitClause → Option Fetch → Query
query_of w o b clause f = record {
  with_clause = w;
  body = b;
  order_by = o;
  limit_clause = clause;
  fetch = f;
}

-- The rows that a query's row-limiting clauses keep of `rows`, where an expression counts `count`
-- rows; `other_limit` and `other_fetch` stand for MySQL's and ClickHouse's clauses, ties and percents.
module _ {ℓ} {A : Type ℓ} (count : Expr → ℕ) (other_limit : LimitClause → List A → List A)
    (other_fetch : Fetch → List A → List A) where
  abbrev pub offset_rows : Option Expr → List A → List A
  offset_rows none rows = rows
  offset_rows (some e) rows = drop (count e) rows

  abbrev pub limit_rows : Option Expr → List A → List A
  limit_rows none rows = rows
  limit_rows (some e) rows = take (count e) rows

  abbrev pub clause_rows : Option LimitClause → List A → List A
  clause_rows none rows = rows
  clause_rows (some (LimitClause.limit_offset limit offset [])) rows =
      limit_rows limit (offset_rows offset rows)
  clause_rows (some clause) rows = other_limit clause rows

  -- `FETCH FIRST ROW ONLY` has no quantity.
  abbrev pub quantity_rows : Option Expr → List A → List A
  quantity_rows none rows = take 1 rows
  quantity_rows (some e) rows = take (count e) rows

  abbrev pub fetch_rows : Option Fetch → List A → List A
  fetch_rows none rows = rows
  fetch_rows (some f) rows =
      if not f.with_ties && not f.percent then quantity_rows f.quantity rows else other_fetch f rows

  abbrev pub selected : Query → List A → List A
  selected q rows = fetch_rows q.fetch (clause_rows q.limit_clause rows)

  -- A literal zero counts no rows.
  abbrev pub ZeroCounts : Type 0
  ZeroCounts = (e : Expr) → is_zero_literal e ≡ true → count e ≡ 0

  fields_rows :
      ZeroCounts
      → (with_clause order_by : Option ℕ) (body : SetExpr) (clause : Option LimitClause)
        (fetch : Option Fetch) (rows : List A)
      → let q = query_of with_clause order_by body clause fetch in
        selected (post_visit_query q) rows ≡ selected q rows
  unfolding post_visit_query
  fields_rows h w o b clause (some f) rows = refl
  fields_rows h w o b none none rows = refl
  fields_rows h w o b (some (LimitClause.offset_comma_limit x y)) none rows = refl
  fields_rows h w o b (some (LimitClause.limit_offset l none by)) none rows = refl
  fields_rows h w o b (some (LimitClause.limit_offset l (some m) (x ∷ by))) none rows = refl
  fields_rows h w o b (some (LimitClause.limit_offset none (some m) [])) none rows = refl
  fields_rows h w o b (some (LimitClause.limit_offset (some e) (some m) [])) none rows =
      elim (Bool-cases (is_zero_literal e)) [ inl z ↦ rw (z, h e z) refl | inr z ↦ rw z refl ]

  -- The rewritten query selects the same rows from the same input, for every form of LIMIT, OFFSET
  -- and FETCH, where an expression counts some number of rows and a literal zero counts none.
  pub post_visit_query-selected :
      ZeroCounts
      → (q : Query) (rows : List A) → selected (post_visit_query q) rows ≡ selected q rows
  post_visit_query-selected h q =
      fields_rows h q.with_clause q.order_by q.body q.limit_clause q.fetch

-- Trino wants OFFSET before LIMIT, and sqlparser prints LIMIT first.
abbrev pub in_trino_order : Option LimitClause → Bool
in_trino_order (some (LimitClause.limit_offset (some l) (some o) [])) = false
in_trino_order clause = true

-- Trino wants a positive number in FETCH FIRST.
abbrev pub is_positive_fetch : Option Fetch → Bool
is_positive_fetch none = true
is_positive_fetch (some f) = elim f.quantity [ none ↦ true | some e ↦ not (is_zero_literal e) ]

abbrev pub trino_accepts : Query → Bool
trino_accepts q = in_trino_order q.limit_clause && is_positive_fetch q.fetch

fields_accepted :
    (with_clause order_by : Option ℕ) (body : SetExpr) (clause : Option LimitClause)
    → trino_accepts (post_visit_query (query_of with_clause order_by body clause none)) ≡ true
unfolding post_visit_query
fields_accepted w o b none = refl
fields_accepted w o b (some (LimitClause.offset_comma_limit x y)) = refl
fields_accepted w o b (some (LimitClause.limit_offset none none by)) = refl
fields_accepted w o b (some (LimitClause.limit_offset (some e) none by)) = refl
fields_accepted w o b (some (LimitClause.limit_offset none (some m) [])) = refl
fields_accepted w o b (some (LimitClause.limit_offset none (some m) (x ∷ by))) = refl
fields_accepted w o b (some (LimitClause.limit_offset (some e) (some m) (x ∷ by))) = refl
fields_accepted w o b (some (LimitClause.limit_offset (some e) (some m) [])) =
    elim (Bool-cases (is_zero_literal e)) [ inl z ↦ rw z refl | inr z ↦ rw (z, z) refl ]

-- A query without FETCH is rewritten to one that Trino accepts: LIMIT does not stand with OFFSET in
-- one clause (ClickHouse's LIMIT BY aside), and a FETCH FIRST is not of a literal zero.
post_visit_query-accepted : (q : Query) → q.fetch ≡ none → trino_accepts (post_visit_query q) ≡ true
post_visit_query-accepted q h =
    subst
      (λ f.
        trino_accepts (post_visit_query (query_of q.with_clause q.order_by q.body q.limit_clause f))
        ≡ true)
      (sym h) (fields_accepted q.with_clause q.order_by q.body q.limit_clause)
