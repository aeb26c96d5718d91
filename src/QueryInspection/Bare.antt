-- ===== src/QueryInspection/Bare.antt =====
-- The exact shape of a bare scalar SELECT (src/query_inspection.rs, `bare_select`).
use postgresql_trino_gateway.Prelude.{
  ◌≡◌, ◌↔◌, refl, inl, inr, true, false, ◌==◌, Option, none, some, List, [], ◌∷◌, arith, is_some,
  is_empty, length, Option-cases,
}
use postgresql_trino_gateway.Sql.{
  SelectItem, GroupByExpr, expressions, Select, SetExpr, select, other_body, Query, Statement,
  other_statement, Parsed,
}
use postgresql_trino_gateway.QueryInspection.{
  is_bare_scalar_select, bare_select, bare_select_of, plain_query, plain_select, single_query,
  select_of, has_group_by,
}

-- One statement, `SELECT item` with no other clause.
record IsBare (p : Parsed) : Type 0 where
  pub q : Query
  pub s : Select
  pub item : SelectItem
  pub statements : p.statements ≡ Statement.query q ∷ []
  pub no_with : q.with_clause ≡ none
  pub no_order_by : q.order_by ≡ none
  pub no_limit : q.limit_clause ≡ none
  pub no_fetch : q.fetch ≡ none
  pub body : q.body ≡ select s
  pub projection : s.projection ≡ item ∷ []
  pub no_from : s.from ≡ []
  pub no_where : s.selection ≡ none
  pub no_group_by : s.group_by ≡ expressions [] []
  pub no_having : s.having ≡ none
  pub no_cluster_by : s.cluster_by ≡ []
  pub no_distribute_by : s.distribute_by ≡ []
  pub no_sort_by : s.sort_by ≡ []
  pub no_qualify : s.qualify ≡ none

single_query_sound :
    (stmts : List Statement) (q : Query)
    → single_query stmts ≡ some q
    → stmts ≡ Statement.query q ∷ []
single_query_sound [] q h = ground arith
single_query_sound (Statement.query r ∷ []) q h = ground arith
single_query_sound (other_statement n ∷ []) q h = ground arith
single_query_sound (s ∷ t ∷ ss) q h = ground arith

select_of_sound : (b : SetExpr) (s : Select) → select_of b ≡ some s → b ≡ select s
select_of_sound (select r) s h = ground arith
select_of_sound (other_body n) s h = ground arith

single_item : {A : Type 0} (xs : List A) → (length xs == 1) ≡ true → (x : A) × (xs ≡ x ∷ [])
single_item [] h = ground arith
single_item (x ∷ []) h = (x, refl)
single_item (x ∷ y ∷ xs) h = absurd (ground arith)

no_items : {A : Type 0} (xs : List A) → is_empty xs ≡ true → xs ≡ []
no_items [] h = refl
no_items (x ∷ xs) h = ground arith

no_value : {A : Type 0} (x : Option A) → is_some x ≡ false → x ≡ none
no_value none h = refl
no_value (some a) h = ground arith

no_groups : (g : GroupByExpr) → has_group_by g ≡ false → g ≡ expressions [] []
no_groups (expressions [] []) h = refl
no_groups (expressions [] (m ∷ ms)) h = ground arith
no_groups (expressions (e ∷ es) ms) h = ground arith
no_groups (GroupByExpr.all ms) h = ground arith

bare_select_of_sound :
    (q : Query) (s : Select)
    → bare_select_of q ≡ some s
    → (plain_query q ≡ true) × (q.body ≡ select s) × (plain_select s ≡ true)
unfolding bare_select_of
bare_select_of_sound q s h = elim (Option-cases (select_of q.body)) [
  | inl n ↦ ground arith
  | inr (r, e) ↦ ground (arith, select_of_sound q.body r e)
]

bare_query :
    (p : Parsed)
    → is_bare_scalar_select (some p) ≡ true
    → (q : Query) × (s : Select) × (p.statements ≡ Statement.query q ∷ [])
      × (bare_select_of q ≡ some s)
unfolding is_bare_scalar_select bare_select
bare_query p h = elim (Option-cases (single_query p.statements)) [
  | inl n ↦ ground arith
  | inr (q, e) ↦ elim (Option-cases (bare_select_of q)) [
    | inl n ↦ ground arith
    | inr (s, f) ↦ (q, s, single_query_sound p.statements q e, f)
  ]
]

is_bare_scalar_select-IsBare : (p : Parsed) → is_bare_scalar_select (some p) ≡ true → IsBare p
unfolding plain_query plain_select
is_bare_scalar_select-IsBare p h =
    let (q, s, stmts, b) = bare_query p h in
    let (pq, body, ps) = bare_select_of_sound q s b in
    let (item, proj) = single_item s.projection (ground arith) in
    record {
      q = q;
      s = s;
      item = item;
      statements = stmts;
      no_with = no_value q.with_clause (ground arith);
      no_order_by = no_value q.order_by (ground arith);
      no_limit = no_value q.limit_clause (ground arith);
      no_fetch = no_value q.fetch (ground arith);
      body = body;
      projection = proj;
      no_from = no_items s.from (ground arith);
      no_where = no_value s.selection (ground arith);
      no_group_by = no_groups s.group_by (ground arith);
      no_having = no_value s.having (ground arith);
      no_cluster_by = no_items s.cluster_by (ground arith);
      no_distribute_by = no_items s.distribute_by (ground arith);
      no_sort_by = no_items s.sort_by (ground arith);
      no_qualify = no_value s.qualify (ground arith);
    }

IsBare-is_bare_scalar_select : (p : Parsed) → IsBare p → is_bare_scalar_select (some p) ≡ true
unfolding is_bare_scalar_select bare_select plain_query plain_select
IsBare-is_bare_scalar_select p b = rw (
  b.statements, b.no_with, b.no_order_by, b.no_limit, b.no_fetch, b.body, b.no_from, b.no_where,
  b.no_group_by, b.no_having, b.no_cluster_by, b.no_distribute_by, b.no_sort_by, b.no_qualify,
  b.projection,
)

-- A parsed query is taken for a bare scalar SELECT exactly when it is one statement that is a SELECT
-- of one item and has none of the clauses that the record lists.
is_bare_scalar_select_iff : (p : Parsed) → (is_bare_scalar_select (some p) ≡ true) ↔ IsBare p
is_bare_scalar_select_iff p = (is_bare_scalar_select-IsBare p, IsBare-is_bare_scalar_select p)
