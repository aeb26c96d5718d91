-- ===== src/QueryExtended.antt =====
-- src/query_extended.rs: the extended-query handler with its portal cache. The query pipeline
-- (src/query_pipeline.rs) is the parameter `process_query`, on a state of its own: it is given the
-- query, the bound result format and whether the client's connection is secure.
pub mod Entries
pub mod Cache
pub mod Once
pub mod Runs
use postgresql_trino_gateway.Prelude.{
  ℕ, ◌≡◌, Bool, true, false, not, ◌&&◌, Option, none, some, List, [], ◌∷◌, if◌then◌else◌, leb,
  length, first, map, unwrap_or, Result, ok, err,
}
use postgresql_trino_gateway.Prelude.Text.{Text, codes, text_eq}
use postgresql_trino_gateway.Prelude.Equality.{text_equality}
use postgresql_trino_gateway.Prelude.Map.{get, insert, remove, contains_key}
use postgresql_trino_gateway.Wire.{
  PgType, FieldFormat, FieldInfo, PgWireError, PgWireResult, api_error, Response, query, execution,
  error,
}
use postgresql_trino_gateway.Session.{CachedPortalResponse, PortalCache, max_cached_portals}

-- pgwire's `Format`: the format of each result column.
abbrev pub Format : Type 0
Format = ℕ → FieldFormat

pub record Portal : Type 0 where
  pub name : Text
  pub statement : Text
  pub result_column_format : Format

pub record StoredStatement : Type 0 where
  pub statement : Text
  pub parameter_types : List (Option PgType)

pub data DescribeStatementResponse : Type 0 where
  no_data : DescribeStatementResponse
  described : List PgType → List FieldInfo → DescribeStatementResponse

poisoned_error : PgWireError
poisoned_error = api_error (codes "portal cache mutex poisoned")

missing_state_error : PgWireError
missing_state_error = api_error (codes "Connection state not found")

empty_response_error : PgWireError
empty_response_error = api_error (codes "Empty pipeline response")

-- The entry of the portal, which leaves the cache.
unfoldable pub take_cached :
    PortalCache → Text → PortalCache × PgWireResult (Option CachedPortalResponse)
unfolding poisoned_error
take_cached cache name =
    if cache.poisoned
    then (cache, err poisoned_error)
    else (record cache { entries = remove name cache.entries }, ok (get name cache.entries))

unfoldable pub insert_cached :
    PortalCache → Text → CachedPortalResponse → PortalCache × PgWireResult (Unit {0})
unfolding poisoned_error
insert_cached cache name entry =
    if cache.poisoned
    then (cache, err poisoned_error)
    else if leb max_cached_portals (length cache.entries) && not (contains_key name cache.entries)
    then (cache, ok tt)
    else (record cache { entries = insert name entry cache.entries }, ok tt)

abbrev pub fields_of : Response → List FieldInfo
fields_of (query row_schema rows) = row_schema
fields_of (execution tag) = []
fields_of (error info) = []

-- The connection's cache, if its state is there, whether it is secure, and the pipeline's state.
pub record Conn (W : Type 0) : Type 0 where
  pub portals : Option PortalCache
  pub is_secure : Bool
  pub world : W

abbrev pub Handler : Type 0 → Type 0 → Type 0
Handler W A = Conn W → Conn W × PgWireResult A

infixl 5 ◌>>=◌ ◌>>◌
abbrev ◌>>=◌ : {W A B : Type 0} → Handler W A → (A → Handler W B) → Handler W B
◌>>=◌ m f c = let (c', r) = m c in elim r [ ok a ↦ f a c' | err e ↦ (c', err e) ]

abbrev ◌>>◌ : {W B : Type 0} → Handler W (Unit {0}) → Handler W B → Handler W B
m >> k = m >>= λ _. k

abbrev done : {W A : Type 0} → A → Handler W A
done a c = (c, ok a)

-- What the handler calls: the pipeline, and whether a text is a statement that returns rows.
pub record Pipeline : Type 1 where
  pub World : Type 0
  pub process_query : Text → Option Format → Bool → World → World × PgWireResult (List Response)
  pub returns_rows : Text → Bool

module _ (pipeline : Pipeline) where
  open pipeline use {World, process_query, returns_rows}

  -- `session_extensions().get::<ConnectionState>()`, and an operation on its cache.
  on_cache : {A : Type 0} → (PortalCache → PortalCache × PgWireResult A) → Handler World A
  unfolding missing_state_error
  on_cache f c = elim c.portals [
    | none ↦ (c, err missing_state_error)
    | some cache ↦ let (cache', r) = f cache in (record c { portals = some cache' }, r)
  ]

  -- `process_query(…).await?.into_iter().next().ok_or_else(…)?`
  unfoldable pub first_response : Text → Option Format → Handler World Response
  unfolding empty_response_error
  first_response sql format c =
      let (w, r) = process_query sql format c.is_secure c.world in
      (
        record c { world = w },
        elim r [
          | err e ↦ err e
          | ok responses ↦ elim responses [ [] ↦ err empty_response_error | r ∷ rs ↦ ok r ]
        ],
      )

  require_state : Handler World (Unit {0})
  unfolding on_cache
  require_state = on_cache (λ cache. (cache, ok tt))

  unfoldable pub do_query : Portal → Handler World Response
  unfolding on_cache
  do_query portal = do
    cached ← on_cache (λ cache. take_cached cache portal.name)
    (let fresh = first_response portal.statement (some portal.result_column_format) in
        elim cached [
          | none ↦ fresh
          | some entry ↦ if text_eq entry.query portal.statement then done entry.response else fresh
        ])

  unfoldable pub do_describe_statement : StoredStatement → Handler World DescribeStatementResponse
  unfolding require_state
  do_describe_statement stmt = if not (returns_rows stmt.statement) then done no_data else (do
    require_state
    response ← first_response stmt.statement none
    done (described (map (λ t. unwrap_or t PgType.text) stmt.parameter_types) (fields_of response)))

  unfoldable pub do_describe_portal : Portal → Handler World (List FieldInfo)
  unfolding require_state on_cache
  do_describe_portal portal = do
    require_state
    response ← first_response portal.statement (some portal.result_column_format)
    on_cache (λ cache.
        insert_cached cache portal.name (record { query = portal.statement; response = response }))
    done (fields_of response)
