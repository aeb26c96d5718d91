-- ===== src/Examples/QueryExtended.antt =====
-- Portals over a pipeline that counts its runs.
use Prim.Native.Nat.{zero, suc}
use postgresql_trino_gateway.Prelude.{
  ℕ, ◌≤◌, ◌≡◌, ◌≢◌, inl, refl, Bool, true, false, Option, none, some, List, [], ◌∷◌, length, ok,
  arith,
}
use postgresql_trino_gateway.Prelude.Text.{Text, codes, text_eq}
use postgresql_trino_gateway.Prelude.Equality.{text_equality}
use postgresql_trino_gateway.Prelude.Map.{get, insert, remove}
use postgresql_trino_gateway.Wire.{FieldFormat, PgWireResult, Response, execution}
use postgresql_trino_gateway.Session.{CachedPortalResponse, PortalCache, max_cached_portals}
use postgresql_trino_gateway.QueryExtended.{
  Portal, Conn, Pipeline, Format, first_response, do_query, do_describe_portal, fields_of,
  insert_cached, take_cached,
}
use postgresql_trino_gateway.QueryExtended.Cache.{
  Produced, ConnInv, Call, executes, describes, run, run-ConnInv, do_query-Produced,
}
use postgresql_trino_gateway.QueryExtended.Once.{HasRoom, describe_execute_once}

-- Answers a statement with a tag that is its text.
abbrev echo_query : Text → Option Format → Bool → ℕ → ℕ × PgWireResult (List Response)
echo_query sql format secure n = (suc n, ok (execution sql ∷ []))

abbrev echo : Pipeline
echo = record { World = ℕ; process_query = echo_query; returns_rows = λ _. true }

abbrev portal : Text → Portal
portal sql = record {
  name = codes "p";
  statement = sql;
  result_column_format = λ _. FieldFormat.text;
}

abbrev empty_cache : PortalCache
empty_cache = record { poisoned = false; entries = [] }

abbrev conn : PortalCache → Conn ℕ
conn cache = record { portals = some cache; is_secure = true; world = 0 }

empty_room : HasRoom empty_cache (codes "p")
empty_room = (refl, inl (omega arith))

describe_execute_once_example :
    let (c1, described) = do_describe_portal echo (portal (codes "a")) (conn empty_cache) in
    let (c2, executed) = do_query echo (portal (codes "a")) c1 in
    (described ≡ ok (fields_of (execution (codes "a"))))
    × (executed ≡ ok (execution (codes "a")))
    × (c1.world ≡ 1)
    × (c2.world ≡ 1)
    × (c2.portals
        ≡ some (record empty_cache {
          entries = remove (codes "p") (
              insert
                (codes "p")
                (record { query = codes "a"; response = execution (codes "a") })
                empty_cache.entries);
        }))
describe_execute_once_example =
    describe_execute_once echo (portal (codes "a")) (portal (codes "a")) (conn empty_cache)
      empty_cache 1 (execution (codes "a")) [] refl empty_room refl refl refl

abbrev entry_a : CachedPortalResponse
entry_a = record { query = codes "a"; response = execution (codes "a") }

abbrev cache_a : PortalCache
cache_a = record { poisoned = false; entries = (codes "p", entry_a) ∷ [] }

entry_a_found : get (codes "p") cache_a.entries ≡ some entry_a
unfolding get text_eq
entry_a_found = refl

a_not_b : codes "a" ≢ codes "b"
a_not_b e = ground arith

-- Entries under the names of one to `n` zeros.
abbrev names : ℕ → Text
names zero = []
names (suc n) = b'0' ∷ names n

abbrev entries : ℕ → List (Text × CachedPortalResponse)
entries zero = []
entries (suc n) = (names n, entry_a) ∷ entries n

abbrev full_cache : PortalCache
full_cache = record { poisoned = false; entries = entries 64 }

full_cache_is_full : max_cached_portals ≤ length full_cache.entries
full_cache_is_full = omega arith

p_absent : get (codes "p") full_cache.entries ≡ none
unfolding get text_eq
p_absent = refl

empty-ConnInv : ConnInv echo (conn empty_cache)
empty-ConnInv cache e = record {
  bounded = ground arith;
  produced = λ name entry h. unfold get in ground arith;
}

abbrev calls : List (Call echo)
calls =
    describes (portal (codes "a"))
    ∷ executes (portal (codes "b"))
    ∷ describes (portal (codes "b"))
    ∷ []

run-ConnInv_example : ConnInv echo (run echo (conn empty_cache) calls)
run-ConnInv_example = run-ConnInv echo (conn empty_cache) calls empty-ConnInv

b_answered :
    (do_query echo (portal (codes "b")) (run echo (conn empty_cache) calls)).1
    ≡ ok (execution (codes "b"))
unfolding do_query run do_describe_portal first_response insert_cached take_cached get insert
    text_eq remove
b_answered = refl

do_query-Produced_example : Produced echo (codes "b") (execution (codes "b"))
do_query-Produced_example =
    do_query-Produced echo (conn empty_cache) calls (portal (codes "b")) (execution (codes "b"))
      empty-ConnInv b_answered
