-- ===== src/TrinoStream/Slot.antt =====
-- The query id in a connection's slot while src/trino_stream.rs runs a query.
use postgresql_trino_gateway.Prelude.{
  ℕ, ◌≡◌, subst, inl, inr, false, Option, none, some, List, [], ◌∷◌, ◌++◌, arith, ok, err,
  unwrap_or, Option-cases, if◌then◌else◌,
}
use postgresql_trino_gateway.Prelude.Text.{Text}
use postgresql_trino_gateway.Wire.{
  FieldFormat, FieldInfo, Value, TrinoColumn, PageStream, ActiveQueryId,
}
use postgresql_trino_gateway.Session.{Gateway, set_active_query_id}
use postgresql_trino_gateway.TrinoStream.{
  QueryResult, Reply, page, failed, Encoding, finished, waiting, extract_direct_rows, poll_columns,
  execute_trino_query, Opened, run_stream, drop_stream,
}

module _ (encoding : Encoding) (slot : ActiveQueryId) (format : Option (ℕ → FieldFormat)) where
  -- What the slot holds after polling for the columns: the same id if a stream opened or a reply is
  -- awaited, nothing after an error.
  abbrev pub SlotAfter : Option Text → Opened → Type 0
  SlotAfter id (g, finished (ok (schema, st)) rest) =
      (g.slots slot ≡ id) × (st.active_query_id ≡ some slot)
  SlotAfter id (g, finished (err e) rest) = g.slots slot ≡ none
  SlotAfter id (g, waiting) = g.slots slot ≡ id

  poll_columns-SlotAfter :
      (replies : List Reply) (columns : List TrinoColumn) (rows : List (List Value))
      (uri : Option Text) (g : Gateway) (id : Option Text)
      → g.slots slot ≡ id
      → SlotAfter id (poll_columns encoding (some slot) format replies columns rows uri g)
  unfolding poll_columns set_active_query_id
  poll_columns-SlotAfter replies (c ∷ cs) rows uri g id h = ground arith
  poll_columns-SlotAfter [] [] rows none g id h = ground arith
  poll_columns-SlotAfter (r ∷ replies) [] rows none g id h = ground arith
  poll_columns-SlotAfter [] [] rows (some url) g id h = h
  poll_columns-SlotAfter (failed m ∷ replies) [] rows (some url) g id h = ground arith
  poll_columns-SlotAfter (page p ∷ replies) [] rows (some url) g id h =
      elim (Option-cases p.error) [
        | inr (m, e) ↦ rw e (ground arith)
        | inl e ↦ rw e (
            poll_columns-SlotAfter replies (unwrap_or p.columns [])
              (rows ++ extract_direct_rows p.rows) p.next_uri g id h)
      ]

  -- From the first page on a running query is cancellable: while its columns are awaited, and once
  -- its stream is open, the slot holds its id; after an error the slot is empty.
  pub execute-SlotAfter :
      (p : QueryResult) (replies : List Reply) (g : Gateway)
      → SlotAfter (some p.id) (execute_trino_query encoding (some slot) format (page p ∷ replies) g)
  unfolding execute_trino_query set_active_query_id
  execute-SlotAfter p replies g = elim (Option-cases p.error) [
    | inr (m, e) ↦ rw e (ground arith)
    | inl e ↦ rw e (
        poll_columns-SlotAfter replies (unwrap_or p.columns []) (extract_direct_rows p.rows)
          p.next_uri (set_active_query_id (some slot) (some p.id) g) (some p.id) (ground arith))
  ]

  -- A stream that runs to its end or to an error leaves the slot empty; one that waits for a page
  -- leaves it as it is.
  run_stream-slot :
      (st : PageStream) (replies : List Reply) (g : Gateway)
      → st.active_query_id ≡ some slot
      → (run_stream encoding st replies g).0.slots slot
        ≡ (if (run_stream encoding st replies g).1.1 then none else g.slots slot)
  unfolding run_stream set_active_query_id
  run_stream-slot st replies g h = ground arith

  -- A stream that is dropped before it was ever polled does not clear the slot: the id of a query
  -- that nobody reads stays there.
  drop_unpolled_stream :
      (p : QueryResult) (replies rest : List Reply) (g g' : Gateway) (schema : List FieldInfo)
      (st : PageStream)
      → execute_trino_query encoding (some slot) format (page p ∷ replies) g
        ≡ (g', finished (ok (schema, st)) rest)
      → (drop_stream false st g').slots slot ≡ some p.id
  unfolding drop_stream
  drop_unpolled_stream p replies rest g g' schema st h =
      (subst (SlotAfter (some p.id)) h (execute-SlotAfter p replies g)).0
