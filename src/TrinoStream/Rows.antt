-- ===== src/TrinoStream/Rows.antt =====
-- The stream of src/trino_stream.rs against the plain reading of Trino's pages.
use postgresql_trino_gateway.Prelude.{
  ℕ, ◌≡◌, refl, sym, ap, ◌∙◌, inl, inr, true, false, Option, none, some, List, [], ◌∷◌, ◌++◌,
  append_assoc, map, arith, ok, err, unwrap_or, Option-cases,
}
use mathlib.Core.List.{map-append}
use postgresql_trino_gateway.Prelude.Text.{Text}
use postgresql_trino_gateway.Wire.{
  FieldFormat, FieldInfo, PgWireResult, DataRow, Value, TrinoColumn, PageStream, ActiveQueryId,
}
use postgresql_trino_gateway.Session.{Gateway, set_active_query_id}
use postgresql_trino_gateway.TrinoStream.{
  QueryResult, Reply, page, failed, Encoding, finished, trino_error, extract_direct_rows,
  poll_columns, execute_trino_query, Yielded, yield_before, encoder_of, poll_rows, run_stream,
}

pub data End : Type 0 where
  complete pending : End
  failing : Text → End

-- The specification: the rows of all pages in order, and how the chain of pages ends.
abbrev pub Chain : Type 0
Chain = List (List Value) × End

abbrev pub prepend : List (List Value) → Chain → Chain
prepend rows c = (rows ++ c.0, c.1)

pub page_chain : List Reply → Option Text → Chain
page_chain replies none = ([], complete)
page_chain [] (some url) = ([], pending)
page_chain (failed message ∷ replies) (some url) = ([], failing message)
page_chain (page p ∷ replies) (some url) =
    let more = prepend (extract_direct_rows p.rows) (page_chain replies p.next_uri) in
    elim p.error [ some message ↦ ([], failing message) | none ↦ more ]

-- Each row encoded, then one error if the chain fails.
abbrev pub end_items : End → Yielded
end_items complete = ([], true)
end_items pending = ([], false)
end_items (failing message) = (some (err (trino_error message)) ∷ [], true)

abbrev pub render : (List Value → Option (PgWireResult DataRow)) → Chain → Yielded
render encode c = yield_before (map encode c.0) (end_items c.1)

prepend-append :
    (a b : List (List Value)) (c : Chain) → prepend a (prepend b c) ≡ prepend (a ++ b) c
prepend-append a b c = rw append_assoc

render-prepend :
    (encode : List Value → Option (PgWireResult DataRow)) (rows : List (List Value)) (c : Chain)
    → yield_before (map encode rows) (render encode c) ≡ render encode (prepend rows c)
render-prepend encode rows c = rw (map-append, append_assoc)

poll_rows-render :
    (encode : List Value → Option (PgWireResult DataRow)) (replies : List Reply) (uri : Option Text)
    → poll_rows encode replies uri ≡ render encode (page_chain replies uri)
unfolding poll_rows page_chain
poll_rows-render encode [] none = refl
poll_rows-render encode [] (some url) = refl
poll_rows-render encode (failed m ∷ replies) none = refl
poll_rows-render encode (failed m ∷ replies) (some url) = refl
poll_rows-render encode (page p ∷ replies) none = refl
poll_rows-render encode (page p ∷ replies) (some url) = elim (Option-cases p.error) [
  | inr (m, e) ↦ ground arith
  | inl e ↦ ground (
    arith,
    poll_rows-render encode replies p.next_uri,
    render-prepend encode (extract_direct_rows p.rows) (page_chain replies p.next_uri),
  )
]

page_chain-page :
    (p : QueryResult) (replies : List Reply) (url : Text)
    → p.error ≡ none
    → page_chain (page p ∷ replies) (some url)
      ≡ prepend (extract_direct_rows p.rows) (page_chain replies p.next_uri)
unfolding page_chain
page_chain-page p replies url e = rw e

module _ (encoding : Encoding) (slot : Option ActiveQueryId)
    (format : Option (ℕ → FieldFormat)) where
  poll_columns-chain :
      (replies : List Reply) (columns : List TrinoColumn) (rows : List (List Value))
      (uri : Option Text) (g g' : Gateway) (schema : List FieldInfo) (st : PageStream)
      (rest : List Reply)
      → poll_columns encoding slot format replies columns rows uri g
        ≡ (g', finished (ok (schema, st)) rest)
      → prepend st.initial_rows (page_chain rest st.next_uri)
        ≡ prepend rows (page_chain replies uri)
  unfolding poll_columns
  poll_columns-chain replies (c ∷ cs) rows uri g g' schema st rest h = ground arith
  poll_columns-chain [] [] rows none g g' schema st rest h = ground arith
  poll_columns-chain (r ∷ replies) [] rows none g g' schema st rest h = ground arith
  poll_columns-chain [] [] rows (some url) g g' schema st rest h = ground arith
  poll_columns-chain (failed m ∷ replies) [] rows (some url) g g' schema st rest h = ground arith
  poll_columns-chain (page p ∷ replies) [] rows (some url) g g' schema st rest h =
      elim (Option-cases p.error) [
        | inr (m, e) ↦ ground arith
        | inl e ↦
            let new = extract_direct_rows p.rows in
            poll_columns-chain replies (unwrap_or p.columns []) (rows ++ new) p.next_uri g g' schema
              st rest (ground arith)
            ∙ sym (prepend-append rows new (page_chain replies p.next_uri))
            ∙ ap (prepend rows) (sym (page_chain-page p replies url e))
      ]

  executed_chain :
      (p : QueryResult) (replies rest : List Reply) (g g' : Gateway) (schema : List FieldInfo)
      (st : PageStream)
      → execute_trino_query encoding slot format (page p ∷ replies) g
        ≡ (g', finished (ok (schema, st)) rest)
      → prepend st.initial_rows (page_chain rest st.next_uri)
        ≡ prepend (extract_direct_rows p.rows) (page_chain replies p.next_uri)
  unfolding execute_trino_query
  executed_chain p replies rest g g' schema st h = elim (Option-cases p.error) [
    | inr (m, e) ↦ ground arith
    | inl e ↦
        poll_columns-chain replies (unwrap_or p.columns []) (extract_direct_rows p.rows) p.next_uri
          (set_active_query_id slot (some p.id) g) g' schema st rest (ground arith)
  ]

  run_stream_lem :
      (st : PageStream) (rest : List Reply) (g : Gateway)
      → (run_stream encoding st rest g).1
        ≡ render (encoder_of encoding st) (prepend st.initial_rows (page_chain rest st.next_uri))
  unfolding run_stream
  run_stream_lem st rest g =
      rw (poll_rows-render (encoder_of encoding st) rest st.next_uri)
        (render-prepend (encoder_of encoding st) st.initial_rows (page_chain rest st.next_uri))

  -- The stream that a query opens yields the rows of all its pages, each once and in order, however
  -- many pages went by before Trino gave the columns; then it ends, fails with Trino's error, or
  -- waits, as the pages do.
  pub run_stream-render :
      (p : QueryResult) (replies rest : List Reply) (g g' : Gateway) (schema : List FieldInfo)
      (st : PageStream)
      → execute_trino_query encoding slot format (page p ∷ replies) g
        ≡ (g', finished (ok (schema, st)) rest)
      → (run_stream encoding st rest g').1
        ≡ render
            (encoder_of encoding st)
            (prepend (extract_direct_rows p.rows) (page_chain replies p.next_uri))
  run_stream-render p replies rest g g' schema st h =
      run_stream_lem st rest g'
      ∙ ap (render (encoder_of encoding st)) (executed_chain p replies rest g g' schema st h)
