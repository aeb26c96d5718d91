-- ===== src/TrinoStream/Panics.antt =====
-- The shapes of rows and schemas in src/trino_stream.rs, and the index `schema[idx]`.
use postgresql_trino_gateway.Prelude.{
  ℕ, suc, ◌≡◌, ◌≢◌, refl, ap, inl, inr, Option, none, some, List, [], ◌∷◌, ◌++◌, map, arith, length,
  All, ok, unwrap_or, Option-cases,
}
use postgresql_trino_gateway.Prelude.Text.{Text}
use postgresql_trino_gateway.Wire.{
  FieldFormat, FieldInfo, PgWireResult, DataRow, Value, TrinoColumn, PageStream, ActiveQueryId,
}
use postgresql_trino_gateway.Session.{Gateway, set_active_query_id}
use postgresql_trino_gateway.TrinoStream.{
  QueryResult, Reply, page, failed, Encoding, finished, extract_direct_rows, build_fields,
  build_pg_schema, encode_row, poll_columns, execute_trino_query, run_stream, poll_rows,
}

module _ (encoding : Encoding) where
  length-build_fields :
      (format : Option (ℕ → FieldFormat)) (idx : ℕ) (columns : List TrinoColumn)
      → length (build_fields encoding format idx columns) ≡ length columns
  unfolding build_fields
  length-build_fields format idx [] = refl
  length-build_fields format idx (c ∷ cs) = ap suc (length-build_fields format (suc idx) cs)

  encode_row_some :
      (values : List Value) (columns : List TrinoColumn) (schema : List FieldInfo)
      → length schema ≡ length columns
      → encode_row encoding values columns schema ≢ none
  unfolding encode_row
  encode_row_some [] columns schema h e = cc
  encode_row_some (v ∷ values) [] schema h e = cc
  encode_row_some (v ∷ values) (c ∷ columns) [] h e = absurd (omega arith)
  encode_row_some (v ∷ values) (c ∷ columns) (f ∷ schema) h e =
      ground (arith, encode_row_some values columns schema)

  -- No item is a panic.
  abbrev pub NoPanic : List (Option (PgWireResult DataRow)) → Type 0
  NoPanic = All (λ item. item ≢ none)

  NoPanic-append :
      (a b : List (Option (PgWireResult DataRow))) → NoPanic a → NoPanic b → NoPanic (a ++ b)
  NoPanic-append [] b h k = k
  NoPanic-append (x ∷ a) b h k = (h.0, NoPanic-append a b h.1 k)

  NoPanic-map :
      (columns : List TrinoColumn) (schema : List FieldInfo) (rows : List (List Value))
      → length schema ≡ length columns
      → NoPanic (map (λ values. encode_row encoding values columns schema) rows)
  NoPanic-map columns schema [] h = tt
  NoPanic-map columns schema (r ∷ rows) h =
      (encode_row_some r columns schema h, NoPanic-map columns schema rows h)

  NoPanic-poll_rows :
      (columns : List TrinoColumn) (schema : List FieldInfo) (replies : List Reply)
      (uri : Option Text)
      → length schema ≡ length columns
      → NoPanic (poll_rows (λ values. encode_row encoding values columns schema) replies uri).0
  unfolding poll_rows
  NoPanic-poll_rows columns schema [] none h = tt
  NoPanic-poll_rows columns schema [] (some url) h = tt
  NoPanic-poll_rows columns schema (failed m ∷ replies) none h = tt
  NoPanic-poll_rows columns schema (failed m ∷ replies) (some url) h = (λ e. cc, tt)
  NoPanic-poll_rows columns schema (page p ∷ replies) none h = tt
  NoPanic-poll_rows columns schema (page p ∷ replies) (some url) h = elim (Option-cases p.error) [
    | inr (m, e) ↦ rw e (λ q. cc, tt)
    | inl e ↦ rw e (
        NoPanic-append _ _ (NoPanic-map columns schema (extract_direct_rows p.rows) h)
          (NoPanic-poll_rows columns schema replies p.next_uri h))
  ]

  module _ (slot : Option ActiveQueryId) (format : Option (ℕ → FieldFormat)) where
    poll_columns-shape :
        (replies : List Reply) (columns : List TrinoColumn) (rows : List (List Value))
        (uri : Option Text) (g g' : Gateway) (schema : List FieldInfo) (st : PageStream)
        (rest : List Reply)
        → poll_columns encoding slot format replies columns rows uri g
          ≡ (g', finished (ok (schema, st)) rest)
        → length st.schema ≡ length st.columns
    unfolding poll_columns build_pg_schema
    poll_columns-shape replies (c ∷ cs) rows uri g g' schema st rest h =
        ground (arith, length-build_fields format 1 cs)
    poll_columns-shape [] [] rows none g g' schema st rest h = ground arith
    poll_columns-shape (r ∷ replies) [] rows none g g' schema st rest h = ground arith
    poll_columns-shape [] [] rows (some url) g g' schema st rest h = ground arith
    poll_columns-shape (failed m ∷ replies) [] rows (some url) g g' schema st rest h = ground arith
    poll_columns-shape (page p ∷ replies) [] rows (some url) g g' schema st rest h =
        elim (Option-cases p.error) [
          | inr (m, e) ↦ ground arith
          | inl e ↦
              poll_columns-shape replies (unwrap_or p.columns [])
                (rows ++ extract_direct_rows p.rows) p.next_uri g g' schema st rest (ground arith)
        ]

    executed_shape :
        (p : QueryResult) (replies rest : List Reply) (g g' : Gateway) (schema : List FieldInfo)
        (st : PageStream)
        → execute_trino_query encoding slot format (page p ∷ replies) g
          ≡ (g', finished (ok (schema, st)) rest)
        → length st.schema ≡ length st.columns
    unfolding execute_trino_query
    executed_shape p replies rest g g' schema st h = elim (Option-cases p.error) [
      | inr (m, e) ↦ ground arith
      | inl e ↦
          poll_columns-shape replies (unwrap_or p.columns []) (extract_direct_rows p.rows)
            p.next_uri (set_active_query_id slot (some p.id) g) g' schema st rest (ground arith)
    ]

    -- A stream that a query opened never panics on `schema[idx]`, whatever rows the pages carry.
    pub run_stream-NoPanic :
        (p : QueryResult) (replies rest : List Reply) (g g' : Gateway) (schema : List FieldInfo)
        (st : PageStream)
        → execute_trino_query encoding slot format (page p ∷ replies) g
          ≡ (g', finished (ok (schema, st)) rest)
        → NoPanic (run_stream encoding st rest g').1.0
    unfolding run_stream
    run_stream-NoPanic p replies rest g g' schema st h =
        let shape = executed_shape p replies rest g g' schema st h in
        NoPanic-append _ _ (NoPanic-map st.columns st.schema st.initial_rows shape)
          (NoPanic-poll_rows st.columns st.schema rest st.next_uri shape)
