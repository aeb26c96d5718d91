-- ===== src/TrinoStream.antt =====
-- src/trino_stream.rs: a Trino result as a chain of pages. Trino's replies come as a list, in the
-- order of the requests; where the list ends, the next reply is still to come.
pub mod Panics
pub mod Rows
pub mod Slot
use postgresql_trino_gateway.Prelude.{
  ℕ, zero, suc, ◌≡◌, Bool, true, false, Option, none, some, List, [], ◌∷◌, ◌++◌, if◌then◌else◌, map,
  is_empty, Result, ok, err, unwrap_or,
}
use postgresql_trino_gateway.Prelude.Text.{Text}
use postgresql_trino_gateway.ErrorMapping.{ErrorInfo, trino_error_to_pg}
use postgresql_trino_gateway.Wire.{
  PgType, FieldFormat, FieldInfo, PgWireError, PgWireResult, user_error, DataRow, Value,
  TrinoColumn, PageStream, ActiveQueryId,
}
use postgresql_trino_gateway.Session.{Gateway, set_active_query_id}

-- trino-rust-client's `QueryResultData`: rows in the reply, or any other kind.
pub data QueryResultData : Type 0 where
  direct : List (List Value) → QueryResultData
  indirect : QueryResultData

-- trino-rust-client's `QueryResult`, the fields that the source reads.
pub record QueryResult : Type 0 where
  pub id : Text
  pub columns : Option (List TrinoColumn)
  pub rows : Option QueryResultData
  pub next_uri : Option Text
  pub error : Option Text

-- A reply to a request, or why there was none.
pub data Reply : Type 0 where
  page : QueryResult → Reply
  failed : Text → Reply

-- The encoders of src/types.rs.
pub record Encoding : Type 0 where
  pub trino_type_to_pg : Text → PgType
  pub encode_cell : Value → PgType → Text → FieldFormat → PgWireResult (Option Text)

-- A computation on the replies: it ends, with those left over, or waits for the next one.
pub data Progress (A : Type 0) : Type 0 where
  finished : A → List Reply → Progress A
  waiting : Progress A

-- `PgWireError::UserError` of the mapped message.
abbrev pub trino_error : Text → PgWireError
trino_error message = user_error (trino_error_to_pg message)

abbrev pub extract_direct_rows : Option QueryResultData → List (List Value)
extract_direct_rows none = []
extract_direct_rows (some (direct rows)) = rows
extract_direct_rows (some indirect) = []

-- The items that the stream yields for the replies that have come, and whether it has ended.
abbrev pub Yielded : Type 0
Yielded = List (Option (PgWireResult DataRow)) × Bool

abbrev pub yield_before : List (Option (PgWireResult DataRow)) → Yielded → Yielded
yield_before items y = (items ++ y.0, y.1)

-- `while let Some(url) = next_uri.take()` of the stream.
unfoldable pub poll_rows :
    (List Value → Option (PgWireResult DataRow)) → List Reply → Option Text → Yielded
poll_rows encode replies none = ([], true)
poll_rows encode [] (some url) = ([], false)
poll_rows encode (failed message ∷ replies) (some url) =
    (some (err (trino_error message)) ∷ [], true)
poll_rows encode (page p ∷ replies) (some url) =
    let more =
      yield_before (map encode (extract_direct_rows p.rows))
        (poll_rows encode replies p.next_uri) in
    elim p.error [ some message ↦ (some (err (trino_error message)) ∷ [], true) | none ↦ more ]

-- What `execute_trino_query` makes of the replies: the schema and the stream, or an error.
abbrev pub Opened : Type 0
Opened = Gateway × Progress (PgWireResult (List FieldInfo × PageStream))

module _ (encoding : Encoding) where
  open encoding use {trino_type_to_pg, encode_cell}

  -- The columns from the position `idx` on.
  build_fields : Option (ℕ → FieldFormat) → ℕ → List TrinoColumn → List FieldInfo
  build_fields result_format idx [] = []
  build_fields result_format idx (col ∷ columns) =
      record {
        name = col.name;
        datatype = trino_type_to_pg col.trino_type;
        format = elim result_format [ none ↦ FieldFormat.text | some format_for ↦ format_for idx ];
      }
      ∷ build_fields result_format (suc idx) columns

  unfoldable pub build_pg_schema : List TrinoColumn → Option (ℕ → FieldFormat) → List FieldInfo
  unfolding build_fields
  build_pg_schema columns result_format = build_fields result_format 0 columns

  -- `values.iter().zip(columns)`, with `schema[idx]`: `none` is the panic of an index out of range.
  unfoldable pub encode_row :
      List Value → List TrinoColumn → List FieldInfo → Option (PgWireResult DataRow)
  encode_row [] columns schema = some (ok [])
  encode_row (value ∷ values) [] schema = some (ok [])
  encode_row (value ∷ values) (col ∷ columns) [] = none
  encode_row (value ∷ values) (col ∷ columns) (field ∷ schema) =
      let rest = encode_row values columns schema in
      elim (encode_cell value field.datatype col.trino_type field.format) [
        | err e ↦ some (err e)
        | ok cell ↦ elim rest [
          | none ↦ none
          | some (err e) ↦ some (err e)
          | some (ok cells) ↦ some (ok (cell ∷ cells))
        ]
      ]

  -- The end of `execute_trino_query`: the schema, and what the stream captures.
  abbrev pub open_stream :
      List TrinoColumn
      → List (List Value)
      → Option Text
      → Option ActiveQueryId
      → Option (ℕ → FieldFormat)
      → List FieldInfo × PageStream
  open_stream columns initial_rows next_uri active_query_id result_format = (
    build_pg_schema columns result_format,
    record {
      initial_rows = initial_rows;
      columns = columns;
      schema = build_pg_schema columns result_format;
      next_uri = next_uri;
      active_query_id = active_query_id;
    },
  )

  module _ (active_query_id : Option ActiveQueryId) (result_format : Option (ℕ → FieldFormat)) where
    abbrev pub fails : Text → List Reply → Gateway → Opened
    fails message replies g =
        (set_active_query_id active_query_id none g, finished (err (trino_error message)) replies)

    -- `while trino_columns.is_empty()`.
    unfoldable pub poll_columns :
        List Reply → List TrinoColumn → List (List Value) → Option Text → Gateway → Opened
    poll_columns replies (c ∷ cs) rows next_uri g = (
      g,
      finished (ok (open_stream (c ∷ cs) rows next_uri active_query_id result_format)) replies,
    )
    poll_columns replies [] rows none g =
        (g, finished (ok (open_stream [] rows none active_query_id result_format)) replies)
    poll_columns [] [] rows (some url) g = (g, waiting)
    poll_columns (failed message ∷ replies) [] rows (some url) g = fails message replies g
    poll_columns (page p ∷ replies) [] rows (some url) g =
        let more =
          poll_columns replies (unwrap_or p.columns []) (rows ++ extract_direct_rows p.rows)
            p.next_uri g in
        elim p.error [ some message ↦ fails message replies g | none ↦ more ]

    -- The first request failing leaves the slot alone.
    unfoldable pub execute_trino_query : List Reply → Gateway → Opened
    unfolding poll_columns
    execute_trino_query [] g = (g, waiting)
    execute_trino_query (failed message ∷ replies) g =
        (g, finished (err (trino_error message)) replies)
    execute_trino_query (page p ∷ replies) g =
        let g1 = set_active_query_id active_query_id (some p.id) g in
        elim p.error [
          | some message ↦ fails message replies g1
          | none ↦
              poll_columns replies (unwrap_or p.columns []) (extract_direct_rows p.rows) p.next_uri
                g1
        ]

  abbrev pub encoder_of : PageStream → List Value → Option (PgWireResult DataRow)
  encoder_of st values = encode_row values st.columns st.schema

  -- The stream, pulled to its end or to the reply that is still to come; the drop guard clears the
  -- slot at the end.
  unfoldable pub run_stream : PageStream → List Reply → Gateway → Gateway × Yielded
  unfolding poll_rows
  run_stream st replies g =
      let y =
        yield_before (map (encoder_of st) st.initial_rows)
          (poll_rows (encoder_of st) replies st.next_uri) in
      ((if y.1 then set_active_query_id st.active_query_id none g else g), y)

-- Dropping a stream: the guard is made when the stream is first polled.
unfoldable pub drop_stream : Bool → PageStream → Gateway → Gateway
drop_stream polled st g = if polled then set_active_query_id st.active_query_id none g else g
