-- ===== src/Types/Rows.antt =====
-- Rows of a Trino result (src/trino_stream.rs) through the cell encoders of src/types.rs.
use postgresql_trino_gateway.Prelude.{
  ◌≡◌, ◌⊎◌, inl, inr, refl, subst, ap, ◌∙◌, Bool, true, false, Option, some, List, [], ◌∷◌, arith,
  All, any, ok, err, ◌>>=◌, Result-cases,
}
use postgresql_trino_gateway.Prelude.Text.{Text}
use postgresql_trino_gateway.Prelude.Case.{CaseTable}
use postgresql_trino_gateway.Wire.{
  PgType, FieldFormat, FieldInfo, PgWireError, PgWireResult, Value, null, boolean, number, string,
  compound, TrinoColumn,
}
use postgresql_trino_gateway.TrinoStream.{encode_row}
use postgresql_trino_gateway.Types.Libraries.{Libraries, Field}
use postgresql_trino_gateway.Types.Integers.{IsNumber}
use postgresql_trino_gateway.Types.Cells.{
  encode_binary_cell, encode_cell, encode_non_null, binary_field, encoding,
}
use postgresql_trino_gateway.Types.Fields.{IsCell, is_refusal, IsSafe}
use postgresql_trino_gateway.Types.Binary.{binary_field-IsSafe}

-- A value of a row; a number is one that serde_json makes.
abbrev pub IsValue : Value → Type 0
IsValue (number n) = IsNumber n
IsValue null = Unit
IsValue (boolean b) = Unit
IsValue (string s) = Unit
IsValue (compound t) = Unit

abbrev pub is_binary : FieldFormat → Bool
is_binary FieldFormat.binary = true
is_binary FieldFormat.text = false

module _ (libs : Libraries) (case : CaseTable) (type_name : PgType → Text)
    (encode_field : FieldFormat → Field libs → PgWireResult (Option Text)) where
  -- pgwire's encoder of a field fails with the error.
  abbrev pub IsPgwireError : PgWireError → Type 0
  IsPgwireError e =
      (format : FieldFormat) × (field : Field libs) × (encode_field format field ≡ err e)

  abbrev pub CellError : FieldFormat → PgWireError → Type 0
  CellError format e = IsPgwireError e ⊎ ((is_binary format ≡ true) × (is_refusal libs e ≡ true))

  encoded-CellError :
      (pg_type : PgType) (r : PgWireResult (Field libs)) (e : PgWireError)
      → IsSafe libs pg_type r
      → (r >>= encode_field FieldFormat.binary) ≡ err e
      → CellError FieldFormat.binary e
  encoded-CellError pg_type (ok field) e safe h = inl (_, field, h)
  encoded-CellError pg_type (err e') e safe h =
      let same : e' ≡ e = cc in inr (refl, subst (λ e. is_refusal libs e ≡ true) same safe)

  non_null-CellError :
      (value : Value) (pg_type : PgType) (name : Text) (format : FieldFormat) (e : PgWireError)
      → IsCell value
      → encode_non_null libs case type_name encode_field value pg_type name format ≡ err e
      → CellError format e
  unfolding encode_binary_cell
  non_null-CellError value pg_type name FieldFormat.text e w h = inl (_, _, h)
  non_null-CellError value pg_type name FieldFormat.binary e w h =
      encoded-CellError pg_type (binary_field libs case type_name value pg_type name) e
        (binary_field-IsSafe libs case type_name value pg_type name w) h

  encode_cell-CellError :
      (value : Value) (pg_type : PgType) (name : Text) (format : FieldFormat) (e : PgWireError)
      → IsValue value
      → encode_cell libs case type_name encode_field value pg_type name format ≡ err e
      → CellError format e
  unfolding encode_cell
  encode_cell-CellError null pg_type name format e w h = inl (_, _, h)
  encode_cell-CellError (boolean b) pg_type name format e w h =
      non_null-CellError (boolean b) pg_type name format e w h
  encode_cell-CellError (number n) pg_type name format e w h =
      non_null-CellError (number n) pg_type name format e w h
  encode_cell-CellError (string s) pg_type name format e w h =
      non_null-CellError (string s) pg_type name format e w h
  encode_cell-CellError (compound t) pg_type name format e w h =
      non_null-CellError (compound t) pg_type name format e w h

  abbrev pub any_binary : List FieldInfo → Bool
  any_binary = any (λ (f : FieldInfo). is_binary f.format)

  abbrev pub RowError : List FieldInfo → PgWireError → Type 0
  RowError schema e = IsPgwireError e ⊎ ((any_binary schema ≡ true) × (is_refusal libs e ≡ true))

  CellError-RowError :
      (field : FieldInfo) (schema : List FieldInfo) (e : PgWireError)
      → CellError field.format e
      → RowError (field ∷ schema) e
  CellError-RowError field schema e (inl p) = inl p
  CellError-RowError field schema e (inr (b, r)) = inr (ground arith, r)

  RowError-cons :
      (field : FieldInfo) (schema : List FieldInfo) (e : PgWireError)
      → RowError schema e
      → RowError (field ∷ schema) e
  RowError-cons field schema e (inl p) = inl p
  RowError-cons field schema e (inr (b, r)) = inr (ground arith, r)

  rest_error :
      (v : Value) (vs : List Value) (c : TrinoColumn) (cs : List TrinoColumn) (f : FieldInfo)
      (schema : List FieldInfo) (e : PgWireError) (cell : Option Text)
      → encode_cell libs case type_name encode_field v f.datatype c.trino_type f.format ≡ ok cell
      → encode_row (encoding libs case type_name encode_field) (v ∷ vs) (c ∷ cs) (f ∷ schema)
        ≡ some (err e)
      → encode_row (encoding libs case type_name encode_field) vs cs schema ≡ some (err e)
  unfolding encode_row
  rest_error v vs c cs f schema e cell q h = ground arith

  -- The errors of a row of a Trino result (whose numbers are those that serde_json makes) are
  -- pgwire's own, or refusals of a value that a client asked for in binary (SQLSTATE 22P03, 22003
  -- or 0A000): a client that asks for text never gets a refusal.
  pub encode_row-RowError :
      (values : List Value) (columns : List TrinoColumn) (schema : List FieldInfo) (e : PgWireError)
      → All IsValue values
      → encode_row (encoding libs case type_name encode_field) values columns schema ≡ some (err e)
      → RowError schema e
  unfolding encode_row
  encode_row-RowError [] columns schema e w h = absurd (ground arith)
  encode_row-RowError (v ∷ vs) [] schema e w h = absurd (ground arith)
  encode_row-RowError (v ∷ vs) (c ∷ cs) [] e w h = absurd (ground arith)
  encode_row-RowError (v ∷ vs) (c ∷ cs) (f ∷ schema) e w h =
      elim (Result-cases
        (encode_cell libs case type_name encode_field v f.datatype c.trino_type f.format)) [
          | inr (e', q) ↦
              let same : e' ≡ e = ground arith in
              CellError-RowError f schema e
                (encode_cell-CellError v f.datatype c.trino_type f.format e w.0 (q ∙ ap err same))
          | inl (cell, q) ↦
              RowError-cons f schema e
                (encode_row-RowError vs cs schema e w.1 (rest_error v vs c cs f schema e cell q h))
        ]
