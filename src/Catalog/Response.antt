-- ===== src/Catalog/Response.antt =====
-- src/catalog/mod.rs: the helpers that build catalog responses.
use Prim.Native.Nat.{suc}
use postgresql_trino_gateway.Prelude.{
  ℕ, zero, Option, none, some, List, [], ◌∷◌, unwrap_or, ok, ◌>>=◌,
}
use postgresql_trino_gateway.Prelude.Text.{Text}
use postgresql_trino_gateway.Wire.{
  PgType, FieldFormat, FieldInfo, PgWireResult, DataRow, Value, null, boolean, number, string,
  compound, Response, query, iter, FieldEncoder,
}

abbrev pub text_field : Text → PgType → FieldInfo
text_field name ty = record { name = name; datatype = ty; format = FieldFormat.text }

abbrev pub as_str : Value → Option Text
as_str (string s) = some s
as_str null = none
as_str (boolean b) = none
as_str (number n) = none
as_str (compound t) = none

abbrev pub value_at : List Value → ℕ → Option Value
value_at [] idx = none
value_at (v ∷ values) zero = some v
value_at (v ∷ values) (suc idx) = value_at values idx

abbrev pub and_then {ℓ κ} : {A : Type ℓ} {B : Type κ} → Option A → (A → Option B) → Option B
and_then none f = none
and_then (some a) f = f a

unfoldable pub json_str : List Value → ℕ → Text → Text
json_str values idx default = unwrap_or (and_then (value_at values idx) as_str) default

module _ (encoder : FieldEncoder) (schema : List FieldInfo) where
  -- The fields of one row, from the column `idx` on.
  unfoldable pub encode_fields : ℕ → List (Option Text) → PgWireResult DataRow
  encode_fields idx [] = ok []
  encode_fields idx (value ∷ row) = do
    cell ← encoder.encode_str schema idx value
    cells ← encode_fields (suc idx) row
    ok (cell ∷ cells)

  unfoldable pub encode_rows :
      List (List (Option Text)) → PgWireResult (List (PgWireResult DataRow))
  unfolding encode_fields
  encode_rows [] = ok []
  encode_rows (row ∷ rows) = do
    data_row ← encode_fields 0 row
    data_rows ← encode_rows rows
    ok (ok data_row ∷ data_rows)

  unfoldable pub build_response : List (List (Option Text)) → PgWireResult (List Response)
  unfolding encode_rows
  build_response rows = do data_rows ← encode_rows rows; ok (query schema (iter data_rows) ∷ [])
