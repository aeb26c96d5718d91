-- ===== src/Wire.antt =====
-- The types of the pgwire, serde_json and trino-rust-client interfaces that the gateway's code
-- builds and takes apart.
use postgresql_trino_gateway.Prelude.{ℕ, Bool, Option, List, Result, ok, err, none, some}
use postgresql_trino_gateway.Prelude.Text.{Text}
use postgresql_trino_gateway.ErrorMapping.{ErrorInfo}

-- `pgwire::api::Type`, the types that the source names.
pub data PgType : Type 0 where
  bool int2 int4 int8 float4 float8 numeric varchar bpchar bytea : PgType
  date time timetz timestamp timestamptz interval jsonb uuid inet text : PgType
  name unknown oid char : PgType
  bool_array int2_array int4_array int8_array float4_array float8_array numeric_array : PgType
  varchar_array bpchar_array bytea_array date_array time_array timetz_array : PgType
  timestamp_array timestamptz_array interval_array jsonb_array uuid_array inet_array : PgType
  text_array : PgType

pub data FieldFormat : Type 0 where
  text binary : FieldFormat

-- A `FieldInfo`; the gateway never sets the table and column ids.
pub record FieldInfo : Type 0 where
  pub name : Text
  pub datatype : PgType
  pub format : FieldFormat

pub data PgWireError : Type 0 where
  user_error : ErrorInfo → PgWireError
  api_error : Text → PgWireError
  invalid_password : Text → PgWireError
  io_error : Text → PgWireError

abbrev pub PgWireResult : Type 0 → Type 0
PgWireResult A = Result PgWireError A

-- The SQLSTATE of a user-visible error.
abbrev pub sqlstate {ℓ} : {A : Type ℓ} → Result PgWireError A → Option Text
sqlstate (ok a) = none
sqlstate (err (user_error info)) = some info.code
sqlstate (err (api_error t)) = none
sqlstate (err (invalid_password t)) = none
sqlstate (err (io_error t)) = none

-- An `f64`: a finite one is plus or minus a number over a power of two.
pub data Float : Type 0 where
  nan : Float
  infinity : Bool → Float
  finite : Bool → ℕ → ℕ → Float

-- `serde_json::Number`: a `u64`, a negative `i64` (the number below its magnitude minus one) or a
-- finite float.
pub data Number : Type 0 where
  unsigned : ℕ → Number
  negative : ℕ → Number
  float : Bool → ℕ → ℕ → Number

-- `serde_json::Value`; an array or an object is the JSON text that it renders to.
pub data Value : Type 0 where
  null : Value
  boolean : Bool → Value
  number : Number → Value
  string : Text → Value
  compound : Text → Value

-- The fields of a data row; `none` is SQL NULL.
abbrev pub DataRow : Type 0
DataRow = List (Option Text)

-- A column of a Trino result: `TrinoColumn` of src/trino_stream.rs.
pub record TrinoColumn : Type 0 where
  pub name : Text
  pub trino_type : Text

-- `Arc<Mutex<Option<String>>>`: where the slot of a connection's running query lies.
abbrev pub ActiveQueryId : Type 0
ActiveQueryId = ℕ

-- What the closure of `execute_trino_query`'s stream captures.
pub record PageStream : Type 0 where
  pub initial_rows : List (List Value)
  pub columns : List TrinoColumn
  pub schema : List FieldInfo
  pub next_uri : Option Text
  pub active_query_id : Option ActiveQueryId

-- The row stream of a response: rows that are there, or those still to be fetched.
pub data RowStream : Type 0 where
  iter : List (PgWireResult DataRow) → RowStream
  pages : PageStream → RowStream

pub data Response : Type 0 where
  query : List FieldInfo → RowStream → Response
  execution : Text → Response
  error : ErrorInfo → Response

-- pgwire's `DataRowEncoder::encode_field`: the fields of the row, the column that comes next, and the
-- value; for a string and for a `bool`.
pub record FieldEncoder : Type 0 where
  pub encode_str : List FieldInfo → ℕ → Option Text → PgWireResult (Option Text)
  pub encode_bool : List FieldInfo → ℕ → Bool → PgWireResult (Option Text)
