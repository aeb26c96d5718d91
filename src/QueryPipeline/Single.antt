-- ===== src/QueryPipeline/Single.antt =====
-- The responses to a single statement (src/query_pipeline.rs).
use postgresql_trino_gateway.Prelude.{
  inl, inr, Bool, true, false, Option, none, some, List, [], ◌∷◌, ok, err, Option-cases,
  Result-cases,
}
use postgresql_trino_gateway.Prelude.Text.{Text}
use postgresql_trino_gateway.Wire.{
  FieldInfo, PgWireError, api_error, PgType, Response, query, execution, error, FieldEncoder,
}
use postgresql_trino_gateway.Catalog.{
  handle_catalog_query, handle_dynamic_catalog_query, Responses, Dynamic,
}
use postgresql_trino_gateway.Catalog.Response.{build_response, encode_rows, text_field}
use postgresql_trino_gateway.Sql.{ParsedQuery}
use postgresql_trino_gateway.Intercept.{Intercepted, passes, answers, panics, try_intercept}
use postgresql_trino_gateway.Catalog.Stubs.{
  empty_composite_fields, empty_enum_labels, empty_pg_range, respond_pg_namespace,
}
use postgresql_trino_gateway.Catalog.PgType.{respond_type_loading}
use postgresql_trino_gateway.Catalog.PgClass.{respond_pg_class, tables_sql, class_schema, class_row}
use postgresql_trino_gateway.Catalog.PgAttribute.{
  respond_pg_attribute, columns_sql, attribute_schema, attribute_row,
}
use postgresql_trino_gateway.InfoSchema.{intercept_missing_information_schema, empty_query_response}
use postgresql_trino_gateway.Intercept.{
  single_text_response, single_bool_response, respond_setting, or_tagged, intercept_show,
  slice_from, intercept_server_functions, intercept_parsed, or_passes, tagged,
}
use postgresql_trino_gateway.Prelude.{map, or_else, if◌then◌else◌}
use postgresql_trino_gateway.Prelude.Case.{CaseTable}

-- The response is not an error.
abbrev pub NotError : Response → Type 0
NotError (query schema rows) = Unit
NotError (execution tag) = Unit
NotError (error info) = ⊥

-- An answer with one response that is no error, or a failure.
pub data One : Responses → Type 0 where
  failed_with : (e : PgWireError) → One (err e)
  single : (r : Response) → NotError r → One (ok (r ∷ []))

build_response-One :
    (encoder : FieldEncoder) (schema : List FieldInfo) (rows : List (List (Option Text)))
    → One (build_response encoder schema rows)
unfolding build_response
build_response-One encoder schema rows = elim (Result-cases (encode_rows encoder schema rows)) [
  | inl (data_rows, e) ↦ rw e (single _ tt)
  | inr (bad, e) ↦ rw e (failed_with bad)
]

pub data OneMaybe : Option Responses → Type 0 where
  nothing : OneMaybe none
  just : {r : Responses} → One r → OneMaybe (some r)

pub data OneAnswer : Intercepted → Type 0 where
  goes_on : OneAnswer passes
  answered : {r : Responses} → One r → OneAnswer (answers r)
  stopped : OneAnswer panics

choose_maybe :
    (b : Bool) {x y : Option Responses} → OneMaybe x → OneMaybe y → OneMaybe (if b then x else y)
choose_maybe true p q = p
choose_maybe false p q = q

choose_answer :
    (b : Bool) {x y : Intercepted} → OneAnswer x → OneAnswer y → OneAnswer (if b then x else y)
choose_answer true p q = p
choose_answer false p q = q

or_passes-One :
    (x : Option Responses) {next : Intercepted}
    → OneMaybe x
    → OneAnswer next
    → OneAnswer (or_passes x next)
or_passes-One none p q = q
or_passes-One (some r) (just p) q = answered p

handle_catalog_query-One :
    (encoder : FieldEncoder) (parsed : ParsedQuery) → OneMaybe (handle_catalog_query encoder parsed)
unfolding handle_catalog_query empty_composite_fields empty_enum_labels empty_pg_range
    respond_pg_namespace respond_type_loading
handle_catalog_query-One encoder parsed =
    search (choose_maybe, just, nothing, build_response-One) depth 9

respond_pg_class-One : (d : Dynamic) → One (respond_pg_class d.case d.encoder d.get_all)
unfolding respond_pg_class
respond_pg_class-One d = elim (Result-cases (d.get_all tables_sql)) [
  | inl (rows, e) ↦
      rw (e, respond_pg_class)
        (build_response-One d.encoder class_schema (map (class_row d.case) rows))
  | inr (bad, e) ↦ rw (e, respond_pg_class) (failed_with (api_error bad))
]

respond_pg_attribute-One :
    (d : Dynamic) → One (respond_pg_attribute d.case d.type_oid d.encoder d.get_all)
unfolding respond_pg_attribute
respond_pg_attribute-One d = elim (Result-cases (d.get_all columns_sql)) [
  | inl (rows, e) ↦
      rw (e, respond_pg_attribute)
        (build_response-One d.encoder attribute_schema (map (attribute_row d.case d.type_oid) rows))
  | inr (bad, e) ↦ rw (e, respond_pg_attribute) (failed_with (api_error bad))
]

pub handle_dynamic_catalog_query-One :
    (d : Dynamic) (parsed : ParsedQuery) → OneMaybe (handle_dynamic_catalog_query d parsed)
unfolding handle_dynamic_catalog_query
handle_dynamic_catalog_query-One d parsed =
    search (choose_maybe, just, nothing, respond_pg_class-One, respond_pg_attribute-One) depth 9

single_text_response-One :
    (encoder : FieldEncoder) (name value : Text) → One (single_text_response encoder name value)
unfolding single_text_response
single_text_response-One encoder name value =
    elim (Result-cases (encoder.encode_str (text_field name PgType.varchar ∷ []) 0 (some value))) [
      | inl (cell, e) ↦ rw e (single _ tt)
      | inr (bad, e) ↦ rw e (failed_with bad)
    ]

single_bool_response-One :
    (encoder : FieldEncoder) (name : Text) (value : Bool)
    → One (single_bool_response encoder name value)
unfolding single_bool_response
single_bool_response-One encoder name value =
    elim (Result-cases (encoder.encode_bool (text_field name PgType.bool ∷ []) 0 value)) [
      | inl (cell, e) ↦ rw e (single _ tt)
      | inr (bad, e) ↦ rw e (failed_with bad)
    ]

intercept_show-One :
    (encoder : FieldEncoder) (case : CaseTable) (trimmed : Text)
    → OneAnswer (intercept_show encoder case trimmed)
unfolding intercept_show
intercept_show-One encoder case trimmed = elim (Option-cases (slice_from 4 trimmed)) [
  | inl e ↦ rw (e, intercept_show) stopped
  | inr (rest, e) ↦ rw (e, intercept_show) (answered (single_text_response-One encoder _ _))
]

respond_setting-One :
    (encoder : FieldEncoder) (value : Option Text) → OneMaybe (respond_setting encoder value)
respond_setting-One encoder none = nothing
respond_setting-One encoder (some v) = just (single_text_response-One encoder _ v)

intercept_server_functions-One :
    (encoder : FieldEncoder) (parsed : ParsedQuery) (catalog schema : Text)
    → OneMaybe (intercept_server_functions encoder parsed catalog schema)
unfolding intercept_server_functions
intercept_server_functions-One encoder parsed catalog schema =
    search (choose_maybe, just, nothing, single_text_response-One, respond_setting-One) depth 9

or_else-One :
    (x : Option Responses) {y : Option Responses} → OneMaybe x → OneMaybe y → OneMaybe (or_else x y)
or_else-One none p q = q
or_else-One (some r) p q = p

empty_query_response-One : (parsed : ParsedQuery) → One (empty_query_response parsed)
unfolding empty_query_response
empty_query_response-One parsed = single _ tt

missing-One : (parsed : ParsedQuery) → OneMaybe (intercept_missing_information_schema parsed)
unfolding intercept_missing_information_schema
missing-One parsed =
    search (or_else-One, choose_maybe, just, nothing, empty_query_response-One) depth 20

intercept_parsed-One :
    (encoder : FieldEncoder) (parsed : ParsedQuery) (catalog schema : Text) (secure : Bool)
    → OneAnswer (intercept_parsed encoder parsed catalog schema secure)
unfolding intercept_parsed
intercept_parsed-One encoder parsed catalog schema secure =
    search
      (
        or_passes-One, choose_answer, answered, goes_on, intercept_server_functions-One,
        single_bool_response-One, single_text_response-One, handle_catalog_query-One, missing-One,
      )
      depth 9

-- A tag answers, or the next check decides.
tag-One : (tag : Option Text) {next : Intercepted} → OneAnswer next → OneAnswer (or_tagged tag next)
tag-One none p = p
tag-One (some t) p = answered (single (execution t) tt)

tagged-One : (t : Text) → One (tagged t)
tagged-One t = single (execution t) tt

pub try_intercept-One :
    (encoder : FieldEncoder) (case : CaseTable) (sql : Text) (parsed : ParsedQuery)
    (catalog schema : Text) (secure : Bool)
    → OneAnswer (try_intercept encoder case sql parsed catalog schema secure)
unfolding try_intercept
try_intercept-One encoder case sql parsed catalog schema secure =
    search
      (
        choose_answer, answered, goes_on, tag-One, tagged-One, intercept_show-One,
        intercept_parsed-One,
      )
      depth 9
