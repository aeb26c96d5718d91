-- ===== src/Intercept.antt =====
-- src/intercept.rs: queries that are answered without Trino.
pub mod Show
pub mod Passing
use Prim.Native.Nat.{zero, suc}
use postgresql_trino_gateway.Prelude.{
  ℕ, ◌-◌, Bool, true, false, not, ◌&&◌, ◌||◌, ◌==◌, Option, none, some, List, [], ◌∷◌,
  if◌then◌else◌, is_empty, ltb, unwrap_or, Result, ok, err, ◌>>=◌,
}
use postgresql_trino_gateway.Prelude.Text.{
  Text, codes, text_eq, utf8_len, starts_with, trim, trim_end_by, eq_ignore_ascii_case,
}
use postgresql_trino_gateway.Prelude.Case.{CaseTable, to_uppercase, to_lowercase}
use postgresql_trino_gateway.Wire.{
  PgType, PgWireResult, Response, query, execution, iter, FieldEncoder,
}
use postgresql_trino_gateway.Sql.{ParsedQuery}
use postgresql_trino_gateway.QueryInspection.{
  references_table, references_table_in_schema, calls_function, calls_function_or_keyword,
  function_string_arg, is_bare_scalar_select, find_map,
}
use postgresql_trino_gateway.Startup.{server_params}
use postgresql_trino_gateway.Catalog.{Responses, handle_catalog_query}
use postgresql_trino_gateway.Catalog.Response.{text_field}
use postgresql_trino_gateway.InfoSchema.{intercept_missing_information_schema, information_schema}

-- The query goes on, is answered here, or the handler panics on a slice within a character.
pub data Intercepted : Type 0 where
  passes : Intercepted
  answers : Responses → Intercepted
  panics : Intercepted

-- `&s[n..]` in bytes.
abbrev pub slice_from : ℕ → Text → Option Text
slice_from zero s = some s
slice_from (suc n) [] = none
slice_from (suc n) (c ∷ s) =
    let rest = slice_from (suc n - utf8_len c) s in if ltb (suc n) (utf8_len c) then none else rest

unfoldable pub normalized : Text → Text
normalized sql = trim (trim_end_by (λ c. c == b';') (trim sql))

unfoldable pub transaction_tag : Text → Option Text
transaction_tag upper =
    if text_eq upper (codes "BEGIN")
      || starts_with upper (codes "BEGIN ")
      || starts_with upper (codes "START TRANSACTION")
    then some (codes "BEGIN")
    else if text_eq upper (codes "COMMIT") || text_eq upper (codes "END")
    then some (codes "COMMIT")
    else if text_eq upper (codes "ROLLBACK") || starts_with upper (codes "ROLLBACK ")
    then some (codes "ROLLBACK")
    else none

abbrev pub session_command : Text → Bool
session_command upper =
    starts_with upper (codes "DISCARD ")
    || starts_with upper (codes "DEALLOCATE ")
    || text_eq upper (codes "CLOSE ALL")

abbrev pub tagged : Text → Responses
tagged tag = ok (execution tag ∷ [])

abbrev pub or_passes : Option Responses → Intercepted → Intercepted
or_passes none next = next
or_passes (some r) next = answers r

abbrev pub or_tagged : Option Text → Intercepted → Intercepted
or_tagged none next = next
or_tagged (some tag) next = answers (tagged tag)

-- The value of the parameter that SHOW names, in any case.
abbrev pub param_value : Text → List (Text × Text) → Option Text
param_value param [] = none
param_value param ((k, v) ∷ params) =
    if eq_ignore_ascii_case k param then some v else param_value param params

abbrev setting_value : Text → Option Text
setting_value setting =
    if text_eq setting (codes "server_version_num")
    then some (codes "160006")
    else if text_eq setting (codes "server_version")
    then some (codes "16.6")
    else none

abbrev pub and_then_setting : Option Text → Option Text
and_then_setting none = none
and_then_setting (some setting) = setting_value setting

module _ (encoder : FieldEncoder) where
  unfoldable pub single_text_response : Text → Text → Responses
  single_text_response column_name value =
      let fields = text_field column_name PgType.varchar ∷ [] in
      do
        cell ← encoder.encode_str fields 0 (some value)
        ok (query fields (iter (ok (cell ∷ []) ∷ [])) ∷ [])

  unfoldable pub single_bool_response : Text → Bool → Responses
  single_bool_response column_name value =
      let fields = text_field column_name PgType.bool ∷ [] in
      do
        cell ← encoder.encode_bool fields 0 value
        ok (query fields (iter (ok (cell ∷ []) ∷ [])) ∷ [])

  unfoldable pub intercept_show : CaseTable → Text → Intercepted
  unfolding single_text_response
  intercept_show case trimmed = elim (slice_from 4 trimmed) [
    | none ↦ panics
    | some rest ↦
        let param = to_lowercase case (trim rest) in
        answers
          (single_text_response param (unwrap_or (param_value param server_params) (codes "on")))
  ]

  abbrev pub respond_setting : Option Text → Option Responses
  respond_setting none = none
  respond_setting (some v) = some (single_text_response (codes "current_setting") v)

  unfoldable pub intercept_server_functions : ParsedQuery → Text → Text → Option Responses
  unfolding single_text_response
  intercept_server_functions parsed catalog schema =
      if not (is_bare_scalar_select parsed)
      then none
      else if calls_function parsed (codes "version")
      then some (
          single_text_response (codes "version")
            (codes "PostgreSQL 16.6 on x86_64-pc-linux-gnu, compiled by gcc 12.2.0, 64-bit"))
      else if calls_function parsed (codes "current_database")
      then some (single_text_response (codes "current_database") catalog)
      else if calls_function_or_keyword parsed (codes "current_schema")
      then some (single_text_response (codes "current_schema") schema)
      else if calls_function parsed (codes "pg_is_in_recovery")
      then some (single_text_response (codes "pg_is_in_recovery") (codes "false"))
      else respond_setting (and_then_setting (function_string_arg parsed (codes "current_setting")))

  -- The checks that ask the parsed query.
  unfoldable pub intercept_parsed : ParsedQuery → Text → Text → Bool → Intercepted
  unfolding intercept_server_functions single_bool_response
  intercept_parsed parsed catalog schema client_is_secure =
      or_passes (intercept_server_functions parsed catalog schema) (
        if references_table parsed (codes "pg_stat_ssl")
        then answers (single_bool_response (codes "ssl") client_is_secure)
        else or_passes (handle_catalog_query encoder parsed) (
            if references_table_in_schema parsed information_schema (codes "character_sets")
            then answers (single_text_response (codes "character_set_name") (codes "UTF8"))
            else or_passes (intercept_missing_information_schema parsed) passes))

  module _ (case : CaseTable) where
    unfoldable pub try_intercept : Text → ParsedQuery → Text → Text → Bool → Intercepted
    unfolding transaction_tag intercept_show intercept_parsed normalized
    try_intercept sql parsed catalog schema client_is_secure =
        if is_empty (trim sql)
        then passes
        else (let trimmed = normalized sql in
            let upper = to_uppercase case trimmed in
            if starts_with upper (codes "SET ")
            then answers (tagged (codes "SET"))
            else or_tagged (transaction_tag upper) (
                if session_command upper
                then answers (tagged (codes "OK"))
                else if starts_with upper (codes "SHOW ")
                then intercept_show case trimmed
                else intercept_parsed parsed catalog schema client_is_secure))
