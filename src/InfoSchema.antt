-- ===== src/InfoSchema.antt =====
-- src/info_schema.rs: the information_schema tables that Trino lacks, and the rewrite of Power BI's
-- query on `information_schema.columns`. Upper case of ASCII keeps each code point's place and
-- bytes, so an offset found in the upper-case text is counted in code points here.
pub mod Splice
use postgresql_trino_gateway.Prelude.{
  ℕ, ◌+◌, Bool, true, false, not, Option, none, some, List, [], take, drop, ◌∷◌, ◌++◌, map,
  if◌then◌else◌, length, Result, ok,
}
use postgresql_trino_gateway.Prelude.Text.{Text, codes, find, to_ascii_uppercase}
use postgresql_trino_gateway.Wire.{PgType, PgWireResult, Response, query, iter}
use postgresql_trino_gateway.Sql.{ParsedQuery}
use postgresql_trino_gateway.QueryInspection.{
  references_table_in_schema, select_column_names, find_map,
}
use postgresql_trino_gateway.Catalog.Response.{text_field}

abbrev pub information_schema : Text
information_schema = codes "information_schema"

abbrev pub missing_tables : List Text
missing_tables =
    codes "referential_constraints"
    ∷ codes "table_constraints"
    ∷ codes "key_column_usage"
    ∷ codes "constraint_column_usage"
    ∷ codes "constraint_table_usage"
    ∷ codes "check_constraints"
    ∷ []

-- A query that failed to parse gets one column.
abbrev columns_or_one : List Text → List Text
columns_or_one [] = codes "column" ∷ []
columns_or_one (c ∷ cs) = c ∷ cs

unfoldable pub empty_query_response : ParsedQuery → PgWireResult (List Response)
empty_query_response parsed = ok (
    query
      (map (λ name. text_field name PgType.varchar) (columns_or_one (select_column_names parsed)))
      (iter [])
    ∷ [])

unfoldable pub intercept_missing_information_schema :
    ParsedQuery → Option (PgWireResult (List Response))
intercept_missing_information_schema parsed =
    find_map
      (λ table.
        if references_table_in_schema parsed information_schema table
        then some (empty_query_response parsed)
        else none)
      missing_tables

abbrev pub type_mapping : Text
type_mapping =
    codes "CASE WHEN lower(data_type) = 'double' THEN 'double precision' "
    ++ (codes "WHEN lower(data_type) LIKE 'varchar%' THEN 'character varying' "
        ++ (codes "WHEN lower(data_type) LIKE 'char(%' THEN 'character' "
            ++ (codes
                  "WHEN lower(data_type) LIKE '%timestamp%with time zone%' THEN 'timestamp with time zone' "
                ++ (codes
                      "WHEN lower(data_type) LIKE 'timestamp%' THEN 'timestamp without time zone' "
                    ++ (codes
                          "WHEN lower(data_type) LIKE '%time%with time zone%' THEN 'time with time zone' "
                        ++ (codes
                              "WHEN lower(data_type) LIKE 'time%' THEN 'time without time zone' "
                            ++ (codes "WHEN lower(data_type) LIKE 'decimal%' THEN 'numeric' "
                                ++ (codes "WHEN lower(data_type) = 'varbinary' THEN 'bytea' "
                                    ++ codes "ELSE data_type END"))))))))

abbrev pub powerbi_marker : Text
powerbi_marker = codes "CASE WHEN (DATA_TYPE LIKE '%UNSIGNED%')"

abbrev pub end_marker : Text
end_marker = codes "END AS DATA_TYPE"

-- Where the expression starts in the upper-case text, and how long it is.
unfoldable pub powerbi_span : Text → Option (ℕ × ℕ)
powerbi_span upper = elim (find powerbi_marker upper) [
  | none ↦ none
  | some (before, behind) ↦ elim (find end_marker (powerbi_marker ++ behind)) [
    | none ↦ none
    | some (inside, _) ↦ some (length before, length inside + length end_marker)
  ]
]

unfoldable pub rewrite_info_schema_columns : Text → ParsedQuery → Option Text
unfolding powerbi_span
rewrite_info_schema_columns sql parsed =
    if not (references_table_in_schema parsed information_schema (codes "columns"))
    then none
    else (elim (powerbi_span (to_ascii_uppercase sql)) [
      | none ↦ none
      | some (start, len) ↦
          some (
            take start sql
            ++ (type_mapping ++ (codes " AS DATA_TYPE" ++ drop len (drop start sql))))
    ])
