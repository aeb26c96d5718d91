-- ===== src/Intercept/Passing.antt =====
-- Which queries src/intercept.rs lets through to Trino, and which it should have let through.
use postgresql_trino_gateway.Prelude.{
  ◌≡◌, ◌≢◌, ◌↔◌, ◌⊎◌, inl, inr, refl, Bool, true, false, not, ◌&&◌, ◌||◌, Option, none, some, List,
  [], ◌∷◌, ◌++◌, arith, any, all, drop, is_empty, is_some, if◌then◌else◌,
}
use postgresql_trino_gateway.Prelude.Text.{
  Text, codes, text_eq, starts_with, trim, eq_ignore_ascii_case,
}
use postgresql_trino_gateway.Prelude.Case.{CaseTable, to_uppercase}
use postgresql_trino_gateway.Wire.{FieldEncoder}
use postgresql_trino_gateway.Sql.{
  ObjectNamePart, ObjectName, Expr, no_arguments, unnamed_expr, expressions, select, Statement,
  ParsedQuery,
}
use postgresql_trino_gateway.QueryInspection.{
  references_table, references_table_in_schema, is_bare_scalar_select, calls_function,
  calls_function_or_keyword, function_string_arg, is_call, last_ident_eq,
}
use postgresql_trino_gateway.Catalog.{handle_catalog_query, Responses}
use postgresql_trino_gateway.InfoSchema.{intercept_missing_information_schema, information_schema}
use postgresql_trino_gateway.Intercept.{
  Intercepted, passes, answers, normalized, transaction_tag, session_command,
  intercept_server_functions, intercept_parsed, intercept_show, single_text_response, try_intercept,
  or_tagged, tagged,
}

-- What a query begins with that the handler acknowledges or answers itself.
abbrev pub command_prefixes : List Text
command_prefixes =
    codes "SET "
    ∷ codes "BEGIN "
    ∷ codes "START TRANSACTION"
    ∷ codes "ROLLBACK "
    ∷ codes "DISCARD "
    ∷ codes "DEALLOCATE "
    ∷ codes "SHOW "
    ∷ []

-- The whole queries that it acknowledges.
abbrev pub command_words : List Text
command_words =
    codes "BEGIN" ∷ codes "COMMIT" ∷ codes "END" ∷ codes "ROLLBACK" ∷ codes "CLOSE ALL" ∷ []

abbrev pub is_command : Text → Bool
is_command upper = any (starts_with upper) command_prefixes || any (text_eq upper) command_words

-- The relations that the gateway answers for, in any schema.
abbrev pub local_tables : List Text
local_tables =
    codes "pg_stat_ssl"
    ∷ codes "pg_enum"
    ∷ codes "pg_type"
    ∷ codes "pg_range"
    ∷ codes "pg_namespace"
    ∷ []

-- The tables of information_schema that Trino does not have.
abbrev pub stub_tables : List Text
stub_tables =
    codes "character_sets"
    ∷ codes "referential_constraints"
    ∷ codes "table_constraints"
    ∷ codes "key_column_usage"
    ∷ codes "constraint_column_usage"
    ∷ codes "constraint_table_usage"
    ∷ codes "check_constraints"
    ∷ []

abbrev pub probe_functions : List Text
probe_functions = codes "version" ∷ codes "current_database" ∷ codes "pg_is_in_recovery" ∷ []

abbrev pub version_settings : List Text
version_settings = codes "server_version_num" ∷ codes "server_version" ∷ []

abbrev pub is_known_setting : Option Text → Bool
is_known_setting none = false
is_known_setting (some setting) = any (text_eq setting) version_settings

-- The one expression of a bare SELECT that drivers probe a server with.
abbrev pub is_probe : ParsedQuery → Bool
is_probe parsed =
    is_bare_scalar_select parsed
    && (any (calls_function parsed) probe_functions
        || calls_function_or_keyword parsed (codes "current_schema")
        || is_known_setting (function_string_arg parsed (codes "current_setting")))

-- A query of other relations than the gateway's, which is no probe.
abbrev pub is_foreign : ParsedQuery → Bool
is_foreign parsed =
    not (is_probe parsed)
    && all (λ name. not (references_table parsed name)) local_tables
    && all (λ name. not (references_table_in_schema parsed information_schema name)) stub_tables

command_iff :
    (upper : Text)
    → ((starts_with upper (codes "SET ")
          || is_some (transaction_tag upper)
          || session_command upper
          || starts_with upper (codes "SHOW "))
        ≡ false)
      ↔ (is_command upper ≡ false)
unfolding transaction_tag
command_iff upper = (λ h. ground arith, λ h. ground arith)

server_functions_iff :
    (encoder : FieldEncoder) (parsed : ParsedQuery) (catalog schema : Text)
    → (intercept_server_functions encoder parsed catalog schema ≡ none) ↔ (is_probe parsed ≡ false)
unfolding intercept_server_functions
server_functions_iff encoder parsed catalog schema = (λ h. ground arith, λ h. ground arith)

catalog_query_iff :
    (encoder : FieldEncoder) (parsed : ParsedQuery)
    → (handle_catalog_query encoder parsed ≡ none)
      ↔ (all (λ name. not (references_table parsed name)) (drop 1 local_tables) ≡ true)
unfolding handle_catalog_query
catalog_query_iff encoder parsed = (λ h. ground arith, λ h. ground arith)

missing_tables_iff :
    (parsed : ParsedQuery)
    → (intercept_missing_information_schema parsed ≡ none) ↔ (
        all
          (λ name. not (references_table_in_schema parsed information_schema name))
          (drop 1 stub_tables)
        ≡ true)
unfolding intercept_missing_information_schema
missing_tables_iff parsed = (λ h. ground arith, λ h. ground arith)

intercept_parsed_iff :
    (encoder : FieldEncoder) (parsed : ParsedQuery) (catalog schema : Text) (secure : Bool)
    → (intercept_parsed encoder parsed catalog schema secure ≡ passes) ↔ (is_foreign parsed ≡ true)
unfolding intercept_parsed
intercept_parsed_iff encoder parsed catalog schema secure =
    let f = server_functions_iff encoder parsed catalog schema in
    let c = catalog_query_iff encoder parsed in
    let m = missing_tables_iff parsed in
    (λ h. ground (arith, f, c, m), λ h. ground (arith, f, c, m))

show_never_passes :
    (encoder : FieldEncoder) (case : CaseTable) (s : Text) → intercept_show encoder case s ≢ passes
unfolding intercept_show
show_never_passes encoder case s h = ground arith

-- The order of the first words' tests, on their outcomes.
route_iff :
    (set : Bool) (tag : Option Text) (cmd show : Bool) (x y : Responses)
    (shown inside : Intercepted)
    → shown ≢ passes
    → ((if set
          then answers x
          else or_tagged tag (if cmd then answers y else if show then shown else inside))
        ≡ passes)
      ↔ (((set || is_some tag || cmd || show) ≡ false) × (inside ≡ passes))
route_iff set none cmd show x y shown inside n = (λ h. ground arith, λ h. ground arith)
route_iff set (some t) cmd show x y shown inside n = (λ h. ground arith, λ h. ground arith)

blank_or :
    (blank : Bool) {next : Intercepted} {P : Type 0}
    → ((next ≡ passes) → P)
    → (P → next ≡ passes)
    → ((if blank then passes else next) ≡ passes) ↔ ((blank ≡ true) ⊎ P)
blank_or true f g = (λ h. inl refl, λ h. refl)
blank_or false f g = (λ h. inr (f h), λ h. elim h [ inl e ↦ ground arith | inr p ↦ g p ])

-- The interception leaves a query alone exactly when it is blank; or when, without blanks and
-- semicolons around it and in upper case, it begins with none of seven prefixes and is none of five
-- whole commands, it is no bare SELECT of a probe of the server, and it references none of five tables
-- of the catalog and none of seven of information_schema. (So `COMMIT WORK` is left alone.)
pub try_intercept_passes_iff :
    (encoder : FieldEncoder) (case : CaseTable) (sql : Text) (parsed : ParsedQuery)
    (catalog schema : Text) (secure : Bool)
    → (try_intercept encoder case sql parsed catalog schema secure ≡ passes) ↔ (
        (is_empty (trim sql) ≡ true)
        ⊎ ((is_command (to_uppercase case (normalized sql)) ≡ false) × (is_foreign parsed ≡ true)))
unfolding try_intercept
try_intercept_passes_iff encoder case sql parsed catalog schema secure =
    let upper = to_uppercase case (normalized sql) in
    let route =
      route_iff (starts_with upper (codes "SET ")) (transaction_tag upper) (session_command upper)
        (starts_with upper (codes "SHOW ")) (tagged (codes "SET")) (tagged (codes "OK"))
        (intercept_show encoder case (normalized sql))
        (intercept_parsed encoder parsed catalog schema secure)
        (show_never_passes encoder case (normalized sql)) in
    let inside = intercept_parsed_iff encoder parsed catalog schema secure in
    let first = command_iff upper in
    blank_or (is_empty (trim sql)) (λ h. let (r, i) = route.0 h in (first.0 r, inside.0 i))
      (λ h. route.1 (first.1 h.0, inside.1 h.1))

abbrev pub named : Text → ObjectName
named name = ObjectNamePart.identifier (record { value = name; quote_style = none }) ∷ []

abbrev pub version_call : Expr
version_call = Expr.function (named (codes "version")) no_arguments

-- The parse of `SELECT e`, where the visitor comes to `visited`.
abbrev pub select_of_expr : Expr → List Expr → ParsedQuery
select_of_expr e visited = some (record {
  statements =
      Statement.query (record {
        with_clause = none;
        body = select (record {
          projection = unnamed_expr e ∷ [];
          from = [];
          selection = none;
          group_by = expressions [] [];
          having = none;
          cluster_by = [];
          distribute_by = [];
          sort_by = [];
          qualify = none;
        });
        order_by = none;
        limit_clause = none;
        fetch = none;
      })
      ∷ [];
  relations = [];
  expressions = visited;
})

any_middle :
    (p : Expr → Bool) (x : Expr) (before after : List Expr)
    → p x ≡ true
    → any p (before ++ x ∷ after) ≡ true
any_middle p x [] after h = ground arith
any_middle p x (e ∷ before) after h = ground (arith, any_middle p x before after h)

is_version : is_call (codes "version") version_call ≡ true
unfolding last_ident_eq eq_ignore_ascii_case
is_version = refl

-- The call of `version` may stand anywhere in the one expression of a bare SELECT: the whole query is
-- answered with the version string, whatever the expression computes from it.
nested_version_answered :
    (encoder : FieldEncoder) (e : Expr) (before after : List Expr) (catalog schema : Text)
    → intercept_server_functions encoder
        (select_of_expr e (before ++ version_call ∷ after))
        catalog
        schema
      ≡ some (
          single_text_response encoder
            (codes "version")
            (codes "PostgreSQL 16.6 on x86_64-pc-linux-gnu, compiled by gcc 12.2.0, 64-bit"))
unfolding intercept_server_functions is_bare_scalar_select calls_function
nested_version_answered encoder e before after catalog schema =
    ground (arith, any_middle (is_call (codes "version")) version_call before after is_version)
