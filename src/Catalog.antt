-- ===== src/Catalog.antt =====
-- src/catalog/mod.rs: which queries are answered as PostgreSQL catalog queries. What the responders
-- take from third parties is in the parameters.
pub mod Response
pub mod Stubs
pub mod PgType
pub mod PgClass
pub mod PgAttribute
pub mod Oids
pub mod TypeTable
pub mod Dispatch
use postgresql_trino_gateway.Prelude.{
  ℕ, Bool, true, false, ◌&&◌, Option, none, some, List, [], ◌∷◌, if◌then◌else◌, Result,
}
use postgresql_trino_gateway.Prelude.Text.{Text, codes}
use postgresql_trino_gateway.Prelude.Case.{CaseTable}
use postgresql_trino_gateway.Wire as W
use postgresql_trino_gateway.Wire.{PgWireResult, Value, FieldEncoder}
use postgresql_trino_gateway.Sql.{ParsedQuery}
use postgresql_trino_gateway.QueryInspection.{references_table}
use postgresql_trino_gateway.Catalog.Stubs.{
  empty_composite_fields, empty_enum_labels, empty_pg_range, respond_pg_namespace,
}
use postgresql_trino_gateway.Catalog.PgType.{respond_type_loading}
use postgresql_trino_gateway.Catalog.PgClass.{respond_pg_class}
use postgresql_trino_gateway.Catalog.PgAttribute.{respond_pg_attribute}

abbrev pub Responses : Type 0
Responses = PgWireResult (List W.Response)

-- A join of pg_attribute and pg_type.
abbrev pub composite_lookup : ParsedQuery → Bool
composite_lookup parsed =
    references_table parsed (codes "pg_attribute") && references_table parsed (codes "pg_type")

unfoldable pub handle_catalog_query : FieldEncoder → ParsedQuery → Option Responses
handle_catalog_query encoder parsed =
    if composite_lookup parsed
    then some (empty_composite_fields encoder)
    else if references_table parsed (codes "pg_enum")
    then some (empty_enum_labels encoder)
    else if references_table parsed (codes "pg_type")
    then some (respond_type_loading encoder)
    else if references_table parsed (codes "pg_range")
    then some (empty_pg_range encoder)
    else if references_table parsed (codes "pg_namespace")
    then some (respond_pg_namespace encoder)
    else none

-- What the dynamic responders take from third parties.
pub record Dynamic : Type 0 where
  pub case : CaseTable
  pub type_oid : W.PgType → ℕ
  pub encoder : FieldEncoder
  pub get_all : Text → Result Text (List (List Value))

unfoldable pub handle_dynamic_catalog_query : Dynamic → ParsedQuery → Option Responses
handle_dynamic_catalog_query d parsed =
    if composite_lookup parsed
    then none
    else if references_table parsed (codes "pg_class")
    then some (respond_pg_class d.case d.encoder d.get_all)
    else if references_table parsed (codes "pg_attribute")
    then some (respond_pg_attribute d.case d.type_oid d.encoder d.get_all)
    else none
