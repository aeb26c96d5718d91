-- ===== src/Catalog/Oids.antt =====
-- The synthetic oids of src/catalog/pg_class.rs and src/catalog/pg_attribute.rs.
use postgresql_trino_gateway.Prelude.{
  ℕ, ◌≤◌, ◌<◌, ◌≡◌, ◌↔◌, sym, ap, ◌∙◌, Option, some, List, [], ◌∷◌, arith, first,
}
use postgresql_trino_gateway.Prelude.Text.{Text, codes}
use postgresql_trino_gateway.Prelude.Equality.{text_eq_iff}
use postgresql_trino_gateway.Prelude.Case.{CaseTable}
use postgresql_trino_gateway.Prelude.Decimal.{to_decimal, read, read-to_decimal}
use postgresql_trino_gateway.Wire.{PgType, Value}
use postgresql_trino_gateway.Catalog.Response.{json_str}
use postgresql_trino_gateway.Catalog.PgClass.{
  djb2_oid, table_oid, namespace_oid, class_row, base_table_oid, base_namespace_oid,
  public_namespace_oid, i32_max,
}
use postgresql_trino_gateway.Catalog.PgAttribute.{attribute_row}

-- A synthetic oid lies from its base up to the greatest `i32`, which is left out; so the addition of
-- the base never overflows.
djb2_oid-within :
    (parts : List Text) (base : ℕ)
    → base < i32_max
    → (base ≤ djb2_oid parts base) × (djb2_oid parts base < i32_max)
unfolding djb2_oid
djb2_oid-within parts base h = (omega arith, omega arith)

-- The well-known oid 2200 is the namespace of the schema `public` and of no other schema.
namespace_oid_public :
    (schema_name : Text)
    → (namespace_oid schema_name ≡ public_namespace_oid) ↔ (schema_name ≡ codes "public")
unfolding namespace_oid
namespace_oid_public schema_name = (
  (λ h. ground (
    arith,
    text_eq_iff schema_name (codes "public"),
    djb2_oid-within (schema_name ∷ []) base_namespace_oid,
  )),
  (λ h. ground (arith, text_eq_iff schema_name (codes "public"))),
)

to_decimal_injective : (m n : ℕ) → to_decimal m ≡ to_decimal n → m ≡ n
to_decimal_injective m n h = sym (read-to_decimal m) ∙ ap (λ t. read t 0) h ∙ read-to_decimal n

-- The oid in the first cell of a row.
abbrev pub HasOid : List (Option Text) → ℕ → Type 0
HasOid row oid = first row ≡ some (some (to_decimal oid))

-- pg_attribute joins pg_class: if the oid of a pg_class row is `oid`, then the rows of pg_attribute
-- for a table of that schema and name have `oid` as their attrelid, and it fits an `int4`.
attribute_row_joins :
    (case : CaseTable) (type_oid : PgType → ℕ) (table column : List Value) (oid : ℕ)
    → json_str table 0 (codes "public") ≡ json_str column 0 (codes "public")
    → json_str table 1 [] ≡ json_str column 1 []
    → HasOid (class_row case table) oid
    → HasOid (attribute_row case type_oid column) oid × (oid < i32_max)
unfolding class_row attribute_row table_oid
attribute_row_joins case type_oid table column oid s t h =
    let same =
      to_decimal_injective (table_oid (json_str table 0 (codes "public")) (json_str table 1 [])) oid
        (ground arith) in
    (
      ground arith,
      ground (
        arith,
        same,
        djb2_oid-within (json_str table 0 (codes "public") ∷ json_str table 1 [] ∷ [])
            base_table_oid,
      ),
    )
