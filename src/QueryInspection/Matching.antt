-- ===== src/QueryInspection/Matching.antt =====
-- How src/query_inspection.rs matches table names.
use postgresql_trino_gateway.Prelude.{
  ◌≡◌, refl, Bool, true, ◌&&◌, Option, none, some, List, [], ◌∷◌, map, arith, any,
}
use postgresql_trino_gateway.Prelude.Text.{
  Text, to_ascii_uppercase, ascii_upper, ascii_lower, eq_ignore_ascii_case,
}
use postgresql_trino_gateway.Sql.{Ident, ObjectName, ParsedQuery}
use postgresql_trino_gateway.QueryInspection.{
  ident_eq, last_ident_eq, qualified_ok, references_table, references_table_in_schema,
}

lower-upper : (s : Text) → map ascii_lower (map ascii_upper s) ≡ map ascii_lower s
unfolding ascii_lower ascii_upper
lower-upper [] = refl
lower-upper (c ∷ s) = ground (arith, lower-upper s)

eq_ignore-upper :
    (s t : Text) → eq_ignore_ascii_case s (to_ascii_uppercase t) ≡ eq_ignore_ascii_case s t
unfolding eq_ignore_ascii_case to_ascii_uppercase
eq_ignore-upper s t = rw (lower-upper t)

ident_eq-upper : (id : Option Ident) (t : Text) → ident_eq (to_ascii_uppercase t) id ≡ ident_eq t id
ident_eq-upper none t = refl
ident_eq-upper (some id) t = eq_ignore-upper id.value t

last_ident_eq-upper :
    (obj : ObjectName) (t : Text) → last_ident_eq obj (to_ascii_uppercase t) ≡ last_ident_eq obj t
unfolding last_ident_eq
last_ident_eq-upper obj t = ident_eq-upper _ t

any-cong :
    (p q : ObjectName → Bool) (xs : List ObjectName)
    → ((x : ObjectName) → p x ≡ q x)
    → any p xs ≡ any q xs
any-cong p q [] h = refl
any-cong p q (x ∷ xs) h = ground (arith, h x, any-cong p q xs h)

-- A table's name is found in whatever ASCII case it is asked for.
references_table-upper :
    (parsed : ParsedQuery) (name : Text)
    → references_table parsed (to_ascii_uppercase name) ≡ references_table parsed name
unfolding references_table
references_table-upper none name = refl
references_table-upper (some p) name =
    any-cong (λ obj. last_ident_eq obj (to_ascii_uppercase name)) (λ obj. last_ident_eq obj name)
      p.relations (λ obj. last_ident_eq-upper obj name)

any-weaken :
    (p q : ObjectName → Bool) (xs : List ObjectName)
    → ((x : ObjectName) → p x ≡ true → q x ≡ true)
    → any p xs ≡ true
    → any q xs ≡ true
any-weaken p q [] h a = a
any-weaken p q (x ∷ xs) h a = ground (arith, h x, any-weaken p q xs h)

-- The qualified test is the narrower one: a query that references the table in the schema references
-- the table.
in_schema-references_table :
    (parsed : ParsedQuery) (schema name : Text)
    → references_table_in_schema parsed schema name ≡ true
    → references_table parsed name ≡ true
unfolding references_table references_table_in_schema
in_schema-references_table none schema name h = h
in_schema-references_table (some p) schema name h =
    any-weaken (λ obj. last_ident_eq obj name && qualified_ok schema obj)
      (λ obj. last_ident_eq obj name) p.relations (λ obj e. ground arith) h
