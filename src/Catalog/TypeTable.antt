-- ===== src/Catalog/TypeTable.antt =====
-- The references between the rows of src/catalog/pg_type.rs.
use postgresql_trino_gateway.Prelude.{
  ℕ, ◌≡◌, refl, inl, inr, Bool, true, false, ◌&&◌, ◌==◌, Option, none, some, List, [], ◌∷◌, arith,
  all, All, Option-cases, if◌then◌else◌,
}
use postgresql_trino_gateway.Prelude.Text.{codes, text_eq}
use postgresql_trino_gateway.Prelude.Equality.{text_eq_iff}
use postgresql_trino_gateway.Catalog.PgType.{TypeEntry, base_types, array_types}

-- The entry with an oid, in the base types.
abbrev pub find_entry : ℕ → List TypeEntry → Option TypeEntry
find_entry oid [] = none
find_entry oid (e ∷ es) = if e.oid == oid then some e else find_entry oid es

find_entry_sound :
    (oid : ℕ) (es : List TypeEntry) {e : TypeEntry} → find_entry oid es ≡ some e → e.oid ≡ oid
find_entry_sound oid [] h = ground arith
find_entry_sound oid (x ∷ es) {e} h = ground (arith, find_entry_sound oid es {e = e})

abbrev element_ok : TypeEntry → Option TypeEntry → Bool
element_ok a none = false
element_ok a (some b) =
    text_eq a.typname (b'_' ∷ b.typname)
    && text_eq b.typtype (codes "b")
    && text_eq a.typtype (codes "a")

-- An array entry has its element among the base types, which the table lists first, and bears its
-- name behind an underscore.
abbrev pub ArrayOf : TypeEntry → Type 0
ArrayOf a =
    (b : TypeEntry) × (find_entry a.elemtypoid base_types ≡ some b)
    × (b.oid ≡ a.elemtypoid)
    × (a.typname ≡ b'_' ∷ b.typname)
    × (b.typtype ≡ codes "b")
    × (a.typtype ≡ codes "a")

element_ok-ArrayOf :
    (a : TypeEntry) → element_ok a (find_entry a.elemtypoid base_types) ≡ true → ArrayOf a
element_ok-ArrayOf a h = elim (Option-cases (find_entry a.elemtypoid base_types)) [
  | inl n ↦ ground arith
  | inr (b, e) ↦ (
    b,
    e,
    find_entry_sound a.elemtypoid base_types e,
    ground (arith, text_eq_iff a.typname (b'_' ∷ b.typname)),
    ground (arith, text_eq_iff b.typtype (codes "b")),
    ground (arith, text_eq_iff a.typtype (codes "a")),
  )
]

all-All :
    (p : TypeEntry → Bool) (P : TypeEntry → Type 0) (es : List TypeEntry)
    → ((e : TypeEntry) → p e ≡ true → P e)
    → all p es ≡ true
    → All P es
all-All p P [] f h = tt
all-All p P (e ∷ es) f h = (f e (ground arith), all-All p P es f (ground arith))

elements_ok : all (λ a. element_ok a (find_entry a.elemtypoid base_types)) array_types ≡ true
unfolding text_eq
elements_ok = refl

-- Every array type of the table has its element type among the base types, which come before all
-- arrays, and its name is the element's behind an underscore.
array_types-ArrayOf : All ArrayOf array_types
array_types-ArrayOf =
    all-All (λ a. element_ok a (find_entry a.elemtypoid base_types)) ArrayOf array_types
      element_ok-ArrayOf elements_ok
