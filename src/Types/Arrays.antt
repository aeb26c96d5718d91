-- ===== src/Types/Arrays.antt =====
-- Array types of src/types.rs: `trino_type_to_pg` on `array(…)`.
use Prim.Native.Nat.{zero, suc}
use postgresql_trino_gateway.Prelude.{
  ℕ, ◌≤◌, ◌<◌, ◌≡◌, refl, sym, ap, ◌∙◌, subst, inl, inr, none, some, [], ◌∷◌, ◌++◌, arith, length,
  length-append, length-map, Option-cases,
}
use mathlib.Core.List.{map-append, reverse-append}
use postgresql_trino_gateway.Prelude.Text.{
  Text, codes, trim, is_whitespace, ascii_lower, starts_with, ends_with, strip_prefix,
}
use postgresql_trino_gateway.Prelude.TextLaws.{strip_prefix_sound}
use postgresql_trino_gateway.Prelude.Case.{CaseTable}
use postgresql_trino_gateway.Wire.{PgType}
use postgresql_trino_gateway.Types.{
  but_last, array_element, scalar_type, scalar_to_array, normalize, type_of, trino_type_to_pg,
}
use postgresql_trino_gateway.Types.Ascii.{
  IsAscii, lower, to_lowercase-lower, lower-trim-lower, trim-IsAscii, lower-IsAscii, length-trim,
  trim-closed,
}

abbrev pub array_open : Text
array_open = codes "array("

abbrev pub array_close : Text
array_close = codes ")"

-- The text of an array type.
abbrev pub array_of : Text → Text
array_of inner = array_open ++ (inner ++ array_close)

normalize-lower : (case : CaseTable) (s : Text) → IsAscii s → normalize case s ≡ lower (trim s)
unfolding normalize
normalize-lower case s h = to_lowercase-lower case (trim s) (trim-IsAscii s h)

normalize_twice :
    (case : CaseTable) (s : Text) → IsAscii s → normalize case (lower s) ≡ normalize case s
normalize_twice case s h =
    normalize-lower case (lower s) (lower-IsAscii s h)
    ∙ lower-trim-lower s
    ∙ sym (normalize-lower case s h)

-- The type depends on the normalised text only.
type_of-normalize :
    (case : CaseTable) (fuel : ℕ) (s t : Text)
    → normalize case s ≡ normalize case t
    → type_of case fuel s ≡ type_of case fuel t
unfolding type_of
type_of-normalize case zero s t e = ap scalar_type e
type_of-normalize case (suc fuel) s t e = ap (step case fuel) e
  where
    step : CaseTable → ℕ → Text → PgType
    step case fuel n = elim (array_element n) [
      | none ↦ scalar_type n
      | some inner ↦ scalar_to_array (type_of case fuel inner)
    ]

pub type_of-some :
    (case : CaseTable) (fuel : ℕ) (s inner : Text)
    → array_element (normalize case s) ≡ some inner
    → type_of case (suc fuel) s ≡ scalar_to_array (type_of case fuel inner)
unfolding type_of
type_of-some case fuel s inner e = rw (e, type_of)

pub type_of-none :
    (case : CaseTable) (fuel : ℕ) (s : Text)
    → array_element (normalize case s) ≡ none
    → type_of case fuel s ≡ scalar_type (normalize case s)
unfolding type_of
type_of-none case zero s e = refl
type_of-none case (suc fuel) s e = rw (e, type_of)

but_last-append : (s : Text) (c : ℕ) → but_last (s ++ c ∷ []) ≡ s
but_last-append [] c = refl
but_last-append (d ∷ []) c = refl
but_last-append (d ∷ e ∷ s) c = ap (λ (t : Text). d ∷ t) (but_last-append (e ∷ s) c)

length-but_last : (s : Text) → length (but_last s) ≤ length s
length-but_last [] = omega arith
length-but_last (c ∷ []) = omega arith
length-but_last (c ∷ d ∷ s) = omega (arith, length-but_last (d ∷ s))

but_last-IsAscii : (s : Text) → IsAscii s → IsAscii (but_last s)
but_last-IsAscii [] h = tt
but_last-IsAscii (c ∷ []) h = tt
but_last-IsAscii (c ∷ d ∷ s) h = (h.0, but_last-IsAscii (d ∷ s) h.1)

append-IsAscii : (a b : Text) → IsAscii (a ++ b) → IsAscii b
append-IsAscii [] b h = h
append-IsAscii (c ∷ a) b h = append-IsAscii a b h.1

-- The element's text is shorter, and ASCII if the array's is.
array_element_sound :
    (n inner : Text)
    → array_element n ≡ some inner
    → (length inner < length n) × (IsAscii n → IsAscii inner)
unfolding array_element
array_element_sound n inner h = elim (Option-cases (strip_prefix array_open n)) [
  | inl e ↦ ground arith
  | inr (rest, e) ↦
      let cut = strip_prefix_sound array_open n e in
      let same : inner ≡ but_last rest = ground arith in
      (
        ground (
          arith,
          ap (length {0}) cut,
          ap (length {0}) same,
          length-append array_open rest,
          length-but_last rest,
        ),
        λ a.
            subst IsAscii (sym same)
              (but_last-IsAscii rest (append-IsAscii array_open rest (subst IsAscii cut a))),
      )
]

array_element-array_of : (inner : Text) → array_element (array_of inner) ≡ some inner
unfolding array_element ends_with starts_with strip_prefix
array_element-array_of inner =
    rw (reverse-append (array_open ++ inner) array_close, but_last-append inner b')')

normalize-IsAscii : (case : CaseTable) (s : Text) → IsAscii s → IsAscii (normalize case s)
normalize-IsAscii case s h =
    subst IsAscii (sym (normalize-lower case s h)) (lower-IsAscii (trim s) (trim-IsAscii s h))

length-normalize : (case : CaseTable) (s : Text) → IsAscii s → length (normalize case s) ≤ length s
length-normalize case s h = omega (
  arith,
  ap (length {0}) (normalize-lower case s h),
  length-map ascii_lower (trim s),
  length-trim s,
)

no_element :
    (case : CaseTable) (s : Text)
    → IsAscii s
    → length s ≤ 0
    → array_element (normalize case s) ≡ none
no_element case s h z = elim (Option-cases (array_element (normalize case s))) [
  | inl e ↦ e
  | inr (inner, e) ↦
      absurd (omega (arith, (array_element_sound _ inner e).0, length-normalize case s h))
]

-- Fuel for each code point of the text is enough: more gives the same type.
type_of_fuel :
    (case : CaseTable) (f g : ℕ) (s : Text)
    → IsAscii s
    → length s ≤ f
    → length s ≤ g
    → type_of case f s ≡ type_of case g s
type_of_fuel case zero g s h p q =
    let n = no_element case s h p in type_of-none case 0 s n ∙ sym (type_of-none case g s n)
type_of_fuel case (suc f) zero s h p q =
    let n = no_element case s h q in type_of-none case (suc f) s n ∙ sym (type_of-none case 0 s n)
type_of_fuel case (suc f) (suc g) s h p q = elim (Option-cases (array_element (normalize case s))) [
  | inl n ↦ type_of-none case (suc f) s n ∙ sym (type_of-none case (suc g) s n)
  | inr (inner, e) ↦
      let shorter = (array_element_sound _ inner e).0 in
      let within = length-normalize case s h in
      let ascii = (array_element_sound _ inner e).1 (normalize-IsAscii case s h) in
      type_of-some case f s inner e
      ∙ ap scalar_to_array (type_of_fuel case f g inner ascii (omega arith) (omega arith))
      ∙ sym (type_of-some case g s inner e)
]

closed-IsAscii : (inner : Text) → IsAscii inner → IsAscii (inner ++ array_close)
closed-IsAscii [] h = (omega arith, tt)
closed-IsAscii (c ∷ s) h = (h.0, closed-IsAscii s h.1)

array_of-IsAscii : (inner : Text) → IsAscii inner → IsAscii (array_of inner)
array_of-IsAscii inner h = (
  omega arith,
  (omega arith, (omega arith, (omega arith, (omega arith, (omega arith, closed-IsAscii inner h))))),
)

trim-array_of : (inner : Text) → trim (array_of inner) ≡ array_of inner
unfolding is_whitespace
trim-array_of inner = trim-closed b'a' b')' (codes "rray(" ++ inner) refl refl

lower-array_of : (inner : Text) → lower (array_of inner) ≡ array_of (lower inner)
unfolding ascii_lower
lower-array_of inner =
    map-append ascii_lower array_open (inner ++ array_close)
    ∙ ap (λ t. array_open ++ t) (map-append ascii_lower inner array_close)

array_element-normalize :
    (case : CaseTable) (inner : Text)
    → IsAscii inner
    → array_element (normalize case (array_of inner)) ≡ some (lower inner)
array_element-normalize case inner h =
    ap array_element (
      normalize-lower case (array_of inner) (array_of-IsAscii inner h)
      ∙ ap lower (trim-array_of inner)
      ∙ lower-array_of inner)
    ∙ array_element-array_of (lower inner)

-- The recursion of the code.
pub trino_type_to_pg_array_step :
    (case : CaseTable) (inner : Text)
    → IsAscii inner
    → trino_type_to_pg case (array_of inner) ≡ scalar_to_array (trino_type_to_pg case inner)
unfolding trino_type_to_pg
trino_type_to_pg_array_step case inner h =
    let big = array_of inner in
    let bigger = length-append array_open (inner ++ array_close) in
    let longer = length-append inner array_close in
    type_of_fuel case (length big) (suc (length big)) big (array_of-IsAscii inner h) (omega arith)
      (omega arith)
    ∙ type_of-some case (length big) big (lower inner) (array_element-normalize case inner h)
    ∙ ap scalar_to_array (
        type_of-normalize case (length big) (lower inner) inner (normalize_twice case inner h)
        ∙ type_of_fuel case (length big) (length inner) inner h (omega arith) (omega arith))
