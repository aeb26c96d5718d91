-- ===== src/InfoSchema/Splice.antt =====
-- What `rewrite_info_schema_columns` (src/info_schema.rs) changes of a query.
use Prim.Native.Nat.{zero, suc}
use postgresql_trino_gateway.Prelude.{
  take, drop, ℕ, ◌≡◌, refl, sym, ap, ◌∙◌, inl, inr, some, [], ◌∷◌, ◌++◌, append_assoc, map, arith,
  length, length-append, Option-cases,
}
use postgresql_trino_gateway.Prelude.Text.{Text, codes, find, to_ascii_uppercase, ascii_upper}
use postgresql_trino_gateway.Prelude.TextLaws.{find_sound}
use postgresql_trino_gateway.Sql.{ParsedQuery}
use postgresql_trino_gateway.InfoSchema.{
  type_mapping, powerbi_marker, end_marker, powerbi_span, rewrite_info_schema_columns,
}

take-drop : (n : ℕ) (s : Text) → s ≡ take n s ++ drop n s
take-drop zero s = refl
take-drop (suc n) [] = refl
take-drop (suc n) (c ∷ s) = ap (λ (t : Text). c ∷ t) (take-drop n s)

-- A mapped list, cut where a prefix of the image ends.
take-map : (f : ℕ → ℕ) (s a b : Text) → map f s ≡ a ++ b → map f (take (length a) s) ≡ a
take-map f s [] b h = refl
take-map f [] (x ∷ a) b h = ground arith
take-map f (c ∷ s) (x ∷ a) b h = ground (arith, take-map f s a b)

drop-map : (f : ℕ → ℕ) (s a b : Text) → map f s ≡ a ++ b → map f (drop (length a) s) ≡ b
drop-map f s [] b h = h
drop-map f [] (x ∷ a) b h = ground arith
drop-map f (c ∷ s) (x ∷ a) b h = ground (arith, drop-map f s a b)

-- The upper-case text is cut around an expression that begins with Power BI's marker and ends with
-- `END AS DATA_TYPE`.
powerbi_span_sound :
    (upper : Text) {start len : ℕ}
    → powerbi_span upper ≡ some (start, len)
    → (before inside behind : Text) × (upper ≡ before ++ ((inside ++ end_marker) ++ behind))
      × (start ≡ length before)
      × (len ≡ length (inside ++ end_marker))
      × ((rest : Text) × (powerbi_marker ++ rest ≡ (inside ++ end_marker) ++ behind))
unfolding powerbi_span
powerbi_span_sound upper {start} {len} h = elim (Option-cases (find powerbi_marker upper)) [
  | inl n ↦ ground arith
  | inr ((before, rest), e) ↦ elim (Option-cases (find end_marker (powerbi_marker ++ rest))) [
    | inl n ↦ ground arith
    | inr ((inside, behind), f) ↦
        let cut =
          find_sound end_marker (powerbi_marker ++ rest) f
          ∙ sym (append_assoc inside end_marker behind) in
        (
          before,
          inside,
          behind,
          find_sound powerbi_marker upper e ∙ ap (λ t. before ++ t) cut,
          ground arith,
          ground (arith, length-append inside end_marker),
          (rest, cut),
        )
  ]
]

-- The rewrite replaces one span of the query and keeps the texts around it: in upper case the span
-- begins with Power BI's marker (or lies within it) and ends with `END AS DATA_TYPE`.
pub rewrite_info_schema_columns_splice :
    (sql out : Text) (parsed : ParsedQuery)
    → rewrite_info_schema_columns sql parsed ≡ some out
    → (before span after : Text) × (sql ≡ before ++ (span ++ after))
      × (out ≡ before ++ (type_mapping ++ (codes " AS DATA_TYPE" ++ after)))
      × ((inside rest : Text) × (to_ascii_uppercase span ≡ inside ++ end_marker)
          × (powerbi_marker ++ rest ≡ to_ascii_uppercase (span ++ after)))
unfolding rewrite_info_schema_columns to_ascii_uppercase
rewrite_info_schema_columns_splice sql out parsed h =
    elim (Option-cases (powerbi_span (to_ascii_uppercase sql))) [
      | inl n ↦ ground arith
      | inr ((start, len), e) ↦
          let (before, inside, behind, cut, s, l, (rest, m)) =
            powerbi_span_sound (to_ascii_uppercase sql) e in
          let tail = drop start sql in
          let tail_cut : map ascii_upper tail ≡ (inside ++ end_marker) ++ behind =
            rw s (drop-map ascii_upper sql before ((inside ++ end_marker) ++ behind) cut) in
          (
            take start sql,
            take len tail,
            drop len tail,
            take-drop start sql ∙ ap (λ t. take start sql ++ t) (take-drop len tail),
            ground arith,
            (
              inside,
              rest,
              rw l (take-map ascii_upper tail (inside ++ end_marker) behind tail_cut),
              m ∙ sym tail_cut ∙ ap (map ascii_upper) (take-drop len tail),
            ),
          )
    ]
