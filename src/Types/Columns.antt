-- ===== src/Types/Columns.antt =====
-- Integer columns (src/types.rs): what their cells hold, in both formats.
use postgresql_trino_gateway.Prelude.{
  ℕ, ok_or-eq_ok, ◌≡◌, ◌↔◌, inl, inr, refl, ap, Bool, true, some, arith, leb, ok, Bool-cases,
}
use postgresql_trino_gateway.Prelude.Text.{Text}
use postgresql_trino_gateway.Prelude.Case.{CaseTable, to_lowercase}
use postgresql_trino_gateway.Prelude.Int.{ℤ, pos, negsuc, to_string}
use postgresql_trino_gateway.Wire.{Number, unsigned, negative, float, finite, number}
use postgresql_trino_gateway.Types.Numbers.{
  f64_to_i64_exact, number_to_i64, i64_max, cast_i64, fits_i64, fract_is_zero,
}
use postgresql_trino_gateway.Types.Libraries.{Libraries}
use postgresql_trino_gateway.Types.Json.{json_to_i64}
use postgresql_trino_gateway.Types.Cells.{
  encode_value, encode_number, integer_text, is_integer_name, base_type,
}
use postgresql_trino_gateway.Types.Integers.{
  IsNumber, InI64, Denotes, number_sound, number_complete, number_large,
}

exact_cast :
    (sign : Bool) (m k : ℕ) (z : ℤ)
    → f64_to_i64_exact (finite sign m k) ≡ some z
    → (fits_i64 (finite sign m k) ≡ true) × (cast_i64 (finite sign m k) ≡ z)
unfolding f64_to_i64_exact
exact_cast sign m k z h = elim (Bool-cases (fract_is_zero (finite sign m k))) [
  | inr n ↦ absurd (ground arith)
  | inl d ↦ elim (Bool-cases (fits_i64 (finite sign m k))) [
    | inr n ↦ absurd (ground arith)
    | inl f ↦ (f, ground arith)
  ]
]

-- A number that serde_json makes is read exactly for an integer column in the binary format:
-- `json_to_i64` gives an integer if and only if the number is that integer and it lies in the
-- range of an `i64`.
pub json_to_i64_iff :
    (libs : Libraries) (n : Number) (trino_type : Text) (z : ℤ)
    → IsNumber n
    → (json_to_i64 libs (number n) trino_type ≡ ok z) ↔ (Denotes n z × InI64 z)
unfolding json_to_i64
json_to_i64_iff libs n t z w = (
  λ h. number_sound z n w (ok_or-eq_ok (number_to_i64 n) _ h),
  λ d. rw (number_complete z n w d) refl,
)

module _ (libs : Libraries) (case : CaseTable) where
  integer_text-eq :
      (n : Number) (z : ℤ)
      → IsNumber n
      → number_to_i64 n ≡ some z
      → integer_text libs case n ≡ to_string z
  unfolding number_to_i64
  integer_text-eq (unsigned n) z w h = elim (Bool-cases (leb n i64_max)) [
    | inl l ↦ rw (l, integer_text) (let e : pos n ≡ z = ground arith in ap to_string e)
    | inr l ↦ absurd (cc (number_large n l w))
  ]
  integer_text-eq (negative n) z w h = let e : negsuc n ≡ z = ground arith in ap to_string e
  integer_text-eq (float sign m k) z w h = let (f, c) = exact_cast sign m k z h in rw (f, c) refl

  -- Both formats agree on a column of Trino's integer types: where the binary encoder reads an
  -- integer out of a number that serde_json makes, the text is that integer's.
  pub integer_formats_agree :
      (n : Number) (trino_type : Text) (z : ℤ)
      → IsNumber n
      → is_integer_name (to_lowercase case (base_type trino_type)) ≡ true
      → json_to_i64 libs (number n) trino_type ≡ ok z
      → encode_value libs case (number n) trino_type ≡ some (to_string z)
  unfolding json_to_i64 encode_value encode_number
  integer_formats_agree n t z w i h =
      rw i (ap some (integer_text-eq n z w (ok_or-eq_ok (number_to_i64 n) _ h)))
