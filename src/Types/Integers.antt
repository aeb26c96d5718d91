-- ===== src/Types/Integers.antt =====
-- Whole numbers in src/types.rs: when `json_to_i64` succeeds, and on what.
use Prim.Native.Nat.{zero, suc}
use postgresql_trino_gateway.Prelude.{
  ℕ, ◌*◌, ◌/◌, ◌%◌, ◌^◌, ◌≤◌, ◌<◌, ◌==◌, ◌≡◌, inl, inr, refl, ap, ◌∙◌, subst, Bool, true, false,
  none, some, arith, leb, Bool-cases,
}
use native.Mathlib.Numerals.{unary_clauses}
use postgresql_trino_gateway.Prelude.Int.{ℤ, pos, negsuc, negate}
use postgresql_trino_gateway.Wire.{finite, Number, unsigned, negative, float}
use postgresql_trino_gateway.Types.Numbers.{
  shift, round_bits, round_f64, fits_i64, cast_i64, f64_to_i64_exact, number_to_i64, i64_max,
}

-- The numbers that serde_json makes.
abbrev pub IsNumber : Number → Type 0
IsNumber (unsigned n) = n < 2 ^ 64
IsNumber (negative n) = n < 2 ^ 63
IsNumber (float sign m k) = Unit

abbrev pub InI64 : ℤ → Type 0
InI64 (pos n) = n < 2 ^ 63
InI64 (negsuc n) = n < 2 ^ 63

abbrev pub signed : Bool → ℕ → ℤ
signed true n = negate n
signed false n = pos n

-- The number is the integer, exactly.
abbrev pub Denotes : Number → ℤ → Type 0
Denotes (unsigned n) z = z ≡ pos n
Denotes (negative n) z = z ≡ negsuc n
Denotes (float sign m k) z = (q : ℕ) × (m ≡ q * 2 ^ k) × (z ≡ signed sign q)

pow_two_suc : (k : ℕ) → 2 ^ suc k ≡ 2 ^ k * 2
pow_two_suc k = simp unary_clauses

pow_pos : (k : ℕ) → 0 < 2 ^ k
pow_pos zero = omega arith
pow_pos (suc k) = omega (arith, pow_two_suc k, pow_pos k)

-- A multiple of `p` below `n * p`.
div_lt : (m n p : ℕ) → 0 < p → m < n * p → m / p < n
div_lt m n p h l = grind arith

div_mul : (m p : ℕ) → 0 < p → m % p ≡ 0 → m ≡ m / p * p
div_mul m p h e = grind arith

mul_div : (q p : ℕ) → 0 < p → q * p / p ≡ q
mul_div q p h = grind arith

mul_mod : (q p : ℕ) → 0 < p → q * p % p ≡ 0
mul_mod q p h = grind arith

last_shift : (n : ℕ) → 2 ^ 63 ≤ n → n < 2 ^ 64 → shift 11 0 n ≡ 11
last_shift n h l = ground arith

bits : (n : ℕ) → 2 ^ 63 ≤ n → 2 ^ 63 ≤ round_bits n 11
bits n h = ground arith

-- A `u64` that is no `i64` rounds to no `i64`.
round_f64-ge : (n : ℕ) → 2 ^ 63 ≤ n → n < 2 ^ 64 → 2 ^ 63 ≤ round_f64 n
unfolding round_f64
round_f64-ge n h l = rw (last_shift n h l) (bits n h)

div_le : (m n p : ℕ) → 0 < p → m ≤ n * p → m / p ≤ n
div_le m n p h l = grind arith

pub negate-InI64 : (q : ℕ) → q ≤ 2 ^ 63 → InI64 (negate q)
negate-InI64 zero h = omega arith
negate-InI64 (suc q) h = omega arith

-- The two tests of `f64_to_i64_exact`, and the quotient that is cast.
cast_exact :
    (sign : Bool) (m k : ℕ) (z : ℤ)
    → (m % 2 ^ k) ≡ 0
    → fits_i64 (finite sign m k) ≡ true
    → cast_i64 (finite sign m k) ≡ signed sign (m / 2 ^ k) × InI64 (signed sign (m / 2 ^ k))
cast_exact true m k z d f =
    let l : m / 2 ^ k ≤ 2 ^ 63 = div_le m (2 ^ 63) (2 ^ k) (pow_pos k) (ground arith) in
    (ground arith, negate-InI64 (m / 2 ^ k) l)
cast_exact false m k z d f =
    let l : m / 2 ^ k < 2 ^ 63 = div_lt m (2 ^ 63) (2 ^ k) (pow_pos k) (ground arith) in
    (ground arith, l)

exact_value :
    (sign : Bool) (m k : ℕ)
    → (m % 2 ^ k == 0) ≡ true
    → fits_i64 (finite sign m k) ≡ true
    → f64_to_i64_exact (finite sign m k) ≡ some (signed sign (m / 2 ^ k))
unfolding f64_to_i64_exact
exact_value sign m k d f = rw (d, f) (ap some (cast_exact sign m k (pos 0) (ground arith) f).0)

pub exact_sound :
    (sign : Bool) (m k : ℕ) (z : ℤ)
    → f64_to_i64_exact (finite sign m k) ≡ some z
    → Denotes (float sign m k) z × InI64 z
unfolding f64_to_i64_exact
exact_sound sign m k z h = elim (Bool-cases (m % 2 ^ k == 0)) [
  | inr n ↦ absurd (ground arith)
  | inl d ↦ elim (Bool-cases (fits_i64 (finite sign m k))) [
    | inr n ↦ absurd (ground arith)
    | inl f ↦
        let same : signed sign (m / 2 ^ k) ≡ z = cc (exact_value sign m k d f) in
        subst (λ z. Denotes (float sign m k) z × InI64 z) same
          (
            (m / 2 ^ k, div_mul m (2 ^ k) (pow_pos k) (ground arith), refl),
            (cast_exact sign m k z (ground arith) f).1,
          )
  ]
]

mul_mono : (q n p : ℕ) → q ≤ n → q * p ≤ n * p
mul_mono q n p h = grind arith

mul_strict : (q n p : ℕ) → q < n → 0 < p → q * p < n * p
mul_strict q n p h l = grind arith

fits_of :
    (sign : Bool) (q k : ℕ) → InI64 (signed sign q) → fits_i64 (finite sign (q * 2 ^ k) k) ≡ true
fits_of true zero k h = ground (arith, mul_mono 0 (2 ^ 63) (2 ^ k))
fits_of true (suc q) k h = ground (arith, mul_mono (suc q) (2 ^ 63) (2 ^ k))
fits_of false q k h = ground (arith, mul_strict q (2 ^ 63) (2 ^ k) h (pow_pos k))

exact_complete :
    (sign : Bool) (m k : ℕ) (z : ℤ)
    → Denotes (float sign m k) z
    → InI64 z
    → f64_to_i64_exact (finite sign m k) ≡ some z
exact_complete sign m k z (q, e, f) h =
    rw (e, f)
      (exact_value sign (q * 2 ^ k) k (ground (arith, mul_mod q (2 ^ k) (pow_pos k)))
          (fits_of sign q k (subst InI64 f h))
        ∙ ap (λ n. some (signed sign n)) (mul_div q (2 ^ k) (pow_pos k)))

-- A `u64` beyond `i64::MAX` is refused.
pub number_large : (n : ℕ) → leb n i64_max ≡ false → n < 2 ^ 64 → number_to_i64 (unsigned n) ≡ none
unfolding number_to_i64
number_large n h w = ground (arith, round_f64-ge n (ground arith) w)

module _ (z : ℤ) where
  pub number_sound : (n : Number) → IsNumber n → number_to_i64 n ≡ some z → Denotes n z × InI64 z
  unfolding number_to_i64
  number_sound (unsigned n) w h = elim (Bool-cases (leb n i64_max)) [
    | inl l ↦ ground arith
    | inr l ↦ absurd (cc (number_large n l w))
  ]
  number_sound (negative n) w h = ground arith
  number_sound (float sign m k) w h = exact_sound sign m k z h

  pub number_complete : (n : Number) → IsNumber n → Denotes n z × InI64 z → number_to_i64 n ≡ some z
  unfolding number_to_i64
  number_complete (unsigned n) w h = ground arith
  number_complete (negative n) w h = ground arith
  number_complete (float sign m k) w h = exact_complete sign m k z h.0 h.1
