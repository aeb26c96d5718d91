-- ===== src/Types/Numbers.antt =====
-- JSON numbers and floats, as src/types.rs reads them: serde_json's accessors, and Rust's operations
-- on `f64` that come to whole numbers.
use postgresql_trino_gateway.Prelude.{
  ℕ, zero, suc, ◌+◌, ◌-◌, ◌*◌, ◌/◌, ◌%◌, ◌^◌, ◌==◌, Bool, true, false, ◌&&◌, ◌||◌, Option, none,
  some, ltb, leb, if◌then◌else◌, or_else,
}
use postgresql_trino_gateway.Prelude.Int.{ℤ, pos, negsuc, negate}
use postgresql_trino_gateway.Catalog.Response.{and_then}
use postgresql_trino_gateway.Wire.{Float, nan, infinity, finite, Number, unsigned, negative, float}

-- `i64::MAX`.
abbrev pub i64_max : ℕ
i64_max = 2 ^ 63 - 1

abbrev pub as_i64 : Number → Option ℤ
as_i64 (unsigned n) = if leb n i64_max then some (pos n) else none
as_i64 (negative n) = some (negsuc n)
as_i64 (float sign m k) = none

abbrev pub as_u64 : Number → Option ℕ
as_u64 (unsigned n) = some n
as_u64 (negative n) = none
as_u64 (float sign m k) = none

-- How many low bits of a `u64` an `f64` cannot hold: eleven at most.
abbrev pub shift : (fuel s n : ℕ) → ℕ
shift zero s n = s
shift (suc fuel) s n = let more = shift fuel (suc s) n in if ltb n (2 ^ (53 + s)) then s else more

-- `n` with the last `s` bits rounded off, to the even neighbour in the middle.
abbrev pub round_bits : (n s : ℕ) → ℕ
round_bits n s =
    let q = n / 2 ^ s in
    let r = n % 2 ^ s in
    (if ltb (2 ^ s) (2 * r) || (2 ^ s == 2 * r) && (q % 2 == 1) then q + 1 else q) * 2 ^ s

-- `u64 as f64`.
unfoldable pub round_f64 : ℕ → ℕ
round_f64 n = round_bits n (shift 11 0 n)

-- Each JSON number has one.
unfoldable pub as_f64 : Number → Option Float
unfolding round_f64
as_f64 (unsigned n) = some (finite false (round_f64 n) 0)
as_f64 (negative n) = some (finite true (round_f64 (suc n)) 0)
as_f64 (float sign m k) = some (finite sign m k)

abbrev pub is_finite : Float → Bool
is_finite (finite sign m k) = true
is_finite f = false

-- `f.fract() == 0.0`; it is NaN where `f` is not finite.
abbrev pub fract_is_zero : Float → Bool
fract_is_zero (finite sign m k) = m % 2 ^ k == 0
fract_is_zero f = false

-- `f >= i64::MIN as f64 && f < i64::MAX as f64`; the second is 2 ^ 63.
abbrev pub fits_i64 : Float → Bool
fits_i64 nan = false
fits_i64 (infinity sign) = false
fits_i64 (finite true m k) = leb m (2 ^ 63 * 2 ^ k)
fits_i64 (finite false m k) = ltb m (2 ^ 63 * 2 ^ k)

-- `f as i64`: towards zero, and to the nearest bound outside the range.
abbrev pub cast_i64 : Float → ℤ
cast_i64 nan = pos 0
cast_i64 (infinity true) = negate (2 ^ 63)
cast_i64 (infinity false) = pos i64_max
cast_i64 (finite true m k) = negate (if leb (m / 2 ^ k) (2 ^ 63) then m / 2 ^ k else 2 ^ 63)
cast_i64 (finite false m k) = pos (if leb (m / 2 ^ k) i64_max then m / 2 ^ k else i64_max)

unfoldable pub f64_to_i64_exact : Float → Option ℤ
f64_to_i64_exact f = if fract_is_zero f && fits_i64 f then some (cast_i64 f) else none

abbrev pub u64_to_i64 : Number → Option ℤ
u64_to_i64 n = and_then (as_u64 n) (λ u. if leb u i64_max then some (pos u) else none)

-- The chain of `json_to_i64` on a number.
unfoldable pub number_to_i64 : Number → Option ℤ
unfolding f64_to_i64_exact as_f64
number_to_i64 n = or_else (as_i64 n) (or_else (u64_to_i64 n) (and_then (as_f64 n) f64_to_i64_exact))
