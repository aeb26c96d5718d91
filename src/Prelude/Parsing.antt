-- ===== src/Prelude/Parsing.antt =====
-- Parsing the decimal texts of whole numbers.
use Prim.Native.Nat.{ℕ, zero, suc, ◌+◌, ◌-◌, ◌*◌, ◌/◌, ◌%◌, ◌^◌}
use mathlib.Core.Path.{◌≡◌, refl, ap, ◌∙◌}
use mathlib.Core.Bool.{true, ◌&&◌}
use mathlib.Core.List.{[], ◌∷◌}
use mathlib.Core.Option.{none, some}
use mathlib.Core.Logic.{◌≢◌, inl, inr}
use native.Mathlib.Omega.{arith}
use postgresql_trino_gateway.Prelude.Tests.{leb, ◌==◌, if◌then◌else◌, Bool-cases}
use postgresql_trino_gateway.Prelude.Lists.{All}
use postgresql_trino_gateway.Prelude.Text.{Text}
use postgresql_trino_gateway.Prelude.Decimal.{digits, to_decimal, read, read-to_decimal}
use postgresql_trino_gateway.Prelude.Int.{parse_digits, parse_natural, natural_within, parse_u64}

abbrev pub IsDecimal : Text → Type 0
IsDecimal = All (λ d. (leb b'0' d && leb d b'9') ≡ true)

digits-IsDecimal : (fuel n : ℕ) (out : Text) → IsDecimal out → IsDecimal (digits fuel n out)
unfolding digits
digits-IsDecimal zero n out h = h
digits-IsDecimal (suc fuel) n out h = elim (Bool-cases (n / 10 == 0)) [
  | inl e ↦ rw (e, digits) (ground arith, h)
  | inr e ↦
      rw (e, digits) (digits-IsDecimal fuel (n / 10) ((b'0' + n % 10) ∷ out) (ground arith, h))
]

parse_digits-read : (s : Text) (acc : ℕ) → IsDecimal s → parse_digits s acc ≡ some (read s acc)
parse_digits-read [] acc h = refl
parse_digits-read (d ∷ ds) acc h = rw h.0 (parse_digits-read ds (acc * 10 + (d - b'0')) h.1)

natural_decimal : (s : Text) → IsDecimal s → s ≢ [] → parse_natural s ≡ some (read s 0)
natural_decimal [] h n = absurd (n refl)
natural_decimal (d ∷ ds) h n = parse_digits-read (d ∷ ds) 0 h

digits-ne-nil : (fuel n : ℕ) (out : Text) → out ≢ [] → digits fuel n out ≢ []
unfolding digits
digits-ne-nil zero n out h = h
digits-ne-nil (suc fuel) n out h = elim (Bool-cases (n / 10 == 0)) [
  | inl e ↦ rw (e, digits) (λ q. cc)
  | inr e ↦ rw (e, digits) (digits-ne-nil fuel (n / 10) ((b'0' + n % 10) ∷ out) (λ q. cc))
]

to_decimal-ne-nil : (n : ℕ) → to_decimal n ≢ []
unfolding to_decimal digits
to_decimal-ne-nil n = elim (Bool-cases (n / 10 == 0)) [
  | inl e ↦ rw (e, to_decimal, digits) (λ q. cc)
  | inr e ↦ rw (e, to_decimal, digits) (digits-ne-nil n (n / 10) ((b'0' + n % 10) ∷ []) (λ q. cc))
]

-- A text of digits is read whatever its sign could have been.
parse_u64_decimal :
    (s : Text) → IsDecimal s → s ≢ [] → parse_u64 s ≡ natural_within (2 ^ 64 - 1) (some (read s 0))
unfolding parse_u64
parse_u64_decimal [] h n = absurd (n refl)
parse_u64_decimal (d ∷ ds) h n = elim (Bool-cases (d == b'+')) [
  | inl e ↦ absurd (ground arith)
  | inr e ↦ rw e (ap (natural_within (2 ^ 64 - 1)) (natural_decimal (d ∷ ds) h n))
]

-- A number is read back if it fits in a `u64`, and refused if not.
pub parse_u64-to_decimal :
    (n : ℕ) → parse_u64 (to_decimal n) ≡ (if leb n (2 ^ 64 - 1) then some n else none)
unfolding to_decimal
parse_u64-to_decimal n =
    parse_u64_decimal (to_decimal n) (digits-IsDecimal (suc n) n [] tt) (to_decimal-ne-nil n)
    ∙ ap (λ m. natural_within (2 ^ 64 - 1) (some m)) (read-to_decimal n)
