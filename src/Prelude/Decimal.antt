-- ===== src/Prelude/Decimal.antt =====
-- Numbers as decimal text: `to_string` of the unsigned integers, and `str::bytes`.
use Prim.Native.Nat.{ℕ, zero, suc, ◌+◌, ◌-◌, ◌/◌, ◌%◌, ◌*◌, ◌^◌, ◌<◌}
use mathlib.Core.Path.{◌≡◌, ap, ◌∙◌}
use mathlib.Core.Bool.{Bool, true, false, not, ◌&&◌}
use mathlib.Core.List.{[], ◌∷◌, ◌++◌}
use mathlib.Core.Logic.{inl, inr}
use native.Mathlib.Omega.{arith}
use postgresql_trino_gateway.Prelude.Tests.{◌==◌, if◌then◌else◌, ltb, leb, Bool-cases}
use postgresql_trino_gateway.Prelude.Text.{Text}

-- `is_ascii_digit`, negated: where a run of digits ends.
abbrev pub not_digit : ℕ → Bool
not_digit c = not (leb b'0' c && leb c b'9')

-- The digits of `n` in front of `out`; fuel for each digit is given.
unfoldable pub digits : ℕ → ℕ → Text → Text
digits zero n out = out
digits (suc fuel) n out = elim (n / 10 == 0) [
  | true ↦ (b'0' + n % 10) ∷ out
  | false ↦ digits fuel (n / 10) ((b'0' + n % 10) ∷ out)
]

unfoldable pub to_decimal : ℕ → Text
unfolding digits
to_decimal n = digits (suc n) n []

-- The number that decimal digits stand for, behind those read already.
abbrev pub read : Text → ℕ → ℕ
read [] acc = acc
read (d ∷ ds) acc = read ds (acc * 10 + (d - b'0'))

digit_step : (n : ℕ) → n / 10 * 10 + ((b'0' + n % 10) - b'0') ≡ n
digit_step n = omega arith

last_digit :
    (fuel n : ℕ) (out : Text)
    → (n / 10 == 0) ≡ true
    → digits (suc fuel) n out ≡ (b'0' + n % 10) ∷ out
unfolding digits
last_digit fuel n out e = rw (e, digits)

more_digits :
    (fuel n : ℕ) (out : Text)
    → (n / 10 == 0) ≡ false
    → digits (suc fuel) n out ≡ digits fuel (n / 10) ((b'0' + n % 10) ∷ out)
unfolding digits
more_digits fuel n out e = rw (e, digits)

read-digits : (fuel n : ℕ) (out : Text) → n < fuel → read (digits fuel n out) 0 ≡ read out n
unfolding digits
read-digits zero n out h = absurd (omega arith)
read-digits (suc fuel) n out h = elim (Bool-cases (n / 10 == 0)) [
  | inl e ↦ ap (λ t. read t 0) (last_digit fuel n out e) ∙ ap (read out) (ground arith)
  | inr e ↦
      ap (λ t. read t 0) (more_digits fuel n out e)
      ∙ read-digits fuel (n / 10) ((b'0' + n % 10) ∷ out) (ground arith)
      ∙ ap (read out) (digit_step n)
]

-- Reading back gives the number, so two numbers never print alike.
pub read-to_decimal : (n : ℕ) → read (to_decimal n) 0 ≡ n
unfolding to_decimal
read-to_decimal n = read-digits (suc n) n [] (omega arith)

-- The continuation byte that carries the six bits above the lowest `k` groups.
abbrev tail_byte : ℕ → ℕ
tail_byte n = 0x80 + n % 64

-- The UTF-8 bytes of a code point.
abbrev pub utf8 : ℕ → Text
utf8 c =
    if ltb c 0x80
    then c ∷ []
    else if ltb c 0x800
    then (0xC0 + c / 64) ∷ tail_byte c ∷ []
    else if ltb c 0x1_0000
    then (0xE0 + c / 4096) ∷ tail_byte (c / 64) ∷ tail_byte c ∷ []
    else (0xF0 + c / 262144) ∷ tail_byte (c / 4096) ∷ tail_byte (c / 64) ∷ tail_byte c ∷ []

abbrev pub utf8_bytes : Text → Text
utf8_bytes [] = []
utf8_bytes (c ∷ s) = utf8 c ++ utf8_bytes s

-- The last `width` digits of `n` in front of `out`.
abbrev pub padded : ℕ → ℕ → Text → Text
padded zero n out = out
padded (suc width) n out = padded width (n / 10) ((b'0' + n % 10) ∷ out)

-- `{n:0width}`: zeros on the left, and more digits where `n` has more.
abbrev pub zero_padded : ℕ → ℕ → Text
zero_padded width n = if ltb n (10 ^ width) then padded width n [] else to_decimal n
