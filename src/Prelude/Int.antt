-- ===== src/Prelude/Int.antt =====
-- Signed numbers over the native ones, and the text of an `i64`.
use Prim.Native.Nat.{ℕ, zero, suc, ◌+◌, ◌-◌, ◌*◌, ◌^◌}
use mathlib.Core.Bool.{◌&&◌}
use mathlib.Core.List.{[], ◌∷◌}
use mathlib.Core.Option.{Option, none, some}
use postgresql_trino_gateway.Prelude.Tests.{leb, ◌==◌, if◌then◌else◌}
use postgresql_trino_gateway.Prelude.Text.{Text}
use postgresql_trino_gateway.Prelude.Decimal.{to_decimal}

-- `negsuc n` is minus `n + 1`.
pub data ℤ : Type 0 where
  pos negsuc : ℕ → ℤ

abbrev pub to_string : ℤ → Text
to_string (pos n) = to_decimal n
to_string (negsuc n) = b'-' ∷ to_decimal (suc n)

abbrev pub negate : ℕ → ℤ
negate zero = pos 0
negate (suc n) = negsuc n

-- The digits behind the number read so far.
abbrev pub parse_digits : Text → ℕ → Option ℕ
parse_digits [] n = some n
parse_digits (d ∷ ds) n =
    let rest = parse_digits ds (n * 10 + (d - b'0')) in
    if leb b'0' d && leb d b'9' then rest else none

-- One digit at least.
abbrev pub parse_natural : Text → Option ℕ
parse_natural [] = none
parse_natural (d ∷ ds) = parse_digits (d ∷ ds) 0

abbrev pub within : ℕ → (ℕ → ℤ) → Option ℕ → Option ℤ
within max f none = none
within max f (some n) = if leb n max then some (f n) else none

-- `str::parse::<i64>`.
unfoldable pub parse_i64 : Text → Option ℤ
parse_i64 [] = none
parse_i64 (c ∷ s) =
    if c == b'-'
    then within (2 ^ 63) negate (parse_natural s)
    else if c == b'+'
    then within (2 ^ 63 - 1) pos (parse_natural s)
    else within (2 ^ 63 - 1) pos (parse_natural (c ∷ s))

abbrev pub natural_within : ℕ → Option ℕ → Option ℕ
natural_within max none = none
natural_within max (some n) = if leb n max then some n else none

-- `str::parse::<u64>`.
unfoldable pub parse_u64 : Text → Option ℕ
parse_u64 [] = none
parse_u64 (c ∷ s) =
    natural_within (2 ^ 64 - 1) (if c == b'+' then parse_natural s else parse_natural (c ∷ s))
