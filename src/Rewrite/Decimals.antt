-- ===== src/Rewrite/Decimals.antt =====
-- Whether a text parses to the `f64` zero (`parse::<f64>`, compared with `0.0`).
use postgresql_trino_gateway.Prelude.{
  ℕ, ◌+◌, ◌*◌, ◌^◌, ◌==◌, Bool, false, ◌&&◌, ◌||◌, Option, none, some, [], ◌∷◌, ◌++◌, if◌then◌else◌,
  leb, length, is_empty, not,
}
use postgresql_trino_gateway.Prelude.Text.{Text, take_until, drop_until}
use postgresql_trino_gateway.Prelude.Decimal.{read, not_digit}

-- A sign, if there is one, goes.
abbrev pub unsigned : Text → Text
unsigned [] = []
unsigned (c ∷ s) = if c == b'+' || c == b'-' then s else c ∷ s

abbrev pub is_negative : Text → Bool
is_negative [] = false
is_negative (c ∷ s) = c == b'-'

-- The digits behind a point.
abbrev pub fraction : Text → Text
fraction [] = []
fraction (c ∷ s) = if c == b'.' then take_until not_digit s else []

abbrev pub behind_fraction : Text → Text
behind_fraction [] = []
behind_fraction (c ∷ s) = if c == b'.' then drop_until not_digit s else c ∷ s

-- The exponent: whether it is negative, and its size. Nothing may stand behind it.
abbrev pub exponent : Text → Option (Bool × ℕ)
exponent [] = some (false, 0)
exponent (c ∷ s) =
    if (c == b'e' || c == b'E')
      && not (is_empty (unsigned s))
      && is_empty (drop_until not_digit (unsigned s))
    then some (is_negative s, read (unsigned s) 0)
    else none

-- `m * 10 ^ up / 10 ^ down` rounds to zero: it is at most half of the least positive `f64`, 2 ^ -1074.
abbrev pub rounds_to_zero : (m up down : ℕ) → Bool
rounds_to_zero m up down = m == 0 || leb (m * 10 ^ up * 2 ^ 1075) (10 ^ down)

abbrev pub decimal_zero : Text → Text → Option (Bool × ℕ) → Bool
decimal_zero whole part none = false
decimal_zero whole part (some (negative, e)) =
    not (is_empty (whole ++ part))
    && (if negative
        then rounds_to_zero (read (whole ++ part) 0) 0 (length part + e)
        else rounds_to_zero (read (whole ++ part) 0) e (length part))

unfoldable pub parses_to_zero : Text → Bool
unfolding take_until drop_until
parses_to_zero s =
    let u = unsigned s in
    let rest = drop_until not_digit u in
    decimal_zero (take_until not_digit u) (fraction rest) (exponent (behind_fraction rest))
