-- ===== src/Types/Spelling.antt =====
-- What PostgreSQL reads out of the fractions and offsets that src/types.rs writes.
use Prim.Native.Nat.{zero, suc}
use postgresql_trino_gateway.Prelude.{
  ℕ, ◌+◌, ◌-◌, ◌*◌, ◌/◌, ◌^◌, ◌≤◌, ◌<◌, ◌==◌, ◌≡◌, ◌≢◌, ◌⊎◌, refl, sym, subst, ap, ◌∙◌, inl, inr,
  true, some, [], ◌∷◌, arith, ltb, leb, last, if◌then◌else◌, Bool-cases,
}
use postgresql_trino_gateway.Prelude.Text.{Text, trim_end_by}
use postgresql_trino_gateway.Prelude.Decimal.{padded, zero_padded}
use postgresql_trino_gateway.Prelude.Int.{ℤ, pos, negsuc, negate}
use postgresql_trino_gateway.Types.Temporal.{
  micros_of, fraction_text, format_fraction, format_utc_offset, unsigned_abs,
}

-- The digits behind a point, worth 10 ^ (width - 1), 10 ^ (width - 2) and so on.
abbrev pub read_places : ℕ → Text → ℕ
read_places zero ds = 0
read_places (suc width) [] = 0
read_places (suc width) (d ∷ ds) = (d - b'0') * 10 ^ width + read_places width ds

-- The microseconds of a fraction of a second.
abbrev pub read_fraction : Text → ℕ
read_fraction [] = 0
read_fraction (point ∷ ds) = read_places 6 ds

read_places-nil : (width : ℕ) → read_places width [] ≡ 0
read_places-nil zero = refl
read_places-nil (suc width) = refl

-- One round of the trim.
abbrev kept : ℕ → Text → Text
kept d [] = if d == b'0' then [] else d ∷ []
kept d (e ∷ r) = d ∷ e ∷ r

trim-kept :
    (d : ℕ) (ds : Text)
    → trim_end_by (λ c. c == b'0') (d ∷ ds) ≡ kept d (trim_end_by (λ c. c == b'0') ds)
unfolding trim_end_by
trim-kept d ds = refl

read_places-kept :
    (width d : ℕ) (ds : Text)
    → read_places (suc width) (kept d ds) ≡ (d - b'0') * 10 ^ width + read_places width ds
read_places-kept width d (e ∷ r) = refl
read_places-kept width d [] = elim (Bool-cases (d == b'0')) [
  | inl z ↦
      let zero_digit : d - b'0' ≡ 0 = ground arith in
      rw (z, zero_digit, read_places-nil width) (omega arith)
  | inr n ↦ rw n refl
]

-- Zeros at the end count for nothing.
read_places-trim :
    (width : ℕ) (ds : Text)
    → read_places width (trim_end_by (λ c. c == b'0') ds) ≡ read_places width ds
unfolding trim_end_by
read_places-trim zero ds = refl
read_places-trim (suc width) [] = refl
read_places-trim (suc width) (d ∷ ds) =
    ap (read_places (suc width)) (trim-kept d ds)
    ∙ read_places-kept width d (trim_end_by (λ c. c == b'0') ds)
    ∙ ap (λ n. (d - b'0') * 10 ^ width + n) (read_places-trim width ds)

read_padded : (n : ℕ) → n ≤ 999999 → read_places 6 (padded 6 n []) ≡ n
read_padded n h = omega arith

last-kept : (d : ℕ) (ds : Text) → last ds ≢ some b'0' → last (kept d ds) ≢ some b'0'
last-kept d [] h = ground arith
last-kept d (e ∷ r) h = h

-- No zero at the end is left.
last-trim : (ds : Text) → last (trim_end_by (λ c. c == b'0') ds) ≢ some b'0'
unfolding trim_end_by
last-trim [] = λ e. cc
last-trim (d ∷ ds) =
    subst (λ t. last t ≢ some b'0') (sym (trim-kept d ds))
      (last-kept d (trim_end_by (λ c. c == b'0') ds) (last-trim ds))

abbrev pub two_digits : ℕ → ℕ → ℕ
two_digits a b = (a - b'0') * 10 + (b - b'0')

abbrev pub read_seconds : Text → ℕ
read_seconds (colon ∷ a ∷ b ∷ s) = two_digits a b
read_seconds s = 0

abbrev pub read_minutes : Text → ℕ
read_minutes (colon ∷ a ∷ b ∷ s) = two_digits a b * 60 + read_seconds s
read_minutes s = 0

-- PostgreSQL's reading of an offset: hours, and minutes and seconds where they are there.
abbrev pub read_offset : Text → ℤ
read_offset (sign ∷ a ∷ b ∷ s) =
    (if sign == b'-' then negate else pos) (two_digits a b * 3600 + read_minutes s)
read_offset s = pos 0

-- PostgreSQL reads the offset back that was written, for each offset of less than a day.
pub read_offset-format_utc_offset :
    (z : ℤ) → unsigned_abs z < 86400 → read_offset (format_utc_offset z) ≡ z
unfolding format_utc_offset
read_offset-format_utc_offset (pos n) h = ground arith
read_offset-format_utc_offset (negsuc n) h = ground arith

read_point : (ds : Text) → read_fraction (kept b'.' ds) ≡ read_places 6 ds
read_point [] = refl
read_point (d ∷ ds) = refl

read_micros :
    (micros : ℕ)
    → micros ≤ 999999
    → read_fraction (trim_end_by (λ c. c == b'0') (b'.' ∷ zero_padded 6 micros)) ≡ micros
read_micros micros h =
    let small : ltb micros (10 ^ 6) ≡ true = ground arith in
    rw small (
      ap read_fraction (trim-kept b'.' (padded 6 micros []))
      ∙ read_point (trim_end_by (λ c. c == b'0') (padded 6 micros []))
      ∙ read_places-trim 6 (padded 6 micros [])
      ∙ read_padded micros h)

fraction_text_lem :
    (micros : ℕ)
    → micros ≤ 999999
    → (read_fraction (fraction_text micros) ≡ micros) × (last (fraction_text micros) ≢ some b'0')
fraction_text_lem micros h = elim (Bool-cases (micros == 0)) [
  | inl z ↦ rw z (ground arith, λ e. cc)
  | inr n ↦ rw n (read_micros micros h, last-trim (b'.' ∷ zero_padded 6 micros))
]

micros_of-le : (n : ℕ) → micros_of n ≤ 999999
micros_of-le n = ground arith

-- The whole microseconds in the nanoseconds behind a second; those of a leap second, which begin at
-- 10 ^ 9, count as the last microsecond before it.
abbrev pub IsMicros : ℕ → ℕ → Type 0
IsMicros nanoseconds micros =
    ((nanoseconds < 10 ^ 9) × (micros * 1000 ≤ nanoseconds) × (nanoseconds < micros * 1000 + 1000))
    ⊎ ((10 ^ 9 ≤ nanoseconds) × (micros ≡ 999999))

micros_of-IsMicros : (n : ℕ) → IsMicros n (micros_of n)
micros_of-IsMicros n = elim (Bool-cases (leb (n / 1000) 999999)) [
  | inl l ↦ rw l (inl (ground arith, ground arith, ground arith))
  | inr l ↦ rw l (inr (ground arith, refl))
]

-- A fraction of a second is read back as the whole microseconds in it (a leap second's as the last
-- one of the second before), and it has no zero at its end.
pub read_fraction-format_fraction :
    (nanoseconds : ℕ)
    → IsMicros nanoseconds (read_fraction (format_fraction nanoseconds))
      × (last (format_fraction nanoseconds) ≢ some b'0')
unfolding format_fraction
read_fraction-format_fraction n =
    let (same, no_zero) = fraction_text_lem (micros_of n) (micros_of-le n) in
    (subst (IsMicros n) (sym same) (micros_of-IsMicros n), no_zero)
