-- ===== src/Types/Temporal.antt =====
-- Dates and times in src/types.rs: what is parsed out of Trino's texts, and PostgreSQL's spelling of
-- fractions of a second and of offsets. chrono and chrono-tz are in the parameter `libs`.
use postgresql_trino_gateway.Prelude.{
  ℕ, ◌+◌, ◌/◌, ◌%◌, ◌==◌, not, Option, none, some, List, [], ◌∷◌, ◌++◌, take, drop, length, leb,
  if◌then◌else◌, or_else, Result, ok, err,
}
use postgresql_trino_gateway.Prelude.Text.{Text, codes, find, trim, trim_end_by, take_until}
use postgresql_trino_gateway.Prelude.Decimal.{not_digit, zero_padded}
use postgresql_trino_gateway.Prelude.Int.{ℤ, pos, negsuc, negate}
use postgresql_trino_gateway.Types.Libraries.{
  LocalResult, gap, single, ambiguous, Put, put_i64, put_i32, Libraries,
}

-- The text `s`, or `before` and `behind` its first point with the run of digits `fraction` cut after
-- the ninth.
abbrev pub first_nine : Text → Text → Text → Text → Text
first_nine s before behind fraction =
    if leb (length fraction) 9
    then s
    else before ++ (b'.' ∷ (take 9 behind ++ drop (length fraction) behind))

abbrev pub at_point : Text → Option (Text × Text) → Text
at_point s none = s
at_point s (some (before, behind)) = first_nine s before behind (take_until not_digit behind)

-- A fraction of more than nine digits is cut after the ninth.
unfoldable pub truncate_fraction : Text → Text
truncate_fraction s = at_point s (find (codes ".") s)

-- `rsplit_once`: at the last `c`.
unfoldable pub rsplit_once : ℕ → Text → Option (Text × Text)
rsplit_once c [] = none
rsplit_once c (d ∷ s) = elim (rsplit_once c s) [
  | some (a, b) ↦ some (d ∷ a, b)
  | none ↦ if d == c then some ([], s) else none
]

-- `for fmt in …`: the first format in which the text parses.
abbrev pub first_parse : {A : Type 0} → (Text → Option A) → List Text → Option A
first_parse parse [] = none
first_parse parse (fmt ∷ fmts) = elim (parse fmt) [
  | some a ↦ some a
  | none ↦ first_parse parse fmts
]

abbrev pub timestamptz_formats : List Text
timestamptz_formats =
    codes "%Y-%m-%d %H:%M:%S%.f%#z"
    ∷ codes "%Y-%m-%d %H:%M:%S%.f %#z"
    ∷ codes "%Y-%m-%dT%H:%M:%S%.f%#z"
    ∷ codes "%Y-%m-%dT%H:%M:%S%.f %#z"
    ∷ []

abbrev pub timetz_formats : List Text
timetz_formats = codes "%Y-%m-%d %H:%M:%S%.f%#z" ∷ codes "%Y-%m-%d %H:%M:%S%.f %#z" ∷ []

-- chrono's `LocalResult::single`.
abbrev pub single_of : {A : Type 0} → LocalResult A → Option A
single_of gap = none
single_of (single a) = some a
single_of (ambiguous a b) = none

-- chrono puts a leap second into the nanoseconds.
abbrev pub micros_of : ℕ → ℕ
micros_of nanoseconds = if leb (nanoseconds / 1000) 999999 then nanoseconds / 1000 else 999999

abbrev pub fraction_text : ℕ → Text
fraction_text micros =
    if micros == 0 then [] else trim_end_by (λ c. c == b'0') (b'.' ∷ zero_padded 6 micros)

-- Microseconds without the zeros at the end; nothing where there are none.
unfoldable pub format_fraction : ℕ → Text
format_fraction nanoseconds = fraction_text (micros_of nanoseconds)

-- `unsigned_abs`.
abbrev pub unsigned_abs : ℤ → ℕ
unsigned_abs (pos n) = n
unsigned_abs (negsuc n) = n + 1

abbrev pub sign_of : ℤ → ℕ
sign_of (pos n) = b'+'
sign_of (negsuc n) = b'-'

unfoldable pub format_utc_offset : ℤ → Text
format_utc_offset seconds_east =
    let total = unsigned_abs seconds_east in
    let hours = zero_padded 2 (total / 3600) in
    let minutes = b':' ∷ zero_padded 2 (total % 3600 / 60) in
    let seconds = b':' ∷ zero_padded 2 (total % 60) in
    sign_of seconds_east
    ∷ (if not (total % 60 == 0)
        then hours ++ (minutes ++ seconds)
        else if not (total % 3600 / 60 == 0)
        then hours ++ minutes
        else hours)

-- `-x` of an `i32` that is not `i32::MIN`.
abbrev pub opposite : ℤ → ℤ
opposite (pos n) = negate n
opposite (negsuc n) = pos (n + 1)

module _ (libs : Libraries) where
  pub record TimeTz : Type 0 where
    pub time : libs.NaiveTime
    pub offset_east_seconds : ℤ

  unfoldable pub parse_naive_datetime : Text → Option libs.NaiveDateTime
  parse_naive_datetime s =
      or_else (libs.parse_date_time (truncate_fraction s) (codes "%Y-%m-%d %H:%M:%S%.f"))
        (libs.parse_date_time (truncate_fraction s) (codes "%Y-%m-%dT%H:%M:%S%.f"))

  -- The zone's name stands behind the last space.
  unfoldable pub parse_named_zone : Text → Option libs.UtcDateTime
  parse_named_zone s = elim (rsplit_once b' ' s) [
    | none ↦ none
    | some (stamp, zone) ↦ elim (libs.parse_zone zone) [
      | none ↦ none
      | some tz ↦ elim (parse_naive_datetime (trim stamp)) [
        | none ↦ none
        | some naive ↦ single_of (libs.from_local_datetime tz naive)
      ]
    ]
  ]

  unfoldable pub parse_trino_timestamptz : Text → Option libs.UtcDateTime
  unfolding parse_named_zone
  parse_trino_timestamptz s =
      let t = truncate_fraction (trim s) in
      elim (first_parse (libs.parse_offset_date_time t) timestamptz_formats) [
        | some dt ↦ some (libs.with_timezone_utc dt)
        | none ↦ parse_named_zone t
      ]

  -- The time of day gets a date, which is left out again.
  unfoldable pub parse_trino_timetz : Text → Option TimeTz
  parse_trino_timetz s =
      let dated = codes "2000-01-01 " ++ truncate_fraction (trim s) in
      elim (first_parse (libs.parse_offset_date_time dated) timetz_formats) [
        | none ↦ none
        | some dt ↦
            some (record { time = libs.time_of dt; offset_east_seconds = libs.local_minus_utc dt })
      ]

  unfoldable pub to_pg_text : TimeTz → Text
  to_pg_text t =
      libs.format_time t.time
      ++ (format_fraction (libs.time_nanosecond t.time) ++ format_utc_offset t.offset_east_seconds)

  unfoldable pub to_sql : TimeTz → Result Text (Put × Put)
  to_sql t = elim (libs.microseconds_of_day t.time) [
    | none ↦ err (codes "time of day does not fit in a microsecond count")
    | some micros ↦ ok (put_i64 micros, put_i32 (opposite t.offset_east_seconds))
  ]

  unfoldable pub render_timestamptz_text : libs.UtcDateTime → Text
  render_timestamptz_text dt =
      libs.format_utc dt ++ (format_fraction (libs.utc_nanosecond dt) ++ codes "+00")
