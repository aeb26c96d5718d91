-- ===== src/Types/Zones.antt =====
-- Local times that daylight saving makes ambiguous or leaves out (src/types.rs).
use postgresql_trino_gateway.Prelude.{
  ◌≡◌, ◌↔◌, refl, sym, ◌∙◌, none, some, List, [], ◌∷◌, arith, ok, ok_or-eq_ok,
}
use postgresql_trino_gateway.Prelude.Text.{Text, trim}
use postgresql_trino_gateway.Prelude.Case.{CaseTable}
use postgresql_trino_gateway.Wire.{PgType, string}
use postgresql_trino_gateway.Types.Libraries.{LocalResult, gap, single, ambiguous, Libraries}
use postgresql_trino_gateway.Types.Temporal.{
  truncate_fraction, rsplit_once, first_parse, timestamptz_formats, single_of, parse_naive_datetime,
  parse_named_zone, parse_trino_timestamptz, render_timestamptz_text,
}
use postgresql_trino_gateway.Types.Json.{json_to_timestamptz}
use postgresql_trino_gateway.Types.Cells.{text_value}

-- The instants that have a local time in a zone.
abbrev pub instants : {A : Type 0} → LocalResult A → List A
instants gap = []
instants (single a) = a ∷ []
instants (ambiguous a b) = a ∷ b ∷ []

-- What PostgreSQL gets in the text format: the rendering of the one instant, or Trino's text.
abbrev pub rendered : (libs : Libraries) → Text → List libs.UtcDateTime → Text
rendered libs s (t ∷ []) = render_timestamptz_text libs t
rendered libs s [] = s
rendered libs s (t ∷ u ∷ ts) = s

module _ (libs : Libraries) (s : Text) where
  -- The text has no offset, but the name of a zone behind its last space and a local time before it.
  pub record NamesLocalTime : Type 0 where
    pub stamp : Text
    pub zone : Text
    pub tz : libs.Tz
    pub naive : libs.NaiveDateTime
    pub no_offset :
        first_parse (libs.parse_offset_date_time (truncate_fraction (trim s))) timestamptz_formats
        ≡ none
    pub splits : rsplit_once b' ' (truncate_fraction (trim s)) ≡ some (stamp, zone)
    pub is_zone : libs.parse_zone zone ≡ some tz
    pub is_time : parse_naive_datetime libs (trim stamp) ≡ some naive

  abbrev pub named_instants : NamesLocalTime → List libs.UtcDateTime
  named_instants h = instants (libs.from_local_datetime h.tz h.naive)

  named_parsed :
      (h : NamesLocalTime)
      → parse_trino_timestamptz libs s ≡ single_of (libs.from_local_datetime h.tz h.naive)
  unfolding parse_trino_timestamptz parse_named_zone
  named_parsed h = ground (arith, h.no_offset, h.splits, h.is_zone, h.is_time)

  single_of_iff :
      {A : Type 0} (l : LocalResult A) (a : A) → (single_of l ≡ some a) ↔ (instants l ≡ a ∷ [])
  single_of_iff gap a = (λ h. absurd (ground arith), λ h. absurd (ground arith))
  single_of_iff (single b) a = (λ h. ground arith, λ h. ground arith)
  single_of_iff (ambiguous b c) a = (λ h. absurd (ground arith), λ h. absurd (ground arith))

  module _ (case : CaseTable) (trino_type : Text) where
    text_of_parsed :
        (l : LocalResult libs.UtcDateTime)
        → parse_trino_timestamptz libs s ≡ single_of l
        → text_value libs case (string s) PgType.timestamptz trino_type
          ≡ some (rendered libs s (instants l))
    unfolding text_value parse_trino_timestamptz
    text_of_parsed gap e = rw e refl
    text_of_parsed (single a) e = rw e refl
    text_of_parsed (ambiguous a b) e = rw e refl

    -- A `timestamptz` cell without an offset, whose text names a zone and a local time, is read in the
    -- binary format as an instant if and only if that is the only one with that local time in the zone;
    -- the text format renders that instant, and where daylight saving leaves none or two, the cell goes
    -- out as Trino wrote it: neither format picks an instant.
    pub named_zone_instants :
        (h : NamesLocalTime)
        → ((t : libs.UtcDateTime)
            → (json_to_timestamptz libs (string s) trino_type ≡ ok t) ↔ (named_instants h ≡ t ∷ []))
          × (text_value libs case (string s) PgType.timestamptz trino_type
              ≡ some (rendered libs s (named_instants h)))
    unfolding json_to_timestamptz
    named_zone_instants h =
        let l = libs.from_local_datetime h.tz h.naive in
        (
          λ t. (
            λ q.
                (single_of_iff l t).0
                  (sym (named_parsed h) ∙ ok_or-eq_ok (parse_trino_timestamptz libs s) _ q),
            λ q. rw (named_parsed h ∙ (single_of_iff l t).1 q) refl,
          ),
          text_of_parsed l (named_parsed h),
        )
