-- ===== src/Intercept/Show.antt =====
-- SHOW against the parameters that src/startup.rs advertises (src/intercept.rs).
use postgresql_trino_gateway.Prelude.{◌≡◌, refl, Bool, ◌++◌, All}
use postgresql_trino_gateway.Prelude.Text.{
  Text, codes, trim, starts_with, text_eq, eq_ignore_ascii_case,
}
use postgresql_trino_gateway.Prelude.Case.{CaseTable, to_lowercase, to_uppercase}
use postgresql_trino_gateway.Wire.{FieldEncoder}
use postgresql_trino_gateway.Sql.{ParsedQuery}
use postgresql_trino_gateway.Startup.{server_params}
use postgresql_trino_gateway.Intercept.{answers, single_text_response, try_intercept}

module _ (encoder : FieldEncoder) (case : CaseTable) (parsed : ParsedQuery) (catalog schema : Text)
    (secure : Bool) where
  -- `SHOW name;` is answered with `value`.
  abbrev pub ShowsAs : Text × Text → Type 0
  ShowsAs (name, value) =
      try_intercept encoder case (codes "SHOW " ++ (name ++ codes ";")) parsed catalog schema secure
      ≡ answers (single_text_response encoder (to_lowercase case name) value)

  -- Each parameter that the startup handler advertises shows as the advertised value, in a column
  -- that bears its name in lower case.
  show_matches_startup : All ShowsAs server_params
  unfolding try_intercept trim starts_with to_uppercase text_eq eq_ignore_ascii_case to_lowercase
  show_matches_startup = (
    refl,
    (
      refl,
      (
        refl,
        (
          refl,
          (
            refl,
            (
              refl,
              (refl, (refl, (refl, (refl, (refl, (refl, (refl, (refl, (refl, (refl, tt)))))))))),
            ),
          ),
        ),
      ),
    ),
  )
