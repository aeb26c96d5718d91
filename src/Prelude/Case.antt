-- ===== src/Prelude/Case.antt =====
-- Unicode case mapping: ASCII by rule, the other code points by a table that is a parameter. (The
-- final form of the Greek sigma is not told apart.)
use postgresql_trino_gateway.Prelude.Tests.{ltb, if◌then◌else◌}
use postgresql_trino_gateway.Prelude.Text.{Text, ascii_upper, ascii_lower}
use Prim.Native.Nat.{ℕ}
use mathlib.Core.List.{[], ◌∷◌, ◌++◌}

pub record CaseTable : Type 0 where
  pub upper_other : ℕ → Text
  pub lower_other : ℕ → Text

unfoldable pub to_uppercase : CaseTable → Text → Text
unfolding ascii_upper
to_uppercase t [] = []
to_uppercase t (c ∷ s) =
    (if ltb c 128 then ascii_upper c ∷ [] else t.upper_other c) ++ to_uppercase t s

unfoldable pub to_lowercase : CaseTable → Text → Text
unfolding ascii_lower
to_lowercase t [] = []
to_lowercase t (c ∷ s) =
    (if ltb c 128 then ascii_lower c ∷ [] else t.lower_other c) ++ to_lowercase t s

-- A table that maps every other code point to itself.
abbrev pub ascii_only : CaseTable
ascii_only = record { upper_other = λ c. c ∷ []; lower_other = λ c. c ∷ [] }
