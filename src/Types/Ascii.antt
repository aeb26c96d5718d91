-- ===== src/Types/Ascii.antt =====
-- Trimming and lower case of ASCII type names.
use Prim.Native.Nat.{suc}
use postgresql_trino_gateway.Prelude.{
  ℕ, ◌≤◌, ◌<◌, ◌≡◌, refl, sym, ap, ◌∙◌, subst, inl, inr, Bool, true, false, if◌then◌else◌, [], ◌∷◌,
  ◌++◌, map, arith, length, All, Bool-cases,
}
use postgresql_trino_gateway.Prelude.Text.{
  Text, trim, trim_start, trim_end_by, is_whitespace, ascii_lower,
}
use postgresql_trino_gateway.Prelude.TextLaws.{length-trim_start}
use postgresql_trino_gateway.Prelude.Case.{CaseTable, to_lowercase}

abbrev pub IsAscii : Text → Type 0
IsAscii = All (λ c. c < 128)

abbrev pub lower : Text → Text
lower = map ascii_lower

pub to_lowercase-lower : (case : CaseTable) (s : Text) → IsAscii s → to_lowercase case s ≡ lower s
unfolding to_lowercase ascii_lower
to_lowercase-lower case [] h = refl
to_lowercase-lower case (c ∷ s) h = ground (arith, to_lowercase-lower case s)

whitespace-lower : (c : ℕ) → is_whitespace (ascii_lower c) ≡ is_whitespace c
unfolding is_whitespace ascii_lower
whitespace-lower c = ground arith

lower_twice : (s : Text) → lower (lower s) ≡ lower s
unfolding ascii_lower
lower_twice [] = refl
lower_twice (c ∷ s) = ground (arith, lower_twice s)

trim_start-lower : (s : Text) → trim_start (lower s) ≡ lower (trim_start s)
unfolding trim_start
trim_start-lower [] = refl
trim_start-lower (c ∷ s) = ground (arith, whitespace-lower c, trim_start-lower s)

-- One round of `trim_end_by`, on the rest that is trimmed already.
abbrev ended : Bool → ℕ → Text → Text
ended drops c [] = if drops then [] else c ∷ []
ended drops c (d ∷ r) = c ∷ d ∷ r

trim_end-ended :
    (c : ℕ) (s : Text)
    → trim_end_by is_whitespace (c ∷ s) ≡ ended (is_whitespace c) c (trim_end_by is_whitespace s)
unfolding trim_end_by
trim_end-ended c s = go (trim_end_by is_whitespace s)
  where
    go :
        (rest : Text)
        → (elim rest [ [] ↦ (if is_whitespace c then [] else c ∷ []) | d ∷ r ↦ c ∷ d ∷ r ])
          ≡ ended (is_whitespace c) c rest
    go [] = refl
    go (d ∷ r) = refl

ended-lower :
    (c : ℕ) (r : Text)
    → ended (is_whitespace (ascii_lower c)) (ascii_lower c) (lower r)
      ≡ lower (ended (is_whitespace c) c r)
ended-lower c [] = ground (arith, whitespace-lower c)
ended-lower c (d ∷ r) = refl

trim_end-lower :
    (s : Text) → trim_end_by is_whitespace (lower s) ≡ lower (trim_end_by is_whitespace s)
trim_end-lower [] = unfold trim_end_by in refl
trim_end-lower (c ∷ s) =
    trim_end-ended (ascii_lower c) (lower s)
    ∙ ap (ended (is_whitespace (ascii_lower c)) (ascii_lower c)) (trim_end-lower s)
    ∙ ended-lower c (trim_end_by is_whitespace s)
    ∙ ap lower (sym (trim_end-ended c s))

trim-lower : (s : Text) → trim (lower s) ≡ lower (trim s)
unfolding trim
trim-lower s = ap (trim_end_by is_whitespace) (trim_start-lower s) ∙ trim_end-lower (trim_start s)

pub lower-trim-lower : (s : Text) → lower (trim (lower s)) ≡ lower (trim s)
lower-trim-lower s = ap lower (trim-lower s) ∙ lower_twice (trim s)

trim_start-IsAscii : (s : Text) → IsAscii s → IsAscii (trim_start s)
unfolding trim_start
trim_start-IsAscii [] h = tt
trim_start-IsAscii (c ∷ s) h = elim (Bool-cases (is_whitespace c)) [
  | inl e ↦ rw e (trim_start-IsAscii s h.1)
  | inr e ↦ rw e h
]

ended-IsAscii : (b : Bool) (c : ℕ) (r : Text) → c < 128 → IsAscii r → IsAscii (ended b c r)
ended-IsAscii true c [] h k = tt
ended-IsAscii false c [] h k = (h, tt)
ended-IsAscii b c (d ∷ r) h k = (h, k)

trim_end-IsAscii : (s : Text) → IsAscii s → IsAscii (trim_end_by is_whitespace s)
trim_end-IsAscii [] h = unfold trim_end_by in tt
trim_end-IsAscii (c ∷ s) h =
    subst IsAscii (sym (trim_end-ended c s))
      (ended-IsAscii (is_whitespace c) c (trim_end_by is_whitespace s) h.0 (trim_end-IsAscii s h.1))

pub trim-IsAscii : (s : Text) → IsAscii s → IsAscii (trim s)
unfolding trim
trim-IsAscii s h = trim_end-IsAscii (trim_start s) (trim_start-IsAscii s h)

pub lower-IsAscii : (s : Text) → IsAscii s → IsAscii (lower s)
unfolding ascii_lower
lower-IsAscii [] h = tt
lower-IsAscii (c ∷ s) h = (ground arith, lower-IsAscii s h.1)

length-ended : (b : Bool) (c : ℕ) (r : Text) → length (ended b c r) ≤ suc (length r)
length-ended true c [] = omega arith
length-ended false c [] = omega arith
length-ended b c (d ∷ r) = omega arith

length-trim_end : (s : Text) → length (trim_end_by is_whitespace s) ≤ length s
length-trim_end [] = unfold trim_end_by in omega arith
length-trim_end (c ∷ s) = ground (
  arith,
  trim_end-ended c s,
  length-ended (is_whitespace c) c (trim_end_by is_whitespace s),
  length-trim_end s,
)

pub length-trim : (s : Text) → length (trim s) ≤ length s
unfolding trim
length-trim s = omega (arith, length-trim_end (trim_start s), length-trim_start s)

-- A text that ends with a code point that is no white space keeps its end.
trim_end-last :
    (s : Text) (c : ℕ)
    → is_whitespace c ≡ false
    → trim_end_by is_whitespace (s ++ c ∷ []) ≡ s ++ c ∷ []
trim_end-last [] c h = unfold trim_end_by in ground arith
trim_end-last (d ∷ []) c h = unfold trim_end_by in ground arith
trim_end-last (d ∷ e ∷ s) c h =
    trim_end-ended d (e ∷ (s ++ c ∷ []))
    ∙ ap (ended (is_whitespace d) d) (trim_end-last (e ∷ s) c h)

pub trim-closed :
    (a c : ℕ) (s : Text)
    → is_whitespace a ≡ false
    → is_whitespace c ≡ false
    → trim (a ∷ (s ++ c ∷ [])) ≡ a ∷ (s ++ c ∷ [])
unfolding trim trim_start
trim-closed a c s p q = rw p (trim_end-last (a ∷ s) c q)
