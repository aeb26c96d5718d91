-- ===== src/Prelude/TextLaws.antt =====
-- Laws of the text operations.
use postgresql_trino_gateway.Prelude.Tests.{Option-cases, Bool-cases}
use postgresql_trino_gateway.Prelude.Lists.{length, length-append}
use postgresql_trino_gateway.Prelude.Text.{
  Text, byte_len, utf8_len, truncate, strip_prefix, starts_with, find, drop_until, trim_start,
}
use Prim.Native.Nat.{ℕ, suc, ◌-◌, ◌≤◌}
use mathlib.Core.Path.{◌≡◌, refl, ap}
use mathlib.Core.Bool.{Bool, true, false, not, ◌&&◌}
use mathlib.Core.List.{[], ◌∷◌, ◌++◌, append-nil, append_assoc}
use mathlib.Core.Option.{none, some}
use mathlib.Core.Logic.{inl, inr}
use native.Mathlib.Omega.{arith}

pub strip_prefix_sound : (p s : Text) {rest : Text} → strip_prefix p s ≡ some rest → s ≡ p ++ rest
unfolding strip_prefix
strip_prefix_sound [] s h = ground arith
strip_prefix_sound (x ∷ p) [] h = cc
strip_prefix_sound (x ∷ p) (c ∷ s) {rest} h = ground (arith, strip_prefix_sound p s {rest = rest})

-- The match that `find` reports is there.
pub find_sound :
    (pat s : Text) {before after : Text}
    → find pat s ≡ some (before, after)
    → s ≡ before ++ (pat ++ after)
unfolding find
find_sound pat [] {before} {after} h = elim (Option-cases (strip_prefix pat [])) [
  | inl e ↦ ground (arith, e)
  | inr (rest, e) ↦ ground (arith, strip_prefix_sound pat [] e)
]
find_sound pat (c ∷ s) {before} {after} h = elim (Option-cases (strip_prefix pat (c ∷ s))) [
  | inr (rest, e) ↦ ground (arith, strip_prefix_sound pat (c ∷ s) e)
  | inl e ↦ elim (Option-cases (find pat s)) [
    | inl n ↦ ground (arith, e, n)
    | inr ((a, b), f) ↦ ground (arith, e, f, find_sound pat s {before = a} {after = b} f)
  ]
]

pub byte_len-truncate : (s : Text) (n : ℕ) → byte_len (truncate s n) ≤ n
unfolding truncate
byte_len-truncate [] n = omega arith
byte_len-truncate (c ∷ s) n = ground (arith, byte_len-truncate s (n - utf8_len c))

byte_len-trim_start : (s : Text) → byte_len (trim_start s) ≤ byte_len s
unfolding trim_start
byte_len-trim_start [] = omega arith
byte_len-trim_start (c ∷ s) = ground (arith, byte_len-trim_start s)

pub length-trim_start : (s : Text) → length (trim_start s) ≤ length s
unfolding trim_start
length-trim_start [] = omega arith
length-trim_start (c ∷ s) = ground (arith, length-trim_start s)

pub length-drop_until : (p : ℕ → Bool) (s : Text) → length (drop_until p s) ≤ length s
unfolding drop_until
length-drop_until p [] = omega arith
length-drop_until p (c ∷ s) = ground (arith, length-drop_until p s)

starts_with-append : (p s : Text) → starts_with (p ++ s) p ≡ true
unfolding starts_with
starts_with-append [] s = refl
starts_with-append (x ∷ p) s = ground (arith, starts_with-append p s)

strip_prefix-starts_with : (p s : Text) → strip_prefix p s ≡ none → starts_with s p ≡ false
unfolding strip_prefix starts_with
strip_prefix-starts_with [] s h = cc
strip_prefix-starts_with (x ∷ p) [] h = refl
strip_prefix-starts_with (x ∷ p) (c ∷ s) h = ground (arith, strip_prefix-starts_with p s)

-- A test for a prefix reads no further than its length.
starts_with_local :
    (p x t t' : Text) → length p ≤ length x → starts_with (x ++ t) p ≡ starts_with (x ++ t') p
unfolding starts_with
starts_with_local [] [] t t' h = unfold starts_with in both t t'
  where
    both : (t t' : Text) → starts_with t [] ≡ starts_with t' []
    both [] [] = refl
    both [] (c ∷ t') = refl
    both (c ∷ t) [] = refl
    both (c ∷ t) (d ∷ t') = refl
starts_with_local [] (c ∷ x) t t' h = refl
starts_with_local (y ∷ p) [] t t' h = absurd (omega arith)
starts_with_local (y ∷ p) (c ∷ x) t t' h = rw (starts_with_local p x t t' (omega arith))

-- No occurrence of `pat` in `b ++ t` begins within `b`.
abbrev pub absent : Text → Text → Text → Bool
absent pat [] t = true
absent pat (c ∷ b) t = not (starts_with (c ∷ (b ++ t)) pat) && absent pat b t

pub find-absent :
    (pat s : Text) {before after : Text}
    → find pat s ≡ some (before, after)
    → absent pat before (pat ++ after) ≡ true
unfolding find
find-absent pat [] {before} {after} h = elim (Option-cases (strip_prefix pat [])) [
  | inl e ↦ ground arith
  | inr (rest, e) ↦ ground arith
]
find-absent pat (c ∷ s) {before} {after} h = elim (Option-cases (strip_prefix pat (c ∷ s))) [
  | inr (rest, e) ↦ ground arith
  | inl e ↦ elim (Option-cases (find pat s)) [
    | inl n ↦ ground arith
    | inr ((a, b), f) ↦ ground (
      arith,
      strip_prefix-starts_with pat (c ∷ s) e,
      find_sound pat s {before = a} {after = b} f,
      find-absent pat s {before = a} {after = b} f,
    )
  ]
]

pub find-none-absent : (pat s : Text) → find pat s ≡ none → absent pat s [] ≡ true
unfolding find
find-none-absent pat [] h = refl
find-none-absent pat (c ∷ s) h = elim (Option-cases (strip_prefix pat (c ∷ s))) [
  | inr (rest, e) ↦ ground arith
  | inl e ↦ elim (Option-cases (find pat s)) [
    | inl n ↦
        rw append-nil
          (ground (arith, strip_prefix-starts_with pat (c ∷ s) e, find-none-absent pat s n))
    | inr (p, f) ↦ ground arith
  ]
]

pub absent-append : (pat a b t : Text) → absent pat (a ++ b) t ≡ true → absent pat a (b ++ t) ≡ true
absent-append pat [] b t h = refl
absent-append pat (c ∷ a) b t h = ground (arith, append_assoc a b t, absent-append pat a b t)

pub absent_local :
    (pat b x t t' : Text)
    → length pat ≤ suc (length x)
    → absent pat b (x ++ t) ≡ true
    → absent pat b (x ++ t') ≡ true
absent_local pat [] x t t' h a = refl
absent_local pat (c ∷ b) x t t' h a = ground (
  arith,
  append_assoc b x t,
  append_assoc b x t',
  length-append b x,
  starts_with_local pat (c ∷ (b ++ x)) t t',
  absent_local pat b x t t',
)

pub find-none-append : (pat a b : Text) → find pat (a ++ b) ≡ none → find pat b ≡ none
find-none-append pat [] b h = h
find-none-append pat (c ∷ a) b h = find-none-append pat a b (tail (a ++ b) h)
  where
    tail : (s : Text) → find pat (c ∷ s) ≡ none → find pat s ≡ none
    tail s h = unfold find in ground arith

pub drop_until-suffix : (p : ℕ → Bool) (s : Text) → (a : Text) × (s ≡ a ++ drop_until p s)
unfolding drop_until
drop_until-suffix p [] = ([], refl)
drop_until-suffix p (c ∷ s) = elim (Bool-cases (p c)) [
  | inl e ↦ ([], rw e)
  | inr e ↦ let (a, q) = drop_until-suffix p s in (c ∷ a, rw e (ap (λ (t : Text). c ∷ t) q))
]
