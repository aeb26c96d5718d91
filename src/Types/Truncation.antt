-- ===== src/Types/Truncation.antt =====
-- What `truncate_fraction` (src/types.rs) cuts.
use Prim.Native.Nat.{zero, suc}
use postgresql_trino_gateway.Prelude.{
  ℕ, ◌≤◌, ◌==◌, ◌≡◌, refl, ap, ◌∙◌, inl, inr, true, false, some, List, [], ◌∷◌, ◌++◌, take, drop,
  length, All, leb, arith, Bool-cases,
}
use postgresql_trino_gateway.Prelude.Text.{Text, codes, find, take_until, strip_prefix}
use postgresql_trino_gateway.Prelude.Decimal.{not_digit}
use postgresql_trino_gateway.Types.Temporal.{first_nine, at_point, truncate_fraction}

abbrev pub NoDot : Text → Type 0
NoDot = All (λ c. (c == b'.') ≡ false)

abbrev pub Digits : Text → Type 0
Digits = All (λ c. not_digit c ≡ false)

-- A text that does not go on with a digit.
abbrev pub StopsDigits : Text → Type 0
StopsDigits [] = Unit
StopsDigits (c ∷ s) = not_digit c ≡ true

find_dot : (b x : Text) → NoDot b → find (codes ".") (b ++ (b'.' ∷ x)) ≡ some (b, x)
unfolding find strip_prefix
find_dot [] [] h = refl
find_dot [] (c ∷ x) h = refl
find_dot (c ∷ b) x h = ground (arith, find_dot b x h.1)

take_until-Digits :
    (ds rest : Text) → Digits ds → StopsDigits rest → take_until not_digit (ds ++ rest) ≡ ds
unfolding take_until
take_until-Digits [] [] h r = refl
take_until-Digits [] (c ∷ rest) h r = rw r refl
take_until-Digits (d ∷ ds) rest h r =
    rw h.0 (ap (λ (t : Text). d ∷ t) (take_until-Digits ds rest h.1 r))

module _ {ℓ} {A : Type ℓ} where
  drop-append : (xs ys : List A) → drop (length xs) (xs ++ ys) ≡ ys
  drop-append [] ys = refl
  drop-append (x ∷ xs) ys = drop-append xs ys

  take-append : (n : ℕ) (xs ys : List A) → n ≤ length xs → take n (xs ++ ys) ≡ take n xs
  take-append zero xs ys h = refl
  take-append (suc n) [] ys h = absurd (omega arith)
  take-append (suc n) (x ∷ xs) ys h = ap (λ (t : List A). x ∷ t) (take-append n xs ys (omega arith))

  take_all : (n : ℕ) (xs : List A) → length xs ≤ n → take n xs ≡ xs
  take_all zero [] h = refl
  take_all zero (x ∷ xs) h = absurd (omega arith)
  take_all (suc n) [] h = refl
  take_all (suc n) (x ∷ xs) h = ap (λ (t : List A). x ∷ t) (take_all n xs (omega arith))

first_nine_digits :
    (b ds rest : Text)
    → first_nine (b ++ (b'.' ∷ (ds ++ rest))) b (ds ++ rest) ds ≡ b ++ (b'.' ∷ (take 9 ds ++ rest))
first_nine_digits b ds rest = elim (Bool-cases (leb (length ds) 9)) [
  | inl short ↦ rw (short, take_all 9 ds (ground arith)) refl
  | inr long ↦ rw (long, take-append 9 ds rest (ground arith), drop-append ds rest) refl
]

-- Where a run of digits stands behind the first point of a text, its first nine are kept, and the
-- texts before the point and behind the run are left alone.
pub truncate_fraction-Digits :
    (before digits rest : Text)
    → NoDot before
    → Digits digits
    → StopsDigits rest
    → truncate_fraction (before ++ (b'.' ∷ (digits ++ rest)))
      ≡ before ++ (b'.' ∷ (take 9 digits ++ rest))
unfolding truncate_fraction
truncate_fraction-Digits b ds rest nb nd nr =
    let s = b ++ (b'.' ∷ (ds ++ rest)) in
    ap (at_point s) (find_dot b (ds ++ rest) nb)
    ∙ ap (first_nine s b (ds ++ rest)) (take_until-Digits ds rest nd nr)
    ∙ first_nine_digits b ds rest
