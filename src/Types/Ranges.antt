-- ===== src/Types/Ranges.antt =====
-- The range of the integers that src/types.rs reads out of texts.
use postgresql_trino_gateway.Prelude.{
  ℕ, ◌-◌, ◌^◌, ◌≤◌, ◌==◌, ◌≡◌, ◌∙◌, subst, inl, inr, Option, none, some, [], ◌∷◌, arith, leb,
  Bool-cases, Option-cases,
}
use postgresql_trino_gateway.Prelude.Text.{Text, trim}
use postgresql_trino_gateway.Prelude.Int.{ℤ, pos, negate, within, parse_natural, parse_i64}
use postgresql_trino_gateway.Wire.{Float, nan, infinity, finite}
use postgresql_trino_gateway.Catalog.Response.{and_then}
use postgresql_trino_gateway.Types.Numbers.{f64_to_i64_exact}
use postgresql_trino_gateway.Types.Libraries.{Libraries}
use postgresql_trino_gateway.Types.Json.{string_to_i64}
use postgresql_trino_gateway.Types.Integers.{InI64, exact_sound, negate-InI64}

within-some :
    (max : ℕ) (f : ℕ → ℤ) (o : Option ℕ) (z : ℤ)
    → within max f o ≡ some z
    → (n : ℕ) × (n ≤ max) × (f n ≡ z)
within-some max f none z h = absurd (ground arith)
within-some max f (some n) z h = elim (Bool-cases (leb n max)) [
  | inl l ↦ (n, ground arith, ground arith)
  | inr l ↦ absurd (ground arith)
]

positive-InI64 : (o : Option ℕ) (z : ℤ) → within (2 ^ 63 - 1) pos o ≡ some z → InI64 z
positive-InI64 o z h =
    let (n, l, e) = within-some (2 ^ 63 - 1) pos o z h in subst InI64 e (omega (arith, l))

negative-InI64 : (o : Option ℕ) (z : ℤ) → within (2 ^ 63) negate o ≡ some z → InI64 z
negative-InI64 o z h =
    let (n, l, e) = within-some (2 ^ 63) negate o z h in subst InI64 e (negate-InI64 n l)

parse_i64-InI64 : (s : Text) (z : ℤ) → parse_i64 s ≡ some z → InI64 z
unfolding parse_i64
parse_i64-InI64 [] z h = absurd (ground arith)
parse_i64-InI64 (c ∷ s) z h = elim (Bool-cases (c == b'-')) [
  | inl m ↦ negative-InI64 (parse_natural s) z (rw m at h)
  | inr m ↦ elim (Bool-cases (c == b'+')) [
    | inl p ↦ positive-InI64 (parse_natural s) z (rw (m, p) at h)
    | inr p ↦ positive-InI64 (parse_natural (c ∷ s)) z (rw (m, p) at h)
  ]
]

exact-InI64 : (f : Float) (z : ℤ) → f64_to_i64_exact f ≡ some z → InI64 z
unfolding f64_to_i64_exact
exact-InI64 nan z h = absurd (ground arith)
exact-InI64 (infinity sign) z h = absurd (ground arith)
exact-InI64 (finite sign m k) z h = (exact_sound sign m k z h).1

and_then-some :
    {A B : Type 0} (o : Option A) (f : A → Option B) (b : B)
    → and_then o f ≡ some b
    → (a : A) × (f a ≡ some b)
and_then-some none f b h = absurd (ground arith)
and_then-some (some a) f b h = (a, h)

pub string_to_i64-InI64 :
    (libs : Libraries) (s : Text) (z : ℤ) → string_to_i64 libs s ≡ some z → InI64 z
unfolding string_to_i64
string_to_i64-InI64 libs s z h = elim (Option-cases (parse_i64 (trim s))) [
  | inr (n, e) ↦ parse_i64-InI64 (trim s) z (e ∙ (rw e at h))
  | inl e ↦
      let (f, p) = and_then-some (libs.parse_f64 (trim s)) f64_to_i64_exact z (rw e at h) in
      exact-InI64 f z p
]
