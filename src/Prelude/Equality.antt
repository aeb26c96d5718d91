-- ===== src/Prelude/Equality.antt =====
-- Decidable equality as an instance: Rust's `==` on the key types.
use Prim.Native.Nat.{ℕ}
use mathlib.Core.Path.{◌≡◌, refl}
use mathlib.Core.Bool.{Bool, true, ◌&&◌}
use mathlib.Core.List.{[], ◌∷◌}
use mathlib.Core.Logic.{◌↔◌}
use native.Mathlib.Omega.{arith}
use postgresql_trino_gateway.Prelude.Tests.{◌==◌ as nat_beq, ==_iff}
use postgresql_trino_gateway.Prelude.Text.{Text, text_eq}

pub record Eq {ℓ} (A : Type ℓ) : Type ℓ where
  pub beq : A → A → Bool
  pub beq_iff : (a b : A) → (beq a b ≡ true) ↔ (a ≡ b)

abbrev pub equal {ℓ} : {A : Type ℓ} ⦃e : Eq A⦄ → A → A → Bool
equal ⦃e⦄ = e.beq

pub equal_refl {ℓ} : {A : Type ℓ} ⦃e : Eq A⦄ (a : A) → equal a a ≡ true
equal_refl ⦃e⦄ a = (e.beq_iff a a).1 refl

text_eq_refl : (s : Text) → text_eq s s ≡ true
unfolding text_eq
text_eq_refl [] = refl
text_eq_refl (c ∷ s) = ground (arith, text_eq_refl s)

text_eq_sound : (s t : Text) → text_eq s t ≡ true → s ≡ t
unfolding text_eq
text_eq_sound [] [] h = refl
text_eq_sound [] (d ∷ t) h = ground arith
text_eq_sound (c ∷ s) [] h = ground arith
text_eq_sound (c ∷ s) (d ∷ t) h = ground (arith, text_eq_sound s t)

pub text_eq_iff : (s t : Text) → (text_eq s t ≡ true) ↔ (s ≡ t)
text_eq_iff s t = (text_eq_sound s t, λ e. rw e (text_eq_refl t))

instance abbrev pub text_equality : Eq Text
text_equality = record { beq = text_eq; beq_iff = text_eq_iff }

instance abbrev pub nat_equality : Eq ℕ
nat_equality = record { beq = nat_beq; beq_iff = ==_iff }

module _ {ℓ κ} {A : Type ℓ} {B : Type κ} ⦃a : Eq A⦄ ⦃b : Eq B⦄ where
  abbrev pub pair_eq : A × B → A × B → Bool
  pair_eq (x, y) (u, v) = a.beq x u && b.beq y v

  pub pair_eq_iff : (p q : A × B) → (pair_eq p q ≡ true) ↔ (p ≡ q)
  pair_eq_iff (x, y) (u, v) = (
    (λ h. ground (arith, a.beq_iff x u, b.beq_iff y v)),
    (λ h. ground (arith, a.beq_iff x u, b.beq_iff y v)),
  )

  instance abbrev pub pair_equality : Eq (A × B)
  pair_equality = record { beq = pair_eq; beq_iff = pair_eq_iff }
