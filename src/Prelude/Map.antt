-- ===== src/Prelude/Map.antt =====
-- `HashMap` as an association list: `insert` replaces, and a key stands once.
use Prim.Native.Nat.{suc, ◌≤◌}
use mathlib.Core.Path.{◌≡◌, refl}
use mathlib.Core.Bool.{Bool, true}
use mathlib.Core.List.{List, [], ◌∷◌}
use mathlib.Core.Option.{Option, none, some}
use mathlib.Core.Logic.{◌⊎◌, inl, inr}
use native.Mathlib.Omega.{arith}
use postgresql_trino_gateway.Prelude.Tests.{if◌then◌else◌, is_some, Bool-cases}
use postgresql_trino_gateway.Prelude.Lists.{length}
use postgresql_trino_gateway.Prelude.Equality.{Eq, equal, equal_refl}

module _ {ℓ κ} {K : Type ℓ} {V : Type κ} ⦃e : Eq K⦄ where
  unfoldable pub get : K → List (K × V) → Option V
  get k [] = none
  get k ((j, v) ∷ m) = if equal j k then some v else get k m

  unfoldable pub insert : K → V → List (K × V) → List (K × V)
  insert k v [] = (k, v) ∷ []
  insert k v ((j, w) ∷ m) = if equal j k then (k, v) ∷ m else (j, w) ∷ insert k v m

  unfoldable pub remove : K → List (K × V) → List (K × V)
  remove k [] = []
  remove k ((j, w) ∷ m) = if equal j k then remove k m else (j, w) ∷ remove k m

  abbrev pub contains_key : K → List (K × V) → Bool
  contains_key k m = is_some (get k m)

  pub get-insert :
      (k j : K) (v : V) (m : List (K × V))
      → get j (insert k v m) ≡ (if equal k j then some v else get j m)
  unfolding get insert
  get-insert k j v [] = refl
  get-insert k j v ((i, w) ∷ m) =
      ground (arith, e.beq_iff k j, e.beq_iff i k, e.beq_iff i j, get-insert k j v m)

  pub get-remove :
      (k j : K) (m : List (K × V)) → get j (remove k m) ≡ (if equal k j then none else get j m)
  unfolding get remove
  get-remove k j [] = ground arith
  get-remove k j ((i, w) ∷ m) =
      ground (arith, e.beq_iff k j, e.beq_iff i k, e.beq_iff i j, get-remove k j m)

  pub length-insert :
      (k : K) (v : V) (m : List (K × V))
      → length (insert k v m) ≡ (if contains_key k m then length m else suc (length m))
  unfolding get insert
  length-insert k v [] = refl
  length-insert k v ((i, w) ∷ m) = ground (arith, length-insert k v m)

  pub length-remove : (k : K) (m : List (K × V)) → length (remove k m) ≤ length m
  unfolding remove
  length-remove k [] = omega arith
  length-remove k ((i, w) ∷ m) = ground (arith, length-remove k m)

  -- A key that is present makes `remove` shorten the map.
  length-remove-lt :
      (k : K) (m : List (K × V)) → contains_key k m ≡ true → suc (length (remove k m)) ≤ length m
  unfolding get remove
  length-remove-lt k [] h = ground arith
  length-remove-lt k ((i, w) ∷ m) h = ground (arith, length-remove k m, length-remove-lt k m)

  pub get-insert_self : (k : K) (v : V) (m : List (K × V)) → get k (insert k v m) ≡ some v
  get-insert_self k v m = rw (get-insert k k v m, equal_refl k)

  get-remove_self : (k : K) (m : List (K × V)) → get k (remove k m) ≡ none
  get-remove_self k m = rw (get-remove k k m, equal_refl k)

  pub get-insert_inv :
      (k j : K) (v w : V) (m : List (K × V))
      → get j (insert k v m) ≡ some w
      → (v ≡ w) ⊎ (get j m ≡ some w)
  get-insert_inv k j v w m h = elim (Bool-cases (equal k j)) [
    | inl e ↦ inl (ground (arith, get-insert k j v m))
    | inr e ↦ inr (ground (arith, get-insert k j v m))
  ]

  pub get-remove_inv :
      (k j : K) (w : V) (m : List (K × V)) → get j (remove k m) ≡ some w → get j m ≡ some w
  get-remove_inv k j w m h = ground (arith, get-remove k j m)
