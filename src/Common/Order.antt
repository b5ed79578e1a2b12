-- ===== src/Common/Order.antt =====
-- `order by`: a stable insertion sort by a test "not after", and what it keeps.
use mathlib.Core.Path.{◌≡◌, refl}
use mathlib.Core.Logic.{inl, inr, ◌≢◌}
use mathlib.Core.Bool.{Bool}
use mathlib.Core.List.{List, [], ◌∷◌, Perm}
use mathlib.Core.List.Perm
use native.Mathlib.Omega.{arith}
use factory_floor.Common.Tests.{if◌then◌else◌, Bool-cases}
use factory_floor.Common.Lists.{All}

module _ {ℓ} {A : Type ℓ} (before : A → A → Bool) where
  unfoldable pub place : A → List A → List A
  place a [] = a ∷ []
  place a (x ∷ xs) = if before a x then a ∷ x ∷ xs else x ∷ place a xs

  unfoldable pub order_by : List A → List A
  unfolding place
  order_by [] = []
  order_by (x ∷ xs) = place x (order_by xs)

module _ {ℓ} {A : Type ℓ} (before : A → A → Bool) where
  place-perm : (a : A) (xs : List A) → Perm (place before a xs) (a ∷ xs)
  unfolding place
  place-perm a [] = Perm.refl (a ∷ [])
  place-perm a (x ∷ xs) = elim (Bool-cases (before a x)) [
    | inl e ↦ rw e (Perm.refl (a ∷ x ∷ xs))
    | inr e ↦ rw e (Perm.trans (Perm.cons x (place-perm a xs)) (Perm.swap a x xs))
  ]

  pub order_by-perm : (xs : List A) → Perm (order_by before xs) xs
  unfolding order_by
  order_by-perm [] = Perm.refl []
  order_by-perm (x ∷ xs) =
      Perm.trans (place-perm x (order_by before xs)) (Perm.cons x (order_by-perm xs))

module _ {ℓ κ} {A : Type ℓ} (P : A → Type κ) (before : A → A → Bool) where
  All-place : (a : A) (xs : List A) → P a → All P xs → All P (place before a xs)
  unfolding place
  All-place a [] p h = (p, tt)
  All-place a (x ∷ xs) p h = elim (Bool-cases (before a x)) [
    | inl e ↦ rw e (p, h)
    | inr e ↦ rw e (h.0, All-place a xs p h.1)
  ]

  pub All-order_by : (xs : List A) → All P xs → All P (order_by before xs)
  unfolding order_by
  All-order_by [] h = tt
  All-order_by (x ∷ xs) h = All-place x (order_by before xs) h.0 (All-order_by xs h.1)

module _ {ℓ} {A : Type ℓ} (before : A → A → Bool) where
  place-ne-nil : (a : A) (xs : List A) → place before a xs ≢ []
  unfolding place
  place-ne-nil a [] e = cc
  place-ne-nil a (x ∷ xs) e = ground arith

  pub order_by-eq-nil : (xs : List A) → order_by before xs ≡ [] → xs ≡ []
  unfolding order_by
  order_by-eq-nil [] e = refl
  order_by-eq-nil (x ∷ xs) e = absurd (place-ne-nil x (order_by before xs) e)
