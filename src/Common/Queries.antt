-- ===== src/Common/Queries.antt =====
-- Laws of the queries on lists of rows: which rows they find after an insertion, in another order or
-- by a narrower test.
use Prim.Native.Nat.{◌+◌}
use mathlib.Core.Path.{◌≡◌, refl}
use mathlib.Core.Logic.{inl, inr}
use mathlib.Core.Bool.{Bool, true, false, ◌&&◌}
use mathlib.Core.Option.{Option, none, some}
use mathlib.Core.List.{List, [], ◌∷◌, ◌++◌}
use native.Mathlib.Omega.{arith}
use factory_floor.Common.Tests.{if◌then◌else◌, Bool-cases}
use factory_floor.Common.Lists.{All, length, rows_where, first_where, any_row}
use factory_floor.Common.Order.{place, order_by}

pub rows_where-nil {ℓ} :
    {A : Type ℓ} (p : A → Bool) (xs : List A) → rows_where p xs ≡ [] → All (λ a. p a ≡ false) xs
unfolding rows_where
rows_where-nil p [] h = tt
rows_where-nil p (x ∷ xs) h = elim (Bool-cases (p x)) [
  | inl e ↦ absurd (ground arith)
  | inr e ↦ (e, rows_where-nil p xs (ground arith))
]

pub rows_where-one {ℓ} :
    {A : Type ℓ} (p : A → Bool) (a : A) → p a ≡ true → rows_where p (a ∷ []) ≡ a ∷ []
unfolding rows_where
rows_where-one p a h = ground arith

pub any_row-place {ℓ} :
    {A : Type ℓ} (before : A → A → Bool) (p : A → Bool) (a : A) (xs : List A)
    → any_row p (place before a xs) ≡ any_row p (a ∷ xs)
unfolding place any_row
any_row-place before p a [] = refl
any_row-place before p a (x ∷ xs) = elim (Bool-cases (before a x)) [
  | inl e ↦ ground arith
  | inr e ↦ ground (arith, any_row-place before p a xs)
]

pub any_row-order_by {ℓ} :
    {A : Type ℓ} (before : A → A → Bool) (p : A → Bool) (xs : List A)
    → any_row p (order_by before xs) ≡ any_row p xs
unfolding order_by any_row
any_row-order_by before p [] = refl
any_row-order_by before p (x ∷ xs) =
    ground (arith, any_row-place before p x (order_by before xs), any_row-order_by before p xs)

pub any_row-rows_where {ℓ} :
    {A : Type ℓ} (p q : A → Bool) (xs : List A)
    → any_row p (rows_where q xs) ≡ any_row (λ a. q a && p a) xs
unfolding rows_where any_row
any_row-rows_where p q [] = refl
any_row-rows_where p q (x ∷ xs) = ground (arith, any_row-rows_where p q xs)

pub rows_where-none {ℓ} :
    {A : Type ℓ} (p : A → Bool) (xs : List A) → any_row p xs ≡ false → rows_where p xs ≡ []
unfolding rows_where any_row
rows_where-none p [] h = refl
rows_where-none p (x ∷ xs) h = ground (arith, rows_where-none p xs (ground arith))

pub any_row-snoc {ℓ} :
    {A : Type ℓ} (p : A → Bool) (xs : List A) (x : A)
    → any_row p xs ≡ false
    → p x ≡ false
    → any_row p (xs ++ x ∷ []) ≡ false
unfolding any_row
any_row-snoc p [] x h k = ground arith
any_row-snoc p (y ∷ ys) x h k = ground (arith, any_row-snoc p ys x (ground arith) k)

pub any_row-weaker {ℓ} :
    {A : Type ℓ} (p q : A → Bool) (xs : List A)
    → ((a : A) → q a ≡ true → p a ≡ true)
    → any_row p xs ≡ false
    → any_row q xs ≡ false
unfolding any_row
any_row-weaker p q [] w h = refl
any_row-weaker p q (x ∷ xs) w h = elim (Bool-cases (q x)) [
  | inl e ↦ absurd (let t = w x e in ground arith)
  | inr e ↦ ground (arith, any_row-weaker p q xs w (ground arith))
]

pub length-rows_where-snoc {ℓ} :
    {A : Type ℓ} (p : A → Bool) (xs : List A) (x : A)
    → length (rows_where p (xs ++ x ∷ [])) ≡ length (rows_where p xs) + (if p x then 1 else 0)
unfolding rows_where
length-rows_where-snoc p [] x = ground arith
length-rows_where-snoc p (y ∷ ys) x = elim (Bool-cases (p y)) [
  | inl e ↦ rw e (omega (arith, length-rows_where-snoc p ys x))
  | inr e ↦ rw e (length-rows_where-snoc p ys x)
]

pub any_row-first {ℓ} :
    {A : Type ℓ} (p q : A → Bool) (xs : List A) (a : A)
    → first_where p xs ≡ some a
    → q a ≡ true
    → any_row q xs ≡ true
unfolding first_where any_row
any_row-first p q [] a h k = absurd (cc)
any_row-first p q (x ∷ xs) a h k = elim (Bool-cases (p x)) [
  | inl e ↦ ground arith
  | inr e ↦ ground (arith, any_row-first p q xs a (ground arith) k)
]

pub any_row-longer {ℓ} :
    {A : Type ℓ} (p : A → Bool) (xs ys : List A) → any_row p xs ≡ true → any_row p (xs ++ ys) ≡ true
unfolding any_row
any_row-longer p [] ys h = absurd (cc)
any_row-longer p (x ∷ xs) ys h = ground (arith, any_row-longer p xs ys)

pub first_where-narrower {ℓ} :
    {A : Type ℓ} (p q : A → Bool) (xs : List A)
    → first_where p xs ≡ none
    → first_where (λ x. p x && q x) xs ≡ none
unfolding first_where
first_where-narrower p q [] h = refl
first_where-narrower p q (x ∷ xs) h = elim (Bool-cases (p x)) [
  | inl e ↦ absurd (ground arith)
  | inr e ↦ ground (arith, first_where-narrower p q xs (ground arith))
]

pub some_injective {ℓ} : {A : Type ℓ} (a b : A) → ◌≡◌ {A = Option A} (some a) (some b) → a ≡ b
some_injective a b e = cc

-- No row meets a test that no row is found by.
pub any_row-false {ℓ} :
    {A : Type ℓ} (p : A → Bool) (xs : List A) → any_row p xs ≡ false → All (λ x. p x ≡ false) xs
unfolding any_row
any_row-false p [] h = tt
any_row-false p (x ∷ xs) h = (ground arith, any_row-false p xs (ground arith))
