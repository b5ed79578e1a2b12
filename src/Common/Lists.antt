-- ===== src/Common/Lists.antt =====
-- Lists as the rows of a table: selection, update and deletion by a test, and their laws.
use Prim.Native.Nat.{ℕ, suc, ◌+◌}
use mathlib.Core.Path.{◌≡◌, refl, ap, subst}
use mathlib.Core.Logic.{inl, inr}
use mathlib.Core.Bool.{Bool, true, false, ◌&&◌, ◌||◌}
use mathlib.Core.Option.{Option, none, some}
use mathlib.Core.List.{List, [], ◌∷◌, ◌++◌}
use native.Mathlib.Omega.{arith}
use factory_floor.Common.Tests.{if◌then◌else◌, Bool-cases}

module _ {ℓ} {A : Type ℓ} where
  abbrev pub length : List A → ℕ
  length [] = 0
  length (x ∷ xs) = suc (length xs)

  -- select … where
  unfoldable pub rows_where : (A → Bool) → List A → List A
  rows_where p [] = []
  rows_where p (x ∷ xs) = if p x then x ∷ rows_where p xs else rows_where p xs

  -- select … where … limit 1
  unfoldable pub first_where : (A → Bool) → List A → Option A
  first_where p [] = none
  first_where p (x ∷ xs) = if p x then some x else first_where p xs

  -- update … set … where
  unfoldable pub set_where : (A → Bool) → (A → A) → List A → List A
  set_where p f [] = []
  set_where p f (x ∷ xs) = (if p x then f x else x) ∷ set_where p f xs

  -- delete … where
  unfoldable pub delete_where : (A → Bool) → List A → List A
  delete_where p [] = []
  delete_where p (x ∷ xs) = if p x then delete_where p xs else x ∷ delete_where p xs

  unfoldable pub any_row : (A → Bool) → List A → Bool
  any_row p [] = false
  any_row p (x ∷ xs) = p x || any_row p xs

  unfoldable pub all_rows : (A → Bool) → List A → Bool
  all_rows p [] = true
  all_rows p (x ∷ xs) = p x && all_rows p xs

  unfoldable pub sum_of : (A → ℕ) → List A → ℕ
  sum_of f [] = 0
  sum_of f (x ∷ xs) = f x + sum_of f xs

module _ {ℓ} {A : Type ℓ} where
  pub length-set_where :
      (p : A → Bool) (f : A → A) (xs : List A) → length (set_where p f xs) ≡ length xs
  unfolding set_where
  length-set_where p f [] = refl
  length-set_where p f (x ∷ xs) = ap suc (length-set_where p f xs)

  pub first_where-true :
      (p : A → Bool) (xs : List A) (a : A) → first_where p xs ≡ some a → p a ≡ true
  unfolding first_where
  first_where-true p [] a h = ground arith
  first_where-true p (x ∷ xs) a h = ground (arith, first_where-true p xs a)

  pub sum_of-append : (f : A → ℕ) (xs ys : List A) → sum_of f (xs ++ ys) ≡ sum_of f xs + sum_of f ys
  unfolding sum_of
  sum_of-append f [] ys = omega arith
  sum_of-append f (x ∷ xs) ys = omega (arith, sum_of-append f xs ys)

  pub rows_where-append :
      (p : A → Bool) (xs ys : List A) → rows_where p (xs ++ ys) ≡ rows_where p xs ++ rows_where p ys
  unfolding rows_where
  rows_where-append p [] ys = refl
  rows_where-append p (x ∷ xs) ys = ground (arith, rows_where-append p xs ys)

  -- One more row adds its value to the sum of the rows that meet the test, if it meets it.
  pub sum_of-rows_where-insert :
      (p : A → Bool) (f : A → ℕ) (xs : List A) (x : A)
      → sum_of f (rows_where p (xs ++ x ∷ []))
        ≡ sum_of f (rows_where p xs) + (if p x then f x else 0)
  unfolding sum_of rows_where
  sum_of-rows_where-insert p f [] x = ground arith
  sum_of-rows_where-insert p f (y ∷ ys) x = ground (arith, sum_of-rows_where-insert p f ys x)

-- A predicate of every row.
abbrev pub All {ℓ κ} : {A : Type ℓ} → (A → Type κ) → List A → Type κ
All P [] = Unit
All P (x ∷ xs) = P x × All P xs

module _ {ℓ κ} {A : Type ℓ} (P : A → Type κ) where
  pub All-append : (xs ys : List A) → All P xs → All P ys → All P (xs ++ ys)
  All-append [] ys hx hy = hy
  All-append (x ∷ xs) ys hx hy = (hx.0, All-append xs ys hx.1 hy)

  pub All-rows_where : (p : A → Bool) (xs : List A) → All P xs → All P (rows_where p xs)
  unfolding rows_where
  All-rows_where p [] h = tt
  All-rows_where p (x ∷ xs) h = elim (Bool-cases (p x)) [
    | inl e ↦ rw e (h.0, All-rows_where p xs h.1)
    | inr e ↦ rw e (All-rows_where p xs h.1)
  ]

  pub All-delete_where : (p : A → Bool) (xs : List A) → All P xs → All P (delete_where p xs)
  unfolding delete_where
  All-delete_where p [] h = tt
  All-delete_where p (x ∷ xs) h = elim (Bool-cases (p x)) [
    | inl e ↦ rw e (All-delete_where p xs h.1)
    | inr e ↦ rw e (h.0, All-delete_where p xs h.1)
  ]

  pub All-set_where :
      (p : A → Bool) (f : A → A)
      → ((a : A) → p a ≡ true → P a → P (f a))
      → (xs : List A) → All P xs
      → All P (set_where p f xs)
  unfolding set_where
  All-set_where p f keep [] h = tt
  All-set_where p f keep (x ∷ xs) h = elim (Bool-cases (p x)) [
    | inl e ↦ rw e (keep x e h.0, All-set_where p f keep xs h.1)
    | inr e ↦ rw e (h.0, All-set_where p f keep xs h.1)
  ]

  pub All-first_where :
      (p : A → Bool) (xs : List A) (a : A) → All P xs → first_where p xs ≡ some a → P a
  unfolding first_where
  All-first_where p [] a h e = absurd (cc)
  All-first_where p (x ∷ xs) a h e = elim (Bool-cases (p x)) [
    | inl t ↦ subst P (ground arith) h.0
    | inr t ↦ All-first_where p xs a h.1 (ground arith)
  ]

pub All-mono {ℓ κ ι} :
    {A : Type ℓ} (P : A → Type κ) (Q : A → Type ι)
    → ((a : A) → P a → Q a)
    → (xs : List A) → All P xs
    → All Q xs
All-mono P Q f [] h = tt
All-mono P Q f (x ∷ xs) h = (f x h.0, All-mono P Q f xs h.1)

pub All-zip {ℓ κ ι} :
    {A : Type ℓ} (P : A → Type κ) (Q : A → Type ι) (xs : List A)
    → All P xs
    → All Q xs
    → All (λ a. P a × Q a) xs
All-zip P Q [] h k = tt
All-zip P Q (x ∷ xs) h k = ((h.0, k.0), All-zip P Q xs h.1 k.1)

module _ {ℓ} {A : Type ℓ} where
  pub rows_where-All :
      (p : A → Bool) (xs : List A) → All (λ a. p a ≡ true) xs → rows_where p xs ≡ xs
  unfolding rows_where
  rows_where-All p [] h = refl
  rows_where-All p (x ∷ xs) h = let t = h.0 in rw (t, rows_where-All p xs h.1)

-- After an update, every row that meets the test has what the update gives.
pub All-updated {ℓ κ} :
    {A : Type ℓ} (Q : A → Type κ) (p : A → Bool) (f : A → A)
    → ((a : A) → p a ≡ true → Q (f a))
    → (xs : List A) → All (λ a. p a ≡ true → Q a) (set_where p f xs)
unfolding set_where
All-updated Q p f h [] = tt
All-updated Q p f h (x ∷ xs) = elim (Bool-cases (p x)) [
  | inl e ↦ rw e ((λ k. h x e), All-updated Q p f h xs)
  | inr e ↦ rw e ((λ k. absurd (cc)), All-updated Q p f h xs)
]

pub any_row-append {ℓ} :
    {A : Type ℓ} (p : A → Bool) (xs : List A) (x : A) → p x ≡ true → any_row p (xs ++ x ∷ []) ≡ true
unfolding any_row
any_row-append p [] x h = ground arith
any_row-append p (y ∷ ys) x h = ground (arith, any_row-append p ys x h)

-- An update changes nothing where no row meets its test.
pub set_where-none {ℓ} :
    {A : Type ℓ} (p : A → Bool) (f : A → A) (xs : List A)
    → first_where p xs ≡ none
    → set_where p f xs ≡ xs
unfolding first_where set_where
set_where-none p f [] h = refl
set_where-none p f (x ∷ xs) h = elim (Bool-cases (p x)) [
  | inl e ↦ absurd (ground arith)
  | inr e ↦ ground (arith, set_where-none p f xs (ground arith))
]

-- The first row of a list is that of any longer one.
pub first_where-append {ℓ} :
    {A : Type ℓ} (p : A → Bool) (xs ys : List A) (a : A)
    → first_where p xs ≡ some a
    → first_where p (xs ++ ys) ≡ some a
unfolding first_where
first_where-append p [] ys a h = absurd (cc)
first_where-append p (x ∷ xs) ys a h = elim (Bool-cases (p x)) [
  | inl e ↦ ground arith
  | inr e ↦ ground (arith, first_where-append p xs ys a (ground arith))
]

pub first_where-insert {ℓ} :
    {A : Type ℓ} (p : A → Bool) (xs : List A) (a : A)
    → first_where p xs ≡ none
    → p a ≡ true
    → first_where p (xs ++ a ∷ []) ≡ some a
unfolding first_where
first_where-insert p [] a h k = ground arith
first_where-insert p (x ∷ xs) a h k = elim (Bool-cases (p x)) [
  | inl e ↦ absurd (ground arith)
  | inr e ↦ ground (arith, first_where-insert p xs a (ground arith) k)
]
