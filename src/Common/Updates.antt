-- ===== src/Common/Updates.antt =====
-- Lemmas on the tables after an update, and on the rows that a query selects.
use mathlib.Core.Path.{◌≡◌, refl}
use mathlib.Core.Logic.{inl, inr}
use mathlib.Core.Bool.{Bool, true, false}
use mathlib.Core.Option.{none}
use mathlib.Core.List.{List, [], ◌∷◌, ◌++◌, map}
use native.Mathlib.Omega.{arith}
use factory_floor.Common.Tests.{Bool-cases}
use factory_floor.Common.Lists.{
  rows_where, first_where, set_where, delete_where, any_row, All, All-mono,
}

-- The rows that a query selects meet its test.
pub All-rows_where-true {ℓ} :
    {A : Type ℓ} (p : A → Bool) (xs : List A) → All (λ a. p a ≡ true) (rows_where p xs)
unfolding rows_where
All-rows_where-true p [] = tt
All-rows_where-true p (x ∷ xs) = elim (Bool-cases (p x)) [
  | inl e ↦ rw e (e, All-rows_where-true p xs)
  | inr e ↦ rw e (All-rows_where-true p xs)
]

-- Every row is found by a test that it meets.
pub All-any_row {ℓ} :
    {A : Type ℓ} (test : A → A → Bool)
    → ((a : A) → test a a ≡ true)
    → (xs : List A) → All (λ a. any_row (test a) xs ≡ true) xs
unfolding any_row
All-any_row test r [] = tt
All-any_row test r (x ∷ xs) =
    (ground (arith, r x), All-mono _ _ (λ a h. ground arith) xs (All-any_row test r xs))

-- An update that a map does not see.
pub map-set_where {ℓ κ} :
    {A : Type ℓ} {B : Type κ} (g : A → B) (p : A → Bool) (f : A → A) (xs : List A)
    → ((a : A) → g (f a) ≡ g a)
    → map g (set_where p f xs) ≡ map g xs
unfolding set_where
map-set_where g p f [] h = refl
map-set_where g p f (x ∷ xs) h = elim (Bool-cases (p x)) [
  | inl e ↦ ground (arith, h x, map-set_where g p f xs h)
  | inr e ↦ ground (arith, map-set_where g p f xs h)
]

-- An update that leaves a test and `g` of the rows it changes leaves `g` of the rows that meet it.
pub map-rows_where-set_where {ℓ κ} :
    {A : Type ℓ} {B : Type κ} (g : A → B) (q p : A → Bool) (f : A → A)
    → ((a : A) → g (f a) ≡ g a)
    → ((a : A) → p a ≡ true → q (f a) ≡ q a)
    → (xs : List A) → map g (rows_where q (set_where p f xs)) ≡ map g (rows_where q xs)
unfolding set_where rows_where
map-rows_where-set_where g q p f h k [] = refl
map-rows_where-set_where g q p f h k (x ∷ xs) =
    let others = map-rows_where-set_where g q p f h k xs in
    elim (Bool-cases (p x)) [
      | inl e ↦ elim (Bool-cases (q x)) [
        | inl m ↦ ground (arith, h x, k x e, others)
        | inr m ↦ ground (arith, h x, k x e, others)
      ]
      | inr e ↦ elim (Bool-cases (q x)) [
        | inl m ↦ ground (arith, others)
        | inr m ↦ ground (arith, others)
      ]
    ]

-- After an update that undoes its test, no row meets it.
pub All-cleared {ℓ} :
    {A : Type ℓ} (p : A → Bool) (f : A → A)
    → ((a : A) → p a ≡ true → p (f a) ≡ false)
    → (xs : List A) → All (λ a. p a ≡ false) (set_where p f xs)
unfolding set_where
All-cleared p f h [] = tt
All-cleared p f h (x ∷ xs) = elim (Bool-cases (p x)) [
  | inl e ↦ rw e (h x e, All-cleared p f h xs)
  | inr e ↦ rw e (e, All-cleared p f h xs)
]

-- An update that a test does not see.
pub any_row-set_where_same {ℓ} :
    {A : Type ℓ} (p q : A → Bool) (f : A → A) (xs : List A)
    → ((a : A) → q (f a) ≡ q a)
    → any_row q (set_where p f xs) ≡ any_row q xs
unfolding any_row set_where
any_row-set_where_same p q f [] h = refl
any_row-set_where_same p q f (x ∷ xs) h = elim (Bool-cases (p x)) [
  | inl e ↦ ground (arith, h x, any_row-set_where_same p q f xs h)
  | inr e ↦ ground (arith, any_row-set_where_same p q f xs h)
]

-- A test that finds no row.
pub any_row-none {ℓ} :
    {A : Type ℓ} (p : A → Bool) (xs : List A) → first_where p xs ≡ none → any_row p xs ≡ false
unfolding first_where any_row
any_row-none p [] h = refl
any_row-none p (x ∷ xs) h = elim (Bool-cases (p x)) [
  | inl e ↦ absurd (ground arith)
  | inr e ↦ ground (arith, any_row-none p xs (ground arith))
]

-- A row that a test singles out, at the end of rows that do not meet it, goes again.
pub delete_where-append {ℓ} :
    {A : Type ℓ} (p : A → Bool) (xs : List A) (x : A)
    → All (λ a. p a ≡ false) xs
    → p x ≡ true
    → delete_where p (xs ++ x ∷ []) ≡ xs
unfolding delete_where
delete_where-append p [] x h k = ground arith
delete_where-append p (y ∷ ys) x h k = ground (arith, h.0, delete_where-append p ys x h.1 k)

pub any_row-All {ℓ} :
    {A : Type ℓ} (p : A → Bool) (xs : List A) → All (λ a. p a ≡ false) xs → any_row p xs ≡ false
unfolding any_row
any_row-All p [] h = refl
any_row-All p (x ∷ xs) h = ground (arith, h.0, any_row-All p xs h.1)

-- An update of more rows than the narrower test `r` singles out, all of which then meet `q`.
pub any_row-set_where_wider {ℓ} :
    {A : Type ℓ} (r p q : A → Bool) (f : A → A) (xs : List A)
    → ((a : A) → r a ≡ true → (p a ≡ true) × (q (f a) ≡ true))
    → any_row r xs ≡ true
    → any_row q (set_where p f xs) ≡ true
unfolding any_row set_where
any_row-set_where_wider r p q f [] h k = absurd (cc)
any_row-set_where_wider r p q f (x ∷ xs) h k = elim (Bool-cases (r x)) [
  | inl e ↦ let (a, b) = h x e in ground arith
  | inr e ↦ ground (arith, any_row-set_where_wider r p q f xs h (ground arith))
]
