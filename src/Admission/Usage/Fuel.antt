-- ===== src/Admission/Usage/Fuel.antt =====
-- The recursive queries of resource-admission-service.ts end: the number of regions is enough fuel.
use factory_floor.Common.{
  arith, ℕ, zero, suc, ◌≤◌, ◌<◌, ◌≡◌, refl, ap, inl, inr, ◌==◌, Bool, true, false, some, List, [],
  ◌∷◌, leb, ltb, holds, All, length, if◌then◌else◌, first_where, first_where-true, any_row,
  Bool-cases, Option-cases, ==_iff, ==_refl, All-mono, All-zip, All-any_row, All-first_where,
}
use factory_floor.Tables.{Region, Uuid}
use factory_floor.Tables.QuotaRows.{Budget, Quota, ResourceType}
use factory_floor.Admission.Usage.{
  ancestors, from_parent, from_region, descendants, children_of, budgets_along, applicable_budgets,
  consumed_quantity, consumed_in,
}
use factory_floor.Admission.Usage.Chain.{IsForest}

unfoldable how_many {ℓ} : {A : Type ℓ} → (A → Bool) → List A → ℕ
how_many p [] = 0
how_many p (x ∷ xs) = if p x then suc (how_many p xs) else how_many p xs

how_many-le {ℓ} : {A : Type ℓ} (p : A → Bool) (xs : List A) → how_many p xs ≤ length xs
unfolding how_many
how_many-le p [] = omega arith
how_many-le p (x ∷ xs) = ground (arith, how_many-le p xs)

how_many_mono {ℓ} :
    {A : Type ℓ} (p q : A → Bool) (xs : List A)
    → ((a : A) → p a ≡ true → q a ≡ true)
    → how_many p xs ≤ how_many q xs
unfolding how_many
how_many_mono p q [] h = omega arith
how_many_mono p q (x ∷ xs) h = elim (Bool-cases (p x)) [
  | inl e ↦ ground (arith, h x e, how_many_mono p q xs h)
  | inr e ↦ ground (arith, how_many_mono p q xs h)
]

-- A narrower test counts less where a row meets only the wider one.
how_many-less {ℓ} :
    {A : Type ℓ} (p q only : A → Bool) (xs : List A)
    → ((a : A) → p a ≡ true → q a ≡ true)
    → ((a : A) → only a ≡ true → q a ≡ true)
    → ((a : A) → only a ≡ true → p a ≡ false)
    → any_row only xs ≡ true
    → how_many p xs < how_many q xs
unfolding how_many any_row
how_many-less p q only [] h k l m = absurd (cc)
how_many-less p q only (x ∷ xs) h k l m = elim (Bool-cases (only x)) [
  | inl e ↦ ground (arith, k x e, l x e, how_many_mono p q xs h)
  | inr e ↦
      let rest = how_many-less p q only xs h k l (ground arith) in
      elim (Bool-cases (p x)) [ inl t ↦ ground (arith, h x t) | inr t ↦ ground arith ]
]

any_row-some {ℓ} :
    {A : Type ℓ} (p : A → Bool) (xs : List A) (a : A)
    → first_where p xs ≡ some a
    → any_row p xs ≡ true
unfolding first_where any_row
any_row-some p [] a h = absurd (cc)
any_row-some p (x ∷ xs) a h = elim (Bool-cases (p x)) [
  | inl e ↦ ground arith
  | inr e ↦ ground (arith, any_row-some p xs a (ground arith))
]

children_of-same :
    (below below' : Uuid → List Uuid) (id : Uuid) (rs : List Region)
    → All (λ r. holds r.parent_region_id id ≡ true → below r.id ≡ below' r.id) rs
    → children_of below id rs ≡ children_of below' id rs
unfolding children_of
children_of-same below below' id [] h = refl
children_of-same below below' id (r ∷ rs) h = elim (Bool-cases (holds r.parent_region_id id)) [
  | inl e ↦ ground (arith, h.0 e, children_of-same below below' id rs h.1)
  | inr e ↦ ground (arith, children_of-same below below' id rs h.1)
]

abbrev is_named : Uuid → Region → Bool
is_named id r = r.id == id

module _ (depth : Uuid → ℕ) where
  -- the regions that lie no deeper, and those that lie deeper
  above : Uuid → Region → Bool
  above id r = leb (depth r.id) (depth id)

  deeper : Uuid → Region → Bool
  deeper id r = ltb (depth id) (depth r.id)

module _ (depth : Uuid → ℕ) (regions : List Region) (forest : IsForest depth regions) where
  from_above :
      (id : Uuid) (r : Region)
      → first_where (λ x. x.id == id) regions ≡ some r
      → (parent : Uuid) → r.parent_region_id ≡ some parent
      → how_many (above depth parent) regions < how_many (above depth id) regions
  unfolding above
  from_above id r e parent p =
      let same = (==_iff r.id id).0 (first_where-true (is_named id) regions r e) in
      let l =
        All-first_where
          (λ r. (parent : Uuid) → r.parent_region_id ≡ some parent → depth parent < depth r.id)
          (is_named id) regions r forest e parent p in
      how_many-less (above depth parent) (above depth id) (is_named id) regions
        (λ a k. ground (arith, ap depth same))
        (λ a k. let q = ap depth ((==_iff a.id id).0 k) in ground arith)
        (λ a k. let q = ap depth ((==_iff a.id id).0 k) in ground (arith, ap depth same))
        (any_row-some (is_named id) regions r e)

  named-above :
      (id : Uuid) (r : Region)
      → first_where (λ x. x.id == id) regions ≡ some r
      → 0 < how_many (above depth id) regions
  unfolding above
  named-above id r e =
      let l =
        how_many-less (λ x. false) (above depth id) (is_named id) regions (λ a k. absurd (cc))
          (λ a k. let q = ap depth ((==_iff a.id id).0 k) in ground arith) (λ a k. refl)
          (any_row-some (is_named id) regions r e) in
      omega arith

  ancestors-enough :
      (fuel more : ℕ) (id : Uuid)
      → how_many (above depth id) regions ≤ fuel
      → fuel ≤ more
      → ancestors more regions id ≡ ancestors fuel regions id
  unfolding ancestors from_region from_parent
  ancestors-enough zero zero id h k = refl
  ancestors-enough zero (suc more) id h k =
      elim (Option-cases (first_where (λ r. r.id == id) regions)) [
        | inl e ↦ rw e refl
        | inr (r, e) ↦ absurd (let l = named-above id r e in omega arith)
      ]
  ancestors-enough (suc fuel) zero id h k = absurd (omega arith)
  ancestors-enough (suc fuel) (suc more) id h k =
      elim (Option-cases (first_where (λ r. r.id == id) regions)) [
        | inl e ↦ rw e refl
        | inr (r, e) ↦ elim (Option-cases r.parent_region_id) [
          | inl p ↦ rw (e, p) refl
          | inr (parent, p) ↦
              let l = from_above id r e parent p in
              rw (e, p, ancestors-enough fuel more parent (omega arith) (omega arith)) refl
        ]
      ]

  from_deeper :
      (id : Uuid) (r : Region)
      → ((parent : Uuid) → r.parent_region_id ≡ some parent → depth parent < depth r.id)
        × (any_row (is_named r.id) regions ≡ true)
      → holds r.parent_region_id id ≡ true
      → how_many (deeper depth r.id) regions < how_many (deeper depth id) regions
  unfolding deeper
  from_deeper id r (l, m) p =
      let lower = l id (ground arith) in
      how_many-less (deeper depth r.id) (deeper depth id) (is_named r.id) regions
        (λ a k. ground arith) (λ a k. let q = ap depth ((==_iff a.id r.id).0 k) in ground arith)
        (λ a k. let q = ap depth ((==_iff a.id r.id).0 k) in ground arith) m

  descendants-enough :
      (fuel more : ℕ) (id : Uuid)
      → how_many (deeper depth id) regions < fuel
      → fuel ≤ more
      → descendants more regions id ≡ descendants fuel regions id
  unfolding descendants
  descendants-enough zero more id h k = absurd (omega arith)
  descendants-enough (suc fuel) zero id h k = absurd (omega arith)
  descendants-enough (suc fuel) (suc more) id h k =
      ap (λ is. id ∷ is)
        (children_of-same (descendants more regions) (descendants fuel regions) id regions (
          All-mono _ _
            (λ r a p.
              let l = from_deeper id r a p in
              descendants-enough fuel more r.id (omega arith) (omega arith))
            regions
            (All-zip _ _ regions forest
              (All-any_row (λ (r x : Region). x.id == r.id) (λ r. ==_refl r.id) regions))))

deeper-less :
    (depth : Uuid → ℕ) (regions : List Region) (id : Uuid)
    → any_row (λ r. r.id == id) regions ≡ true
    → how_many (deeper depth id) regions < length regions
unfolding deeper
deeper-less depth regions id known =
    let l =
      how_many-less (deeper depth id) (λ r. true) (is_named id) regions (λ a k. refl) (λ a k. refl)
        (λ a k. let q = ap depth ((==_iff a.id id).0 k) in ground arith) known in
    omega (arith, how_many-le (λ (r : Region). true) regions)

-- Where parents make a forest, the recursive queries of a reservation end: the number of regions
-- is enough fuel for the budgets on the way from a region to the root, and for the consumption
-- below the region of a budget that the regions hold.
pub usage_fuel_enough :
    (depth : Uuid → ℕ) (regions : List Region) (fuel : ℕ) (kind : ResourceType) (q : Quota)
    (b : Budget) (id : Uuid)
    → IsForest depth regions
    → any_row (λ r. r.id == b.scope_id) regions ≡ true
    → length regions ≤ fuel
    → (budgets_along kind q.budgets (ancestors fuel regions id)
        ≡ applicable_budgets regions id kind q)
      × (consumed_in kind q (descendants fuel regions b.scope_id)
          ≡ consumed_quantity regions kind q b)
unfolding applicable_budgets consumed_quantity
usage_fuel_enough depth regions fuel kind q b id forest known enough =
    let up =
      ancestors-enough depth regions forest (length regions) fuel id (how_many-le _ regions)
        enough in
    let below =
      descendants-enough depth regions forest (length regions) fuel b.scope_id
        (deeper-less depth regions b.scope_id known) enough in
    (ap (budgets_along kind q.budgets) up, ap (consumed_in kind q) below)
