-- ===== src/Admission/Usage/Chain.antt =====
-- The region tree as a forest, and how often a budget comes up on the way to the root.
use factory_floor.Common.{
  ℕ, zero, suc, ◌+◌, ◌≤◌, ◌<◌, ◌≡◌, refl, sym, ap, inl, inr, ◌==◌, ◌++◌, Bool, Option, none, some,
  List, [], ◌∷◌, leb, All, arith, if◌then◌else◌, rows_where, first_where, order_by, place,
  Bool-cases, Option-cases, ==_iff, and_true, All-first_where, All-mono, first_where-true,
}
use factory_floor.Tables.{Region, Uuid}
use factory_floor.Tables.QuotaRows.{Budget, ResourceType}
use factory_floor.Admission.Usage.{ancestors, from_parent, from_region, applies_to, budgets_along}

-- A depth that falls from a region to its parent: no cycle of `parent_region_id`.
abbrev pub IsForest : (Uuid → ℕ) → List Region → Type 0
IsForest depth =
    All (λ r. (parent : Uuid) → r.parent_region_id ≡ some parent → depth parent < depth r.id)

unfoldable pub count_budget : ℕ → List Budget → ℕ
count_budget id [] = 0
count_budget id (b ∷ bs) = if b.id == id then suc (count_budget id bs) else count_budget id bs

unfoldable pub count_region : ℕ → List Region → ℕ
count_region id [] = 0
count_region id (r ∷ rs) = if r.id == id then suc (count_region id rs) else count_region id rs

count_budget-append :
    (id : ℕ) (xs ys : List Budget)
    → count_budget id (xs ++ ys) ≡ count_budget id xs + count_budget id ys
unfolding count_budget
count_budget-append id [] ys = omega arith
count_budget-append id (x ∷ xs) ys = ground (arith, count_budget-append id xs ys)

module _ (before : Budget → Budget → Bool) (id : ℕ) where
  count_budget-place :
      (b : Budget) (bs : List Budget)
      → count_budget id (place before b bs) ≡ count_budget id (b ∷ bs)
  unfolding count_budget place
  count_budget-place b [] = refl
  count_budget-place b (x ∷ xs) = ground (arith, count_budget-place b xs)

  count_budget-order_by :
      (bs : List Budget) → count_budget id (order_by before bs) ≡ count_budget id bs
  unfolding count_budget order_by
  count_budget-order_by [] = refl
  count_budget-order_by (b ∷ bs) =
      ground (arith, count_budget-place b (order_by before bs), count_budget-order_by bs)

module _ (depth : Uuid → ℕ) (regions : List Region) (forest : IsForest depth regions) where
  from_parent-shallower :
      (up : Uuid → List Region) (p : Option Uuid) (n : ℕ)
      → ((id : Uuid) → All (λ r. depth r.id ≤ depth id) (up id))
      → ((id : Uuid) → p ≡ some id → depth id < n)
      → All (λ r. suc (depth r.id) ≤ n) (from_parent up p)
  unfolding from_parent
  from_parent-shallower up none n h b = tt
  from_parent-shallower up (some id) n h b =
      All-mono (λ r. depth r.id ≤ depth id) (λ r. suc (depth r.id) ≤ n)
        (λ r k. let l = b id refl in omega arith) (up id) (h id)

  parent_below :
      (id : Uuid) (r : Region)
      → first_where (λ x. x.id == id) regions ≡ some r
      → (r.id ≡ id)
        × ((parent : Uuid) → r.parent_region_id ≡ some parent → depth parent < depth r.id)
  parent_below id r e = (
    (==_iff r.id id).0 (first_where-true (λ x. x.id == id) regions r e),
    All-first_where
        (λ r. (parent : Uuid) → r.parent_region_id ≡ some parent → depth parent < depth r.id)
        (λ x. x.id == id) regions r forest e,
  )

  -- No region on the way to the root lies deeper than the first.
  ancestors-shallower :
      (fuel : ℕ) (id : Uuid) → All (λ r. depth r.id ≤ depth id) (ancestors fuel regions id)
  unfolding ancestors
  ancestors-shallower zero id = tt
  ancestors-shallower (suc fuel) id = elim (Option-cases (first_where (λ r. r.id == id) regions)) [
    | inl e ↦ rw (e, ancestors, from_region) tt
    | inr (r, e) ↦
        let (same, below) = parent_below id r e in
        rw (e, ancestors, from_region)
          (
            omega (arith, ap depth same),
            All-mono (λ x. suc (depth x.id) ≤ depth r.id) (λ x. depth x.id ≤ depth id)
                (λ x k. omega (arith, ap depth same)) _
                (from_parent-shallower (ancestors fuel regions) r.parent_region_id (depth r.id)
                  (ancestors-shallower fuel) below),
          )
  ]

  count_region-shallower :
      (n id : ℕ) (rs : List Region)
      → All (λ r. suc (depth r.id) ≤ n) rs
      → n ≤ depth id
      → count_region id rs ≡ 0
  unfolding count_region
  count_region-shallower n id [] h k = refl
  count_region-shallower n id (r ∷ rs) h k = elim (Bool-cases (r.id == id)) [
    | inl e ↦ absurd (let q = ap depth ((==_iff r.id id).0 e) in let l = h.0 in omega arith)
    | inr e ↦ rw e (count_region-shallower n id rs h.1 k)
  ]

  count_region-from_parent :
      (up : Uuid → List Region) (p : Option Uuid) (id : ℕ)
      → ((i : Uuid) → count_region id (up i) ≤ 1)
      → count_region id (from_parent up p) ≤ 1
  unfolding from_parent count_region
  count_region-from_parent up none id h = omega arith
  count_region-from_parent up (some p) id h = h p

  -- Where parents make a forest, no region comes up twice on the way to the root, on any fuel.
  pub count_region-ancestors :
      (fuel : ℕ) (start id : Uuid) → count_region id (ancestors fuel regions start) ≤ 1
  unfolding ancestors count_region
  count_region-ancestors zero start id = omega arith
  count_region-ancestors (suc fuel) start id =
      elim (Option-cases (first_where (λ r. r.id == start) regions)) [
        | inl e ↦ rw (e, ancestors, from_region, count_region) (omega arith)
        | inr (r, e) ↦
            let (same, below) = parent_below start r e in
            let rest : List Region = from_parent (ancestors fuel regions) r.parent_region_id in
            rw (e, ancestors, from_region)
              (elim (Bool-cases (r.id == id)) [
                | inl t ↦
                    rw
                      (
                        t,
                        count_region-shallower (depth r.id) id rest
                            (from_parent-shallower (ancestors fuel regions) r.parent_region_id
                              (depth r.id) (ancestors-shallower fuel) below)
                            (omega (arith, ap depth ((==_iff r.id id).0 t))),
                      )
                      (omega arith)
                | inr t ↦ rw t (
                    count_region-from_parent (ancestors fuel regions) r.parent_region_id id
                      (λ i. count_region-ancestors fuel i id))
              ])
      ]

hits : ResourceType → Budget → List Region → ℕ
hits kind b [] = 0
hits kind b (r ∷ rs) = if applies_to kind r b then suc (hits kind b rs) else hits kind b rs

hits-le :
    (kind : ResourceType) (b : Budget) (rs : List Region)
    → hits kind b rs ≤ count_region b.scope_id rs
unfolding hits count_region
hits-le kind b [] = omega arith
hits-le kind b (r ∷ rs) = elim (Bool-cases (applies_to kind r b)) [
  | inl e ↦
      let same = (==_iff b.scope_id r.id).0 (and_true (b.scope_id == r.id) _ e).0 in
      rw (e, (==_iff r.id b.scope_id).1 (sym same)) (omega (arith, hits-le kind b rs))
  | inr e ↦ rw e (ground (arith, hits-le kind b rs))
]

module _ (kind : ResourceType) (id : ℕ) where
  count_rows :
      (b : Budget) (bs : List Budget) (r : Region)
      → count_budget id (rows_where (applies_to kind r) (b ∷ bs))
        ≡ (if applies_to kind r b then (if b.id == id then 1 else 0) else 0)
          + count_budget id (rows_where (applies_to kind r) bs)
  unfolding count_budget rows_where
  count_rows b bs r = elim (Bool-cases (applies_to kind r b)) [
    | inl e ↦ rw e (ground arith)
    | inr e ↦ rw e (omega arith)
  ]

  count_along-cons :
      (b : Budget) (bs : List Budget) (rs : List Region)
      → count_budget id (budgets_along kind (b ∷ bs) rs)
        ≡ (if b.id == id then hits kind b rs else 0) + count_budget id (budgets_along kind bs rs)
  unfolding budgets_along hits
  count_along-cons b bs [] = ground arith
  count_along-cons b bs (r ∷ rs) =
      let before : Budget → Budget → Bool = λ b c. leb b.id c.id in
      rw
        (
          count_budget-append id (order_by before (rows_where (applies_to kind r) (b ∷ bs)))
              (budgets_along kind (b ∷ bs) rs),
          count_budget-append id (order_by before (rows_where (applies_to kind r) bs))
              (budgets_along kind bs rs),
          count_budget-order_by before id (rows_where (applies_to kind r) (b ∷ bs)),
          count_budget-order_by before id (rows_where (applies_to kind r) bs),
          count_rows b bs r,
          count_along-cons b bs rs,
        )
        (ground arith)

  count_along-nil : (rs : List Region) → count_budget id (budgets_along kind [] rs) ≡ 0
  unfolding budgets_along count_budget rows_where order_by
  count_along-nil [] = refl
  count_along-nil (r ∷ rs) = count_along-nil rs

  -- Where no region comes up twice, no budget does, since budgets have distinct keys.
  pub count_along-le :
      (bs : List Budget) (rs : List Region)
      → ((i : ℕ) → count_region i rs ≤ 1)
      → count_budget id (budgets_along kind bs rs) ≤ count_budget id bs
  unfolding count_budget
  count_along-le [] rs once = omega (arith, count_along-nil rs)
  count_along-le (b ∷ bs) rs once = ground (
    arith,
    count_along-cons b bs rs,
    hits-le kind b rs,
    once b.scope_id,
    count_along-le bs rs once,
  )
