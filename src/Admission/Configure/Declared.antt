-- ===== src/Admission/Configure/Declared.antt =====
-- What the budgets of a region are after configureRegionBudgetsInTransaction.
use factory_floor.Common.{
  arith, ℕ, ◌≡◌, ◌==◌, ◌&&◌, refl, subst, Bool, true, false, not, none, some, Option, List, [], ◌∷◌,
  All, All-mono, All-append, All-set_where, All-any_row, ok, ok_injective, rows_where, first_where,
  set_where, any_row, Bool-cases, Option-cases, Result-cases, inl, inr, ==_refl, leb,
}
use factory_floor.Tables.{Uuid, Millis}
use factory_floor.Tables.QuotaRows.{Quota, Budget, same_resource, rank}
use factory_floor.Admission.Configure.{
  NormalizedBudgetLimit, ConfigureRegionBudgetsInput, Configured, is_active, is_active_in,
  is_desired, retire, retire_undesired, put_limit, insert_limit, configure_limit, configure_limits,
  configure_region_budgets_in_transaction, insert_budget, parent_budget, is_unchanged, is_limit_of,
}

All-always : (P : Budget → Type 0) → ((b : Budget) → P b) → (bs : List Budget) → All P bs
All-always P f [] = tt
All-always P f (b ∷ bs) = (f b, All-always P f bs)

All-both :
    (P Q : Budget → Type 0) (bs : List Budget) → All P bs → All Q bs → All (λ b. P b × Q b) bs
All-both P Q [] h k = tt
All-both P Q (b ∷ bs) h k = ((h.0, k.0), All-both P Q bs h.1 k.1)

module _ (P : Budget → Type 0) (now : Millis)
    (keep : (b : Budget) → P b → P (record b { retired_at = some now })) where
  retire-All : (id : Uuid) (bs : List Budget) → All P bs → All P (retire id now bs)
  unfolding retire
  retire-All id bs h = All-set_where P _ _ (λ b e p. keep b p) bs h

  retire_undesired-All :
      (limits : List NormalizedBudgetLimit) (rs bs : List Budget)
      → All P bs
      → All P (retire_undesired limits now rs bs)
  unfolding retire_undesired
  retire_undesired-All limits [] bs h = h
  retire_undesired-All limits (r ∷ rs) bs h =
      elim (Bool-cases (is_desired limits r.resource_type)) [
        | inl e ↦ rw e (retire_undesired-All limits rs bs h)
        | inr e ↦ rw e (retire_undesired-All limits rs _ (retire-All r.id bs h))
      ]

module _ (limits : List NormalizedBudgetLimit) (now : Millis) where
  abbrev is_dropped : List Budget → Budget → Bool
  is_dropped rs b = any_row (λ r. r.id == b.id && not (is_desired limits r.resource_type)) rs

  retire-inactive :
      (id : Uuid) (bs : List Budget)
      → All (λ b. b.id == id ≡ true → is_active b ≡ false) (retire id now bs)
  unfolding retire set_where
  retire-inactive id [] = tt
  retire-inactive id (b ∷ bs) = (
    elim (Bool-cases (b.id == id)) [ inl e ↦ rw e (λ k. refl) | inr e ↦ rw e (λ k. absurd (cc)) ],
    retire-inactive id bs,
  )

  retire_undesired-inactive :
      (rs bs : List Budget)
      → All (λ b. is_dropped rs b ≡ true → is_active b ≡ false) (retire_undesired limits now rs bs)
  unfolding retire_undesired any_row
  retire_undesired-inactive [] bs = All-always _ (λ b d. absurd (cc)) bs
  retire_undesired-inactive (r ∷ rs) bs = elim (Bool-cases (is_desired limits r.resource_type)) [
    | inl e ↦ rw e (All-mono _ _ (λ b h d. h (ground arith)) _ (retire_undesired-inactive rs bs))
    | inr e ↦ rw e (
        All-mono _ _
          (λ b h d. elim (Bool-cases (b.id == r.id)) [ inl k ↦ h.0 k | inr k ↦ h.1 (ground arith) ])
          _
          (All-both _ _ _
            (retire_undesired-All (λ b. b.id == r.id ≡ true → is_active b ≡ false) now
              (λ b h k. refl) limits rs _ (retire-inactive r.id bs))
            (retire_undesired-inactive rs (retire r.id now bs))))
  ]

  dropped-active :
      (region_id : Uuid) (bs : List Budget)
      → All
          (λ b.
            is_active_in region_id b ≡ true
            → is_desired limits b.resource_type ≡ false
            → is_dropped (rows_where (is_active_in region_id) bs) b ≡ true)
          bs
  unfolding any_row rows_where
  dropped-active region_id [] = tt
  dropped-active region_id (b ∷ bs) = (
    (λ a d. ground (arith, ==_refl b.id)),
    All-mono _ _
        (λ c h a d. elim (Bool-cases (is_active_in region_id b)) [
          | inl e ↦ rw e (ground (arith, h a d))
          | inr e ↦ rw e (h a d)
        ])
        bs (dropped-active region_id bs),
  )

-- An active budget of the region is for a resource that the limits name.
abbrev IsDeclared : Uuid → List NormalizedBudgetLimit → Budget → Type 0
IsDeclared region_id limits b =
    is_active_in region_id b ≡ true → is_desired limits b.resource_type ≡ true

retire_undesired-IsDeclared :
    (region_id : Uuid) (limits : List NormalizedBudgetLimit) (now : Millis) (bs : List Budget)
    → All
        (IsDeclared region_id limits)
        (retire_undesired limits now (rows_where (is_active_in region_id) bs) bs)
retire_undesired-IsDeclared region_id limits now bs =
    let rows = rows_where (is_active_in region_id) bs in
    All-mono _ _
      (λ b h a. elim (Bool-cases (is_desired limits b.resource_type)) [
        | inl d ↦ d
        | inr d ↦ absurd (ground (arith, h.1 (h.0 a d)))
      ])
      _
      (All-both _ _ _
        (retire_undesired-All _ now (λ b h a d. absurd (ground arith)) limits rows bs
          (dropped-active limits now region_id bs))
        (retire_undesired-inactive limits now rows bs))

module _ (input : ConfigureRegionBudgetsInput) (now : Millis) (existing : List Budget) where
  abbrev Declared : List Budget → Type 0
  Declared bs = All (IsDeclared input.region_id input.limits) bs

  insert_limit-Declared :
      (l : NormalizedBudgetLimit) (parent_id : Option Uuid) (uuid : ℕ → Uuid) (bs : List Budget)
      (c' : Configured)
      → is_desired input.limits l.resource_type ≡ true
      → Declared bs
      → insert_limit input now existing l parent_id uuid bs ≡ ok c'
      → Declared c'.0
  unfolding insert_limit insert_budget
  insert_limit-Declared l parent_id uuid bs c' d h e =
      elim (Bool-cases (any_row (is_limit_of input.region_id l.resource_type) bs)) [
        | inl there ↦ absurd (let e' = rw (there, insert_limit, insert_budget) at e in cc)
        | inr fresh ↦
            subst (λ (x : Configured). Declared x.0)
              (ok_injective _ _ (rw (fresh, insert_limit, insert_budget) at e))
              (All-append _ bs _ h ((λ a. d), tt))
      ]

  put_limit-Declared :
      (l : NormalizedBudgetLimit) (parent_id : Option Uuid) (c c' : Configured)
      → is_desired input.limits l.resource_type ≡ true
      → Declared c.0
      → put_limit input now existing l parent_id c ≡ ok c'
      → Declared c'.0
  unfolding put_limit
  put_limit-Declared l parent_id (bs, uuid) c' d h e =
      let insert = insert_limit-Declared l parent_id uuid in
      elim (Option-cases
        (first_where (λ (r : Budget). same_resource r.resource_type l.resource_type) existing)) [
          | inl none_yet ↦ insert bs c' d h (rw (none_yet, put_limit) at e)
          | inr (current, found) ↦ elim (Bool-cases (is_unchanged l parent_id current)) [
            | inl same ↦
                subst (λ (x : Configured). Declared x.0)
                  (ok_injective _ _ (rw (found, same, put_limit) at e)) h
            | inr changed ↦
                insert (retire current.id now bs) c' d
                  (retire-All _ now (λ b k a. absurd (ground arith)) current.id bs h)
                  (rw (found, changed, put_limit) at e)
          ]
        ]

  configure_limit-Declared :
      (l : NormalizedBudgetLimit) (c c' : Configured)
      → is_desired input.limits l.resource_type ≡ true
      → Declared c.0
      → configure_limit input now existing l c ≡ ok c'
      → Declared c'.0
  unfolding configure_limit
  configure_limit-Declared l (bs, uuid) c' d h e =
      elim (Option-cases (parent_budget input.parent_region_id l.resource_type bs)) [
        | inl none_above ↦
            put_limit-Declared l none (bs, uuid) c' d h (rw (none_above, configure_limit) at e)
        | inr (parent, p) ↦ elim (Bool-cases (leb l.limit_quantity parent.limit_quantity)) [
          | inl fits ↦
              put_limit-Declared l (some parent.id) (bs, uuid) c' d h
                (rw (p, fits, configure_limit) at e)
          | inr big ↦ absurd (let e' = rw (p, big, configure_limit) at e in cc)
        ]
      ]

  configure_limits-Declared :
      (ls : List NormalizedBudgetLimit) (c c' : Configured)
      → All (λ l. is_desired input.limits l.resource_type ≡ true) ls
      → Declared c.0
      → configure_limits input now existing ls c ≡ ok c'
      → Declared c'.0
  unfolding configure_limits
  configure_limits-Declared [] c c' d h e =
      subst (λ (x : Configured). Declared x.0) (ok_injective _ _ e) h
  configure_limits-Declared (l ∷ ls) c c' d h e =
      elim (Result-cases (configure_limit input now existing l c)) [
        | inl (next, run) ↦
            configure_limits-Declared ls next c' d.1 (configure_limit-Declared l c next d.0 h run)
              (rw (run, configure_limits) at e)
        | inr (error, run) ↦ absurd (let e' = rw (run, configure_limits) at e in cc)
      ]

limits-desired :
    (limits : List NormalizedBudgetLimit)
    → All (λ l. is_desired limits l.resource_type ≡ true) limits
unfolding is_desired
limits-desired limits =
    All-any_row (λ (l m : NormalizedBudgetLimit). same_resource m.resource_type l.resource_type)
      (λ l. ==_refl (rank l.resource_type)) limits

rows_where-IsDeclared :
    (region_id : Uuid) (limits : List NormalizedBudgetLimit) (bs : List Budget)
    → All (IsDeclared region_id limits) bs
    → All (λ b. is_desired limits b.resource_type ≡ true) (rows_where (is_active_in region_id) bs)
unfolding rows_where
rows_where-IsDeclared region_id limits [] h = tt
rows_where-IsDeclared region_id limits (b ∷ bs) h = elim (Bool-cases (is_active_in region_id b)) [
  | inl e ↦ rw e (h.0 e, rows_where-IsDeclared region_id limits bs h.1)
  | inr e ↦ rw e (rows_where-IsDeclared region_id limits bs h.1)
]

-- When configureRegionBudgetsInTransaction succeeds, every active budget of the region is for a
-- resource that the declaration names.
pub configure_region_budgets_in_transaction-is_desired :
    (input : ConfigureRegionBudgetsInput) (uuid : ℕ → Uuid) (now : Millis) (q q' : Quota)
    → configure_region_budgets_in_transaction input uuid now q ≡ ok q'
    → All
        (λ b. is_desired input.limits b.resource_type ≡ true)
        (rows_where (is_active_in input.region_id) q'.budgets)
unfolding configure_region_budgets_in_transaction
configure_region_budgets_in_transaction-is_desired input uuid now q q' e =
    let existing = rows_where (is_active_in input.region_id) q.budgets in
    let start : Configured = (retire_undesired input.limits now existing q.budgets, uuid) in
    elim (Result-cases (configure_limits input now existing input.limits start)) [
      | inl (c, run) ↦
          subst
            (λ (x : Quota).
              All (λ b. is_desired input.limits b.resource_type ≡ true)
                (rows_where (is_active_in input.region_id) x.budgets))
            (ok_injective _ _ (rw (run, configure_region_budgets_in_transaction) at e))
            (rows_where-IsDeclared input.region_id input.limits _ (
              configure_limits-Declared input now existing input.limits start c
                (limits-desired input.limits)
                (retire_undesired-IsDeclared input.region_id input.limits now q.budgets) run))
      | inr (error, run) ↦
          absurd (let e' = rw (run, configure_region_budgets_in_transaction) at e in cc)
    ]
