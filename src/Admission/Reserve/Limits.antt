-- ===== src/Admission/Reserve/Limits.antt =====
-- What reserveInTransaction does to the sums that it checks: no budget is overdrawn.
use factory_floor.Common.{
  ℕ, zero, suc, ◌+◌, ◌*◌, ◌≤◌, ◌≡◌, refl, sym, ap, ◌∙◌, subst, ◌≢◌, ◌⊎◌, inl, inr, ◌==◌, ◌++◌, none,
  some, List, [], ◌∷◌, length, All, arith, if◌then◌else◌, rows_where, Bool-cases, Option-cases,
  ==_iff, All-zip, All-append, All-rows_where, All-order_by, sum_of-rows_where-insert, ok,
  ok_injective,
}
use factory_floor.Common.Ints.{ℤ, pos, negsuc}
use factory_floor.Tables.{Region, Uuid}
use factory_floor.Tables.QuotaRows.{
  Quota, Budget, Reservation, ResourceType, rank, admit, exhausted, AdmissionOutcome, Exhaustion,
  reserved_resource,
}
use factory_floor.Admission.Calculate.{calculate_admission-admit_iff, AdmissionCalculation}
use factory_floor.Admission.Usage.{
  applies_to, budgets_along, applicable_budgets, is_held_against, reserved_quantity,
  consumed_quantity, ancestors,
}
use factory_floor.Admission.Usage.Chain.{
  IsForest, count_budget, count_region, count_along-le, count_region-ancestors,
}
use factory_floor.Admission.Reserve.{
  ReserveResourceInput, AdmissionResult, record_decision, new_reservation, budget_decision,
  limiting_budget, reserve_each, reserve_against, reserve_in_transaction, reserve_unless_prior,
  throws,
}

-- What is consumed and what is reserved stay within the limit.
abbrev pub IsWithin : List Region → Quota → Budget → Type 0
IsWithin regions q b =
    consumed_quantity regions b.resource_type q b + reserved_quantity q b ≤ b.limit_quantity

-- The rows with the key of `b` are at most one, and it is `b`.
pub record IsKeyed (b : Budget) (bs : List Budget) : Type 0 where
  pub same : All (λ c. c.id ≡ b.id → c ≡ b) bs
  pub once : count_budget b.id bs ≤ 1

reserved-append :
    (q : Quota) (r : Reservation) (b : Budget)
    → reserved_quantity (record q { reservations = q.reservations ++ r ∷ [] }) b
      ≡ reserved_quantity q b + (if is_held_against b.id r then r.quantity else 0)
unfolding reserved_quantity
reserved-append q r b =
    sum_of-rows_where-insert (is_held_against b.id) (λ (x : Reservation). x.quantity) q.reservations
      r

module _ (input : ReserveResourceInput) (n : ℕ) (request_id : Uuid) where
  pub reserve_each-untouched :
      (uuid : ℕ → Uuid) (bs : List Budget) (q : Quota)
      → let q' = (reserve_each input n request_id uuid bs q).1 in
        (q'.budgets ≡ q.budgets) × (q'.ledger ≡ q.ledger)
  unfolding reserve_each
  reserve_each-untouched uuid [] q = (refl, refl)
  reserve_each-untouched uuid (b ∷ bs) q = reserve_each-untouched (λ k. uuid (k + 2)) bs _

  consumed-reserve_each :
      (regions : List Region) (uuid : ℕ → Uuid) (bs : List Budget) (q : Quota) (b : Budget)
      (kind : ResourceType)
      → consumed_quantity regions kind (reserve_each input n request_id uuid bs q).1 b
        ≡ consumed_quantity regions kind q b
  unfolding consumed_quantity
  consumed-reserve_each regions uuid bs q b kind = rw (reserve_each-untouched uuid bs q).1

  -- What one round of the second loop leaves.
  abbrev charged : (ℕ → Uuid) → Budget → Quota → Quota
  charged uuid c q =
      record_decision input n (uuid 1) request_id (some c.id) (some (uuid 0)) admit
        (reserved_resource input.resource_type) none
        (record q {
          reservations = q.reservations ++ new_reservation input n (uuid 0) request_id c.id ∷ [];
        })

  reserved-charged :
      (uuid : ℕ → Uuid) (c : Budget) (q : Quota) (b : Budget)
      → reserved_quantity (charged uuid c q) b
        ≡ reserved_quantity q b + (if c.id == b.id then n else 0)
  unfolding reserved_quantity record_decision new_reservation
  reserved-charged uuid c q b =
      reserved-append q (new_reservation input n (uuid 0) request_id c.id) b
      ∙ ap (◌+◌ (reserved_quantity q b)) (ground arith)

  -- Each budget of the list is charged once for every time that it comes up.
  pub reserved-reserve_each :
      (uuid : ℕ → Uuid) (bs : List Budget) (q : Quota) (b : Budget)
      → reserved_quantity (reserve_each input n request_id uuid bs q).1 b
        ≡ reserved_quantity q b + count_budget b.id bs * n
  unfolding reserve_each count_budget
  reserved-reserve_each uuid [] q b = omega arith
  reserved-reserve_each uuid (c ∷ bs) q b =
      let ih = reserved-reserve_each (λ k. uuid (k + 2)) bs (charged uuid c q) b in
      let now = reserved-charged uuid c q b in
      elim (Bool-cases (c.id == b.id)) [
        | inl e ↦ rw e (let now' = rw e at now in omega arith)
        | inr e ↦ rw e (let now' = rw e at now in omega arith)
      ]

-- A budget that comes up in a list has its properties.
All-count :
    (P : Budget → Type 0) (id : ℕ) (bs : List Budget)
    → All P bs
    → (count_budget id bs ≡ 0) ⊎ ((c : Budget) × (c.id ≡ id) × P c)
unfolding count_budget
All-count P id [] h = inl refl
All-count P id (b ∷ bs) h = elim (Bool-cases (b.id == id)) [
  | inl e ↦ inr (b, (==_iff b.id id).0 e, h.0)
  | inr e ↦ rw e (All-count P id bs h.1)
]

All-budgets_along :
    (P : Budget → Type 0) (kind : ResourceType) (bs : List Budget) (rs : List Region)
    → All P bs
    → All P (budgets_along kind bs rs)
unfolding budgets_along
All-budgets_along P kind bs [] h = tt
All-budgets_along P kind bs (r ∷ rs) h =
    All-append P _ _ (All-order_by P _ _ (All-rows_where P (applies_to kind r) bs h))
      (All-budgets_along P kind bs rs h)

rank_injective : (a b : ResourceType) → rank a ≡ rank b → a ≡ b
rank_injective a b h = ground arith

-- A selection meets its test.
All-selected :
    (kind : ResourceType) (r : Region) (bs : List Budget)
    → All (λ b. b.resource_type ≡ kind) (rows_where (applies_to kind r) bs)
unfolding rows_where
All-selected kind r [] = tt
All-selected kind r (b ∷ bs) = elim (Bool-cases (applies_to kind r b)) [
  | inl e ↦ rw e (rank_injective _ _ (ground arith), All-selected kind r bs)
  | inr e ↦ rw e (All-selected kind r bs)
]

budgets_along-kind :
    (kind : ResourceType) (bs : List Budget) (rs : List Region)
    → All (λ b. b.resource_type ≡ kind) (budgets_along kind bs rs)
unfolding budgets_along
budgets_along-kind kind bs [] = tt
budgets_along-kind kind bs (r ∷ rs) =
    All-append (λ b. b.resource_type ≡ kind) _ _
      (All-order_by (λ b. b.resource_type ≡ kind) _ _ (All-selected kind r bs))
      (budgets_along-kind kind bs rs)

pub outcome-cases : (o : AdmissionOutcome) → (o ≡ admit) ⊎ ((x : Exhaustion) × (o ≡ exhausted x))
outcome-cases admit = inl refl
outcome-cases (exhausted x) = inr (x, refl)

-- The first loop lets a request through only if every budget of the list has room for it.
limiting_budget-room :
    (regions : List Region) (input : ReserveResourceInput) (n : ℕ) (q : Quota) (bs : List Budget)
    → limiting_budget regions input n q bs ≡ none
    → All
        (λ b.
          consumed_quantity regions input.resource_type q b + reserved_quantity q b + n
          ≤ b.limit_quantity)
        bs
unfolding limiting_budget budget_decision
limiting_budget-room regions input n q [] e = tt
limiting_budget-room regions input n q (b ∷ bs) e =
    elim (outcome-cases (budget_decision regions input n q b).outcome) [
      | inl a ↦ (
        (calculate_admission-admit_iff b.limit_quantity _ _ n b.exhaustion_outcome).0 a,
        limiting_budget-room regions input n q bs (rw (a, limiting_budget) at e),
      )
      | inr (o, a) ↦ cc (rw (a, limiting_budget) at e)
    ]

-- A budget that the first loop stops at does not admit.
pub limiting_budget-ne-admit :
    (regions : List Region) (input : ReserveResourceInput) (n : ℕ) (q : Quota) (bs : List Budget)
    (c : Budget) (d : AdmissionCalculation)
    → limiting_budget regions input n q bs ≡ some (c, d)
    → d.outcome ≢ admit
unfolding limiting_budget
limiting_budget-ne-admit regions input n q [] c d e a = cc
limiting_budget-ne-admit regions input n q (b ∷ bs) c d e a =
    ground (arith, limiting_budget-ne-admit regions input n q bs c d)

at_most_once : (c n : ℕ) → c ≤ 1 → c * n ≤ n
at_most_once zero n h = omega arith
at_most_once (suc zero) n h = omega arith
at_most_once (suc (suc c)) n h = absurd (omega arith)

module _ (regions : List Region) (input : ReserveResourceInput) (n : ℕ) (b : Budget) where
  -- After the two loops a budget that was within its limit still is, if it came up once at most.
  reserve_each-IsWithin :
      (uuid : ℕ → Uuid) (request_id : Uuid) (bs : List Budget) (q : Quota)
      → All (λ c. c.id ≡ b.id → c ≡ b) bs
      → All (λ c. c.resource_type ≡ input.resource_type) bs
      → count_budget b.id bs ≤ 1
      → limiting_budget regions input n q bs ≡ none
      → IsWithin regions q b
      → IsWithin regions (reserve_each input n request_id uuid bs q).1 b
  reserve_each-IsWithin uuid request_id bs q same kind once room within =
      let q' = (reserve_each input n request_id uuid bs q).1 in
      let sum = reserved-reserve_each input n request_id uuid bs q b in
      let used = consumed-reserve_each input n request_id regions uuid bs q b b.resource_type in
      elim (All-count _ b.id bs (
        All-zip _ _ bs (All-zip _ _ bs same kind)
          (limiting_budget-room regions input n q bs room))) [
            | inl z ↦ rw (sum, used, z) (omega arith)
            | inr (c, e, ((s, k), r)) ↦
                let r' =
                  subst
                    (λ (x : Budget).
                      consumed_quantity regions x.resource_type q x + reserved_quantity q x + n
                      ≤ x.limit_quantity)
                    (s e) (rw (← k) at r) in
                rw (sum, used) (omega (arith, at_most_once (count_budget b.id bs) n once))
          ]

  reserve_against-IsWithin :
      (uuid : ℕ → Uuid) (bs : List Budget) (q : Quota)
      → All (λ c. c.id ≡ b.id → c ≡ b) bs
      → All (λ c. c.resource_type ≡ input.resource_type) bs
      → count_budget b.id bs ≤ 1
      → IsWithin regions q b
      → IsWithin regions (reserve_against regions input n uuid bs q).1 b
  unfolding reserve_against consumed_quantity reserved_quantity
  reserve_against-IsWithin uuid [] q same kind once within = within
  reserve_against-IsWithin uuid (c ∷ bs) q same kind once within =
      elim (Option-cases (limiting_budget regions input n q (c ∷ bs))) [
        | inl e ↦
            rw (e, reserve_against)
              (reserve_each-IsWithin (λ k. uuid (k + 1)) (uuid 0) (c ∷ bs) q same kind once e
                within)
        | inr (found, e) ↦ rw (e, reserve_against) within
      ]

-- A successful call changes nothing, or decides against the budgets that it reads.
reserve_unless_prior-cases :
    (regions : List Region) (input : ReserveResourceInput) (uuid : ℕ → Uuid) (q q' : Quota)
    (r : AdmissionResult) (prior : List Reservation) (quantity : ℤ)
    → reserve_unless_prior regions input uuid q prior quantity ≡ ok (r, q')
    → (q' ≡ q)
      ⊎ ((n : ℕ) × (q'
            ≡ (reserve_against regions input n uuid
                (applicable_budgets regions input.region_id input.resource_type q)
                q).1))
unfolding reserve_unless_prior
reserve_unless_prior-cases regions input uuid q q' r (p ∷ ps) quantity e = inl (cc)
reserve_unless_prior-cases regions input uuid q q' r [] (negsuc n) e = absurd (cc)
reserve_unless_prior-cases regions input uuid q q' r [] (pos n) e =
    let bs = applicable_budgets regions input.region_id input.resource_type q in
    elim (Bool-cases (throws regions input n q bs)) [
      | inl t ↦ absurd (let e' = rw (t, reserve_unless_prior) at e in cc)
      | inr t ↦ inr (
        n,
        sym (
            ap (λ (x : AdmissionResult × Quota). x.1)
              (ok_injective _ _ (rw (t, reserve_unless_prior) at e))),
      )
    ]

-- A reservation never overdraws a budget: where the budgets' ids are a key and the regions form a
-- forest, a budget whose consumed and reserved quantities are within its limit is within it after
-- every successful reserveInTransaction, for whichever region, resource and quantity.
pub reserve_in_transaction-IsWithin :
    (depth : Uuid → ℕ) (regions : List Region) (input : ReserveResourceInput) (uuid : ℕ → Uuid)
    (q q' : Quota) (r : AdmissionResult) (b : Budget)
    → IsForest depth regions
    → IsKeyed b q.budgets
    → IsWithin regions q b
    → reserve_in_transaction regions input uuid q ≡ ok (r, q')
    → IsWithin regions q' b
unfolding reserve_in_transaction applicable_budgets
reserve_in_transaction-IsWithin depth regions input uuid q q' r b forest key within e =
    let chain : List Region = ancestors (length regions) regions input.region_id in
    let kind = input.resource_type in
    elim (reserve_unless_prior-cases regions input uuid q q' r _ input.quantity e) [
      | inl same ↦ subst (λ x. IsWithin regions x b) (sym same) within
      | inr (n, same) ↦
          subst (λ x. IsWithin regions x b) (sym same)
            (reserve_against-IsWithin regions input n b uuid _ q
              (All-budgets_along (λ c. c.id ≡ b.id → c ≡ b) kind q.budgets chain key.same)
              (budgets_along-kind kind q.budgets chain)
              (once kind chain
                (count_region-ancestors depth regions forest (length regions) input.region_id))
              within)
    ]
  where
    once :
        (kind : ResourceType) (chain : List Region)
        → ((i : ℕ) → count_region i chain ≤ 1)
        → count_budget b.id (budgets_along kind q.budgets chain) ≤ 1
    once kind chain h =
        let k = key.once in omega (arith, count_along-le kind b.id q.budgets chain h)
