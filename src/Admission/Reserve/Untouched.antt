-- ===== src/Admission/Reserve/Untouched.antt =====
-- What reserveInTransaction of resource-admission-service.ts never writes: the budgets and the
-- ledger.
use factory_floor.Common.{
  arith, ℕ, ◌+◌, ◌≡◌, refl, List, [], ◌∷◌, Option-cases, Bool-cases, inl, inr, ok,
}
use factory_floor.Common.Ints.{ℤ, pos, negsuc}
use factory_floor.Tables.{Region, Uuid}
use factory_floor.Tables.QuotaRows.{Quota, Budget, Reservation}
use factory_floor.Admission.Usage.{applicable_budgets}
use factory_floor.Admission.Lease.{reserve_execution_lease_admission, execution_lease_input}
use factory_floor.Admission.Reserve.{
  ReserveResourceInput, AdmissionResult, limiting_budget, reserve_against, reserve_unless_prior,
  throws, reserve_in_transaction, record_decision,
}
use factory_floor.Admission.Reserve.Limits.{reserve_each-untouched}

-- The second has the budgets and the ledger of the first.
abbrev pub IsUntouched : Quota → Quota → Type 0
IsUntouched q q' = (q'.budgets ≡ q.budgets) × (q'.ledger ≡ q.ledger)

module _ (regions : List Region) (input : ReserveResourceInput) where
  reserve_against-IsUntouched :
      (n : ℕ) (uuid : ℕ → Uuid) (bs : List Budget) (q : Quota)
      → IsUntouched q (reserve_against regions input n uuid bs q).1
  unfolding reserve_against record_decision
  reserve_against-IsUntouched n uuid [] q = (refl, refl)
  reserve_against-IsUntouched n uuid (b ∷ bs) q =
      elim (Option-cases (limiting_budget regions input n q (b ∷ bs))) [
        | inl e ↦
            rw (reserve_against, e)
              (reserve_each-untouched input n (uuid 0) (λ k. uuid (k + 1)) (b ∷ bs) q)
        | inr ((c, d), e) ↦ rw (reserve_against, e) (refl, refl)
      ]

  reserve_unless_prior-IsUntouched :
      (uuid : ℕ → Uuid) (q q' : Quota) (rs : List Reservation) (n : ℤ) (r : AdmissionResult)
      → reserve_unless_prior regions input uuid q rs n ≡ ok (r, q')
      → IsUntouched q q'
  unfolding reserve_unless_prior
  reserve_unless_prior-IsUntouched uuid q q' (x ∷ xs) n r e =
      let p : q' ≡ q = ground arith in rw p (refl, refl)
  reserve_unless_prior-IsUntouched uuid q q' [] (negsuc n) r e = absurd (cc)
  reserve_unless_prior-IsUntouched uuid q q' [] (pos n) r e =
      let bs = applicable_budgets regions input.region_id input.resource_type q in
      elim (Bool-cases (throws regions input n q bs)) [
        | inl t ↦ absurd (let e' = rw (t, reserve_unless_prior) at e in cc)
        | inr t ↦
            let e' = rw (t, reserve_unless_prior) at e in
            let p : q' ≡ (reserve_against regions input n uuid bs q).1 = ground arith in
            rw p (reserve_against-IsUntouched n uuid bs q)
      ]

pub lease_admission-IsUntouched :
    (regions : List Region) (region_id execution_id : Uuid) (uuid : ℕ → Uuid) (q : Quota)
    (r : AdmissionResult) (q' : Quota)
    → reserve_execution_lease_admission regions region_id execution_id uuid q ≡ ok (r, q')
    → IsUntouched q q'
unfolding reserve_execution_lease_admission reserve_in_transaction
lease_admission-IsUntouched regions region_id execution_id uuid q r q' e =
    reserve_unless_prior-IsUntouched regions (execution_lease_input region_id execution_id) uuid q
      q' _ _ r e
