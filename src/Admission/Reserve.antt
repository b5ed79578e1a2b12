-- ===== src/Admission/Reserve.antt =====
-- reserve, reserveInTransaction and recordDecision of scheduling/resource-admission-service.ts.
-- `uuid` is what `createUuidV7` returns, call by call. The tables refuse a negative quantity.
pub mod Limits
pub mod Replay
pub mod Untouched
use factory_floor.Common.{
  ℕ, zero, suc, ◌+◌, ◌∷◌, ◌++◌, Bool, true, false, Option, none, some, List, [], map, Result, ok,
  err, rows_where, order_by, leb, if◌then◌else◌,
}
use factory_floor.Common.Ints.{ℤ, pos, negsuc}
use factory_floor.Tables.{Region, Uuid}
use factory_floor.Tables.QuotaRows.{
  Quota, Budget, Reservation, Decision, ResourceType, IdempotencyKey, empty_key, SubjectKind,
  Reason, no_applicable_budget, budget_exhausted, reserved_resource, AdmissionOutcome, admit,
  exhausted, ReservationStatus, same_key,
}
use factory_floor.Admission.Calculate.{AdmissionCalculation, calculate_admission}
use factory_floor.Admission.Usage.{
  applicable_budgets, reserved_quantity, consumed_quantity, has_decimals,
}

pub record ReserveResourceInput : Type 0 where
  pub region_id : Uuid
  pub resource_type : ResourceType
  pub quantity : ℤ
  pub idempotency_key : IdempotencyKey
  pub subject_kind : SubjectKind
  pub subject_id : Uuid
  pub execution_id : Option Uuid
  pub attempt_id : Option Uuid
  pub external_action_id : Option Uuid

pub record AdmissionResult : Type 0 where
  pub outcome : AdmissionOutcome
  pub request_id : Uuid
  pub reservation_ids : List Uuid
  pub limiting_budget_id : Option Uuid
  pub remaining_before : Option ℤ

pub data AdmissionError : Type 0 where
  negative_quantity missing_idempotency_key check_violation child_exceeds_parent unique_violation
        not_an_integer :
      AdmissionError

-- recordDecision
unfoldable pub record_decision :
    ReserveResourceInput
    → ℕ
    → Uuid
    → Uuid
    → Option Uuid
    → Option Uuid
    → AdmissionOutcome
    → Reason
    → Option ℤ
    → Quota
    → Quota
record_decision input quantity id request_id budget_id reservation_id outcome reason remaining q =
    record q { decisions = q.decisions ++ decision ∷ [] }
  where
    decision : Decision
    decision = record {
      id = id;
      subject_kind = input.subject_kind;
      subject_id = input.subject_id;
      budget_id = budget_id;
      resource_type = input.resource_type;
      outcome = outcome;
      reason = reason;
      requested_quantity = quantity;
      remaining_before = remaining;
      request_id = request_id;
      reservation_id = reservation_id;
    }

module _ (regions : List Region) (input : ReserveResourceInput) where
  -- the decision on one budget
  unfoldable pub budget_decision : ℕ → Quota → Budget → AdmissionCalculation
  budget_decision quantity q b =
      calculate_admission (pos b.limit_quantity)
        (pos (consumed_quantity regions input.resource_type q b)) (pos (reserved_quantity q b))
        (pos quantity) b.exhaustion_outcome

  -- the first loop: the first budget that does not admit
  unfoldable pub limiting_budget : ℕ → Quota → List Budget → Option (Budget × AdmissionCalculation)
  unfolding budget_decision
  limiting_budget quantity q [] = none
  limiting_budget quantity q (b ∷ bs) = elim (budget_decision quantity q b).outcome [
    | admit ↦ limiting_budget quantity q bs
    | exhausted o ↦ some (b, budget_decision quantity q b)
  ]

  -- the first loop meets a sum that BigInt refuses
  unfoldable pub throws : ℕ → Quota → List Budget → Bool
  unfolding has_decimals budget_decision
  throws quantity q [] = false
  throws quantity q (b ∷ bs) =
      let rest = throws quantity q bs in
      if has_decimals regions input.resource_type q b
      then true
      else elim (budget_decision quantity q b).outcome [ admit ↦ rest | exhausted o ↦ false ]

unfoldable pub new_reservation :
    ReserveResourceInput → ℕ → (id request_id budget_id : Uuid) → Reservation
new_reservation input quantity id request_id budget_id = record {
  id = id;
  request_id = request_id;
  budget_id = budget_id;
  region_id = input.region_id;
  execution_id = input.execution_id;
  attempt_id = input.attempt_id;
  external_action_id = input.external_action_id;
  idempotency_key = input.idempotency_key;
  quantity = quantity;
  actual_quantity = none;
  status = ReservationStatus.reserved;
  reconciled_at = none;
}

-- the second loop: a reservation and a decision for each budget; two ids are drawn in each round
unfoldable pub reserve_each :
    ReserveResourceInput → ℕ → Uuid → (ℕ → Uuid) → List Budget → Quota → List Uuid × Quota
unfolding new_reservation record_decision
reserve_each input quantity request_id uuid [] q = ([], q)
reserve_each input quantity request_id uuid (b ∷ bs) q =
    let held = new_reservation input quantity (uuid 0) request_id b.id in
    let q' =
      record_decision input quantity (uuid 1) request_id (some b.id) (some (uuid 0)) admit
        (reserved_resource input.resource_type) none
        (record q { reservations = q.reservations ++ held ∷ [] }) in
    let (ids, q'') = reserve_each input quantity request_id (λ n. uuid (n + 2)) bs q' in
    (uuid 0 ∷ ids, q'')

unfoldable pub prior_reservations : IdempotencyKey → Quota → List Reservation
prior_reservations key q =
    order_by (λ a b. leb a.budget_id b.budget_id)
      (rows_where (λ r. same_key r.idempotency_key key) q.reservations)

abbrev pub admitted : Uuid → List Uuid → AdmissionResult
admitted request_id ids = record {
  outcome = admit;
  request_id = request_id;
  reservation_ids = ids;
  limiting_budget_id = none;
  remaining_before = none;
}

-- the checks and the writes, once the budgets are read
unfoldable pub reserve_against :
    List Region
    → ReserveResourceInput
    → ℕ
    → (ℕ → Uuid)
    → List Budget
    → Quota
    → AdmissionResult × Quota
unfolding limiting_budget reserve_each record_decision
reserve_against regions input quantity uuid [] q = (
  admitted (uuid 0) [],
  record_decision input quantity (uuid 1) (uuid 0) none none admit no_applicable_budget none q,
)
reserve_against regions input quantity uuid (b ∷ bs) q =
    elim (limiting_budget regions input quantity q (b ∷ bs)) [
      | none ↦
          let (ids, q') = reserve_each input quantity (uuid 0) (λ n. uuid (n + 1)) (b ∷ bs) q in
          (admitted (uuid 0) ids, q')
      | some (c, decision) ↦ (
        record {
          outcome = decision.outcome;
          request_id = uuid 0;
          reservation_ids = [];
          limiting_budget_id = some c.id;
          remaining_before = some decision.remaining_before;
        },
        record_decision input quantity (uuid 1) (uuid 0) (some c.id) none decision.outcome
            (budget_exhausted input.resource_type) (some decision.remaining_before) q,
      )
    ]

-- a prior reservation under the key answers the request; the tables refuse a negative quantity
unfoldable pub reserve_unless_prior :
    List Region
    → ReserveResourceInput
    → (ℕ → Uuid)
    → Quota
    → List Reservation
    → ℤ
    → Result AdmissionError (AdmissionResult × Quota)
unfolding reserve_against throws
reserve_unless_prior regions input uuid q (r ∷ rs) quantity =
    ok (admitted r.request_id (map (λ p. p.id) (r ∷ rs)), q)
reserve_unless_prior regions input uuid q [] (negsuc n) = err check_violation
reserve_unless_prior regions input uuid q [] (pos n) =
    let budgets = applicable_budgets regions input.region_id input.resource_type q in
    if throws regions input n q budgets
    then err not_an_integer
    else ok (reserve_against regions input n uuid budgets q)

unfoldable pub reserve_in_transaction :
    List Region
    → ReserveResourceInput
    → (ℕ → Uuid)
    → Quota
    → Result AdmissionError (AdmissionResult × Quota)
unfolding prior_reservations reserve_unless_prior
reserve_in_transaction regions input uuid q =
    reserve_unless_prior regions input uuid q (prior_reservations input.idempotency_key q)
      input.quantity

unfoldable pub reserve :
    List Region
    → ReserveResourceInput
    → (ℕ → Uuid)
    → Quota
    → Result AdmissionError (AdmissionResult × Quota)
unfolding reserve_in_transaction
reserve regions input uuid q = elim input.quantity [
  | negsuc n ↦ err negative_quantity
  | pos quantity ↦ elim input.idempotency_key [
    | empty_key ↦ err missing_idempotency_key
    | _ ↦ reserve_in_transaction regions input uuid q
  ]
]
