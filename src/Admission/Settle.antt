-- ===== src/Admission/Settle.antt =====
-- release and reconcile of scheduling/resource-admission-service.ts.
pub mod Frees
pub mod Replay
use factory_floor.Common.{
  ℕ, ◌==◌, ◌&&◌, ◌++◌, Bool, true, false, none, some, List, [], ◌∷◌, Result, ok, err, if◌then◌else◌,
  leb, rows_where, first_where, set_where, order_by, any_row,
}
use factory_floor.Common.Ints.{ℤ, pos, negsuc}
use factory_floor.Tables.{Uuid, Millis}
use factory_floor.Tables.QuotaRows.{
  Quota, Budget, Reservation, LedgerEntry, ReservationStatus, is_reserved, same_resource,
}
use factory_floor.Admission.Reserve.{AdmissionError, negative_quantity}

-- where request_id = … and status = 'reserved'
abbrev pub is_open_for : Uuid → Reservation → Bool
is_open_for request_id r = r.request_id == request_id && is_reserved r.status

unfoldable pub release : Uuid → Millis → Quota → Quota
release request_id now q = record q {
  reservations =
      set_where (is_open_for request_id)
        (λ r. record r { status = ReservationStatus.released; reconciled_at = some now })
        q.reservations;
}

-- the unique index on (admission_request_id, resource_type)
abbrev pub same_admission : LedgerEntry → LedgerEntry → Bool
same_admission new old = elim new.admission_request_id [
  | none ↦ false
  | some a ↦ elim old.admission_request_id [
    | none ↦ false
    | some b ↦ a == b && same_resource new.resource_type old.resource_type
  ]
]

-- insert … on conflict do nothing
unfoldable pub insert_entry : LedgerEntry → Quota → Quota
insert_entry e q =
    if any_row (same_admission e) q.ledger then q else record q { ledger = q.ledger ++ e ∷ [] }

-- the ledger row of the request
abbrev pub settled_usage : Uuid → Uuid → ℕ → Reservation → Budget → LedgerEntry
settled_usage id request_id actual first budget = record {
  id = id;
  region_id = first.region_id;
  execution_id = first.execution_id;
  attempt_id = first.attempt_id;
  external_action_id = first.external_action_id;
  resource_type = budget.resource_type;
  quantity = actual;
  unit = budget.unit;
  admission_request_id = some request_id;
}

-- the ledger row and the reservations, once the request's first reservation and its budget are read
unfoldable pub settle : Uuid → Uuid → ℕ → Millis → Reservation → Budget → Quota → Quota
unfolding insert_entry
settle id request_id actual now first budget q =
    let q' = insert_entry (settled_usage id request_id actual first budget) q in
    record q' {
      reservations =
          set_where (is_open_for request_id)
            (λ r. record r {
              status = ReservationStatus.reconciled;
              actual_quantity = some actual;
              reconciled_at = some now;
            })
            q'.reservations;
    }

-- the join with the budgets: each row with its budget, in the order of budget_id
unfoldable pub with_budgets : List Budget → List Reservation → List (Reservation × Budget)
with_budgets budgets [] = []
with_budgets budgets (r ∷ rs) = elim (first_where (λ b. b.id == r.budget_id) budgets) [
  | none ↦ with_budgets budgets rs
  | some b ↦ (r, b) ∷ with_budgets budgets rs
]

unfoldable pub reservations_of : Uuid → Quota → List (Reservation × Budget)
unfolding with_budgets
reservations_of request_id q = with_budgets q.budgets (
    order_by (λ a b. leb a.budget_id b.budget_id)
      (rows_where (λ r. r.request_id == request_id) q.reservations))

unfoldable pub settle_first :
    Uuid → Uuid → ℕ → Millis → Quota → List (Reservation × Budget) → Bool × Quota
unfolding settle
settle_first id request_id actual now q [] = (false, q)
settle_first id request_id actual now q ((first, budget) ∷ rest) =
    (true, settle id request_id actual now first budget q)

unfoldable pub reconcile : Uuid → Uuid → ℤ → Millis → Quota → Result AdmissionError (Bool × Quota)
unfolding settle_first reservations_of
reconcile id request_id (negsuc n) now q = err negative_quantity
reconcile id request_id (pos actual) now q =
    ok (settle_first id request_id actual now q (reservations_of request_id q))
