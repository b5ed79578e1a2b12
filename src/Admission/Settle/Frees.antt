-- ===== src/Admission/Settle/Frees.antt =====
-- What release of resource-admission-service.ts gives back.
use factory_floor.Common.{
  arith, ℕ, ◌+◌, ◌≡◌, ◌==◌, ◌&&◌, refl, some, false, List, [], ◌∷◌, All, All-cleared, rows_where,
  set_where, sum_of,
}
use factory_floor.Tables.{Uuid, Millis}
use factory_floor.Tables.QuotaRows.{Quota, Budget, Reservation, ReservationStatus}
use factory_floor.Admission.Usage.{reserved_quantity, is_held_against}
use factory_floor.Admission.Settle.{release, is_open_for}

-- What the request holds against a budget.
pub held_quantity : Uuid → ℕ → List Reservation → ℕ
held_quantity request_id budget_id rows =
    sum_of (λ r. r.quantity)
      (rows_where (λ r. is_open_for request_id r && r.budget_id == budget_id) rows)

release-sum :
    (request_id budget_id : ℕ) (now : Millis) (rows : List Reservation)
    → sum_of
          (λ r. r.quantity)
          (rows_where (is_held_against budget_id) (
            set_where
              (is_open_for request_id)
              (λ r. record r { status = ReservationStatus.released; reconciled_at = some now })
              rows))
        + held_quantity request_id budget_id rows
      ≡ sum_of (λ r. r.quantity) (rows_where (is_held_against budget_id) rows)
unfolding sum_of rows_where set_where held_quantity
release-sum request_id budget_id now [] = refl
release-sum request_id budget_id now (r ∷ rs) =
    ground (arith, release-sum request_id budget_id now rs)

-- A release frees exactly what the request holds against each budget, leaves the request without
-- an open reservation, and touches neither the budgets nor the ledger.
pub release-frees :
    (request_id : Uuid) (now : Millis) (q : Quota) (b : Budget)
    → (reserved_quantity (release request_id now q) b + held_quantity request_id b.id q.reservations
        ≡ reserved_quantity q b)
      × All (λ r. is_open_for request_id r ≡ false) (release request_id now q).reservations
      × ((release request_id now q).budgets ≡ q.budgets)
      × ((release request_id now q).ledger ≡ q.ledger)
unfolding release reserved_quantity
release-frees request_id now q b = (
  release-sum request_id b.id now q.reservations,
  All-cleared (is_open_for request_id) _ (λ r h. ground arith) q.reservations,
  refl,
  refl,
)
