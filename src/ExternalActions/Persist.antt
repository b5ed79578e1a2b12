-- ===== src/ExternalActions/Persist.antt =====
-- persistResult and reconcileNetworkReservation of external-action-service.ts.
use factory_floor.Common.{
  ◌==◌, ◌&&◌, Bool, false, Option, none, some, Result, ok, err, if◌then◌else◌, not, first_where,
  set_where, holds,
}
use factory_floor.Common.Ints.{pos}
use factory_floor.Tables.{Db, ActionAttempt, Uuid, Millis, Json}
use factory_floor.Tables.Kinds.{ActionStatus, ActionAttemptStatus}
use factory_floor.Tables.QuotaRows.{Quota, Budget, Reservation, network_calls, same_resource}
use factory_floor.Admission.Reserve.{AdmissionError}
use factory_floor.Admission.Settle.{reconcile, with_budgets}
use factory_floor.ExternalActions.{
  ActionError, no_result, external_action_state_conflict, external_action_attempt_state_conflict,
  admission_failed, is_uncertain, is_reconciled, can_complete,
}
use factory_floor.ExternalActions.Dispatch.{has_id, set_status}

-- what persistResult records of the action
pub data Outcome : Type 0 where
  acknowledged reconciled failed indeterminate : Outcome

abbrev pub action_status : Outcome → ActionStatus
action_status Outcome.acknowledged = ActionStatus.acknowledged
action_status Outcome.reconciled = ActionStatus.reconciled
action_status Outcome.failed = ActionStatus.failed
action_status Outcome.indeterminate = ActionStatus.indeterminate

abbrev pub attempt_status : Outcome → ActionAttemptStatus
attempt_status Outcome.acknowledged = ActionAttemptStatus.acknowledged
attempt_status Outcome.reconciled = ActionAttemptStatus.acknowledged
attempt_status Outcome.failed = ActionAttemptStatus.failed
attempt_status Outcome.indeterminate = ActionAttemptStatus.indeterminate

abbrev pub is_attempt : Uuid → Uuid → ActionAttempt → Bool
is_attempt action_id attempt_id t = t.id == attempt_id && t.external_action_id == action_id

abbrev pub completed_attempt : Millis → Outcome → Json → ActionAttempt → ActionAttempt
completed_attempt now outcome response t = record t {
  status = attempt_status outcome;
  completed_at = some now;
  response = some response;
}

-- the two updates
unfoldable pub record_outcome : Millis → Uuid → Uuid → Outcome → Json → Db → Db
unfolding set_status
record_outcome now action_id attempt_id outcome response db =
    set_status action_id (action_status outcome) (record db {
      action_attempts =
          set_where (λ (t : ActionAttempt). t.id == attempt_id)
            (completed_attempt now outcome response) db.action_attempts;
    })

unfoldable pub persist_result : Millis → Uuid → Uuid → Outcome → Json → Db → Result ActionError Db
unfolding record_outcome
persist_result now action_id attempt_id outcome response db =
    elim (first_where (has_id action_id) db.actions) [
      | none ↦ err no_result
      | some a ↦ elim (first_where (is_attempt action_id attempt_id) db.action_attempts) [
        | none ↦ err no_result
        | some t ↦
            if is_reconciled a.status
            then ok db
            else if not (is_uncertain a.status)
            then err (external_action_state_conflict a.status)
            else if not (can_complete t.status)
            then err external_action_attempt_state_conflict
            else ok (record_outcome now action_id attempt_id outcome response db)
      ]
    ]

-- The query's row: the first reservation of the action against a budget of network calls. The
-- reservations stand in the order of reserved_at, id.
unfoldable pub network_reservation : Uuid → Quota → Option Uuid
unfolding with_budgets
network_reservation action_id q =
    elim (first_where
      (λ (p : Reservation × Budget).
        holds p.0.external_action_id action_id && same_resource p.1.resource_type network_calls)
      (with_budgets q.budgets q.reservations)) [ none ↦ none | some p ↦ some p.0.request_id ]

unfoldable pub after_settlement :
    Db → Result AdmissionError (Bool × Quota) → Result ActionError (Bool × Db)
after_settlement db (err e) = err (admission_failed e)
after_settlement db (ok (found, quota)) = ok (found, record db { quota = quota })

unfoldable pub reconcile_network_reservation :
    Uuid → Millis → Uuid → Db → Result ActionError (Bool × Db)
unfolding network_reservation reconcile after_settlement
reconcile_network_reservation ledger_id now action_id db =
    elim (network_reservation action_id db.quota) [
      | none ↦ ok (false, db)
      | some request_id ↦ after_settlement db (reconcile ledger_id request_id (pos 1) now db.quota)
    ]
