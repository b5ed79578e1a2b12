-- ===== src/Worker/Attempts.antt =====
-- activeAttempt, heartbeat and cancellation of worker-protocol-service.ts.
use factory_floor.Common.{
  ℕ, ◌+◌, ◌==◌, ◌&&◌, ◌||◌, Bool, true, false, not, Option, none, some, if◌then◌else◌, leb, holds,
  first_where, Result, ok, err,
}
use factory_floor.Tables.{Db, Attempt, Execution, Region, Millis}
use factory_floor.Tables.Kinds.{is_active, is_cancel_requested, AttemptStatus}
use factory_floor.Tables.Triggers.{update_attempt}
use factory_floor.Worker.Normalize.{
  WorkerErrorCode, WorkerProtocolError, AttemptIdentity, AttemptIdentityInput,
  normalize_attempt_identity, inactive_attempt, stale_lease_token, stale_lifecycle_epoch,
  lease_expired,
}

-- ActiveAttemptRow, of the joined rows
pub record ActiveAttemptRow : Type 0 where
  pub attempt : Attempt
  pub execution : Execution
  pub region : Region

-- the join of attempt, execution and region
unfoldable pub attempt_row : AttemptIdentity → Db → Option ActiveAttemptRow
attempt_row input db =
    elim (first_where (λ a. a.id == input.attempt_id && a.execution_id == input.execution_id)
      db.attempts) [
        | none ↦ none
        | some a ↦ elim (first_where (λ e. e.id == a.execution_id) db.executions) [
          | none ↦ none
          | some x ↦ elim (first_where (λ r. r.id == x.region_id) db.regions) [
            | none ↦ none
            | some g ↦ some (record { attempt = a; execution = x; region = g })
          ]
        ]
      ]

abbrev pub refused : WorkerErrorCode → Bool → WorkerProtocolError
refused code retryable = record { code = code; retryable = retryable; status_code = 409 }

-- !lease_expires_at || lease_expires_at <= now
abbrev pub is_lease_over : Attempt → Millis → Bool
is_lease_over a now = elim a.lease_expires_at [ none ↦ true | some t ↦ leb t now ]

-- the guards of activeAttempt
unfoldable pub check_active :
    AttemptIdentity → Millis → ActiveAttemptRow → Result WorkerProtocolError ActiveAttemptRow
check_active input now row =
    if not (is_active row.attempt.status)
    then err (refused inactive_attempt false)
    else if not (holds row.attempt.lease_token input.lease_token)
    then err (refused stale_lease_token false)
    else if not (row.execution.lifecycle_epoch == input.region_fencing_epoch)
        || not (row.region.lifecycle_epoch == input.region_fencing_epoch)
    then err (refused stale_lifecycle_epoch false)
    else if is_lease_over row.attempt now
    then err (refused lease_expired true)
    else ok row

unfoldable pub active_attempt :
    AttemptIdentity → Millis → Db → Result WorkerProtocolError ActiveAttemptRow
unfolding attempt_row check_active
active_attempt input now db = elim (attempt_row input db) [
  | none ↦ err (refused inactive_attempt false)
  | some row ↦ check_active input now row
]

abbrev pub extend_lease : Millis → Attempt → Attempt
extend_lease t a = record a { status = AttemptStatus.running; lease_expires_at = some t }

-- what a heartbeat answers: the end of the lease, and whether to stop
pub record Heartbeat : Type 0 where
  pub lease_expires_at : Millis
  pub cancellation_requested : Bool

-- the transaction of heartbeat
unfoldable pub extend :
    ℕ → AttemptIdentity → Millis → Db → Result WorkerProtocolError (Heartbeat × Db)
unfolding active_attempt update_attempt
extend lease_duration_ms input now db = elim (active_attempt input now db) [
  | err e ↦ err e
  | ok row ↦ ok (
    record {
      lease_expires_at = now + lease_duration_ms;
      cancellation_requested = is_cancel_requested row.region.lifecycle_status;
    },
    update_attempt row.attempt.id (extend_lease (now + lease_duration_ms)) db,
  )
]

unfoldable pub heartbeat :
    ℕ → AttemptIdentityInput → Millis → Db → Result WorkerProtocolError (Heartbeat × Db)
unfolding normalize_attempt_identity extend
heartbeat lease_duration_ms input now db = elim (normalize_attempt_identity input) [
  | err e ↦ err e
  | ok identity ↦ extend lease_duration_ms identity now db
]

pub data CancellationState : Type 0 where
  attempt_terminal lease_no_longer_valid cancellation_requested continue : CancellationState

unfoldable pub cancellation_of :
    AttemptIdentity → Millis → Option ActiveAttemptRow → CancellationState
cancellation_of input now none = attempt_terminal
cancellation_of input now (some row) =
    if not (is_active row.attempt.status)
    then attempt_terminal
    else if not (holds row.attempt.lease_token input.lease_token)
        || (is_lease_over row.attempt now
            || not (row.execution.lifecycle_epoch == input.region_fencing_epoch))
    then lease_no_longer_valid
    else if not (row.region.lifecycle_epoch == input.region_fencing_epoch)
        || is_cancel_requested row.region.lifecycle_status
    then cancellation_requested
    else continue

unfoldable pub cancellation :
    AttemptIdentityInput → Millis → Db → Result WorkerProtocolError CancellationState
unfolding normalize_attempt_identity cancellation_of attempt_row
cancellation input now db = elim (normalize_attempt_identity input) [
  | err e ↦ err e
  | ok identity ↦ ok (cancellation_of identity now (attempt_row identity db))
]
