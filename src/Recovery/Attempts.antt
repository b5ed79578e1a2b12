-- ===== src/Recovery/Attempts.antt =====
-- The recovery of one attempt whose lease has expired, in run of recovery-service.ts.
use factory_floor.Common.{
  ℕ, ◌+◌, ◌==◌, ◌&&◌, Bool, false, not, none, some, List, map, length, if◌then◌else◌, leb, ltb,
  any_row, first_where, rows_where, Result, ok, err,
}
use factory_floor.Tables.{Db, Attempt, Execution, Region, Delivery, Uuid, Millis}
use factory_floor.Tables.Kinds.{
  is_active, is_executing, is_running, AttemptStatus, DeliveryStatus, recovery_terminal, Fault,
  no_result,
}
use factory_floor.Tables.Triggers.{update_attempt, update_execution, is_input_of}
use factory_floor.Commit.Finish.{retry_attempt, fail_with, insert_attempt, set_deliveries}

abbrev pub max_attempts : ℕ
max_attempts = 4

-- What the transaction of one attempt counts.
pub record Recovered : Type 0 where
  pub abandoned : ℕ
  pub replacement : ℕ
  pub exposed : ℕ
  pub terminal : ℕ

abbrev pub no_change : Recovered
no_change = record { abandoned = 0; replacement = 0; exposed = 0; terminal = 0 }

-- active, under a lease that is over
abbrev pub is_expired : Millis → Attempt → Bool
is_expired now a =
    is_active a.status && elim a.lease_expires_at [ none ↦ false | some t ↦ leb t now ]

abbrev pub abandon : Millis → Attempt → Attempt
abandon now a = record a {
  status = AttemptStatus.abandoned;
  completed_at = some now;
  failure = none;
  lease_owner = none;
  lease_token = none;
  lease_expires_at = none;
}

abbrev pub expose_again : Millis → Delivery → Delivery
expose_again now d = record d {
  status = DeliveryStatus.ready;
  available_at = now;
  lease_owner = none;
  lease_token = none;
  lease_expires_at = none;
}

abbrev pub dead_letter : Millis → Delivery → Delivery
dead_letter now d = record d {
  status = DeliveryStatus.dead_lettered;
  lease_owner = none;
  lease_token = none;
  lease_expires_at = none;
  dead_lettered_at = some now;
}

unfoldable pub input_ids : Uuid → Db → List Uuid
unfolding is_input_of
input_ids execution_id db =
    map (λ (d : Delivery). d.id)
      (rows_where (λ d. is_input_of execution_id db.inputs d.id) db.deliveries)

abbrev has_attempt : Uuid → ℕ → Db → Bool
has_attempt execution_id number db =
    any_row (λ b. b.execution_id == execution_id && b.attempt_number == number) db.attempts

-- a replacement, with the inputs ready again
unfoldable pub replace_attempt : Uuid → Millis → Attempt → Uuid → List Uuid → Db → Recovered × Db
unfolding insert_attempt set_deliveries
replace_attempt id now a execution_id ids db = (
  record {
    abandoned = 1;
    replacement = if has_attempt execution_id (a.attempt_number + 1) db then 0 else 1;
    exposed = length ids;
    terminal = 0;
  },
  set_deliveries ids (expose_again now)
      (insert_attempt (retry_attempt id execution_id (a.attempt_number + 1) now) db),
)

-- the execution fails for good
unfoldable pub fail_execution : Millis → Uuid → List Uuid → Db → Recovered × Db
unfolding update_execution set_deliveries
fail_execution now execution_id ids db = (
  record { abandoned = 1; replacement = 0; exposed = 0; terminal = 1 },
  set_deliveries ids (dead_letter now)
      (update_execution execution_id (fail_with now recovery_terminal) now db),
)

-- what becomes of the execution, once the attempt is abandoned
unfoldable pub settle_execution :
    Uuid → Millis → Attempt → Execution → Region → List Uuid → Db → Recovered × Db
unfolding replace_attempt fail_execution
settle_execution id now a x g ids db =
    if is_executing x.status && (is_running g.lifecycle_status && ltb a.attempt_number max_attempts)
    then replace_attempt id now a x.id ids db
    else if is_executing x.status
    then fail_execution now x.id ids db
    else (record { abandoned = 1; replacement = 0; exposed = 0; terminal = 0 }, db)

-- the transaction of one expired attempt
unfoldable pub recover_attempt : Uuid → Millis → Uuid → Db → Result Fault (Recovered × Db)
unfolding settle_execution update_attempt input_ids
recover_attempt id now candidate db = elim (first_where (λ a. a.id == candidate) db.attempts) [
  | none ↦ ok (no_change, db)
  | some a ↦
      if not (is_expired now a)
      then ok (no_change, db)
      else elim (first_where (λ e. e.id == a.execution_id) db.executions) [
        | none ↦ err no_result
        | some x ↦ elim (first_where (λ r. r.id == x.region_id) db.regions) [
          | none ↦ err no_result
          | some g ↦ ok (
              settle_execution id now a x g (input_ids x.id db)
                (update_attempt a.id (abandon now) db))
        ]
      ]
]
