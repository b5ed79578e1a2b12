-- ===== src/Tables/Triggers.antt =====
-- The triggers on execution_attempts and executions, of
-- packages/db/src/migrations/zzzz_20260716_attempt_delivery_lease_coherence.ts and
-- zzzzzzzzz_20260811_resource_admission.ts, and the updates that fire them.
use factory_floor.Common.{
  ℕ, ◌==◌, ◌&&◌, Bool, true, false, not, none, some, List, if◌then◌else◌, first_where, set_where,
  any_row, holds, same_option, is_some, or_else,
}
use factory_floor.Tables.{Db, Attempt, Execution, ExecutionInput, Delivery, Uuid, Millis}
use factory_floor.Tables.Kinds.{
  AttemptStatus, ExecutionStatus, DeliveryStatus, is_active, is_leased,
}
use factory_floor.Tables.QuotaRows.{
  Quota, ReservationStatus, is_reserved, same_resource, concurrent_executions,
}

abbrev pub attempt_code : AttemptStatus → ℕ
attempt_code AttemptStatus.pending = 0
attempt_code AttemptStatus.leased = 1
attempt_code AttemptStatus.running = 2
attempt_code AttemptStatus.completed = 3
attempt_code AttemptStatus.failed = 4
attempt_code AttemptStatus.cancelled = 5
attempt_code AttemptStatus.abandoned = 6

unfoldable pub is_input_of : Uuid → List ExecutionInput → Uuid → Bool
is_input_of execution_id inputs delivery_id =
    any_row (λ i. i.execution_id == execution_id && i.delivery_id == delivery_id) inputs

-- the lease of an active attempt, or its status, is another one now
abbrev pub lease_changed : Attempt → Attempt → Bool
lease_changed old new =
    is_active new.status
    && is_some new.lease_token
    && is_some new.lease_expires_at
    && not (
        same_option new.lease_expires_at old.lease_expires_at
        && same_option new.lease_owner old.lease_owner
        && attempt_code new.status == attempt_code old.status)

-- an input of the execution that is leased under the attempt's token
abbrev pub is_synced : Attempt → List ExecutionInput → Delivery → Bool
is_synced new inputs d =
    is_input_of new.execution_id inputs d.id
    && is_leased d.status
    && holds new.lease_token (or_else d.lease_token 0)
    && is_some d.lease_token

abbrev pub follow_lease : Attempt → Delivery → Delivery
follow_lease new d = record d {
  status = DeliveryStatus.leased;
  lease_owner = new.lease_owner;
  lease_token = new.lease_token;
  lease_expires_at = new.lease_expires_at;
}

-- sync_attempt_delivery_lease: the inputs leased under the attempt's token follow its lease
unfoldable pub sync_attempt_delivery_lease : Attempt → Attempt → Db → Db
sync_attempt_delivery_lease old new db =
    if lease_changed old new
    then record db {
      deliveries = set_where (is_synced new db.inputs) (follow_lease new) db.deliveries;
    }
    else db

-- update execution_attempts set … where id = …
unfoldable pub update_attempt : Uuid → (Attempt → Attempt) → Db → Db
unfolding sync_attempt_delivery_lease
update_attempt id f db = elim (first_where (λ a. a.id == id) db.attempts) [
  | none ↦ db
  | some a ↦
      sync_attempt_delivery_lease a (f a)
        (record db { attempts = set_where (λ a. a.id == id) f db.attempts })
]

abbrev pub is_terminal : ExecutionStatus → Bool
is_terminal ExecutionStatus.completed = true
is_terminal ExecutionStatus.failed = true
is_terminal _ = false

abbrev pub same_terminal : ExecutionStatus → ExecutionStatus → Bool
same_terminal ExecutionStatus.completed ExecutionStatus.completed = true
same_terminal ExecutionStatus.failed ExecutionStatus.failed = true
same_terminal _ _ = false

-- release_terminal_execution_admission, for one execution
unfoldable pub release_admission : Uuid → Millis → Quota → Quota
release_admission execution_id now q = record q {
  reservations =
      set_where
        (λ r.
          holds r.execution_id execution_id
          && is_reserved r.status
          && any_row
              (λ b. b.id == r.budget_id && same_resource b.resource_type concurrent_executions)
              q.budgets)
        (λ r. record r {
          status = ReservationStatus.released;
          reconciled_at = some (or_else r.reconciled_at now);
        })
        q.reservations;
}

-- update executions set … where id = …
unfoldable pub update_execution : Uuid → (Execution → Execution) → Millis → Db → Db
unfolding release_admission
update_execution id f now db = elim (first_where (λ e. e.id == id) db.executions) [
  | none ↦ db
  | some e ↦
      let db' = record db { executions = set_where (λ e. e.id == id) f db.executions } in
      if is_terminal (f e).status && not (same_terminal (f e).status e.status)
      then record db' { quota = release_admission id now db'.quota }
      else db'
]
