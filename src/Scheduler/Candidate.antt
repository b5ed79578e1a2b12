-- ===== src/Scheduler/Candidate.antt =====
-- tryCandidate of scheduler-service.ts: one group of deliveries becomes an attempt under a lease,
-- or is deferred.
use factory_floor.Common.{
  ℕ, ◌+◌, ◌==◌, ◌++◌, Bool, true, false, not, Option, none, some, List, [], ◌∷◌, map, Result, ok,
  err, if◌then◌else◌, first_where, set_where, delete_where, any_row,
}
use factory_floor.Tables.{Db, Delivery, Attempt, Uuid, Millis, Digest}
use factory_floor.Tables.Kinds.{is_running, is_executing, DeliveryStatus, AttemptStatus}
use factory_floor.Tables.Triggers.{update_attempt}
use factory_floor.Tables.QuotaRows.{Quota}
use factory_floor.Admission.Lease.{reserve_execution_lease_admission, execution_lease_may_proceed}
use factory_floor.Scheduler.Groups.{defer_group}
use factory_floor.Scheduler.Select.{fan_in_expected, input_ports, select_inputs}
use factory_floor.Scheduler.Executions.{
  LeaseNextAttemptOptions, Fresh, LeasedExecutionAttempt, LeaseError, InputIdentity, identity_of,
  input_set_digest, is_execution_of, with_execution, insert_inputs, pending_attempt, input_of,
  no_result, admission_failed,
}

module _ (options : LeaseNextAttemptOptions) (fresh : Fresh) (now : Millis) where
  abbrev pub first_attempt : Uuid → Attempt
  first_attempt execution_id = record {
    id = fresh.attempt;
    execution_id = execution_id;
    attempt_number = 1;
    status = AttemptStatus.leased;
    lease_owner = some options.worker_id;
    lease_token = some fresh.lease_token;
    lease_expires_at = some (now + options.lease_duration_ms);
    started_at = some now;
    completed_at = none;
    failure = none;
  }

  abbrev pub take_lease : Attempt → Attempt
  take_lease a = record a {
    status = AttemptStatus.leased;
    lease_owner = some options.worker_id;
    lease_token = some fresh.lease_token;
    lease_expires_at = some (now + options.lease_duration_ms);
    started_at = some now;
  }

  abbrev pub lease_delivery : Delivery → Delivery
  lease_delivery d = record d {
    status = DeliveryStatus.leased;
    lease_owner = some options.worker_id;
    lease_token = some fresh.lease_token;
    lease_expires_at = some (now + options.lease_duration_ms);
    attempts_count = d.attempts_count + 1;
  }

  -- update deliveries set … where id in (selected)
  unfoldable pub lease_deliveries : List Delivery → Db → Db
  lease_deliveries selected db = record db {
    deliveries = set_where (λ d. any_row (λ s. s.id == d.id) selected) lease_delivery db.deliveries;
  }

  abbrev pub leased_result : Uuid → Attempt → List Delivery → LeasedExecutionAttempt
  leased_result execution_id a selected = record {
    execution_id = execution_id;
    attempt_id = a.id;
    attempt_number = a.attempt_number;
    lease_token = fresh.lease_token;
    lease_expires_at = now + options.lease_duration_ms;
    inputs = map input_of selected;
  }

  -- from the attempt on: a pending one takes the lease; an execution without one gets its first
  unfoldable pub lease_attempt :
      Delivery → Uuid → List Delivery → Db → Option LeasedExecutionAttempt × Db
  unfolding pending_attempt lease_deliveries defer_group
  lease_attempt candidate execution_id selected db =
      elim (pending_attempt execution_id now db.attempts) [
        | some a ↦ (
          some (leased_result execution_id a selected),
          lease_deliveries selected (update_attempt a.id take_lease db),
        )
        | none ↦
            if any_row (λ a. a.execution_id == execution_id) db.attempts
            then (none, defer_group candidate now db)
            else (
              some (leased_result execution_id (first_attempt execution_id) selected),
              lease_deliveries selected
                  (record db { attempts = db.attempts ++ first_attempt execution_id ∷ [] }),
            )
      ]

  -- the inputs of the execution, after its admission
  unfoldable pub with_inputs : Uuid → List Delivery → Quota → Db → Db
  unfolding insert_inputs
  with_inputs execution_id selected quota db = record db {
    quota = quota;
    inputs = insert_inputs execution_id fresh.inputs selected db.inputs;
  }

  -- a refused admission: an execution made for it goes again, and the group waits
  unfoldable pub withdraw : Delivery → Uuid → Bool → Quota → Db → Db
  unfolding defer_group
  withdraw candidate execution_id true quota db = defer_group candidate now (record db {
    quota = quota;
    executions = delete_where (λ e. e.id == execution_id) db.executions;
  })
  withdraw candidate execution_id false quota db =
      defer_group candidate now (record db { quota = quota })

  -- from the admission on
  unfoldable pub admit_execution :
      Delivery
      → Uuid
      → Bool
      → List Delivery
      → Db
      → Result LeaseError (Option LeasedExecutionAttempt × Db)
  unfolding lease_attempt with_inputs withdraw
  admit_execution candidate execution_id created selected db =
      elim (reserve_execution_lease_admission db.regions candidate.region_id execution_id
        fresh.admission db.quota) [
          | err e ↦ err (admission_failed e)
          | ok (admission, quota) ↦ ok (
              if execution_lease_may_proceed admission
              then lease_attempt candidate execution_id selected
                  (with_inputs execution_id selected quota db)
              else (none, withdraw candidate execution_id created quota db))
        ]

  -- the execution of this input set: a running one, a new one, or none where it is over
  unfoldable pub execute_inputs :
      Delivery
      → ℕ
      → Digest
      → List Delivery
      → Db
      → Result LeaseError (Option LeasedExecutionAttempt × Db)
  unfolding admit_execution with_execution
  execute_inputs candidate epoch digest selected db =
      elim (first_where (is_execution_of candidate epoch digest) db.executions) [
        | some e ↦
            if is_executing e.status
            then admit_execution candidate e.id false selected db
            else ok (none, defer_group candidate now db)
        | none ↦
            admit_execution candidate fresh.execution true selected
              (with_execution fresh candidate epoch digest selected db)
      ]

  unfoldable pub try_candidate :
      (List InputIdentity → Digest)
      → (Delivery → Bool)
      → Delivery
      → Db
      → Result LeaseError (Option LeasedExecutionAttempt × Db)
  unfolding execute_inputs input_set_digest
  try_candidate digest acquired candidate db =
      if not (acquired candidate)
      then ok (none, db)
      else elim (first_where (λ r. r.id == candidate.region_id) db.regions) [
        | none ↦ err no_result
        | some region ↦
            if not (is_running region.lifecycle_status)
            then ok (none, defer_group candidate now db)
            else elim (first_where (λ i. i.id == candidate.target_component_instance_id)
                db.instances) [
                  | none ↦ err no_result
                  | some component ↦
                      elim (first_where (λ v. v.id == candidate.topology_revision_id)
                        db.revisions) [
                          | none ↦ err no_result
                          | some revision ↦
                              elim (select_inputs candidate now
                                (fan_in_expected revision.fan_in component.name)
                                (input_ports component.component_definition_id db.ports)
                                db.deliveries) [
                                  | none ↦ ok (none, defer_group candidate now db)
                                  | some selected ↦
                                      execute_inputs candidate region.lifecycle_epoch
                                        (input_set_digest digest (map identity_of selected))
                                        selected db
                                ]
                        ]
                ]
      ]
