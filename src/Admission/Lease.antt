-- ===== src/Admission/Lease.antt =====
-- packages/runtime-core/src/scheduling/execution-admission.ts: one concurrent-execution unit for
-- an execution, under a key of the execution's own.
use factory_floor.Common.{ℕ, Bool, true, false, none, some, List, Result}
use factory_floor.Common.Ints.{pos}
use factory_floor.Tables.{Region, Uuid}
use factory_floor.Tables.QuotaRows.{
  Quota, concurrent_executions, execution_lease, SubjectKind, admit,
}
use factory_floor.Admission.Reserve.{
  ReserveResourceInput, AdmissionResult, AdmissionError, reserve_in_transaction,
}

abbrev pub execution_lease_input : Uuid → Uuid → ReserveResourceInput
execution_lease_input region_id execution_id = record {
  region_id = region_id;
  resource_type = concurrent_executions;
  quantity = pos 1;
  idempotency_key = execution_lease execution_id;
  subject_kind = SubjectKind.execution;
  subject_id = execution_id;
  execution_id = some execution_id;
  attempt_id = none;
  external_action_id = none;
}

unfoldable pub reserve_execution_lease_admission :
    List Region → Uuid → Uuid → (ℕ → Uuid) → Quota → Result AdmissionError (AdmissionResult × Quota)
unfolding reserve_in_transaction
reserve_execution_lease_admission regions region_id execution_id uuid q =
    reserve_in_transaction regions (execution_lease_input region_id execution_id) uuid q

unfoldable pub execution_lease_may_proceed : AdmissionResult → Bool
execution_lease_may_proceed r = elim r.outcome [ admit ↦ true | _ ↦ false ]
