-- ===== src/Scheduler/Executions.antt =====
-- The execution of a group of deliveries in scheduler-service.ts, with its inputs and attempts.
-- `Fresh` holds what createUuidV7 and generateLeaseToken return; the digest of the inputs (sha256 of
-- canonical JSON) is a parameter.
use factory_floor.Common.{
  ℕ, ◌+◌, ◌==◌, ◌&&◌, ◌++◌, Bool, true, false, Option, none, some, List, [], ◌∷◌, if◌then◌else◌,
  ltb, leb, rows_where, order_by, any_row, or_else, is_some,
}
use factory_floor.Tables.{
  Db, Delivery, Execution, ExecutionInput, Attempt, Uuid, Name, Millis, Json, Digest,
}
use factory_floor.Tables.Kinds.{is_pending, ExecutionStatus}
use factory_floor.Admission.Reserve.{AdmissionError}

pub record LeaseNextAttemptOptions : Type 0 where
  pub worker_id : Name
  pub lease_duration_ms : ℕ
  pub component_selectors : Option (List Name)

pub record Fresh : Type 0 where
  pub execution : Uuid
  pub attempt : Uuid
  pub lease_token : ℕ
  pub admission : ℕ → Uuid
  pub inputs : ℕ → Uuid

pub record LeasedInput : Type 0 where
  pub port_name : Name
  pub delivery_id : Uuid
  pub payload : Json

pub record LeasedExecutionAttempt : Type 0 where
  pub execution_id : Uuid
  pub attempt_id : Uuid
  pub attempt_number : ℕ
  pub lease_token : ℕ
  pub lease_expires_at : Millis
  pub inputs : List LeasedInput

pub data LeaseError : Type 0 where
  invalid_lease_duration no_result : LeaseError
  admission_failed : AdmissionError → LeaseError

-- InputIdentity of commands/identity.ts
pub record InputIdentity : Type 0 where
  pub port_name : Name
  pub delivery_id : Uuid
  pub from_command : Bool
  pub source_id : Option Uuid
  pub payload_digest : Digest

abbrev pub identity_of : Delivery → InputIdentity
identity_of d = record {
  port_name = d.target_port_name;
  delivery_id = d.id;
  from_command = is_some d.source_command_id;
  source_id = elim d.source_command_id [ none ↦ d.source_event_id | some c ↦ some c ];
  payload_digest = d.input_payload_digest;
}

-- order by port_name, then delivery_id, as inputSetDigest sorts
abbrev pub by_identity : InputIdentity → InputIdentity → Bool
by_identity a b =
    if ltb a.port_name b.port_name
    then true
    else if ltb b.port_name a.port_name
    then false
    else leb a.delivery_id b.delivery_id

unfoldable pub input_set_digest : (List InputIdentity → Digest) → List InputIdentity → Digest
input_set_digest digest inputs = digest (order_by by_identity inputs)

-- the selected delivery with the least id
unfoldable pub least_id : Uuid → List Delivery → Uuid
least_id id [] = id
least_id id (d ∷ ds) = least_id (if ltb d.id id then d.id else id) ds

unfoldable pub trigger_of : List Delivery → Uuid
unfolding least_id
trigger_of [] = 0
trigger_of (d ∷ ds) = least_id d.id ds

abbrev pub is_execution_of : Delivery → ℕ → Digest → Execution → Bool
is_execution_of candidate epoch digest e =
    e.region_id == candidate.region_id
    && (e.component_instance_id == candidate.target_component_instance_id
        && (e.topology_revision_id == candidate.topology_revision_id
            && (e.lifecycle_epoch == epoch && e.input_set_digest == digest)))

abbrev pub new_execution : Delivery → ℕ → Digest → Uuid → Uuid → Execution
new_execution candidate epoch digest trigger id = record {
  id = id;
  delivery_id = trigger;
  region_id = candidate.region_id;
  component_instance_id = candidate.target_component_instance_id;
  topology_revision_id = candidate.topology_revision_id;
  lifecycle_epoch = epoch;
  input_set_digest = digest;
  status = ExecutionStatus.running;
  completed_at = none;
  failed_at = none;
  failure = none;
}

-- insert into executions
unfoldable pub with_execution : Fresh → Delivery → ℕ → Digest → List Delivery → Db → Db
unfolding trigger_of
with_execution fresh candidate epoch digest selected db = record db {
  executions =
      db.executions
      ++ new_execution candidate epoch digest (trigger_of selected) fresh.execution ∷ [];
}

-- insert into execution_inputs … on conflict (execution_id, port_name, delivery_id) do nothing
unfoldable pub insert_inputs :
    Uuid → (ℕ → Uuid) → List Delivery → List ExecutionInput → List ExecutionInput
insert_inputs execution_id uuid [] rows = rows
insert_inputs execution_id uuid (d ∷ ds) rows =
    insert_inputs execution_id (λ n. uuid (n + 1)) ds
      (if any_row
          (λ i.
            i.execution_id == execution_id
            && (i.port_name == d.target_port_name && i.delivery_id == d.id))
          rows
        then rows
        else rows
          ++ record {
            id = uuid 0;
            execution_id = execution_id;
            port_name = d.target_port_name;
            delivery_id = d.id;
            payload = d.input_payload;
          }
            ∷ [])

abbrev pub may_start : Uuid → Millis → Attempt → Bool
may_start execution_id now a =
    a.execution_id == execution_id && (is_pending a.status && leb (or_else a.started_at 0) now)

-- executeTakeFirst
abbrev pub first_row : List Attempt → Option Attempt
first_row [] = none
first_row (a ∷ as') = some a

-- the pending attempts that may start, least attempt number first
unfoldable pub pending_attempt : Uuid → Millis → List Attempt → Option Attempt
pending_attempt execution_id now attempts = first_row (
    order_by (λ a b. leb a.attempt_number b.attempt_number)
      (rows_where (may_start execution_id now) attempts))

abbrev pub input_of : Delivery → LeasedInput
input_of d = record {
  port_name = d.target_port_name;
  delivery_id = d.id;
  payload = d.input_payload;
}
