-- ===== src/Worker/Staging.antt =====
-- claim, stage and upload of worker-protocol-service.ts.
use factory_floor.Common.{
  ℕ, ◌+◌, ◌==◌, ◌&&◌, ◌++◌, Bool, true, false, Option, none, some, List, [], ◌∷◌, min, first_where,
  or_else, Result, ok, err,
}
use factory_floor.Tables.{
  Db, Upload, PortDefinition, ComponentInstance, Delivery, Uuid, Name, Digest, Millis,
}
use factory_floor.Tables.Kinds.{Direction}
use factory_floor.Scheduler.Executions.{Fresh, LeasedExecutionAttempt, LeaseError, InputIdentity}
use factory_floor.Scheduler.Lease.{lease_next_attempt}
use factory_floor.Worker.Normalize.{
  WorkerProtocolError, AttemptIdentity, AttemptIdentityInput, Selector, normalize_attempt_identity,
  normalize_component_selectors, unauthorized_staging_reference,
}
use factory_floor.Worker.Attempts.{ActiveAttemptRow, active_attempt}

-- what claim throws
pub data ClaimError : Type 0 where
  unlawful : WorkerProtocolError → ClaimError
  unleased : LeaseError → ClaimError

-- claim, up to buildEnvelope, which reads the rows of what is scheduled
unfoldable pub claim :
    (List InputIdentity → Digest)
    → (Delivery → Bool)
    → ℕ
    → Name
    → Option (List Selector)
    → Option (List Selector)
    → Millis
    → (ℕ → Fresh)
    → Db
    → Result ClaimError (Option LeasedExecutionAttempt × Db)
unfolding normalize_component_selectors lease_next_attempt
claim digest acquired duration worker_id component_selectors capabilities now fresh db =
    elim (normalize_component_selectors component_selectors capabilities) [
      | err e ↦ err (unlawful e)
      | ok selectors ↦
          elim (lease_next_attempt digest acquired
            (record {
              worker_id = worker_id;
              lease_duration_ms = duration;
              component_selectors = some selectors;
            })
            now fresh db) [ err e ↦ err (unleased e) | ok leased ↦ ok leased ]
    ]

pub record StageInput : Type 0 where
  pub port_name : Name
  pub media_type : Name
  pub expected_digest : Digest
  pub expected_size_bytes : ℕ

abbrev pub is_output : Direction → Bool
is_output Direction.output = true
is_output _ = false

-- the declared output port of the name, of the definition of the instance
unfoldable pub output_port : Uuid → Name → Db → Option PortDefinition
output_port instance_id name db =
    elim (first_where (λ (c : ComponentInstance). c.id == instance_id) db.instances) [
      | none ↦ none
      | some c ↦
          first_where
            (λ (p : PortDefinition).
              p.component_definition_id == c.component_definition_id
              && (is_output p.direction && p.name == name))
            db.ports
    ]

abbrev pub denied : ℕ → WorkerProtocolError
denied status = record {
  code = unauthorized_staging_reference;
  retryable = false;
  status_code = status;
}

abbrev pub lease_end : ActiveAttemptRow → Millis
lease_end row = or_else row.attempt.lease_expires_at 0

abbrev pub new_upload : AttemptIdentity → StageInput → Uuid → Uuid → Uuid → Millis → Upload
new_upload attempt input id staged_ref schema_id expires_at = record {
  id = id;
  staged_ref = staged_ref;
  execution_id = attempt.execution_id;
  attempt_id = attempt.attempt_id;
  lifecycle_epoch = attempt.region_fencing_epoch;
  port_name = input.port_name;
  schema_id = schema_id;
  media_type = input.media_type;
  expected_digest = input.expected_digest;
  expected_size_bytes = input.expected_size_bytes;
  expires_at = expires_at;
  uploaded_at = none;
  artifact_staging_id = none;
}

-- what stage answers
pub record StageAnswer : Type 0 where
  pub staged_ref : Uuid
  pub expires_at : Millis

-- the transaction of stage
unfoldable pub stage_in :
    ℕ
    → AttemptIdentity
    → StageInput
    → (staged_ref id : Uuid) → Millis
    → Db
    → Result WorkerProtocolError (StageAnswer × Db)
unfolding active_attempt output_port
stage_in duration attempt input staged_ref id now db = elim (active_attempt attempt now db) [
  | err e ↦ err e
  | ok active ↦ elim (output_port active.execution.component_instance_id input.port_name db) [
    | none ↦ err (denied 403)
    | some port ↦
        let expires = min (lease_end active) (now + duration) in
        ok (
          record { staged_ref = staged_ref; expires_at = expires },
          record db {
            uploads =
                db.uploads ++ new_upload attempt input id staged_ref port.schema_id expires ∷ [];
          },
        )
  ]
]

unfoldable pub stage :
    ℕ
    → AttemptIdentityInput
    → StageInput
    → (staged_ref id : Uuid) → Millis
    → Db
    → Result WorkerProtocolError (StageAnswer × Db)
unfolding normalize_attempt_identity stage_in
stage duration identity input staged_ref id now db = elim (normalize_attempt_identity identity) [
  | err e ↦ err e
  | ok attempt ↦ stage_in duration attempt input staged_ref id now db
]
