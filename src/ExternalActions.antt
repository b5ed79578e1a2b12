-- ===== src/ExternalActions.antt =====
-- packages/runtime-core/src/external-actions/external-action-service.ts: an authorized action is
-- sent to its provider, and its answer is recorded and reconciled.
pub mod Dispatch
pub mod Persist
pub mod Service
pub mod Cases
pub mod Steps
pub mod Counted
pub mod Attempts
pub mod Moves
pub mod Diagram
pub mod Answers
pub mod Pending
use factory_floor.Common.{ℕ, Bool, true, false}
use factory_floor.Tables.{Uuid, Name, Json, ExternalAction}
use factory_floor.Tables.Kinds.{ActionStatus, ActionAttemptStatus}
use factory_floor.Tables.QuotaRows.{Exhaustion}
use factory_floor.Admission.Reserve.{AdmissionError}

-- ExternalActionProviderRequest
pub record ProviderRequest : Type 0 where
  pub action_id : Uuid
  pub action_type : Name
  pub idempotency_key : Name
  pub capability_grant_id : Uuid
  pub outbound_request_artifact_id : Uuid

-- the status of an ExternalActionProviderResult
pub data ProviderStatus : Type 0 where
  acknowledged failed indeterminate : ProviderStatus

pub record ProviderResult : Type 0 where
  pub status : ProviderStatus
  pub response : Json

-- What a call of the provider comes to: a result, an ExternalActionIndeterminateError with its
-- response, or another exception.
pub data Reply : Type 0 where
  answered : ProviderResult → Reply
  response_lost : Json → Reply
  thrown : Reply

-- ExternalActionProvider
pub record Provider : Type 0 where
  pub dispatch : ProviderRequest → Reply
  pub reconcile : ProviderRequest → Reply

pub data ActionError : Type 0 where
  external_action_not_found external_action_attempt_missing external_action_attempt_state_conflict
        no_result provider_failed :
      ActionError
  external_action_state_conflict : ActionStatus → ActionError
  admission_failed : AdmissionError → ActionError

-- status is 'dispatching', 'indeterminate' or 'acknowledged'
abbrev pub is_uncertain : ActionStatus → Bool
is_uncertain ActionStatus.dispatching = true
is_uncertain ActionStatus.indeterminate = true
is_uncertain ActionStatus.acknowledged = true
is_uncertain _ = false

abbrev pub is_authorized : ActionStatus → Bool
is_authorized ActionStatus.authorized = true
is_authorized _ = false

abbrev pub is_reconciled : ActionStatus → Bool
is_reconciled ActionStatus.reconciled = true
is_reconciled _ = false

abbrev pub can_complete : ActionAttemptStatus → Bool
can_complete ActionAttemptStatus.dispatching = true
can_complete ActionAttemptStatus.indeterminate = true
can_complete ActionAttemptStatus.acknowledged = true
can_complete _ = false

-- providerRequest
abbrev pub provider_request : ExternalAction → ProviderRequest
provider_request a = record {
  action_id = a.id;
  action_type = a.action_type;
  idempotency_key = a.idempotency_key;
  capability_grant_id = a.capability_grant_id;
  outbound_request_artifact_id = a.outbound_request_artifact_id;
}

-- DispatchPreparation
pub data Preparation : Type 0 where
  dispatch : (attempt_id : Uuid) (request : ProviderRequest) → Preparation
  deferred : Exhaustion → Preparation
  uncertain : ActionStatus → Preparation
  cancelled terminal : Preparation
