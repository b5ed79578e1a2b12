-- ===== src/Tables.antt =====
-- packages/db/src/database.ts and its migrations: the rows of the tables that the runtime core
-- reads and writes, with the columns that it looks at, and the states of
-- packages/runtime-core/src/terminology.ts. UUIDs, lease tokens, digests, names and JSON documents
-- are only compared or passed on here, so they are numbers; times are milliseconds.
pub mod QuotaRows
pub mod Kinds
pub mod Proposed
pub mod Triggers
use factory_floor.Common.{ℕ, Bool, Option, List}
use QuotaRows.{Quota}
use Proposed.{ProposedResult, Risk}
use Kinds.{
  StagingStatus, ArtifactState, DerivationType, RegionStatus, DeliveryStatus, ExecutionStatus,
  AttemptStatus, CommandStatus, Rejection, Direction, Failure, EventType, StreamKey, SourceKind,
  ResultStatus, ActionStatus, ActionAttemptStatus, ApprovalStatus, PolicyOutcome,
}

abbrev pub Uuid : Type 0
Uuid = ℕ

abbrev pub Name : Type 0
Name = ℕ

abbrev pub Millis : Type 0
Millis = ℕ

abbrev pub Json : Type 0
Json = ℕ

abbrev pub Digest : Type 0
Digest = ℕ

pub record Region : Type 0 where
  pub id : Uuid
  pub name : Name
  pub parent_region_id : Option Uuid
  pub lifecycle_status : RegionStatus
  pub lifecycle_epoch : ℕ
  pub active_topology_revision_id : Option Uuid

-- `rule.input` split at its first dot, and `rule.completion.expected` where it is a positive
-- integer.
pub record FanInRule : Type 0 where
  pub instance_name : Name
  pub port : Name
  pub expected : Option ℕ

pub record IngressTarget : Type 0 where
  pub component : Name
  pub port : Name

pub record IngressRule : Type 0 where
  pub command_type : Name
  pub targets : List IngressTarget

pub record TopologyRevision : Type 0 where
  pub id : Uuid
  pub fan_in : List FanInRule
  pub ingress : List IngressRule

-- `selector` is `concat(cd.name, '@', cd.version)` of the instance's definition.
pub record ComponentInstance : Type 0 where
  pub id : Uuid
  pub topology_revision_id : Uuid
  pub component_definition_id : Uuid
  pub name : Name
  pub selector : Name

pub record Connection : Type 0 where
  pub topology_revision_id : Uuid
  pub source_component_instance_id : Uuid
  pub source_port_name : Name
  pub target_component_instance_id : Uuid
  pub target_port_name : Name

pub record PortDefinition : Type 0 where
  pub component_definition_id : Uuid
  pub name : Name
  pub direction : Direction
  pub required : Bool
  pub schema_id : Uuid

pub record Command : Type 0 where
  pub id : Uuid
  pub region_id : Uuid
  pub command_type : Name
  pub payload : Json
  pub status : CommandStatus
  pub source : Json
  pub correlation_id : Uuid
  pub idempotency_key : Option Name
  pub expires_at : Option Millis
  pub request_digest : Digest
  pub rejection : Option Rejection
  pub accepted_at : Option Millis
  pub rejected_at : Option Millis

pub record Event : Type 0 where
  pub id : Uuid
  pub region_id : Uuid
  pub event_type : EventType
  pub payload : Json
  pub stream_key : StreamKey
  pub sequence_number : ℕ
  pub created_at : Millis
  pub correlation_id : Uuid
  pub source_kind : SourceKind
  pub source_command_id : Option Uuid
  pub source_event_id : Option Uuid
  pub source_execution_id : Option Uuid
  pub source_attempt_id : Option Uuid
  pub source_component_instance_id : Option Uuid
  pub source_port_name : Option Name

pub record StreamSequence : Type 0 where
  pub stream_key : StreamKey
  pub next_sequence_number : ℕ

pub record Delivery : Type 0 where
  pub id : Uuid
  pub region_id : Uuid
  pub topology_revision_id : Uuid
  pub target_component_instance_id : Uuid
  pub target_port_name : Name
  pub source_command_id : Option Uuid
  pub source_event_id : Option Uuid
  pub correlation_id : Uuid
  pub input_payload : Json
  pub input_payload_digest : Digest
  pub status : DeliveryStatus
  pub available_at : Millis
  pub created_at : Millis
  pub lease_owner : Option Name
  pub lease_token : Option ℕ
  pub lease_expires_at : Option Millis
  pub attempts_count : ℕ
  pub completed_at : Option Millis
  pub failed_at : Option Millis
  pub dead_lettered_at : Option Millis

pub record Execution : Type 0 where
  pub id : Uuid
  pub delivery_id : Uuid
  pub region_id : Uuid
  pub component_instance_id : Uuid
  pub topology_revision_id : Uuid
  pub lifecycle_epoch : ℕ
  pub input_set_digest : Digest
  pub status : ExecutionStatus
  pub completed_at : Option Millis
  pub failed_at : Option Millis
  pub failure : Option Failure

pub record ExecutionInput : Type 0 where
  pub id : Uuid
  pub execution_id : Uuid
  pub port_name : Name
  pub delivery_id : Uuid
  pub payload : Json

pub record Attempt : Type 0 where
  pub id : Uuid
  pub execution_id : Uuid
  pub attempt_number : ℕ
  pub status : AttemptStatus
  pub lease_owner : Option Name
  pub lease_token : Option ℕ
  pub lease_expires_at : Option Millis
  pub started_at : Option Millis
  pub completed_at : Option Millis
  pub failure : Option Failure

pub record ExecutionOutput : Type 0 where
  pub id : Uuid
  pub execution_id : Uuid
  pub attempt_id : Uuid
  pub port_name : Name
  pub artifact_id : Uuid
  pub published_event_id : Option Uuid

-- worker_result_submissions; `result` is the stored document.
pub record Submission : Type 0 where
  pub id : Uuid
  pub execution_id : Uuid
  pub attempt_id : Uuid
  pub submission_digest : Digest
  pub result : ProposedResult
  pub created_at : Millis
  pub committed_at : Option Millis

pub record ArtifactSchema : Type 0 where
  pub id : Uuid
  pub schema : Json
  pub content_digest : Digest
  pub retired_at : Option Millis

pub record Staging : Type 0 where
  pub id : Uuid
  pub staged_ref : Uuid
  pub attempt_id : Uuid
  pub digest : Digest
  pub size_bytes : ℕ
  pub schema_id : Uuid
  pub media_type : Name
  pub locator : Name
  pub status : StagingStatus
  pub artifact_id : Option Uuid

-- worker_artifact_uploads
pub record Upload : Type 0 where
  pub id : Uuid
  pub staged_ref : Uuid
  pub execution_id : Uuid
  pub attempt_id : Uuid
  pub lifecycle_epoch : ℕ
  pub port_name : Name
  pub schema_id : Uuid
  pub media_type : Name
  pub expected_digest : Digest
  pub expected_size_bytes : ℕ
  pub expires_at : Millis
  pub uploaded_at : Option Millis
  pub artifact_staging_id : Option Uuid

pub record Artifact : Type 0 where
  pub id : Uuid
  pub digest : Digest
  pub size_bytes : ℕ
  pub schema_id : Uuid
  pub media_type : Name
  pub state : ArtifactState

pub record Derivation : Type 0 where
  pub id : Uuid
  pub artifact_id : Uuid
  pub execution_id : Uuid
  pub attempt_id : Uuid
  pub derivation_type : DerivationType

-- capability_grants joined with its capability
pub record Grant : Type 0 where
  pub id : Uuid
  pub grantee_component_definition_id : Uuid
  pub is_active : Bool
  pub capability_retired_at : Option Millis

pub record ExternalAction : Type 0 where
  pub id : Uuid
  pub execution_id : Uuid
  pub attempt_id : Uuid
  pub proposal_id : Uuid
  pub capability_grant_id : Uuid
  pub outbound_request_artifact_id : Uuid
  pub action_type : Name
  pub risk : Risk
  pub idempotency_key : Name
  pub status : ActionStatus
  pub approval_id : Option Uuid

pub record ActionAttempt : Type 0 where
  pub id : Uuid
  pub external_action_id : Uuid
  pub attempt_number : ℕ
  pub status : ActionAttemptStatus
  pub requested_at : Millis
  pub completed_at : Option Millis
  pub response : Option Json

-- a registered policy document, read at `spec`: the outcome, where it is one of the four; the
-- reason, where it is a text that is not blank; the modifications, where they are an array
pub record PolicySpec : Type 0 where
  pub outcome : Option PolicyOutcome
  pub reason : Option Name
  pub modifications : Option Json

-- `policy` is `none` where the document or its `spec` is not an object.
pub record Policy : Type 0 where
  pub id : Uuid
  pub name : Name
  pub version : Name
  pub policy : Option PolicySpec
  pub retired_at : Option Millis

pub data PolicyReason : Type 0 where
  given : Name → PolicyReason
  evaluated_to : Name → Name → PolicyOutcome → PolicyReason

pub record PolicyDecision : Type 0 where
  pub id : Uuid
  pub policy_id : Uuid
  pub policy_name : Name
  pub policy_version : Name
  pub evaluator_version : Name
  pub subject_kind : Name
  pub subject_id : Name
  pub input_artifact_id : Option Uuid
  pub normalized_inputs : Json
  pub outcome : PolicyOutcome
  pub reason : PolicyReason
  pub modifications : Option Json

pub record Approval : Type 0 where
  pub id : Uuid
  pub policy_decision_id : Uuid
  pub status : ApprovalStatus
  pub requested_at : Millis
  pub decided_at : Option Millis
  pub decided_by : Option Name
  pub decision_reason : Option Name
  pub decision_client_request_id : Option Name
  pub decision_request_digest : Option Digest

pub record Db : Type 0 where
  pub regions : List Region
  pub revisions : List TopologyRevision
  pub instances : List ComponentInstance
  pub connections : List Connection
  pub ports : List PortDefinition
  pub commands : List Command
  pub events : List Event
  pub sequences : List StreamSequence
  pub deliveries : List Delivery
  pub executions : List Execution
  pub inputs : List ExecutionInput
  pub attempts : List Attempt
  pub outputs : List ExecutionOutput
  pub submissions : List Submission
  pub schemas : List ArtifactSchema
  pub staging : List Staging
  pub uploads : List Upload
  pub artifacts : List Artifact
  pub derivations : List Derivation
  pub grants : List Grant
  pub actions : List ExternalAction
  pub action_attempts : List ActionAttempt
  pub policies : List Policy
  pub policy_decisions : List PolicyDecision
  pub approvals : List Approval
  pub quota : Quota
