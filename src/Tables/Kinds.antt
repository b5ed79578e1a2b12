-- ===== src/Tables/Kinds.antt =====
-- packages/runtime-core/src/terminology.ts: the states of the rows, and the few texts that the
-- code builds or tests, as data.
use factory_floor.Common.{ℕ, Bool, true, false, ◌==◌, ◌&&◌}

-- RegionLifecycleState
pub data RegionStatus : Type 0 where
  declared starting ready running completing completed blocked suspended cancelling cancelled
        failed :
      RegionStatus

abbrev pub is_running : RegionStatus → Bool
is_running RegionStatus.running = true
is_running _ = false

abbrev pub is_cancelling : RegionStatus → Bool
is_cancelling RegionStatus.cancelling = true
is_cancelling _ = false

-- status === 'cancelling' || status === 'cancelled'
abbrev pub is_cancel_requested : RegionStatus → Bool
is_cancel_requested RegionStatus.cancelling = true
is_cancel_requested RegionStatus.cancelled = true
is_cancel_requested _ = false

-- DeliveryState
pub data DeliveryStatus : Type 0 where
  ready leased completed failed dead_lettered cancelled : DeliveryStatus

abbrev pub is_ready : DeliveryStatus → Bool
is_ready DeliveryStatus.ready = true
is_ready _ = false

abbrev pub is_leased : DeliveryStatus → Bool
is_leased DeliveryStatus.leased = true
is_leased _ = false

-- ExecutionState
pub data ExecutionStatus : Type 0 where
  pending running completed failed cancelled : ExecutionStatus

abbrev pub is_executing : ExecutionStatus → Bool
is_executing ExecutionStatus.running = true
is_executing _ = false

-- ExecutionAttemptState
pub data AttemptStatus : Type 0 where
  pending leased running completed failed cancelled abandoned : AttemptStatus

-- ['leased', 'running'].includes(status)
abbrev pub is_active : AttemptStatus → Bool
is_active AttemptStatus.leased = true
is_active AttemptStatus.running = true
is_active _ = false

abbrev pub is_pending : AttemptStatus → Bool
is_pending AttemptStatus.pending = true
is_pending _ = false

-- CommandState
pub data CommandStatus : Type 0 where
  accepted rejected completed cancelled expired : CommandStatus

abbrev pub is_rejected : CommandStatus → Bool
is_rejected CommandStatus.rejected = true
is_rejected _ = false

-- the code of a rejection, which says its message
pub data Rejection : Type 0 where
  command_expired no_active_topology : Rejection

pub data Direction : Type 0 where
  input output state : Direction

abbrev pub is_input : Direction → Bool
is_input Direction.input = true
is_input _ = false

-- ProposedExecutionResult.status
pub data ResultStatus : Type 0 where
  completed failed cancelled : ResultStatus

abbrev pub is_completed : ResultStatus → Bool
is_completed ResultStatus.completed = true
is_completed _ = false

abbrev pub is_failed : ResultStatus → Bool
is_failed ResultStatus.failed = true
is_failed _ = false

-- A failure document: one that the runtime writes, or the worker's, of which it reads only whether
-- it is an object with `retryable` equal to true.
pub data Failure : Type 0 where
  worker_cancelled worker_failed recovery_terminal region_cancelled : Failure
  reported : (document : ℕ) (retryable : Bool) → Failure

abbrev pub is_retryable : Failure → Bool
is_retryable (reported document retryable) = retryable
is_retryable _ = false

pub data EventType : Type 0 where
  command_accepted command_rejected component_output recovery_completed : EventType
  proposed : ℕ → EventType

-- `region:${id}:commands`, `component:${id}:${port}`, `subject:${subject}`, 'runtime:recovery'
pub data StreamKey : Type 0 where
  region_commands : ℕ → StreamKey
  component_port : (component port : ℕ) → StreamKey
  subject : ℕ → StreamKey
  runtime_recovery : StreamKey

abbrev pub same_stream : StreamKey → StreamKey → Bool
same_stream (region_commands a) (region_commands b) = a == b
same_stream (component_port a p) (component_port b q) = a == b && p == q
same_stream (subject a) (subject b) = a == b
same_stream runtime_recovery runtime_recovery = true
same_stream _ _ = false

pub data SourceKind : Type 0 where
  command event execution attempt component system external_action : SourceKind

abbrev pub is_component : SourceKind → Bool
is_component SourceKind.component = true
is_component _ = false

-- ArtifactStagingState
pub data StagingStatus : Type 0 where
  staged promoted abandoned : StagingStatus

abbrev pub is_staged : StagingStatus → Bool
is_staged StagingStatus.staged = true
is_staged _ = false

-- ArtifactState
pub data ArtifactState : Type 0 where
  staged committed tombstoned : ArtifactState

abbrev pub is_tombstoned : ArtifactState → Bool
is_tombstoned ArtifactState.tombstoned = true
is_tombstoned _ = false

pub data DerivationType : Type 0 where
  execution_output state_version external_action_request : DerivationType

-- ExternalActionState
pub data ActionStatus : Type 0 where
  proposed policy_checked awaiting_approval authorized dispatching acknowledged reconciled denied
        failed cancelled indeterminate :
      ActionStatus

-- ExternalActionAttemptState
pub data ActionAttemptStatus : Type 0 where
  pending dispatching acknowledged failed indeterminate : ActionAttemptStatus

-- ApprovalState
pub data ApprovalStatus : Type 0 where
  requested approved denied cancelled : ApprovalStatus

abbrev pub is_requested : ApprovalStatus → Bool
is_requested ApprovalStatus.requested = true
is_requested _ = false

-- PolicyOutcome
pub data PolicyOutcome : Type 0 where
  deny require_approval modify allow : PolicyOutcome

-- What a statement that must find a row throws without one, what an event's insert refuses, and what
-- the compilation of a JSON schema throws.
pub data Fault : Type 0 where
  no_result missing_source_port missing_source schema_not_compiled : Fault
