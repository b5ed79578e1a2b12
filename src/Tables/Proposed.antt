-- ===== src/Tables/Proposed.antt =====
-- ProposedExecutionResult of packages/runtime-core/src/commit/execution-commit-service.ts, as it is
-- submitted and stored. A source object is read as `kind === 'execution'` with two ids.
use factory_floor.Common.{ℕ, Bool, Option, List}
use factory_floor.Common.Ints.{ℤ}
use factory_floor.Tables.Kinds.{ResultStatus, Failure}

pub data Source : Type 0 where
  execution_source : (execution_id attempt_id : ℕ) → Source
  other_source : Source

pub record Staged : Type 0 where
  pub staging_id : ℕ
  pub port_name : ℕ
  pub digest : ℕ
  pub size_bytes : ℕ
  pub media_type : ℕ
  pub schema_id : ℕ
  pub schema_digest : ℕ
  pub provenance : Source

-- `has_metadata` says that the event type, the subject and the schema id are not blank, the digest
-- is 64 hexadecimal digits and the time parses.
pub record ProposedEvent : Type 0 where
  pub event_type : ℕ
  pub subject : ℕ
  pub payload : ℕ
  pub schema_id : ℕ
  pub schema_digest : ℕ
  pub has_metadata : Bool
  pub source : Source

pub data Risk : Type 0 where
  low medium high irreversible : Risk

-- `has_metadata`: a UUID, a type, a key and a handle that are not blank, a known risk; `grant_id`
-- is what decodeCapabilityGrantHandle returns.
pub record ExternalActionProposal : Type 0 where
  pub proposal_id : ℕ
  pub action_type : ℕ
  pub idempotency_key : ℕ
  pub grant_id : Option ℕ
  pub request_artifact : Staged
  pub risk : Risk
  pub has_metadata : Bool

-- A counter of resourceUsage: an integer, or what Number.isSafeInteger refuses.
pub data Counter : Type 0 where
  integer : ℤ → Counter
  not_an_integer : Counter

-- The keys of RESOURCE_UNITS, and any other key.
pub data UsageKey : Type 0 where
  cpu_milliseconds wall_milliseconds input_bytes output_bytes external_calls : UsageKey
  unknown_key : ℕ → UsageKey

pub record ProposedResult : Type 0 where
  pub execution_id : ℕ
  pub attempt_id : ℕ
  pub lease_token : ℕ
  pub lifecycle_epoch : ℕ
  pub status : ResultStatus
  pub staged_artifacts : List Staged
  pub proposed_state : Option Staged
  pub proposed_events : List ProposedEvent
  pub external_action_proposals : List ExternalActionProposal
  pub resource_usage : List (UsageKey × Counter)
  pub failure : Option Failure
