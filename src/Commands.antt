-- ===== src/Commands.antt =====
-- packages/runtime-core/src/commands/command-service.ts and identity.ts: a command is submitted to
-- a region, and replayed under its idempotency key.
use factory_floor.Common.{
  ℕ, ◌==◌, ◌&&◌, Bool, true, false, Option, none, some, List, [], ◌∷◌, if◌then◌else◌, holds,
}
use factory_floor.Tables.{Command, Uuid, Name, Json, Digest, Millis}
use factory_floor.Tables.Kinds.{CommandStatus, Rejection, Fault}
pub mod Submit
pub mod Routed
pub mod Listed
pub mod Published
pub mod Replay
pub mod Consistent

-- `expires_at` is the text of a time.
pub record SubmitCommandInput : Type 0 where
  pub region : Name
  pub command_type : Name
  pub source : Json
  pub payload : Json
  pub correlation_id : Option Uuid
  pub idempotency_key : Option Name
  pub expires_at : Option Name

-- the argument of canonicalJsonDigest in commandRequestDigest
pub record CommandRequest : Type 0 where
  pub region : Name
  pub command_type : Name
  pub source : Json
  pub payload : Json
  pub correlation_id : Option Uuid
  pub expires_at : Option Name

pub data Disposition : Type 0 where
  accepted replayed rejected : Disposition

pub record SubmitCommandResult : Type 0 where
  pub command_id : Uuid
  pub status : CommandStatus
  pub correlation_id : Uuid
  pub event_id : Uuid
  pub delivery_ids : List Uuid
  pub disposition : Disposition
  pub rejection : Option Rejection

pub data CommandError : Type 0 where
  command_type_required invalid_expiry region_not_found idempotency_conflict : CommandError
  fault : Fault → CommandError

-- What the code asks of a text or of a JSON document, and its digests: `is_empty` and `is_blank`
-- are the tests of '' and of trim, `without_slash` takes a leading slash off, `parse_date` is
-- `new Date`, `or_object` gives {} for null, `shown` is a rejection as a document.
pub record Reading : Type 0 where
  pub is_empty : Name → Bool
  pub is_blank : Name → Bool
  pub without_slash : Name → Name
  pub parse_date : Name → Option Millis
  pub or_object : Json → Json
  pub shown : Rejection → Json
  pub digest : CommandRequest → Digest
  pub payload_digest : Json → Digest

-- What one submission draws: its clock, the time of its transaction, and its UUIDs.
pub record Drawn : Type 0 where
  pub now : Millis
  pub created_at : Millis
  pub command : Uuid
  pub event : Uuid
  pub deliveries : ℕ → Uuid

-- the unique index on (region_id, idempotency_key)
abbrev pub has_key : Uuid → Name → Command → Bool
has_key region k c = c.region_id == region && holds c.idempotency_key k
