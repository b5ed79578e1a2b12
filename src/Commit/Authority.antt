-- ===== src/Commit/Authority.antt =====
-- assertAuthority, validateResourceUsage and validateProposedEvents of
-- execution-commit-service.ts.
use factory_floor.Common.{
  ℕ, ◌==◌, ◌&&◌, ◌||◌, Bool, true, false, Option, none, some, List, [], ◌∷◌, if◌then◌else◌, leb,
  ltb, length, all_rows, holds, ◌>>=◌, ◌>>◌,
}
use factory_floor.Common.Ints.{pos, negsuc}
use factory_floor.Tables.{Db, Attempt, Execution, Region, Delivery, Millis, Uuid}
use factory_floor.Tables.Kinds.{is_running, is_leased, schema_not_compiled}
use factory_floor.Tables.Proposed.{
  ProposedResult, ProposedEvent, Source, execution_source, other_source, Counter, integer,
  not_an_integer, UsageKey, cpu_milliseconds, wall_milliseconds, input_bytes, output_bytes,
  external_calls, unknown_key,
}
use factory_floor.Artifacts.Validation.{authoritative_schema}
use factory_floor.Commit.Steps.{
  Commit, Env, require, found, done, query, thrown, stale_lease_token, lease_expired,
  stale_lifecycle_epoch, invalid_resource_usage, invalid_proposed_event,
}

-- !attempt.lease_expires_at || attempt.lease_expires_at <= now, negated
abbrev pub is_lease_live : Attempt → Millis → Bool
is_lease_live a now = elim a.lease_expires_at [ none ↦ false | some t ↦ ltb now t ]

abbrev pub is_delivery_held : ℕ → Delivery → Bool
is_delivery_held token d = is_leased d.status && holds d.lease_token token

abbrev pub is_epoch_current : ProposedResult → Execution → Region → Bool
is_epoch_current input execution region =
    execution.lifecycle_epoch == input.lifecycle_epoch
    && (region.lifecycle_epoch == input.lifecycle_epoch && is_running region.lifecycle_status)

-- assertAuthority
unfoldable pub assert_authority :
    ProposedResult
    → Attempt
    → Execution
    → Region
    → List Delivery
    → (allow_expired_lease : Bool) → Millis
    → Commit (Unit {0})
unfolding require
assert_authority input attempt execution region deliveries allow_expired_lease now = do
  require (holds attempt.lease_token input.lease_token) stale_lease_token 409
  require (allow_expired_lease || is_lease_live attempt now) lease_expired 409
  require (is_epoch_current input execution region) stale_lifecycle_epoch 409
  require (all_rows (is_delivery_held input.lease_token) deliveries) stale_lease_token 409

-- the largest safe integer of JavaScript
abbrev pub max_safe_integer : ℕ
max_safe_integer = 9007199254740991

-- Number.isSafeInteger(n) && n >= 0
abbrev pub is_counter : Counter → Bool
is_counter (integer (pos n)) = leb n max_safe_integer
is_counter (integer (negsuc n)) = false
is_counter not_an_integer = false

-- The place of a key among those of RESOURCE_UNITS, or none.
abbrev pub usage_index : UsageKey → Option ℕ
usage_index cpu_milliseconds = some 0
usage_index wall_milliseconds = some 1
usage_index input_bytes = some 2
usage_index output_bytes = some 3
usage_index external_calls = some 4
usage_index (unknown_key n) = none

abbrev pub canonical_keys : List ℕ
canonical_keys = 0 ∷ 1 ∷ 2 ∷ 3 ∷ 4 ∷ []

-- usage[key]
unfoldable pub usage_of : ℕ → List (UsageKey × Counter) → Option Counter
usage_of key [] = none
usage_of key ((k, c) ∷ rest) = if holds (usage_index k) key then some c else usage_of key rest

abbrev has_counter : List (UsageKey × Counter) → ℕ → Bool
has_counter usage key = elim (usage_of key usage) [ none ↦ false | some c ↦ is_counter c ]

abbrev is_canonical_key : UsageKey × Counter → Bool
is_canonical_key entry = elim (usage_index entry.0) [ none ↦ false | some n ↦ true ]

-- validateResourceUsage
unfoldable pub validate_resource_usage : List (UsageKey × Counter) → Commit (Unit {0})
unfolding require usage_of
validate_resource_usage usage = do
  require (length usage == length canonical_keys && all_rows is_canonical_key usage)
      invalid_resource_usage 400
  require (all_rows (has_counter usage) canonical_keys) invalid_resource_usage 400

-- isExecutionSource
abbrev pub is_execution_source : Source → Uuid → Uuid → Bool
is_execution_source (execution_source e a) execution_id attempt_id =
    e == execution_id && a == attempt_id
is_execution_source other_source execution_id attempt_id = false

abbrev pub is_schema_current : Env → ProposedEvent → Db → Bool
is_schema_current env event db =
    elim (authoritative_schema env.validator event.schema_id db.schemas) [
      | none ↦ false
      | some s ↦ s.content_digest == event.schema_digest
    ]

-- validate(event.payload): none where the schema does not compile
abbrev pub payload_verdict : Env → ProposedEvent → Db → Option Bool
payload_verdict env event db =
    elim (authoritative_schema env.validator event.schema_id db.schemas) [
      | none ↦ some false
      | some s ↦ env.validator.conforms s.schema event.payload
    ]

-- validateProposedEvents
unfoldable pub validate_proposed_events :
    Env → ProposedResult → List ProposedEvent → Commit (Unit {0})
unfolding require found query done
validate_proposed_events env input [] = done tt
validate_proposed_events env input (event ∷ events) = do
  require
      (event.has_metadata && is_execution_source event.source input.execution_id input.attempt_id)
      invalid_proposed_event 400
  current ← query (is_schema_current env event)
  require current invalid_proposed_event 400
  valid ← found (payload_verdict env event) (thrown schema_not_compiled)
  require valid invalid_proposed_event 400
  validate_proposed_events env input events
