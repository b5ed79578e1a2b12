-- ===== src/Worker/Normalize.antt =====
-- The normalisers of worker-protocol-service.ts: both names of the protocol's versions, of which
-- at least one is given and two agree. A selector is a name after trim(), or blank.
use factory_floor.Common.{
  ℕ, ◌==◌, ◌&&◌, Bool, true, false, not, Option, none, some, List, [], ◌∷◌, length, if◌then◌else◌,
  any_row, all_rows, Result, ok, err,
}
use factory_floor.Common.Ints.{ℤ, pos, negsuc}
use factory_floor.Tables.{Uuid, Name}
use factory_floor.Tables.Proposed.{Staged}

-- WorkerErrorCode
pub data WorkerErrorCode : Type 0 where
  invalid_request no_work inactive_attempt lease_expired stale_lease_token stale_lifecycle_epoch
        cancellation_requested unauthorized_staging_reference capability_denied
        duplicate_conflicting_result unsupported_protocol_version internal_transient_failure :
      WorkerErrorCode

-- WorkerProtocolError
pub record WorkerProtocolError : Type 0 where
  pub code : WorkerErrorCode
  pub retryable : Bool
  pub status_code : ℕ

abbrev pub invalid : WorkerProtocolError
invalid = record { code = invalid_request; retryable = false; status_code = 400 }

-- A number that JavaScript gives: an integer, or one that Number.isInteger refuses.
pub data Number : Type 0 where
  whole : ℤ → Number
  fraction : ℕ → Number

abbrev pub same_number : Number → Number → Bool
same_number (whole (pos a)) (whole (pos b)) = a == b
same_number (whole (negsuc a)) (whole (negsuc b)) = a == b
same_number (fraction a) (fraction b) = a == b
same_number _ _ = false

pub record AttemptIdentityInput : Type 0 where
  pub execution_id : Uuid
  pub attempt_id : Uuid
  pub lease_token : ℕ
  pub region_fencing_epoch : Option Number
  pub lifecycle_epoch : Option Number

pub record AttemptIdentity : Type 0 where
  pub execution_id : Uuid
  pub attempt_id : Uuid
  pub lease_token : ℕ
  pub region_fencing_epoch : ℕ

-- both names are given and differ
abbrev pub conflicts : Option Number → Option Number → Bool
conflicts (some a) (some b) = not (same_number a b)
conflicts _ _ = false

abbrev pub first_given : Option Number → Option Number → Option Number
first_given none b = b
first_given (some a) b = some a

unfoldable pub normalize_attempt_identity :
    AttemptIdentityInput → Result WorkerProtocolError AttemptIdentity
normalize_attempt_identity input =
    if conflicts input.region_fencing_epoch input.lifecycle_epoch
    then err invalid
    else elim (first_given input.region_fencing_epoch input.lifecycle_epoch) [
      | none ↦ err invalid
      | some (fraction n) ↦ err invalid
      | some (whole (negsuc n)) ↦ err invalid
      | some (whole (pos epoch)) ↦ ok (record {
        execution_id = input.execution_id;
        attempt_id = input.attempt_id;
        lease_token = input.lease_token;
        region_fencing_epoch = epoch;
      })
    ]

pub data Selector : Type 0 where
  blank : Selector
  trimmed : Name → Selector

abbrev pub is_blank : Selector → Bool
is_blank blank = true
is_blank (trimmed n) = false

-- [...new Set(values)]: each name once, at its first place
unfoldable pub unique_names : List Name → List Selector → List Name
unique_names seen [] = []
unique_names seen (blank ∷ vs) = unique_names seen vs
unique_names seen (trimmed n ∷ vs) =
    let rest = unique_names (n ∷ seen) vs in if any_row (λ m. m == n) seen then rest else n ∷ rest

unfoldable pub normalize_selectors :
    Option (List Selector) → Result WorkerProtocolError (Option (List Name))
unfolding unique_names
normalize_selectors none = ok none
normalize_selectors (some values) =
    if all_rows (λ v. not (is_blank v)) values
    then ok (some (unique_names [] values))
    else err invalid

unfoldable pub same_selector_set : List Name → List Name → Bool
same_selector_set left right =
    length left == length right && all_rows (λ n. any_row (λ m. m == n) right) left

unfoldable pub choose_selectors :
    Option (List Name) → Option (List Name) → Result WorkerProtocolError (List Name)
unfolding same_selector_set
choose_selectors none none = err invalid
choose_selectors none (some legacy) = ok legacy
choose_selectors (some canonical) none = ok canonical
choose_selectors (some canonical) (some legacy) =
    if same_selector_set canonical legacy then ok canonical else err invalid

-- normalizeComponentSelectors
unfoldable pub normalize_component_selectors :
    Option (List Selector) → Option (List Selector) → Result WorkerProtocolError (List Name)
unfolding normalize_selectors choose_selectors
normalize_component_selectors component_selectors capabilities =
    elim (normalize_selectors component_selectors) [
      | err e ↦ err e
      | ok canonical ↦ elim (normalize_selectors capabilities) [
        | err e ↦ err e
        | ok legacy ↦ choose_selectors canonical legacy
      ]
    ]

-- A staging reference: a text, or the empty text.
pub data Reference : Type 0 where
  empty_reference : Reference
  reference : Uuid → Reference

abbrev pub same_reference : Reference → Reference → Bool
same_reference empty_reference empty_reference = true
same_reference (reference a) (reference b) = a == b
same_reference _ _ = false

-- StagedArtifactInput; the members besides the reference are those of `staged`
pub record StagedArtifactInput : Type 0 where
  pub staging_ref : Option Reference
  pub staging_id : Option Reference
  pub staged : Staged

abbrev pub references_conflict : Option Reference → Option Reference → Bool
references_conflict (some a) (some b) = not (same_reference a b)
references_conflict _ _ = false

abbrev pub reference_given : Option Reference → Option Reference → Option Reference
reference_given none b = b
reference_given (some a) b = some a

-- normalizeStagedArtifact, and toWorkerV1StagedArtifact
unfoldable pub normalize_staged_artifact : StagedArtifactInput → Result WorkerProtocolError Staged
normalize_staged_artifact artifact =
    if references_conflict artifact.staging_ref artifact.staging_id
    then err invalid
    else elim (reference_given artifact.staging_ref artifact.staging_id) [
      | none ↦ err invalid
      | some empty_reference ↦ err invalid
      | some (reference id) ↦ ok (record staged { staging_id = id })
    ]
  where
    open artifact use {staged}
