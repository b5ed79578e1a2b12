-- ===== src/Artifacts/Validation.antt =====
-- packages/runtime-core/src/artifacts/artifact-validation-service.ts. What the blob store holds
-- under a staged reference, and the JSON Schema validator, are parameters; `is_json_media_type`
-- reads the media type's text.
pub mod Receipts
use factory_floor.Common.{
  ℕ, ◌==◌, ◌&&◌, Bool, true, false, not, Option, none, some, List, Result, ok, err, if◌then◌else◌,
  ltb, first_where, is_some,
}
use factory_floor.Tables.{Db, Staging, ArtifactSchema, Uuid, Name, Json, Digest}
use factory_floor.Tables.Kinds.{is_staged}
use Receipts.{Receipt, fingerprint, is_remembered, remember_receipt}

-- The bytes of a staged object: their number, their sha256, and what JSON.parse makes of them.
pub record Blob : Type 0 where
  pub size : ℕ
  pub digest : Digest
  pub parsed : Option Json

-- `read_staged` has no blob where the store throws, `conforms` no answer where the schema does not
-- compile.
pub record Validator : Type 0 where
  pub read_staged : Uuid → Option Blob
  pub conforms : Json → Json → Option Bool
  pub is_json_media_type : Name → Bool
  pub max_json_bytes : ℕ

-- ArtifactErrorCode, and what the blob store and the compilation of a schema throw
pub data ArtifactError : Type 0 where
  staging_not_found staging_not_active schema_not_found unsupported_media_type artifact_too_large
        invalid_json schema_validation_failed digest_mismatch size_mismatch blob_error
        schema_error :
      ArtifactError

-- What validateStagedArtifact answers: no instance where it was not read again.
pub record Validated : Type 0 where
  pub row : Staging
  pub schema : ArtifactSchema
  pub instance_ : Option Json
  pub cached : Bool

module _ (v : Validator) where
  -- the parsed content against the schema
  unfoldable pub validate_instance : ArtifactSchema → Json → Result ArtifactError Json
  validate_instance schema instance_ = elim (v.conforms schema.schema instance_) [
    | none ↦ err schema_error
    | some true ↦ ok instance_
    | some false ↦ err schema_validation_failed
  ]

  -- from the bytes on
  unfoldable pub validate_bytes : Staging → ArtifactSchema → Blob → Result ArtifactError Json
  unfolding validate_instance
  validate_bytes row schema blob =
      if ltb v.max_json_bytes blob.size
      then err artifact_too_large
      else if not (blob.digest == row.digest)
      then err digest_mismatch
      else if not (blob.size == row.size_bytes)
      then err size_mismatch
      else elim blob.parsed [
        | none ↦ err invalid_json
        | some instance_ ↦ validate_instance schema instance_
      ]

  -- from the reading of the staged object on
  unfoldable pub read_and_validate : Staging → ArtifactSchema → Result ArtifactError Json
  unfolding validate_bytes
  read_and_validate row schema = elim (v.read_staged row.staged_ref) [
    | none ↦ err blob_error
    | some blob ↦ validate_bytes row schema blob
  ]

  -- a live schema
  unfoldable pub authoritative_schema : Uuid → List ArtifactSchema → Option ArtifactSchema
  authoritative_schema id schemas = elim (first_where (λ s. s.id == id) schemas) [
    | none ↦ none
    | some s ↦ if is_some s.retired_at then none else some s
  ]

  -- a remembered fingerprint is not read again
  unfoldable pub validate_unless_remembered :
      List Receipt → Staging → ArtifactSchema → Result ArtifactError (Validated × List Receipt)
  unfolding is_remembered remember_receipt read_and_validate
  validate_unless_remembered receipts row schema =
      if is_remembered (fingerprint row schema) receipts
      then ok (record { row = row; schema = schema; instance_ = none; cached = true }, receipts)
      else elim (read_and_validate row schema) [
        | err e ↦ err e
        | ok json ↦ ok (
          record { row = row; schema = schema; instance_ = some json; cached = false },
          remember_receipt (fingerprint row schema) receipts,
        )
      ]

  -- validateStagedArtifact, with the receipts of the process: the new ones come back
  unfoldable pub validate_staged_artifact :
      List Receipt → Uuid → Db → Result ArtifactError (Validated × List Receipt)
  unfolding validate_unless_remembered authoritative_schema
  validate_staged_artifact receipts id db = elim (first_where (λ s. s.id == id) db.staging) [
    | none ↦ err staging_not_found
    | some row ↦
        if not (is_staged row.status)
        then err staging_not_active
        else elim (authoritative_schema row.schema_id db.schemas) [
          | none ↦ err schema_not_found
          | some schema ↦
              if not (v.is_json_media_type row.media_type)
              then err unsupported_media_type
              else validate_unless_remembered receipts row schema
        ]
  ]
