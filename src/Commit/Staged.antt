-- ===== src/Commit/Staged.antt =====
-- validateStaged and publishArtifact of execution-commit-service.ts, and the loop over the staged
-- outputs of a result.
use factory_floor.Common.{
  ℕ, ◌==◌, ◌&&◌, ◌++◌, Bool, true, false, not, Option, none, some, List, [], ◌∷◌, if◌then◌else◌,
  length, any_row, first_where, set_where, ok, err, ◌>>=◌, ◌>>◌,
}
use factory_floor.Tables.{Db, PortDefinition, Staging, Upload, Artifact, ArtifactSchema, Uuid, Name}
use factory_floor.Tables.Kinds.{
  Direction, DerivationType, ArtifactState, is_staged, is_tombstoned, is_completed,
}
use factory_floor.Tables.Proposed.{ProposedResult, Staged}
use factory_floor.Artifacts.Validation.{validate_staged_artifact}
use factory_floor.Commit.Steps.{
  Commit, Env, Draw, require, done, query, write, found, commit_error, undeclared_output_port,
  invalid_staged_artifact, blob_store_unavailable, artifact_conflict,
}
use factory_floor.Commit.Authority.{is_execution_source}

abbrev pub same_direction : Direction → Direction → Bool
same_direction Direction.input Direction.input = true
same_direction Direction.output Direction.output = true
same_direction Direction.state Direction.state = true
same_direction _ _ = false

-- the staging row of a reference, with its schema's digest and its upload's port
abbrev pub upload_port : Staging → List Upload → Option Name
upload_port row uploads =
    elim (first_where (λ u. elim u.artifact_staging_id [ none ↦ false | some id ↦ id == row.id ])
      uploads) [ none ↦ none | some u ↦ some u.port_name ]

abbrev pub schema_digest_of : Staging → List ArtifactSchema → Option ℕ
schema_digest_of row schemas = elim (first_where (λ s. s.id == row.schema_id) schemas) [
  | none ↦ none
  | some s ↦ some s.content_digest
]

abbrev is_option : Option ℕ → ℕ → Bool
is_option none a = false
is_option (some b) a = b == a

-- the row says what the worker says
unfoldable pub is_authoritative : ProposedResult → Staged → PortDefinition → Db → Staging → Bool
is_authoritative input staged port db row =
    row.attempt_id == input.attempt_id
    && (is_staged row.status
        && (row.digest == staged.digest
            && (row.size_bytes == staged.size_bytes
                && (row.schema_id == staged.schema_id
                    && (port.schema_id == staged.schema_id
                        && (row.media_type == staged.media_type
                            && (is_option (schema_digest_of row db.schemas) staged.schema_digest
                                && (is_option (upload_port row db.uploads) staged.port_name
                                    && is_execution_source staged.provenance input.execution_id
                                        input.attempt_id))))))))

-- the content of the blob, for a completed result
unfoldable pub validate_content : Env → ProposedResult → Staging → Commit (Unit {0})
validate_content env input row db =
    if not (is_completed input.status)
    then ok (tt, db)
    else if not env.has_blob_store
    then err (commit_error blob_store_unavailable 503)
    else elim (validate_staged_artifact env.validator env.receipts row.id db) [
      | ok _ ↦ ok (tt, db)
      | err _ ↦ err (commit_error invalid_staged_artifact 400)
    ]

-- validateStaged
unfoldable pub validate_staged :
    Env → ProposedResult → Staged → List PortDefinition → Direction → Commit Staging
unfolding found query require done validate_content is_authoritative
validate_staged env input staged ports direction = do
  port ←
      found
        (λ _.
          first_where (λ p. same_direction p.direction direction && p.name == staged.port_name)
            ports)
        (commit_error undeclared_output_port 400)
  row ←
      found (λ db. first_where (λ s. s.staged_ref == staged.staging_id) db.staging)
        (commit_error invalid_staged_artifact 400)
  authoritative ← query (λ db. is_authoritative input staged port db row)
  require authoritative invalid_staged_artifact 400
  validate_content env input row
  done row

abbrev pub is_compatible : Artifact → Staging → Bool
is_compatible artifact row =
    artifact.size_bytes == row.size_bytes
    && (artifact.schema_id == row.schema_id
        && (artifact.media_type == row.media_type && not (is_tombstoned artifact.state)))

abbrev pub committed_artifact : Staging → Uuid → Artifact
committed_artifact row id = record {
  id = id;
  digest = row.digest;
  size_bytes = row.size_bytes;
  schema_id = row.schema_id;
  media_type = row.media_type;
  state = ArtifactState.committed;
}

-- lockArtifactByDigest, or createCommittedArtifactIdempotently
unfoldable pub artifact_for : Env → Staging → Commit Artifact
artifact_for env row db = elim (first_where (λ a. a.digest == row.digest) db.artifacts) [
  | some a ↦ if is_compatible a row then ok (a, db) else err (commit_error artifact_conflict 409)
  | none ↦
      let a = committed_artifact row (env.uuid Draw.artifact (length db.artifacts)) in
      ok (a, record db { artifacts = db.artifacts ++ a ∷ [] })
]

-- linkStagingRowToArtifact and the derivation
unfoldable pub link_artifact : Env → ProposedResult → Staging → Artifact → DerivationType → Db → Db
link_artifact env input row artifact kind db = record db {
  staging =
      set_where (λ s. s.id == row.id) (λ s. record s { artifact_id = some artifact.id }) db.staging;
  derivations =
      db.derivations
      ++ record {
        id = env.uuid Draw.derivation (length db.derivations);
        artifact_id = artifact.id;
        execution_id = input.execution_id;
        attempt_id = input.attempt_id;
        derivation_type = kind;
      }
        ∷ [];
}

-- publishArtifact
unfoldable pub publish_artifact : Env → ProposedResult → Staging → DerivationType → Commit Uuid
unfolding artifact_for link_artifact write done
publish_artifact env input row kind = do
  artifact ← artifact_for env row
  write (link_artifact env input row artifact kind)
  done artifact.id

-- artifactIds of a commit: the artifact of each staging id
abbrev pub ArtifactIds : Type 0
ArtifactIds = List (Uuid × Uuid)

unfoldable pub artifact_id_of : Uuid → ArtifactIds → Option Uuid
artifact_id_of staging_id [] = none
artifact_id_of staging_id ((s, a) ∷ ids) =
    if s == staging_id then some a else artifact_id_of staging_id ids

-- a completed result publishes what it staged
unfoldable pub publish_completed :
    Env → ProposedResult → Staging → DerivationType → ArtifactIds → Uuid → Bool → Commit ArtifactIds
unfolding publish_artifact done
publish_completed env input row kind ids staging_id true = do
  id ← publish_artifact env input row kind
  done ((staging_id, id) ∷ ids)
publish_completed env input row kind ids staging_id false = done ids

-- one staged output or state
unfoldable pub commit_staged :
    Env
    → ProposedResult
    → List PortDefinition
    → Direction
    → DerivationType
    → ArtifactIds
    → Staged
    → Commit ArtifactIds
unfolding validate_staged publish_completed
commit_staged env input ports direction kind ids staged = do
  row ← validate_staged env input staged ports direction
  publish_completed env input row kind ids staged.staging_id (is_completed input.status)

-- the loop over stagedArtifacts; `seen` refuses a second reference
unfoldable pub commit_outputs :
    Env
    → ProposedResult
    → List PortDefinition
    → List Uuid
    → ArtifactIds
    → List Staged
    → Commit (List Uuid × ArtifactIds)
unfolding commit_staged require done
commit_outputs env input ports seen ids [] = done (seen, ids)
commit_outputs env input ports seen ids (staged ∷ rest) = do
  require (not (any_row (λ s. s == staged.staging_id) seen)) invalid_staged_artifact 400
  ids' ← commit_staged env input ports Direction.output DerivationType.execution_output ids staged
  commit_outputs env input ports (staged.staging_id ∷ seen) ids' rest

-- proposedState
unfoldable pub commit_state :
    Env
    → ProposedResult
    → List PortDefinition
    → List Uuid
    → ArtifactIds
    → Option Staged
    → Commit ArtifactIds
unfolding commit_staged require done
commit_state env input ports seen ids none = done ids
commit_state env input ports seen ids (some staged) = do
  require (not (any_row (λ s. s == staged.staging_id) seen)) invalid_staged_artifact 400
  commit_staged env input ports Direction.state DerivationType.state_version ids staged
