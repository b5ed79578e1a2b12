-- ===== src/Worker/Upload.antt =====
-- upload of worker-protocol-service.ts: the reference is authorised, the blob store takes the
-- bytes, and a transaction writes their staging row.
use factory_floor.Common.{
  ℕ, ◌==◌, ◌&&◌, ◌||◌, ◌++◌, Bool, true, not, Option, none, some, List, [], ◌∷◌, if◌then◌else◌, leb,
  first_where, any_row, set_where, or_else, Result, ok, err,
}
use factory_floor.Tables.{Db, Upload, Staging, Uuid, Name, Digest, Millis}
use factory_floor.Tables.Kinds.{StagingStatus, Fault, no_result}
use factory_floor.Worker.Normalize.{
  WorkerProtocolError, AttemptIdentity, AttemptIdentityInput, normalize_attempt_identity,
  internal_transient_failure, invalid,
}
use factory_floor.Worker.Attempts.{active_attempt}
use factory_floor.Worker.Staging.{denied}

-- the codes of ArtifactBlobStoreError
pub data BlobCode : Type 0 where
  invalid_staging_id invalid_digest invalid_size not_found digest_mismatch size_mismatch
        staging_conflict committed_conflict unsafe_path :
      BlobCode

pub record StageReceipt : Type 0 where
  pub digest : Digest
  pub size : ℕ
  pub staged_locator : Name

-- blobStore.stage of one stream, on the reference and what is expected of it
abbrev pub BlobStore : Type 0
BlobStore = Uuid → Digest → ℕ → Result BlobCode StageReceipt

pub data UploadError : Type 0 where
  refused_upload : WorkerProtocolError → UploadError
  blob_error : BlobCode → UploadError
  missing_row : Fault → UploadError

-- the blob store's errors that a worker is told, and those that are thrown again
abbrev pub upload_error : BlobCode → UploadError
upload_error digest_mismatch = refused_upload invalid
upload_error size_mismatch = refused_upload invalid
upload_error invalid_digest = refused_upload invalid
upload_error invalid_size = refused_upload invalid
upload_error staging_conflict = refused_upload (denied 409)
upload_error code = blob_error code

abbrev pub is_authorized_by : AttemptIdentity → Upload → Bool
is_authorized_by attempt u =
    u.execution_id == attempt.execution_id
    && (u.attempt_id == attempt.attempt_id && u.lifecycle_epoch == attempt.region_fencing_epoch)

abbrev pub is_staged_as : Uuid → Upload → Bool
is_staged_as staged_ref u = u.staged_ref == staged_ref

-- before the bytes are taken
unfoldable pub authorize_upload :
    Uuid → AttemptIdentity → Millis → Db → Result WorkerProtocolError Upload
unfolding active_attempt
authorize_upload staged_ref attempt now db = elim (active_attempt attempt now db) [
  | err e ↦ err e
  | ok row ↦
      elim (first_where (λ u. is_staged_as staged_ref u && is_authorized_by attempt u) db.uploads) [
        | none ↦ err (denied 403)
        | some u ↦ if leb u.expires_at now then err (denied 403) else ok u
      ]
]

abbrev pub is_staging_of : Uuid → Uuid → Staging → Bool
is_staging_of attempt_id staged_ref s = s.attempt_id == attempt_id && s.staged_ref == staged_ref

abbrev pub new_staging : AttemptIdentity → Uuid → Upload → StageReceipt → Staging
new_staging attempt fresh u receipt = record {
  id = or_else u.artifact_staging_id fresh;
  staged_ref = u.staged_ref;
  attempt_id = attempt.attempt_id;
  digest = receipt.digest;
  size_bytes = receipt.size;
  schema_id = u.schema_id;
  media_type = u.media_type;
  locator = receipt.staged_locator;
  status = StagingStatus.staged;
  artifact_id = none;
}

-- insert … on conflict (attempt_id, staged_ref) do nothing
unfoldable pub insert_staging : Staging → List Staging → List Staging
insert_staging s rows =
    if any_row (is_staging_of s.attempt_id s.staged_ref) rows then rows else rows ++ s ∷ []

abbrev pub is_same_content : Upload → StageReceipt → Staging → Bool
is_same_content u receipt s =
    s.digest == receipt.digest
    && (s.size_bytes == receipt.size
        && (s.schema_id == u.schema_id
            && (s.media_type == u.media_type && s.locator == receipt.staged_locator)))

abbrev pub mark_uploaded : Millis → Uuid → Upload → Upload
mark_uploaded now staging_id u = record u {
  uploaded_at = some now;
  artifact_staging_id = some staging_id;
}

-- the row that is there after the insert has the content, or the upload is refused
unfoldable pub link_staging :
    AttemptIdentity → Millis → Upload → StageReceipt → Db → Result UploadError Db
link_staging attempt now u receipt db =
    elim (first_where (is_staging_of attempt.attempt_id u.staged_ref) db.staging) [
      | none ↦ err (missing_row no_result)
      | some s ↦
          if is_same_content u receipt s
          then ok (record db {
            uploads = set_where (λ x. x.id == u.id) (mark_uploaded now s.id) db.uploads;
          })
          else err (refused_upload (denied 409))
    ]

-- the transaction after the bytes were taken
unfoldable pub record_upload :
    Uuid → AttemptIdentity → (fresh : Uuid) → StageReceipt → Millis → Db → Result UploadError Db
unfolding active_attempt insert_staging link_staging
record_upload staged_ref attempt fresh receipt now db = elim (active_attempt attempt now db) [
  | err e ↦ err (refused_upload e)
  | ok row ↦ elim (first_where (is_staged_as staged_ref) db.uploads) [
    | none ↦ err (refused_upload (denied 403))
    | some u ↦
        if not (is_authorized_by attempt u) || leb u.expires_at now
        then err (refused_upload (denied 403))
        else link_staging attempt now u receipt (record db {
          staging = insert_staging (new_staging attempt fresh u receipt) db.staging;
        })
  ]
]

-- upload with a blob store and a normalized attempt; `later` and `db'` are the time and the database
-- of the transaction that follows the transfer
unfoldable pub upload_for :
    BlobStore
    → Uuid
    → AttemptIdentity
    → (fresh : Uuid) → (now later : Millis) → (db db' : Db) → Result UploadError (StageReceipt × Db)
unfolding authorize_upload record_upload
upload_for store staged_ref attempt fresh now later db db' =
    elim (authorize_upload staged_ref attempt now db) [
      | err e ↦ err (refused_upload e)
      | ok u ↦ elim (store staged_ref u.expected_digest u.expected_size_bytes) [
        | err code ↦ err (upload_error code)
        | ok receipt ↦ elim (record_upload staged_ref attempt fresh receipt later db') [
          | err e ↦ err e
          | ok db'' ↦ ok (receipt, db'')
        ]
      ]
    ]

abbrev unconfigured : WorkerProtocolError
unconfigured = record { code = internal_transient_failure; retryable = true; status_code = 503 }

-- upload
unfoldable pub upload :
    Option BlobStore
    → Uuid
    → AttemptIdentityInput
    → (fresh : Uuid) → (now later : Millis) → (db db' : Db) → Result UploadError (StageReceipt × Db)
unfolding normalize_attempt_identity upload_for
upload none staged_ref input fresh now later db db' = err (refused_upload unconfigured)
upload (some store) staged_ref input fresh now later db db' =
    elim (normalize_attempt_identity input) [
      | err e ↦ err (refused_upload e)
      | ok attempt ↦ upload_for store staged_ref attempt fresh now later db db'
    ]
