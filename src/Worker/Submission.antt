-- ===== src/Worker/Submission.antt =====
-- submitResult of worker-protocol-service.ts: the result is handed over in one transaction, and
-- committed in a second one.
use factory_floor.Common.{
  ℕ, ◌==◌, ◌&&◌, ◌++◌, Bool, true, false, Option, none, some, List, [], ◌∷◌, length, if◌then◌else◌,
  leb, first_where, Result, ok, err,
}
use factory_floor.Tables.{Db, Submission, Uuid, Digest}
use factory_floor.Tables.Kinds.{is_staged, Fault}
use factory_floor.Tables.Proposed.{ProposedResult, Staged}
use factory_floor.Commit.Steps.{
  CommitError, CommitCode, commit_error, thrown, Env, Draw, external_action_unauthorized,
  invalid_staged_artifact,
}
use factory_floor.Commit.Staged.{schema_digest_of}
use factory_floor.Commit.Submit.{commit_submitted_result, is_submitted_by}
use factory_floor.Worker.Normalize.{
  WorkerErrorCode, WorkerProtocolError, AttemptIdentityInput, AttemptIdentity,
  normalize_attempt_identity, StagedArtifactInput, normalize_staged_artifact,
  unauthorized_staging_reference, capability_denied,
}
use factory_floor.Worker.Attempts.{active_attempt, refused}

abbrev schema_digest_is : Option ℕ → ℕ → Bool
schema_digest_is none d = false
schema_digest_is (some a) d = a == d

-- the staging row of the reference says what the worker says
unfoldable pub matches_staging : Uuid → Db → Staged → Bool
matches_staging attempt_id db staged =
    elim (first_where (λ s. s.attempt_id == attempt_id && s.staged_ref == staged.staging_id)
      db.staging) [
        | none ↦ false
        | some row ↦
            is_staged row.status
            && (row.digest == staged.digest
                && (row.size_bytes == staged.size_bytes
                    && (row.schema_id == staged.schema_id
                        && (schema_digest_is (schema_digest_of row db.schemas) staged.schema_digest
                            && row.media_type == staged.media_type))))
      ]

-- validateStagedArtifacts
unfoldable pub validate_staged_artifacts :
    Uuid → Db → List Staged → Result WorkerProtocolError (Unit {0})
unfolding matches_staging
validate_staged_artifacts attempt_id db [] = ok tt
validate_staged_artifacts attempt_id db (staged ∷ rest) =
    let others = validate_staged_artifacts attempt_id db rest in
    if matches_staging attempt_id db staged
    then others
    else err
        (record { code = unauthorized_staging_reference; retryable = false; status_code = 403 })

abbrev pub new_submission : Env → ProposedResult → Digest → Db → Submission
new_submission env input digest db = record {
  id = env.uuid Draw.submission (length db.submissions);
  execution_id = input.execution_id;
  attempt_id = input.attempt_id;
  submission_digest = digest;
  result = input;
  created_at = env.now;
  committed_at = none;
}

abbrev pub staged_of : ProposedResult → List Staged
staged_of input =
    input.staged_artifacts ++ elim input.proposed_state [ none ↦ [] | some s ↦ s ∷ [] ]

-- the checks of a new hand-over, after its row is inserted
unfoldable pub check_hand_over :
    Env → AttemptIdentity → ProposedResult → Db → Result WorkerProtocolError (Bool × Db)
unfolding active_attempt validate_staged_artifacts
check_hand_over env attempt input db = elim (active_attempt attempt env.now db) [
  | err e ↦ err e
  | ok row ↦ elim (validate_staged_artifacts input.attempt_id db (staged_of input)) [
    | err e ↦ err e
    | ok u ↦ ok (false, db)
  ]
]

-- the transaction of the hand-over: whether it is a duplicate
unfoldable pub hand_over :
    Env → AttemptIdentity → ProposedResult → Digest → Db → Result WorkerProtocolError (Bool × Db)
unfolding check_hand_over
hand_over env attempt input digest db =
    elim (first_where (is_submitted_by input.attempt_id) db.submissions) [
      | some s ↦
          if s.submission_digest == digest
          then ok (true, db)
          else err (refused WorkerErrorCode.duplicate_conflicting_result false)
      | none ↦
          check_hand_over env attempt input
            (record db { submissions = db.submissions ++ new_submission env input digest db ∷ [] })
    ]

-- the code of a commit error, two of them renamed and the others passed on as they are
pub data ReportedCode : Type 0 where
  worker_code : WorkerErrorCode → ReportedCode
  commit_code : CommitCode → ReportedCode

abbrev pub reported : CommitCode → ReportedCode
reported external_action_unauthorized = worker_code capability_denied
reported invalid_staged_artifact = worker_code unauthorized_staging_reference
reported code = commit_code code

pub data SubmitError : Type 0 where
  protocol : WorkerProtocolError → SubmitError
  uncommitted : (code : ReportedCode) (retryable : Bool) (status_code : ℕ) → SubmitError
  failed : Fault → SubmitError

-- what commitSubmittedResult threw
unfoldable pub submit_error : CommitError → SubmitError
submit_error (thrown f) = failed f
submit_error (commit_error code status) = uncommitted (reported code) (leb 500 status) status

-- the commit, once the hand-over stands
unfoldable pub commit_hand_over : Env → Uuid → Bool → Db → Result SubmitError Bool × Db
unfolding commit_submitted_result submit_error
commit_hand_over env attempt_id duplicate db =
    let (answer, db') = commit_submitted_result env attempt_id false db in
    (elim answer [ ok disposition ↦ ok duplicate | err e ↦ err (submit_error e) ], db')

unfoldable pub submit_normalized :
    Env → AttemptIdentity → ProposedResult → Digest → Db → Result SubmitError Bool × Db
unfolding hand_over commit_hand_over
submit_normalized env attempt input digest db = elim (hand_over env attempt input digest db) [
  | err e ↦ (err (protocol e), db)
  | ok (duplicate, db') ↦ commit_hand_over env input.attempt_id duplicate db'
]

unfoldable pub normalize_all : List StagedArtifactInput → Result WorkerProtocolError (List Staged)
unfolding normalize_staged_artifact
normalize_all [] = ok []
normalize_all (a ∷ as') =
    let rest = normalize_all as' in
    elim (normalize_staged_artifact a) [
      | err e ↦ err e
      | ok staged ↦ elim rest [ err e ↦ err e | ok others ↦ ok (staged ∷ others) ]
    ]

unfoldable pub normalize_state :
    Option StagedArtifactInput → Result WorkerProtocolError (Option Staged)
unfolding normalize_staged_artifact
normalize_state none = ok none
normalize_state (some a) = elim (normalize_staged_artifact a) [
  | err e ↦ err e
  | ok staged ↦ ok (some staged)
]

-- submitResult: `body` holds the members that are passed on, `digest` is that of the whole input
unfoldable pub submit_result :
    Env
    → AttemptIdentityInput
    → List StagedArtifactInput
    → Option StagedArtifactInput
    → ProposedResult
    → Digest
    → Db
    → Result SubmitError Bool × Db
unfolding normalize_attempt_identity normalize_all normalize_state submit_normalized
submit_result env input staged state body digest db = elim (normalize_attempt_identity input) [
  | err e ↦ (err (protocol e), db)
  | ok attempt ↦ elim (normalize_all staged) [
    | err e ↦ (err (protocol e), db)
    | ok outputs ↦ elim (normalize_state state) [
      | err e ↦ (err (protocol e), db)
      | ok proposed ↦
          submit_normalized env attempt
            (record body {
              execution_id = attempt.execution_id;
              attempt_id = attempt.attempt_id;
              lease_token = attempt.lease_token;
              lifecycle_epoch = attempt.region_fencing_epoch;
              staged_artifacts = outputs;
              proposed_state = proposed;
            })
            digest db
    ]
  ]
]
