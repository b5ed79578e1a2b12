-- ===== src/Commit/Rollback.antt =====
-- The error path of commit in execution-commit-service.ts.
use factory_floor.Common.{◌==◌, ◌||◌, Bool, false, not, is_some, ltb}
use factory_floor.Tables.{Submission, Digest, Uuid}
use factory_floor.Commit.Steps.{CommitError, commit_error, thrown}

-- A submission that is committed, or of another attempt, or with another digest.
abbrev pub is_kept : Uuid → Digest → Submission → Bool
is_kept attempt_id digest s =
    is_some s.committed_at
    || (not (s.attempt_id == attempt_id) || not (s.submission_digest == digest))

-- an ExecutionCommitError with a status below 500
abbrev pub is_refusal : CommitError → Bool
is_refusal (commit_error code status) = ltb status 500
is_refusal (thrown f) = false
