-- ===== src/Worker/Refusals.antt =====
-- What a submitResult of worker-protocol-service.ts that fails leaves of the result it was given.
use factory_floor.Common.{
  ◌≡◌, refl, ◌++◌, Bool, true, false, none, some, [], ◌∷◌, first_where, first_where-insert, leb,
  ==_refl,
}
use factory_floor.Tables.{Db, Submission, Digest}
use factory_floor.Tables.Proposed.{ProposedResult}
use factory_floor.Commit.Steps.{Env}
use factory_floor.Commit.Submit.{commit, commit_submitted_result, is_submitted_by}
use factory_floor.Worker.Normalize.{AttemptIdentity}
use factory_floor.Worker.Submission.{new_submission, SubmitError, protocol, uncommitted, failed}

-- An error of the server's side: the result may still be committed later.
abbrev pub leaves_pending : SubmitError → Bool
leaves_pending (protocol e) = false
leaves_pending (uncommitted code retryable status) = leb 500 status
leaves_pending (failed f) = true

-- The database with the result handed over and not committed.
abbrev pub with_pending : Env → ProposedResult → Digest → Db → Db
with_pending env input digest db = record db {
  submissions = db.submissions ++ new_submission env input digest db ∷ [];
}

module _ (env : Env) (attempt : AttemptIdentity) (input : ProposedResult) (digest : Digest)
    (db : Db) (new : first_where (is_submitted_by input.attempt_id) db.submissions ≡ none) where
  submitted :
      commit_submitted_result env input.attempt_id false (with_pending env input digest db)
      ≡ commit env input digest false (with_pending env input digest db)
  unfolding commit_submitted_result
  submitted =
      let s = new_submission env input digest db in
      let found : first_where (is_submitted_by input.attempt_id) (db.submissions ++ s ∷ [])
          ≡ some s =
        first_where-insert (is_submitted_by input.attempt_id) db.submissions s new
          (==_refl input.attempt_id) in
      rw (commit_submitted_result, found) refl
