-- ===== src/Commit/Submit.antt =====
-- commit and commitSubmittedResult of execution-commit-service.ts. The promotion of blobs after
-- the transaction is I/O of the blob store and is left out.
use factory_floor.Common.{
  ◌==◌, ◌&&◌, ◌||◌, ◌++◌, Bool, true, false, not, Option, none, some, List, [], ◌∷◌, map, length,
  if◌then◌else◌, leb, ltb, any_row, first_where, rows_where, set_where, delete_where, order_by,
  is_some, Result, ok, err, ◌>>=◌, ◌>>◌,
}
use factory_floor.Tables.{
  Db, Attempt, Execution, Region, ComponentInstance, Delivery, Submission, PortDefinition, Uuid,
  Digest,
}
use factory_floor.Tables.Kinds.{is_active, is_executing, is_completed, no_result}
use factory_floor.Tables.Proposed.{ProposedResult}
use factory_floor.Tables.Triggers.{is_input_of}
use factory_floor.Commit.Steps.{
  Commit, CommitError, Env, Draw, require, done, query, write, found, commit_error, thrown,
  inactive_attempt, duplicate_conflicting_result, external_action_unauthorized,
}
use factory_floor.Commit.Authority.{
  assert_authority, validate_resource_usage, validate_proposed_events,
}
use factory_floor.Commit.Staged.{ArtifactIds, commit_outputs, commit_state}
use factory_floor.Commit.Actions.{publish_external_actions}
use factory_floor.Commit.Publish.{write_resource_usage}
use factory_floor.Commit.Finish.{Disposition, duplicate, complete, fail_or_retry}

-- the deliveries that are inputs of the execution, by id
unfoldable pub input_deliveries : Uuid → Db → List Delivery
unfolding is_input_of
input_deliveries execution_id db =
    order_by (λ a b. leb a.id b.id)
      (rows_where (λ d. is_input_of execution_id db.inputs d.id) db.deliveries)

-- the rows that the transaction locks
pub record Locked : Type 0 where
  pub attempt : Attempt
  pub execution : Execution
  pub region : Region
  pub component : ComponentInstance
  pub deliveries : List Delivery

abbrev pub is_submitted_by : Uuid → Submission → Bool
is_submitted_by attempt_id s = s.attempt_id == attempt_id

-- the attempt and its execution
unfoldable pub lock_attempt : ProposedResult → Commit (Attempt × Execution)
unfolding found done
lock_attempt input = do
  attempt ←
      found
        (λ db.
          first_where (λ a. a.id == input.attempt_id && a.execution_id == input.execution_id)
            db.attempts)
        (commit_error inactive_attempt 409)
  execution ←
      found (λ db. first_where (λ e. e.id == input.execution_id) db.executions)
        (commit_error inactive_attempt 409)
  done (attempt, execution)

-- the region, the component, the topology revision and the inputs
unfoldable pub lock_context : Attempt → Execution → Commit Locked
unfolding found done query require input_deliveries
lock_context attempt execution = do
  region ←
      found (λ db. first_where (λ r. r.id == execution.region_id) db.regions) (thrown no_result)
  component ←
      found (λ db. first_where (λ i. i.id == execution.component_instance_id) db.instances)
        (thrown no_result)
  found (λ db. first_where (λ v. v.id == execution.topology_revision_id) db.revisions)
      (thrown no_result)
  deliveries ← query (input_deliveries execution.id)
  require (ltb 0 (length deliveries)) inactive_attempt 409
  done (record {
    attempt = attempt;
    execution = execution;
    region = region;
    component = component;
    deliveries = deliveries;
  })

-- a submission, if the worker's hand-over made none
unfoldable pub ensure_submission : Env → ProposedResult → Digest → Option Submission → Db → Db
ensure_submission env input digest (some s) db = db
ensure_submission env input digest none db = record db {
  submissions =
      db.submissions
      ++ record {
        id = env.uuid Draw.submission (length db.submissions);
        execution_id = input.execution_id;
        attempt_id = input.attempt_id;
        submission_digest = digest;
        result = input;
        created_at = env.now;
        committed_at = none;
      }
        ∷ [];
}

abbrev pub correlation_of : List Delivery → Uuid
correlation_of [] = 0
correlation_of (d ∷ ds) = d.correlation_id

unfoldable pub ports_of : Uuid → Db → List PortDefinition
ports_of definition db = rows_where (λ p. p.component_definition_id == definition) db.ports

-- complete, or fail or retry
unfoldable pub finish : Env → ProposedResult → Locked → ArtifactIds → Bool → Commit Disposition
unfolding complete fail_or_retry
finish env input l ids true db =
    complete env input l.execution l.component.id (correlation_of l.deliveries)
      (map (λ d. d.id) l.deliveries) ids db
finish env input l ids false db =
    ok (fail_or_retry env input l.execution l.attempt (map (λ d. d.id) l.deliveries) db)

unfoldable pub publish_actions :
    Env → ProposedResult → Locked → List PortDefinition → ArtifactIds → Bool → Commit ArtifactIds
unfolding publish_external_actions done
publish_actions env input l ports ids true =
    publish_external_actions env input l.component.component_definition_id ports ids
      input.external_action_proposals
publish_actions env input l ports ids false = done ids

abbrev pub is_pending_submission : Uuid → Digest → Submission → Bool
is_pending_submission attempt_id digest s =
    s.attempt_id == attempt_id && (s.submission_digest == digest && not (is_some s.committed_at))

-- update … set committed_at … or throw where no row is pending
unfoldable pub mark_committed : Env → ProposedResult → Digest → Commit (Unit {0})
mark_committed env input digest db =
    if any_row (is_pending_submission input.attempt_id digest) db.submissions
    then ok (
      tt,
      record db {
        submissions =
            set_where (is_pending_submission input.attempt_id digest)
              (λ s. record s { committed_at = some env.now }) db.submissions;
      },
    )
    else err (thrown no_result)

-- the part of the transaction that only checks
unfoldable pub check_result : Env → ProposedResult → Bool → Attempt → Execution → Commit Locked
unfolding require lock_context assert_authority validate_resource_usage validate_proposed_events
    done
check_result env input allow_expired_lease attempt execution = do
  require (is_active attempt.status) inactive_attempt 409
  require (is_executing execution.status) inactive_attempt 409
  l ← lock_context attempt execution
  assert_authority input l.attempt l.execution l.region l.deliveries allow_expired_lease env.now
  validate_resource_usage input.resource_usage
  validate_proposed_events env input input.proposed_events
  require (is_completed input.status || length input.external_action_proposals == 0)
      external_action_unauthorized 400
  done l

-- the part that writes
unfoldable pub publish_result :
    Env → ProposedResult → Digest → Option Submission → Locked → Commit Disposition
unfolding write ensure_submission query ports_of commit_outputs commit_state publish_actions
    write_resource_usage finish mark_committed done
publish_result env input digest submission l = do
  write (ensure_submission env input digest submission)
  ports ← query (ports_of l.component.component_definition_id)
  (seen, ids) ← commit_outputs env input ports [] [] input.staged_artifacts
  ids' ← commit_state env input ports seen ids input.proposed_state
  ids'' ← publish_actions env input l ports ids' (is_completed input.status)
  write (write_resource_usage env l.region.id input)
  disposition ← finish env input l ids'' (is_completed input.status)
  mark_committed env input digest
  done disposition

abbrev pub is_committed : Option Submission → Bool
is_committed none = false
is_committed (some s) = is_some s.committed_at

abbrev pub agrees_with : Digest → Option Submission → Bool
agrees_with digest none = true
agrees_with digest (some s) = s.submission_digest == digest

unfoldable pub commit_unless_duplicate :
    Env
    → ProposedResult
    → Digest
    → Bool
    → Attempt
    → Execution
    → Option Submission
    → Bool
    → Commit Disposition
unfolding done check_result publish_result
commit_unless_duplicate env input digest allow attempt execution submission true = done duplicate
commit_unless_duplicate env input digest allow attempt execution submission false = do
  l ← check_result env input allow attempt execution
  publish_result env input digest submission l

-- the transaction of commit
unfoldable pub commit_transaction : Env → ProposedResult → Digest → Bool → Commit Disposition
unfolding lock_attempt query require commit_unless_duplicate
commit_transaction env input digest allow_expired_lease = do
  (attempt, execution) ← lock_attempt input
  submission ← query (λ db. first_where (is_submitted_by input.attempt_id) db.submissions)
  require (agrees_with digest submission) duplicate_conflicting_result 409
  commit_unless_duplicate env input digest allow_expired_lease attempt execution submission
      (is_committed submission)

-- commit: an error below 500 takes the pending submission back
unfoldable pub commit :
    Env → ProposedResult → Digest → Bool → Db → Result CommitError Disposition × Db
unfolding commit_transaction
commit env input digest allow_expired_lease db =
    elim (commit_transaction env input digest allow_expired_lease db) [
      | ok (disposition, db') ↦ (ok disposition, db')
      | err (thrown f) ↦ (err (thrown f), db)
      | err (commit_error code status) ↦ (
        err (commit_error code status),
        if ltb status 500
            then record db {
              submissions =
                  delete_where (is_pending_submission input.attempt_id digest) db.submissions;
            }
            else db,
      )
    ]

-- commitSubmittedResult
unfoldable pub commit_submitted_result :
    Env → Uuid → Bool → Db → Result CommitError Disposition × Db
unfolding commit
commit_submitted_result env attempt_id allow_expired_lease db =
    elim (first_where (is_submitted_by attempt_id) db.submissions) [
      | none ↦ (err (thrown no_result), db)
      | some s ↦ commit env s.result s.submission_digest allow_expired_lease db
    ]
