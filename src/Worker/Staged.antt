-- ===== src/Worker/Staged.antt =====
-- From stage to the hand-over of submitResult of worker-protocol-service.ts: what was staged and
-- uploaded in time is taken over as a staged artifact of the result.
use factory_floor.Common.{
  first_where-narrower, any_row-none, arith, ℕ, ◌+◌, ◌<◌, ◌≡◌, refl, sym, ap, subst, ◌∙◌, ◌==◌,
  ◌&&◌, ◌++◌, Bool, true, false, not, ◌||◌, holds, none, some, List, [], ◌∷◌, if◌then◌else◌, min,
  first_where, first_where-insert, first_where-true, set_where, leb, ok, err, Option-cases,
  ok_subst, inl, inr, ==_refl, ==_iff, or_else,
}
use factory_floor.Tables.{
  Db, Attempt, PortDefinition, Upload, Staging, ArtifactSchema, Submission, Uuid, Millis, Digest,
}
use factory_floor.Tables.Kinds.{is_active, is_staged}
use factory_floor.Tables.Proposed.{Staged, ProposedResult, execution_source}
use factory_floor.Commit.Steps.{Env}
use factory_floor.Commit.Submit.{is_submitted_by}
use factory_floor.Worker.Refusals.{with_pending}
use factory_floor.Commit.Staged.{schema_digest_of}
use factory_floor.Worker.Normalize.{
  AttemptIdentity, AttemptIdentityInput, normalize_attempt_identity,
}
use factory_floor.Worker.Attempts.{
  active_attempt, check_active, attempt_row, is_lease_over, ActiveAttemptRow,
}
use factory_floor.Worker.Submission.{
  validate_staged_artifacts, matches_staging, hand_over, check_hand_over, new_submission,
}
use factory_floor.Worker.Staging.{
  stage, stage_in, StageInput, StageAnswer, output_port, new_upload, lease_end,
}
use factory_floor.Worker.Upload.{
  upload, upload_for, authorize_upload, record_upload, link_staging, insert_staging, is_staged_as,
  is_staging_of, new_staging, is_same_content, is_authorized_by, mark_uploaded, BlobStore,
  StageReceipt,
}

lease_not_over :
    (a : Attempt) (later : Millis)
    → later < or_else a.lease_expires_at 0
    → is_lease_over a later ≡ false
lease_not_over a later l = elim (Option-cases a.lease_expires_at) [
  | inl e ↦ absurd (ground arith)
  | inr (t, e) ↦ ground arith
]

-- Four guards in a row: where they let a row through, they do so with another last one that does.
four_guards :
    {E A : Type 0} (a b c d d' : Bool) (e1 e2 e3 e4 : E) (r row : A)
    → (if a then err e1 else if b then err e2 else if c then err e3 else if d then err e4 else ok r)
      ≡ ok row
    → d' ≡ false
    → ((if a
          then err e1
          else if b
          then err e2
          else if c
          then err e3
          else if d'
          then err e4
          else ok r)
        ≡ ok row)
      × (r ≡ row)
four_guards true b c d d' e1 e2 e3 e4 r row h k = absurd (cc)
four_guards false true c d d' e1 e2 e3 e4 r row h k = absurd (cc)
four_guards false false true d d' e1 e2 e3 e4 r row h k = absurd (cc)
four_guards false false false true d' e1 e2 e3 e4 r row h k = absurd (cc)
four_guards {E} false false false false d' e1 e2 e3 e4 r row h k =
    (rw k h, ok_subst {E = E} (λ x. r ≡ x) {a = r} {b = row} h refl)

-- The guards of activeAttempt still hold while the lease does.
check_active-later :
    (attempt : AttemptIdentity) (now later : Millis) (r row : ActiveAttemptRow)
    → check_active attempt now r ≡ ok row
    → (is_lease_over r.attempt later ≡ false → check_active attempt later r ≡ ok row) × (r ≡ row)
unfolding check_active
check_active-later attempt now later r row h =
    let guards =
      four_guards (not (is_active r.attempt.status))
        (not (holds r.attempt.lease_token attempt.lease_token))
        (not (r.execution.lifecycle_epoch == attempt.region_fencing_epoch)
          || not (r.region.lifecycle_epoch == attempt.region_fencing_epoch))
        (is_lease_over r.attempt now) in
    (
      (λ over. (guards (is_lease_over r.attempt later) _ _ _ _ r row h over).0),
      (guards false _ _ _ _ r row h refl).1,
    )

active_attempt-row :
    (attempt : AttemptIdentity) (now : Millis) (db : Db) (r : ActiveAttemptRow)
    → attempt_row attempt db ≡ some r
    → active_attempt attempt now db ≡ check_active attempt now r
unfolding active_attempt
active_attempt-row attempt now db r e = rw (active_attempt, e) refl

-- An active attempt stays active while its lease does.
active_attempt-later :
    (attempt : AttemptIdentity) (now later : Millis) (db : Db) (row : ActiveAttemptRow)
    → active_attempt attempt now db ≡ ok row
    → later < lease_end row
    → active_attempt attempt later db ≡ ok row
unfolding active_attempt
active_attempt-later attempt now later db row h l = elim (Option-cases (attempt_row attempt db)) [
  | inl e ↦ absurd (ground arith)
  | inr (r, e) ↦
      let k : check_active attempt now r ≡ ok row =
        sym (active_attempt-row attempt now db r e) ∙ h in
      let (again, q) = check_active-later attempt now later r row k in
      let over : is_lease_over r.attempt later ≡ false =
        lease_not_over r.attempt later (subst (λ x. later < lease_end x) (sym q) l) in
      active_attempt-row attempt later db r e ∙ again over
]

link_staging-same :
    (attempt : AttemptIdentity) (now : Millis) (u : Upload) (receipt : StageReceipt) (s : Staging)
    (db : Db)
    → first_where (is_staging_of attempt.attempt_id u.staged_ref) db.staging ≡ some s
    → is_same_content u receipt s ≡ true
    → link_staging attempt now u receipt db
      ≡ ok (record db {
        uploads = set_where (λ x. x.id == u.id) (mark_uploaded now s.id) db.uploads;
      })
unfolding link_staging
link_staging-same attempt now u receipt s db found same = rw (link_staging, found, same) refl

-- What an upload leaves of the first row of its reference, where nothing is staged for it yet.
record_upload-fresh :
    (attempt : AttemptIdentity) (fresh : Uuid) (receipt : StageReceipt) (later : Millis) (db : Db)
    (u : Upload) (row : ActiveAttemptRow)
    → active_attempt attempt later db ≡ ok row
    → first_where (is_staged_as u.staged_ref) db.uploads ≡ some u
    → is_authorized_by attempt u ≡ true
    → later < u.expires_at
    → first_where (is_staging_of attempt.attempt_id u.staged_ref) db.staging ≡ none
    → (db' : Db) × (record_upload u.staged_ref attempt fresh receipt later db ≡ ok db')
      × (db'.schemas ≡ db.schemas)
      × (db'.submissions ≡ db.submissions)
      × ((t : Millis) → active_attempt attempt t db' ≡ active_attempt attempt t db)
      × (first_where (is_staging_of attempt.attempt_id u.staged_ref) db'.staging
          ≡ some (new_staging attempt fresh u receipt))
unfolding record_upload insert_staging active_attempt attempt_row
record_upload-fresh attempt fresh receipt later db u row active found authorized l free =
    let own = is_staging_of attempt.attempt_id u.staged_ref in
    let s = new_staging attempt fresh u receipt in
    let rows : insert_staging s db.staging ≡ db.staging ++ s ∷ [] =
      rw (insert_staging, any_row-none own db.staging free) refl in
    let there : first_where own (insert_staging s db.staging) ≡ some s = rw rows (
      first_where-insert own db.staging s free
        (rw (==_refl attempt.attempt_id, ==_refl u.staged_ref) refl)) in
    let db1 : Db = record db { staging = insert_staging s db.staging } in
    let same : is_same_content u receipt s ≡ true = ground arith in
    let linked = link_staging-same attempt later u receipt s db1 there same in
    let live : leb u.expires_at later ≡ false = ground arith in
    (
      record db1 { uploads = set_where (λ x. x.id == u.id) (mark_uploaded later s.id) db.uploads },
      rw (record_upload, active, found, authorized, live) linked,
      refl,
      refl,
      (λ t. refl),
      there,
    )

active_attempt-uploads :
    (attempt : AttemptIdentity) (now : Millis) (db : Db) (us : List Upload)
    → active_attempt attempt now (record db { uploads = us }) ≡ active_attempt attempt now db
unfolding active_attempt attempt_row
active_attempt-uploads attempt now db us = refl

-- A staging row that says what the worker says is accepted.
validate-declared :
    (attempt_id : Uuid) (db : Db) (row : Staging) (staged : Staged) (schema : ArtifactSchema)
    → first_where (is_staging_of attempt_id staged.staging_id) db.staging ≡ some row
    → first_where (λ (s : ArtifactSchema). s.id == row.schema_id) db.schemas ≡ some schema
    → is_staged row.status ≡ true
    → row.digest ≡ staged.digest
    → row.size_bytes ≡ staged.size_bytes
    → row.schema_id ≡ staged.schema_id
    → row.media_type ≡ staged.media_type
    → schema.content_digest ≡ staged.schema_digest
    → validate_staged_artifacts attempt_id db (staged ∷ []) ≡ ok tt
unfolding validate_staged_artifacts matches_staging
validate-declared attempt_id db row staged schema found known live digest size same media content =
    let content_known : schema_digest_of row db.schemas ≡ some schema.content_digest =
      rw (schema_digest_of, known) refl in
    let all : (row.digest == staged.digest)
          && (row.size_bytes == staged.size_bytes
              && (row.schema_id == staged.schema_id
                  && (schema.content_digest == staged.schema_digest
                      && row.media_type == staged.media_type)))
        ≡ true =
      ground arith in
    rw (validate_staged_artifacts, matches_staging, found, live, content_known, all) refl

-- The staged artifact that a worker declares for its own upload, and a result with this one output.
abbrev pub declared_artifact :
    AttemptIdentity → StageInput → Uuid → StageReceipt → ArtifactSchema → Staged
declared_artifact attempt input staged_ref receipt schema = record {
  staging_id = staged_ref;
  port_name = input.port_name;
  digest = receipt.digest;
  size_bytes = receipt.size;
  media_type = input.media_type;
  schema_id = schema.id;
  schema_digest = schema.content_digest;
  provenance = execution_source attempt.execution_id attempt.attempt_id;
}

abbrev pub declaring : AttemptIdentity → Staged → ProposedResult → ProposedResult
declaring attempt staged body = record body {
  execution_id = attempt.execution_id;
  attempt_id = attempt.attempt_id;
  lease_token = attempt.lease_token;
  lifecycle_epoch = attempt.region_fencing_epoch;
  staged_artifacts = staged ∷ [];
  proposed_state = none;
}

active_attempt-submissions :
    (attempt : AttemptIdentity) (now : Millis) (db : Db) (rows : List Submission)
    → active_attempt attempt now (record db { submissions = rows }) ≡ active_attempt attempt now db
unfolding active_attempt attempt_row
active_attempt-submissions attempt now db rows = refl

hand_over-accepted :
    (env : Env) (attempt : AttemptIdentity) (body : ProposedResult) (staged : Staged)
    (digest : Digest) (db : Db) (row : ActiveAttemptRow)
    → first_where (is_submitted_by attempt.attempt_id) db.submissions ≡ none
    → active_attempt attempt env.now db ≡ ok row
    → validate_staged_artifacts attempt.attempt_id
        (with_pending env (declaring attempt staged body) digest db)
        (staged ∷ [])
      ≡ ok tt
    → hand_over env attempt (declaring attempt staged body) digest db
      ≡ ok (false, with_pending env (declaring attempt staged body) digest db)
unfolding hand_over check_hand_over
hand_over-accepted env attempt body staged digest db row first active valid =
    let again =
      active_attempt-submissions attempt env.now db
        (db.submissions ++ new_submission env (declaring attempt staged body) digest db ∷ []) in
    rw (hand_over, first, check_hand_over, again, active, valid) refl

-- The holder of a live lease stages an artifact for a declared output port under a new reference,
-- uploads it, and hands over its first result, with the upload as the one staged artifact; with no
-- other request between, each before the lease ends, the upload before a lease duration has passed
-- too, and the blob store takes it. Then stage and upload succeed, stage answers with that end of
-- the time for the upload, and so does the transaction in which submitResult takes the result over:
-- it leaves the result handed over, for the commit.
pub upload-accepted :
    (store : BlobStore) (duration : ℕ) (identity : AttemptIdentityInput) (attempt : AttemptIdentity)
    (input : StageInput) (staged_ref id fresh : Uuid) (now sent later : Millis) (db : Db)
    (row : ActiveAttemptRow) (port : PortDefinition) (schema : ArtifactSchema)
    (receipt : StageReceipt) (env : Env) (body : ProposedResult) (digest : Digest)
    → normalize_attempt_identity identity ≡ ok attempt
    → active_attempt attempt now db ≡ ok row
    → output_port row.execution.component_instance_id input.port_name db ≡ some port
    → first_where (λ (s : ArtifactSchema). s.id == port.schema_id) db.schemas ≡ some schema
    → first_where (is_staged_as staged_ref) db.uploads ≡ none
    → first_where (is_staging_of attempt.attempt_id staged_ref) db.staging ≡ none
    → store staged_ref input.expected_digest input.expected_size_bytes ≡ ok receipt
    → sent < min (lease_end row) (now + duration)
    → later < min (lease_end row) (now + duration)
    → first_where (is_submitted_by attempt.attempt_id) db.submissions ≡ none
    → env.now < lease_end row
    → (answer : StageAnswer) × (db1 : Db) × (db2 : Db) × (stage duration identity input staged_ref
          id now db
        ≡ ok (answer, db1))
      × (answer.expires_at ≡ min (lease_end row) (now + duration))
      × (upload (some store) staged_ref identity fresh sent later db1 db1 ≡ ok (receipt, db2))
      × (let result =
            declaring attempt (declared_artifact attempt input staged_ref receipt schema) body in
          hand_over env attempt result digest db2 ≡ ok (false, with_pending env result digest db2))
unfolding stage stage_in upload upload_for authorize_upload validate_staged_artifacts
    matches_staging
upload-accepted store duration identity attempt input staged_ref id fresh now sent later db row port
      schema receipt env body digest normal active declared known new_ref free stored in_time
      in_time' first handed =
    let expires = min (lease_end row) (now + duration) in
    let u = new_upload attempt input id staged_ref port.schema_id expires in
    let s = declared_artifact attempt input staged_ref receipt schema in
    let db1 : Db = record db { uploads = db.uploads ++ u ∷ [] } in
    let mine : is_authorized_by attempt u ≡ true =
      rw
        (
          ==_refl attempt.execution_id,
          ==_refl attempt.attempt_id,
          ==_refl attempt.region_fencing_epoch,
        )
        refl in
    let found : first_where (is_staged_as staged_ref) db1.uploads ≡ some u =
      first_where-insert (is_staged_as staged_ref) db.uploads u new_ref (==_refl staged_ref) in
    let mine_found : first_where (λ x. is_staged_as staged_ref x && is_authorized_by attempt x)
          db1.uploads
        ≡ some u =
      first_where-insert _ db.uploads u
        (first_where-narrower (is_staged_as staged_ref) (is_authorized_by attempt) db.uploads
          new_ref)
        (rw (==_refl staged_ref, mine) refl) in
    let active1 : active_attempt attempt sent db1 ≡ ok row =
      active_attempt-uploads attempt sent db (db.uploads ++ u ∷ [])
      ∙ active_attempt-later attempt now sent db row active (omega (arith, in_time)) in
    let active2 : active_attempt attempt later db1 ≡ ok row =
      active_attempt-uploads attempt later db (db.uploads ++ u ∷ [])
      ∙ active_attempt-later attempt now later db row active (omega (arith, in_time')) in
    let live : leb expires sent ≡ false = ground (arith, in_time) in
    let schema_known =
      first_where-true (λ (s : ArtifactSchema). s.id == port.schema_id) db.schemas schema known in
    let (db2, recorded, schemas, submissions, same_active, staged) =
      record_upload-fresh attempt fresh receipt later db1 u row active2 found mine in_time' free in
    (
      record { staged_ref = staged_ref; expires_at = expires },
      db1,
      db2,
      rw (stage, normal, stage_in, active, declared) refl,
      refl,
      rw (upload, normal, upload_for, authorize_upload, active1, mine_found, live, stored, recorded)
          refl,
      hand_over-accepted env attempt body s digest db2 row
          (ap (first_where (is_submitted_by attempt.attempt_id)) submissions ∙ first)
          (same_active env.now
            ∙ (active_attempt-uploads attempt env.now db (db.uploads ++ u ∷ [])
                ∙ active_attempt-later attempt now env.now db row active handed))
          (validate-declared attempt.attempt_id
            (with_pending env (declaring attempt s body) digest db2)
            (new_staging attempt fresh u receipt) s schema staged
            (ap (first_where (λ (s : ArtifactSchema). s.id == port.schema_id)) schemas ∙ known) refl
            refl refl (sym ((==_iff schema.id port.schema_id).0 schema_known)) refl refl),
    )
