-- ===== src/Tests/Handing.antt =====
-- An artifact that is staged, uploaded and declared.
use factory_floor.Common.{arith, ◌+◌, ◌≡◌, refl, first_where, none, some, [], ◌∷◌, ok, min, false}
use factory_floor.Common.Ints.{pos}
use factory_floor.Tables.{Db, PortDefinition, ArtifactSchema}
use factory_floor.Tables.Kinds.{Direction}
use factory_floor.Worker.Normalize.{
  AttemptIdentity, AttemptIdentityInput, normalize_attempt_identity, whole,
}
use factory_floor.Worker.Attempts.{ActiveAttemptRow, active_attempt}
use factory_floor.Worker.Staging.{StageInput, StageAnswer, stage, output_port, lease_end}
use factory_floor.Worker.Upload.{BlobStore, StageReceipt, upload}
use factory_floor.Worker.Staged.{declared_artifact, declaring, upload-accepted}
use factory_floor.Worker.Submission.{hand_over}
use factory_floor.Worker.Refusals.{with_pending}
use factory_floor.Tables.Proposed.{ProposedResult}
use factory_floor.Tests.Data.{
  env, failed_result, working, one_execution, one_attempt, root_region, input_port,
}

abbrev output : PortDefinition
output = record input_port { name = 8; direction = Direction.output }

abbrev schema : ArtifactSchema
schema = record { id = 60; schema = 61; content_digest = 62; retired_at = none }

abbrev working_db : Db
working_db = record working { ports = output ∷ []; schemas = schema ∷ [] }

abbrev identity : AttemptIdentityInput
identity = record {
  execution_id = 300;
  attempt_id = 400;
  lease_token = 500;
  region_fencing_epoch = some (whole (pos 3));
  lifecycle_epoch = none;
}

abbrev attempt : AttemptIdentity
attempt = record {
  execution_id = 300;
  attempt_id = 400;
  lease_token = 500;
  region_fencing_epoch = 3;
}

abbrev held_row : ActiveAttemptRow
held_row = record { attempt = one_attempt; execution = one_execution; region = root_region }

abbrev input : StageInput
input = record { port_name = 8; media_type = 3; expected_digest = 9; expected_size_bytes = 4 }

-- A store that takes whatever is expected.
abbrev store : BlobStore
store staged_ref digest size =
    ok (record { digest = digest; size = size; staged_locator = staged_ref })

abbrev receipt : StageReceipt
receipt = record { digest = 9; size = 4; staged_locator = 2 }

abbrev handed : ProposedResult
handed = declaring attempt (declared_artifact attempt input 2 receipt schema) failed_result

upload-accepted_example :
    (answer : StageAnswer) × (db1 : Db) × (db2 : Db) × (stage 60000 identity input 2 1 2000
        working_db
      ≡ ok (answer, db1))
    × (answer.expires_at ≡ min (lease_end held_row) (2000 + 60000))
    × (upload (some store) 2 identity 5 2500 2600 db1 db1 ≡ ok (receipt, db2))
    × (hand_over env attempt handed 9 db2 ≡ ok (false, with_pending env handed 9 db2))
unfolding active_attempt first_where output_port normalize_attempt_identity
upload-accepted_example =
    upload-accepted store 60000 identity attempt input 2 1 5 2000 2500 2600 working_db held_row
      output schema receipt env failed_result 9 refl refl refl refl refl refl refl (omega arith)
      (omega arith) refl (omega arith)

abbrev late_result : ProposedResult
late_result = record failed_result { lease_token = 501 }
