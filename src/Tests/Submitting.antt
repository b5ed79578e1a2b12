-- ===== src/Tests/Submitting.antt =====
-- Commands that are submitted, submitted again, and submitted under a key that is taken.
use factory_floor.Common.{
  arith, rows_where, first_where, any_row, ℕ, ◌+◌, ◌==◌, ◌≡◌, refl, none, some, [], ◌∷◌, ok, err,
}
use factory_floor.Tables.{Db}
use factory_floor.Tables.Kinds.{CommandStatus}
use factory_floor.Routing.Events.{insert_event}
use factory_floor.Routing.Deliver.{route_command}
use factory_floor.Commands.{
  Disposition, SubmitCommandInput, SubmitCommandResult, Reading, Drawn, idempotency_conflict,
}
use factory_floor.Commands.Submit.{submit}
use factory_floor.Commands.Listed.{IsAnsweredAs}
use factory_floor.Commands.Consistent.{IsConsistent, submit-IsConsistent}
use factory_floor.Commands.Replay.{submit_twice, submit_conflict}
use factory_floor.Tests.Data.{start, one_revision, root_region, one_instance, result_or}

-- The texts are their numbers: 0 is empty and blank.
abbrev reading : Reading
reading = record {
  is_empty = λ n. n == 0;
  is_blank = λ n. n == 0;
  without_slash = λ n. n;
  parse_date = λ n. some n;
  or_object = λ j. j;
  shown = λ r. 1;
  digest = λ r. r.payload + 1000;
  payload_digest = λ j. j;
}

abbrev routed_start : Db
routed_start = record start {
  revisions =
      record one_revision {
        ingress =
            record {
              command_type = 9;
              targets = record { component = one_instance.name; port = 7 } ∷ [];
            }
            ∷ [];
      }
      ∷ [];
}

abbrev input : ℕ → SubmitCommandInput
input payload = record {
  region = root_region.name;
  command_type = 9;
  source = 3;
  payload = payload;
  correlation_id = none;
  idempotency_key = some 55;
  expires_at = none;
}

abbrev drawn : ℕ → Drawn
drawn n = record {
  now = 2000 + n;
  created_at = 2000 + n;
  command = 900 + n;
  event = 920 + n;
  deliveries = λ k. 940 + n + k;
}

abbrev no_answer : SubmitCommandResult
no_answer = record {
  command_id = 0;
  status = CommandStatus.accepted;
  correlation_id = 0;
  event_id = 0;
  delivery_ids = [];
  disposition = Disposition.accepted;
  rejection = none;
}

abbrev submitted : SubmitCommandResult × Db
unfolding submit
submitted = result_or (no_answer, start) (submit reading (input 5) (drawn 0) [] routed_start)

submitted_once : submitted.0.delivery_ids ≡ 940 ∷ []
unfolding submitted submit first_where any_row insert_event route_command
submitted_once = refl

-- Another transaction submitted the same request between the query of the key and the insert.
submit_twice_example :
    (s : SubmitCommandResult) × (submit reading (input 5) (drawn 1) [] submitted.1
      ≡ ok (s, submitted.1))
    × IsAnsweredAs submitted.0 s
unfolding submitted submit rows_where first_where any_row insert_event route_command
submit_twice_example =
    submit_twice reading (input 5) (input 5) (drawn 0) (drawn 1) 55 none [] [] []
      submitted.1.commands routed_start submitted.1 submitted.0 refl refl refl refl refl refl refl
      refl refl refl refl

submit_conflict_example :
    submit reading (input 6) (drawn 1) submitted.1.commands submitted.1 ≡ err idempotency_conflict
unfolding submitted submit rows_where first_where any_row insert_event route_command
submit_conflict_example =
    submit_conflict reading (input 5) (input 6) (drawn 0) (drawn 1) 55 none [] []
      submitted.1.commands [] routed_start submitted.1 submitted.0 refl refl refl (λ e. omega arith)
      refl refl refl refl refl refl refl

routed_start-IsConsistent : IsConsistent routed_start
unfolding rows_where any_row
routed_start-IsConsistent = record {
  settled = tt;
  keyed = λ region k. omega arith;
  undelivered = (refl, tt);
}

submit-IsConsistent_example : IsConsistent submitted.1
unfolding submitted submit rows_where first_where any_row insert_event route_command
submit-IsConsistent_example =
    submit-IsConsistent reading (input 5) (drawn 0) [] routed_start submitted.1 submitted.0
      routed_start-IsConsistent refl refl refl
