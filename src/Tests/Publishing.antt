-- ===== src/Tests/Publishing.antt =====
-- Events, their deliveries, and the receipts of validated artifacts.
use factory_floor.Common.{
  any_row, delete_where, rows_where, first_where, ◌+◌, ◌≤◌, ◌<◌, ◌≡◌, refl, true, false, none, some,
  List, [], ◌∷◌, ok, All, length,
}
use factory_floor.Tables.{Db, Delivery, Staging}
use factory_floor.Tables.Kinds.{EventType, StreamKey, SourceKind, StagingStatus, same_stream}
use factory_floor.Routing.Events.{EventInput, insert_event}
use factory_floor.Routing.Deliver.{route_component_event}
use factory_floor.Routing.Sequences.{IsNumbered, insert_event-IsNumbered}
use factory_floor.Routing.Replay.{route_component_event_twice}
use factory_floor.Artifacts.Validation.{Validated, read_and_validate, validate_staged_artifact}
use factory_floor.Artifacts.Validation.Receipts.{
  Receipt, remember_receipt, is_remembered, validation_receipt_limit, remember_receipt-bounded,
}
use factory_floor.Artifacts.Cache.{
  answer, with_receipts, IsHonest, IsRead, validate_staged_artifact-answer,
  validate_staged_artifact-IsHonest,
}
use factory_floor.Tests.Data.{start, validator, output_event, result_or}

abbrev event_input : EventInput
event_input = record {
  region_id = 1;
  event_type = EventType.component_output;
  payload = 5;
  stream_key = StreamKey.component_port 20 8;
  correlation_id = some 77;
  source_kind = SourceKind.component;
  source_command_id = none;
  source_event_id = none;
  source_execution_id = some 300;
  source_attempt_id = some 400;
  source_component_instance_id = some 20;
  source_port_name = some 8;
}

abbrev numbered : Db
unfolding insert_event
numbered = (result_or (output_event, start) (insert_event 2000 event_input 810 start)).1

insert_event-IsNumbered_example :
    IsNumbered numbered
    × All
        (λ x. same_stream x.stream_key output_event.stream_key ≡ true → x.sequence_number < 1)
        start.events
unfolding numbered insert_event first_where
insert_event-IsNumbered_example =
    insert_event-IsNumbered 2000 event_input 810 start numbered output_event tt refl

abbrev routed : List Delivery × Db
unfolding route_component_event
routed =
    result_or ([], start) (route_component_event (λ p. p) 2000 (λ n. 820 + n) output_event 10 start)

route_component_event_twice_example :
    route_component_event (λ p. p) 9000 (λ n. 830 + n) output_event 10 routed.1 ≡ ok routed
unfolding routed route_component_event rows_where first_where
route_component_event_twice_example =
    route_component_event_twice (λ p. p) (λ p. p) 2000 9000 (λ n. 820 + n) (λ n. 830 + n)
      output_event 10 start routed.1 routed.0 refl

abbrev row : Staging
row = record {
  id = 1;
  staged_ref = 2;
  attempt_id = 400;
  digest = 9;
  size_bytes = 4;
  schema_id = 60;
  media_type = 3;
  locator = 0;
  status = StagingStatus.staged;
  artifact_id = none;
}

abbrev staging_db : Db
staging_db = record start {
  staging = row ∷ [];
  schemas = record { id = 60; schema = 61; content_digest = 62; retired_at = none } ∷ [];
}

abbrev receipt : Receipt
receipt = record {
  id = 1;
  staged_ref = 2;
  digest = 9;
  size_bytes = 4;
  schema_id = 60;
  media_type = 3;
  schema_digest = 62;
}

abbrev validated : Validated
validated = record {
  row = row;
  schema = record { id = 60; schema = 61; content_digest = 62; retired_at = none };
  instance_ = some 1;
  cached = false;
}

first_receipts-IsHonest : All (IsHonest validator staging_db) (receipt ∷ [])
unfolding validate_staged_artifact first_where delete_where any_row read_and_validate
first_receipts-IsHonest =
    validate_staged_artifact-IsHonest validator [] (receipt ∷ []) 1 staging_db validated tt refl

validate_staged_artifact-IsHonest_example : All (IsHonest validator staging_db) (receipt ∷ [])
unfolding validate_staged_artifact first_where delete_where any_row read_and_validate
validate_staged_artifact-IsHonest_example =
    validate_staged_artifact-IsHonest validator [] (receipt ∷ []) 1 staging_db validated tt refl

validate_staged_artifact-answer_example :
    IsRead validator (answer (validate_staged_artifact validator [] 1 staging_db))
    × (answer (validate_staged_artifact validator (receipt ∷ []) 1 staging_db)
        ≡ with_receipts
            (receipt ∷ [])
            (answer (validate_staged_artifact validator [] 1 staging_db)))
validate_staged_artifact-answer_example =
    validate_staged_artifact-answer validator (receipt ∷ []) 1 staging_db first_receipts-IsHonest

remember_receipt-bounded_example :
    (length (remember_receipt receipt (receipt ∷ [])) ≤ validation_receipt_limit)
    × (is_remembered receipt (remember_receipt receipt (receipt ∷ [])) ≡ true)
remember_receipt-bounded_example = remember_receipt-bounded receipt (receipt ∷ [])
