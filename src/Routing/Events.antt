-- ===== src/Routing/Events.antt =====
-- packages/runtime-core/src/events/event-service.ts.
use factory_floor.Common.{
  ℕ, ◌+◌, ◌&&◌, ◌++◌, not, Option, none, some, List, [], ◌∷◌, Result, ok, err, if◌then◌else◌,
  first_where, set_where, is_some,
}
use factory_floor.Tables.{Db, Event, StreamSequence, Uuid, Name, Json, Millis}
use factory_floor.Tables.Kinds.{
  EventType, StreamKey, SourceKind, same_stream, is_component, Fault, missing_source_port,
}

pub record EventInput : Type 0 where
  pub region_id : Uuid
  pub event_type : EventType
  pub payload : Json
  pub stream_key : StreamKey
  pub correlation_id : Option Uuid
  pub source_kind : SourceKind
  pub source_command_id : Option Uuid
  pub source_event_id : Option Uuid
  pub source_execution_id : Option Uuid
  pub source_attempt_id : Option Uuid
  pub source_component_instance_id : Option Uuid
  pub source_port_name : Option Name

-- allocateSequence: insert 2, on conflict add 1, returning one less
unfoldable pub allocate_sequence : StreamKey → List StreamSequence → ℕ × List StreamSequence
allocate_sequence key rows = elim (first_where (λ s. same_stream s.stream_key key) rows) [
  | none ↦ (1, rows ++ record { stream_key = key; next_sequence_number = 2 } ∷ [])
  | some s ↦ (
    s.next_sequence_number,
    set_where (λ s. same_stream s.stream_key key)
        (λ s. record s { next_sequence_number = s.next_sequence_number + 1 }) rows,
  )
]

abbrev first_of : Option Uuid → Option Uuid → Option Uuid
first_of none b = b
first_of (some a) b = some a

abbrev pub or_own : Option Uuid → Uuid → Uuid
or_own none id = id
or_own (some a) id = a

abbrev pub event_row : Millis → EventInput → Uuid → ℕ → Event
event_row now input id sequence = record {
  id = id;
  region_id = input.region_id;
  event_type = input.event_type;
  payload = input.payload;
  stream_key = input.stream_key;
  sequence_number = sequence;
  created_at = now;
  correlation_id =
      or_own
        (first_of input.correlation_id (
          first_of input.source_command_id
            (first_of input.source_event_id input.source_execution_id)))
        id;
  source_kind = input.source_kind;
  source_command_id = input.source_command_id;
  source_event_id = input.source_event_id;
  source_execution_id = input.source_execution_id;
  source_attempt_id = input.source_attempt_id;
  source_component_instance_id = input.source_component_instance_id;
  source_port_name = input.source_port_name;
}

-- insert
unfoldable pub insert_event : Millis → EventInput → Uuid → Db → Result Fault (Event × Db)
unfolding allocate_sequence
insert_event now input id db =
    if is_component input.source_kind && not (is_some input.source_port_name)
    then err missing_source_port
    else let (sequence, sequences) = allocate_sequence input.stream_key db.sequences in
      ok (
        event_row now input id sequence,
        record db {
          sequences = sequences;
          events = db.events ++ event_row now input id sequence ∷ [];
        },
      )
