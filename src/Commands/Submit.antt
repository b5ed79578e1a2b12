-- ===== src/Commands/Submit.antt =====
-- submit and replay of command-service.ts.
use factory_floor.Common.{
  ◌==◌, ◌&&◌, ◌||◌, ◌++◌, Bool, true, false, Option, none, some, List, [], ◌∷◌, map, Result, ok,
  err, if◌then◌else◌, leb, ltb, first_where, rows_where, any_row, order_by, holds, or_else, is_some,
}
use factory_floor.Tables.{
  Db, Command, Event, Delivery, Region, TopologyRevision, Uuid, Name, Digest, Millis,
}
use factory_floor.Tables.Kinds.{
  CommandStatus, is_rejected, Rejection, EventType, StreamKey, SourceKind, no_result,
}
use factory_floor.Routing.Events.{EventInput, insert_event}
use factory_floor.Routing.Deliver.{route_command}
use factory_floor.Commands.{
  SubmitCommandInput, SubmitCommandResult, Disposition, CommandError, command_type_required,
  invalid_expiry, region_not_found, idempotency_conflict, fault, Reading, Drawn, has_key,
}

-- order by created_at asc, id asc
abbrev earlier : Millis → Uuid → Millis → Uuid → Bool
earlier t a u b = ltb t u || (t == u && leb a b)

abbrev pub event_before : Event → Event → Bool
event_before a b = earlier a.created_at a.id b.created_at b.id

abbrev pub delivery_before : Delivery → Delivery → Bool
delivery_before a b = earlier a.created_at a.id b.created_at b.id

abbrev pub is_event_of : Uuid → Event → Bool
is_event_of command e = holds e.source_command_id command

abbrev pub is_delivery_of : Uuid → Delivery → Bool
is_delivery_of command d = holds d.source_command_id command

abbrev pub delivery_ids : List Delivery → List Uuid
delivery_ids ds = map (λ (d : Delivery). d.id) ds

abbrev pub replay_result : Command → Event → List Delivery → SubmitCommandResult
replay_result c event deliveries = record {
  command_id = c.id;
  status = c.status;
  correlation_id = c.correlation_id;
  event_id = event.id;
  delivery_ids = delivery_ids deliveries;
  disposition = if is_rejected c.status then Disposition.rejected else Disposition.replayed;
  rejection = c.rejection;
}

-- replay
unfoldable pub replay : Command → Digest → Db → Result CommandError SubmitCommandResult
replay c digest db =
    if c.request_digest == digest
    then elim (first_where (λ (e : Event). true)
        (order_by event_before (rows_where (is_event_of c.id) db.events))) [
          | none ↦ err (fault no_result)
          | some event ↦ ok (
              replay_result c event
                (order_by delivery_before (rows_where (is_delivery_of c.id) db.deliveries)))
        ]
    else err idempotency_conflict

abbrev is_past : Option Millis → Millis → Bool
is_past none now = false
is_past (some t) now = leb t now

abbrev pub rejection_of : Option Millis → Millis → Option TopologyRevision → Option Rejection
rejection_of expires_at now revision =
    if is_past expires_at now
    then some Rejection.command_expired
    else if is_some revision
    then none
    else some Rejection.no_active_topology

-- insert … on conflict do nothing returning *: no row where the key is taken
unfoldable pub insert_command : Command → List Command → Option (List Command)
insert_command c rows = elim c.idempotency_key [
  | none ↦ some (rows ++ c ∷ [])
  | some k ↦ if any_row (has_key c.region_id k) rows then none else some (rows ++ c ∷ [])
]

abbrev pub result_of : Command → Event → List Delivery → SubmitCommandResult
result_of c event deliveries = record {
  command_id = c.id;
  status = c.status;
  correlation_id = c.correlation_id;
  event_id = event.id;
  delivery_ids = delivery_ids deliveries;
  disposition = if is_some c.rejection then Disposition.rejected else Disposition.accepted;
  rejection = c.rejection;
}

abbrev pub active_revision : Region → Db → Option TopologyRevision
active_revision region db = elim region.active_topology_revision_id [
  | none ↦ none
  | some id ↦ first_where (λ (r : TopologyRevision). r.id == id) db.revisions
]

-- an answer that leaves the database as it is
abbrev pub with_db :
    Db → Result CommandError SubmitCommandResult → Result CommandError (SubmitCommandResult × Db)
with_db db (err e) = err e
with_db db (ok r) = ok (r, db)

module _ (reading : Reading) where
  abbrev pub key_of : SubmitCommandInput → Option Name
  key_of input = elim input.idempotency_key [
    | none ↦ none
    | some k ↦ if reading.is_empty k then none else some k
  ]

  -- new Date(input.expiresAt) unless it is missing or ''
  abbrev pub expiry : SubmitCommandInput → Result CommandError (Option Millis)
  expiry input = elim input.expires_at [
    | none ↦ ok none
    | some t ↦
        if reading.is_empty t
        then ok none
        else elim (reading.parse_date t) [ none ↦ err invalid_expiry | some m ↦ ok (some m) ]
  ]

  -- commandRequestDigest
  abbrev pub command_request_digest : SubmitCommandInput → Digest
  command_request_digest input = reading.digest (record {
    region = input.region;
    command_type = input.command_type;
    source = reading.or_object input.source;
    payload = reading.or_object input.payload;
    correlation_id = input.correlation_id;
    expires_at = input.expires_at;
  })

  abbrev pub new_command :
      SubmitCommandInput → Drawn → Uuid → Option Millis → Option Rejection → Command
  new_command input drawn region expires_at rejection = record {
    id = drawn.command;
    region_id = region;
    command_type = input.command_type;
    payload = reading.or_object input.payload;
    status = if is_some rejection then CommandStatus.rejected else CommandStatus.accepted;
    source = reading.or_object input.source;
    correlation_id = or_else input.correlation_id drawn.command;
    idempotency_key = key_of input;
    expires_at = expires_at;
    request_digest = command_request_digest input;
    rejection = rejection;
    accepted_at = if is_some rejection then none else some drawn.now;
    rejected_at = if is_some rejection then some drawn.now else none;
  }

  -- the payload of command.rejected is the rejection
  abbrev pub command_event : SubmitCommandInput → Command → EventInput
  command_event input c = record {
    region_id = c.region_id;
    event_type =
        if is_some c.rejection then EventType.command_rejected else EventType.command_accepted;
    payload = elim c.rejection [
      | none ↦ reading.or_object input.payload
      | some r ↦ reading.shown r
    ];
    stream_key = StreamKey.region_commands c.region_id;
    correlation_id = some c.correlation_id;
    source_kind = SourceKind.command;
    source_command_id = some c.id;
    source_event_id = none;
    source_execution_id = none;
    source_attempt_id = none;
    source_component_instance_id = none;
    source_port_name = none;
  }

  -- the deliveries of a command that is not rejected
  unfoldable pub route_unless_rejected :
      Drawn → Command → Option TopologyRevision → Db → Result CommandError (List Delivery × Db)
  route_unless_rejected drawn c revision db = elim c.rejection [
    | some r ↦ ok ([], db)
    | none ↦ elim revision [
      | none ↦ err (fault no_result)
      | some r ↦
          elim (route_command reading.payload_digest drawn.created_at drawn.deliveries c r db) [
            | err f ↦ err (fault f)
            | ok routed ↦ ok routed
          ]
    ]
  ]

  -- once the command is inserted: its event and its deliveries
  unfoldable pub publish_command :
      SubmitCommandInput
      → Drawn
      → Command
      → Option TopologyRevision
      → Db
      → Result CommandError (SubmitCommandResult × Db)
  unfolding route_unless_rejected
  publish_command input drawn c revision db =
      elim (insert_event drawn.created_at (command_event input c) drawn.event db) [
        | err f ↦ err (fault f)
        | ok (event, db1) ↦ elim (route_unless_rejected drawn c revision db1) [
          | err e ↦ err e
          | ok (deliveries, db2) ↦ ok (result_of c event deliveries, db2)
        ]
      ]

  -- the command that has the input's key, if it has one
  abbrev pub existing_command : SubmitCommandInput → Uuid → List Command → Option Command
  existing_command input region rows = elim (key_of input) [
    | none ↦ none
    | some k ↦ first_where (has_key region k) rows
  ]

  -- the insert; where another transaction took the key meanwhile, its command is replayed
  unfoldable pub insert_or_replay :
      SubmitCommandInput
      → Drawn
      → Command
      → Option TopologyRevision
      → Db
      → Result CommandError (SubmitCommandResult × Db)
  unfolding insert_command publish_command replay
  insert_or_replay input drawn c revision db = elim (insert_command c db.commands) [
    | some rows ↦ publish_command input drawn c revision (record db { commands = rows })
    | none ↦ elim (existing_command input c.region_id db.commands) [
      | none ↦ err (fault no_result)
      | some concurrent ↦ with_db db (replay concurrent c.request_digest db)
    ]
  ]

  abbrev pub region_of : SubmitCommandInput → Db → Option Region
  region_of input db =
      first_where (λ (r : Region). r.name == reading.without_slash input.region) db.regions

  -- the transaction of submit; `seen` are the commands that its first query of the key saw, which
  -- other transactions may have added to before the insert
  unfoldable pub submit_in :
      SubmitCommandInput
      → Drawn
      → Option Millis
      → List Command
      → Db
      → Result CommandError (SubmitCommandResult × Db)
  unfolding insert_or_replay replay
  submit_in input drawn expires_at seen db = elim (region_of input db) [
    | none ↦ err region_not_found
    | some region ↦ elim (existing_command input region.id seen) [
      | some existing ↦ with_db db (replay existing (command_request_digest input) db)
      | none ↦
          insert_or_replay input drawn
            (new_command input drawn region.id expires_at
              (rejection_of expires_at drawn.now (active_revision region db)))
            (active_revision region db) db
    ]
  ]

  -- submit
  unfoldable pub submit :
      SubmitCommandInput
      → Drawn
      → List Command
      → Db
      → Result CommandError (SubmitCommandResult × Db)
  unfolding submit_in
  submit input drawn seen db =
      if reading.is_blank input.command_type
      then err command_type_required
      else elim (expiry input) [
        | err e ↦ err e
        | ok expires_at ↦ submit_in input drawn expires_at seen db
      ]
