-- ===== src/Commit/Publish.antt =====
-- writeResourceUsage and the outputs and events of complete in execution-commit-service.ts.
use factory_floor.Common.{
  ℕ, ◌+◌, ◌==◌, ◌++◌, Option, none, some, List, [], ◌∷◌, length, if◌then◌else◌, or_else, ◌>>=◌,
  ◌>>◌,
}
use factory_floor.Common.Ints.{pos_part}
use factory_floor.Tables.{Db, Execution, ExecutionOutput, Uuid, Name}
use factory_floor.Tables.Kinds.{EventType, StreamKey, SourceKind}
use factory_floor.Tables.Proposed.{ProposedResult, Staged, ProposedEvent, Counter, integer}
use factory_floor.Tables.QuotaRows.{ResourceType, UnitName, LedgerEntry}
use factory_floor.Routing.Events.{EventInput, insert_event}
use factory_floor.Routing.Deliver.{route_component_event}
use factory_floor.Commit.Steps.{Commit, Env, Draw, done, query, write, during}
use factory_floor.Commit.Authority.{usage_of}
use factory_floor.Commit.Staged.{ArtifactIds, artifact_id_of}

-- RESOURCE_UNITS, in order: the key's place, its resource type and its unit
abbrev pub resource_units : List (ℕ × ResourceType × UnitName)
resource_units =
    (0, ResourceType.cpu_milliseconds, UnitName.milliseconds)
    ∷ (1, ResourceType.wall_milliseconds, UnitName.milliseconds)
    ∷ (2, ResourceType.input_bytes, UnitName.bytes)
    ∷ (3, ResourceType.output_bytes, UnitName.bytes)
    ∷ (4, ResourceType.external_calls, UnitName.count)
    ∷ []

abbrev pub counter_value : Option Counter → ℕ
counter_value (some (integer z)) = pos_part z
counter_value _ = 0

-- writeResourceUsage: a ledger row for each counter that is not 0
unfoldable pub usage_rows :
    Env
    → Uuid
    → ProposedResult
    → List (ℕ × ResourceType × UnitName)
    → List LedgerEntry
    → List LedgerEntry
unfolding usage_of
usage_rows env region_id input [] rows = rows
usage_rows env region_id input ((key, kind, unit) ∷ rest) rows =
    let quantity = counter_value (usage_of key input.resource_usage) in
    usage_rows env region_id input rest (
      if quantity == 0
      then rows
      else rows
        ++ record {
          id = env.uuid Draw.entry (length rows);
          region_id = region_id;
          execution_id = some input.execution_id;
          attempt_id = some input.attempt_id;
          external_action_id = none;
          resource_type = kind;
          quantity = quantity;
          unit = unit;
          admission_request_id = none;
        }
          ∷ [])

unfoldable pub write_resource_usage : Env → Uuid → ProposedResult → Db → Db
unfolding usage_rows
write_resource_usage env region_id input db = record db {
  quota = record quota { ledger = usage_rows env region_id input resource_units quota.ledger };
}
  where
    open db use {quota}

abbrev pub output_row : Env → ProposedResult → Name → Uuid → Option Uuid → Db → ExecutionOutput
output_row env input port artifact event db = record {
  id = env.uuid Draw.output (length db.outputs);
  execution_id = input.execution_id;
  attempt_id = input.attempt_id;
  port_name = port;
  artifact_id = artifact;
  published_event_id = event;
}

unfoldable pub insert_output : Env → ProposedResult → Name → Uuid → Option Uuid → Db → Db
insert_output env input port artifact event db = record db {
  outputs = db.outputs ++ output_row env input port artifact event db ∷ [];
}

-- the event 'component.output' of a staged output
abbrev pub output_event :
    Env → ProposedResult → Execution → Uuid → Uuid → Staged → Uuid → EventInput
output_event env input execution component correlation staged artifact = record {
  region_id = execution.region_id;
  event_type = EventType.component_output;
  payload = env.output_document staged.port_name artifact;
  stream_key = StreamKey.component_port component staged.port_name;
  correlation_id = some correlation;
  source_kind = SourceKind.component;
  source_command_id = none;
  source_event_id = none;
  source_execution_id = some input.execution_id;
  source_attempt_id = some input.attempt_id;
  source_component_instance_id = some component;
  source_port_name = some staged.port_name;
}

abbrev pub proposed_event_input : ProposedResult → Execution → Uuid → ProposedEvent → EventInput
proposed_event_input input execution correlation p = record {
  region_id = execution.region_id;
  event_type = EventType.proposed p.event_type;
  payload = p.payload;
  stream_key = StreamKey.subject p.subject;
  correlation_id = some correlation;
  source_kind = SourceKind.attempt;
  source_command_id = none;
  source_event_id = none;
  source_execution_id = some input.execution_id;
  source_attempt_id = some input.attempt_id;
  source_component_instance_id = none;
  source_port_name = none;
}

module _ (env : Env) (input : ProposedResult) (execution : Execution) (component correlation : Uuid)
    (ids : ArtifactIds) where
  -- the loop over the staged outputs: an event, an output row, and the deliveries downstream
  unfoldable pub publish_outputs : List Staged → Commit (Unit {0})
  unfolding query during write done insert_output
  publish_outputs [] = done tt
  publish_outputs (staged ∷ rest) = do
    let artifact = or_else (artifact_id_of staged.staging_id ids) 0
    id ← query (λ db. env.uuid Draw.event (length db.events))
    event ← during (
        insert_event env.now
          (output_event env input execution component correlation staged artifact) id)
    write (insert_output env input staged.port_name artifact (some event.id))
    start ← query (λ db. length db.deliveries)
    during (
        route_component_event env.payload_digest env.now (λ n. env.uuid Draw.delivery (start + n))
          event execution.topology_revision_id)
    publish_outputs rest

  unfoldable pub publish_state : Option Staged → Db → Db
  unfolding insert_output
  publish_state none db = db
  publish_state (some staged) db =
      insert_output env input staged.port_name (or_else (artifact_id_of staged.staging_id ids) 0)
        none db

  unfoldable pub publish_events : List ProposedEvent → Commit (Unit {0})
  unfolding query during done
  publish_events [] = done tt
  publish_events (p ∷ ps) = do
    id ← query (λ db. env.uuid Draw.event (length db.events))
    during (insert_event env.now (proposed_event_input input execution correlation p) id)
    publish_events ps
