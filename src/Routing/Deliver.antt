-- ===== src/Routing/Deliver.antt =====
-- packages/runtime-core/src/routing/routing-service.ts. Each delivery is inserted unless its
-- source, topology revision and target already have one; then that one is the answer.
use factory_floor.Common.{
  ℕ, ◌+◌, ◌==◌, ◌&&◌, ◌++◌, Bool, false, Option, none, some, List, [], ◌∷◌, Result, ok, err,
  first_where, rows_where, holds,
}
use factory_floor.Tables.{
  Db, Event, Command, Delivery, Connection, TopologyRevision, IngressTarget, Uuid, Name, Json,
  Millis, Digest,
}
use factory_floor.Tables.Kinds.{Fault, no_result, missing_source, DeliveryStatus}

abbrev pub same_target : Delivery → Delivery → Bool
same_target new old =
    old.topology_revision_id == new.topology_revision_id
    && (old.target_component_instance_id == new.target_component_instance_id
        && old.target_port_name == new.target_port_name)

-- the two partial unique indexes on deliveries
abbrev pub same_delivery : Delivery → Delivery → Bool
same_delivery new old = elim new.source_command_id [
  | some c ↦ holds old.source_command_id c && same_target new old
  | none ↦ elim new.source_event_id [
    | some e ↦ holds old.source_event_id e && same_target new old
    | none ↦ false
  ]
]

-- insert … on conflict do nothing, or the row that is there
unfoldable pub insert_delivery : Delivery → List Delivery → Delivery × List Delivery
insert_delivery d rows = elim (first_where (same_delivery d) rows) [
  | none ↦ (d, rows ++ d ∷ [])
  | some old ↦ (old, rows)
]

abbrev pub ready_delivery :
    Uuid
    → Uuid
    → Uuid
    → Uuid
    → Name
    → Option Uuid
    → Option Uuid
    → Uuid
    → Json
    → Digest
    → Millis
    → Delivery
ready_delivery id region revision target port command event correlation payload digest now =
    record {
      id = id;
      region_id = region;
      topology_revision_id = revision;
      target_component_instance_id = target;
      target_port_name = port;
      source_command_id = command;
      source_event_id = event;
      correlation_id = correlation;
      input_payload = payload;
      input_payload_digest = digest;
      status = DeliveryStatus.ready;
      available_at = now;
      created_at = now;
      lease_owner = none;
      lease_token = none;
      lease_expires_at = none;
      attempts_count = 0;
      completed_at = none;
      failed_at = none;
      dead_lettered_at = none;
    }

-- topologyIngress
unfoldable pub topology_ingress : TopologyRevision → Name → List IngressTarget
topology_ingress revision command_type =
    elim (first_where (λ r. r.command_type == command_type) revision.ingress) [
      | none ↦ []
      | some rule ↦ rule.targets
    ]

abbrev pub is_connection_from : Uuid → Uuid → Name → Connection → Bool
is_connection_from revision component port c =
    c.topology_revision_id == revision
    && (c.source_component_instance_id == component && c.source_port_name == port)

module _ (digest : Json → Digest) (now : Millis) where
  -- the loop of routeCommand
  unfoldable pub deliver_to_targets :
      (ℕ → Uuid) → Command → Uuid → List IngressTarget → Db → Result Fault (List Delivery × Db)
  unfolding insert_delivery
  deliver_to_targets uuid command revision [] db = ok ([], db)
  deliver_to_targets uuid command revision (t ∷ ts) db =
      elim (first_where (λ i. i.topology_revision_id == revision && i.name == t.component)
        db.instances) [
          | none ↦ err no_result
          | some instance ↦
              let d =
                ready_delivery (uuid 0) command.region_id revision instance.id t.port
                  (some command.id) none command.correlation_id command.payload
                  (digest command.payload) now in
              let (delivery, rows) = insert_delivery d db.deliveries in
              elim (deliver_to_targets (λ n. uuid (n + 1)) command revision ts
                (record db { deliveries = rows })) [
                  | err e ↦ err e
                  | ok (others, db') ↦ ok (delivery ∷ others, db')
                ]
        ]

  unfoldable pub route_command :
      (ℕ → Uuid) → Command → TopologyRevision → Db → Result Fault (List Delivery × Db)
  unfolding deliver_to_targets topology_ingress
  route_command uuid command revision db =
      deliver_to_targets uuid command revision.id (topology_ingress revision command.command_type)
        db

  -- the loop of routeComponentEvent
  unfoldable pub deliver_to_connections :
      (ℕ → Uuid) → Event → Uuid → List Connection → List Delivery → List Delivery × List Delivery
  unfolding insert_delivery
  deliver_to_connections uuid event revision [] rows = ([], rows)
  deliver_to_connections uuid event revision (c ∷ cs) rows =
      let d =
        ready_delivery (uuid 0) event.region_id revision c.target_component_instance_id
          c.target_port_name none (some event.id) event.correlation_id event.payload
          (digest event.payload) now in
      let (delivery, rows') = insert_delivery d rows in
      let (others, rows'') = deliver_to_connections (λ n. uuid (n + 1)) event revision cs rows' in
      (delivery ∷ others, rows'')

  unfoldable pub route_component_event :
      (ℕ → Uuid) → Event → Uuid → Db → Result Fault (List Delivery × Db)
  unfolding deliver_to_connections
  route_component_event uuid event revision db = elim event.source_component_instance_id [
    | none ↦ err missing_source
    | some component ↦ elim event.source_port_name [
      | none ↦ err missing_source
      | some port ↦
          let (deliveries, rows) =
            deliver_to_connections uuid event revision
              (rows_where (is_connection_from revision component port) db.connections)
              db.deliveries in
          ok (deliveries, record db { deliveries = rows })
    ]
  ]
