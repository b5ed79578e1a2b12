-- ===== src/Commands/Published.antt =====
-- A command that submit inserts is replayed with the answer that it was given.
use factory_floor.Common.{
  rows_where-one, arith, ◌≡◌, refl, ◌++◌, Option, some, List, [], ◌∷◌, ok, first_where, rows_where,
  rows_where-append, order_by, place, Option-cases, Result-cases, ok_subst, inl, inr, ==_refl,
  is_some,
}
use factory_floor.Tables.{Db, Command, Event, Delivery, TopologyRevision}
use factory_floor.Tables.Kinds.{is_rejected}
use factory_floor.Commands.{SubmitCommandInput, SubmitCommandResult, CommandError, Reading, Drawn}
use factory_floor.Commands.Submit.{
  publish_command, route_unless_rejected, replay, replay_result, result_of, command_event,
  is_event_of, is_delivery_of, delivery_before,
}
use factory_floor.Routing.Events.{insert_event}
use factory_floor.Routing.Deliver.{route_command}
use factory_floor.Commands.Routed.{IsRouted, route_command-IsRouted}
use factory_floor.Commands.Listed.{IsReplayed, IsRouted-listed}

module _ (reading : Reading) where
  pub route_unless_rejected-IsRouted :
      (drawn : Drawn) (c : Command) (revision : Option TopologyRevision) (db db' : Db)
      (ds : List Delivery)
      → route_unless_rejected reading drawn c revision db ≡ ok (ds, db')
      → IsRouted c.id db (ds, db')
  unfolding route_unless_rejected
  route_unless_rejected-IsRouted drawn c revision db db' ds h = elim (Option-cases c.rejection) [
    | inr (x, e) ↦
        ok_subst {E = CommandError} {A = List Delivery × Db} (IsRouted c.id db) {a = ([], db)}
          (ground arith) (refl, ((λ p k. k), tt, (λ P k l. k), tt))
    | inl e ↦ elim (Option-cases revision) [
      | inl f ↦ absurd (ground arith)
      | inr (g, f) ↦
          elim (Result-cases
            (route_command reading.payload_digest drawn.created_at drawn.deliveries c g db)) [
              | inr (x, k) ↦ absurd (ground arith)
              | inl ((ds1, db1), k) ↦
                  ok_subst {E = CommandError} {A = List Delivery × Db} (IsRouted c.id db)
                    {a = (ds1, db1)} (ground arith)
                    (route_command-IsRouted reading.payload_digest drawn.created_at drawn.deliveries
                      c g db db1 ds1 k)
            ]
    ]
  ]

  pub command_event-inserted :
      (input : SubmitCommandInput) (drawn : Drawn) (c : Command) (db db' : Db) (e : Event)
      → insert_event drawn.created_at (command_event reading input c) drawn.event db ≡ ok (e, db')
      → (e.source_command_id ≡ some c.id)
        × (db'.events ≡ db.events ++ e ∷ [])
        × (db'.deliveries ≡ db.deliveries)
        × (db'.commands ≡ db.commands)
        × (db'.regions ≡ db.regions)
  unfolding insert_event
  command_event-inserted input drawn c db db' e h = ground arith

  -- the one event of a command is the first of a replay
  replay-one :
      (c : Command) (e : Event) (db : Db)
      → rows_where (is_event_of c.id) db.events ≡ e ∷ []
      → replay c c.request_digest db
        ≡ ok (
            replay_result c e
              (order_by delivery_before (rows_where (is_delivery_of c.id) db.deliveries)))
  unfolding replay order_by place first_where
  replay-one c e db h = rw (==_refl c.request_digest, h) refl

  -- A command that was inserted and published is replayed with the same answer.
  pub publish_command-IsReplayed :
      (input : SubmitCommandInput) (drawn : Drawn) (c : Command)
      (revision : Option TopologyRevision) (db db' : Db) (r : SubmitCommandResult)
      → is_rejected c.status ≡ is_some c.rejection
      → rows_where (is_event_of c.id) db.events ≡ []
      → rows_where (is_delivery_of c.id) db.deliveries ≡ []
      → publish_command reading input drawn c revision db ≡ ok (r, db')
      → IsReplayed c db (r, db')
  unfolding publish_command
  publish_command-IsReplayed input drawn c revision db db' r status no_event none_yet h =
      elim (Result-cases
        (insert_event drawn.created_at (command_event reading input c) drawn.event db)) [
          | inr (x, k) ↦ absurd (ground arith)
          | inl ((e, db1), k) ↦
              elim (Result-cases (route_unless_rejected reading drawn c revision db1)) [
                | inr (x, l) ↦ absurd (ground arith)
                | inl ((ds, db2), l) ↦
                    let routed = route_unless_rejected-IsRouted drawn c revision db1 db2 ds l in
                    let (source, events, deliveries, commands, regions) =
                      command_event-inserted input drawn c db db1 e k in
                    let same = routed.0 in
                    let own : rows_where (is_event_of c.id) db2.events ≡ e ∷ [] = ground (
                      arith,
                      rows_where-append (is_event_of c.id) db.events (e ∷ []),
                      rows_where-one (is_event_of c.id) e (ground arith),
                    ) in
                    let (listed, again) = IsRouted-listed c.id db1 db2 ds (ground arith) routed in
                    ok_subst {E = CommandError} {A = SubmitCommandResult × Db} (IsReplayed c db)
                      {a = (result_of c e ds, db2)} {b = (r, db')} (ground arith)
                      (
                        ground arith,
                        ground arith,
                        (
                          _,
                          replay-one c e db2 own,
                          (refl, refl, refl, refl, refl, refl, listed, again),
                        ),
                      )
              ]
        ]
