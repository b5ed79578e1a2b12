-- ===== src/Routing/Replay.antt =====
-- Routing again: the deliveries of routing-service.ts are inserted once.
use factory_floor.Common.{
  arith, ℕ, ◌≡◌, refl, Bool, true, none, some, List, [], ◌∷◌, first_where, first_where-append,
  first_where-insert, rows_where, ok, Option-cases, inl, inr, ◌+◌,
}
use factory_floor.Tables.{Db, Event, Connection, Delivery, Uuid, Json, Digest, Millis}
use factory_floor.Routing.Deliver.{
  insert_delivery, same_delivery, deliver_to_connections, ready_delivery, route_component_event,
  is_connection_from,
}

abbrev event_delivery : (Json → Digest) → Millis → Uuid → Event → Uuid → Connection → Delivery
event_delivery digest now id event revision c =
    ready_delivery id event.region_id revision c.target_component_instance_id c.target_port_name
      none (some event.id) event.correlation_id event.payload (digest event.payload) now

-- Every row that a query finds in the first list it finds in the second.
pub Extends : List Delivery → List Delivery → Type 0
Extends rows rows' =
    (p : Delivery → Bool) (a : Delivery)
    → first_where p rows ≡ some a
    → first_where p rows' ≡ some a

Extends-refl : (rows : List Delivery) → Extends rows rows
unfolding Extends
Extends-refl rows p a k = k

insert_delivery-Extends :
    (d : Delivery) (rows : List Delivery) → Extends rows (insert_delivery d rows).1
unfolding insert_delivery Extends
insert_delivery-Extends d rows p a k = elim (Option-cases (first_where (same_delivery d) rows)) [
  | inl h ↦ ground (arith, first_where-append p rows (d ∷ []) a k)
  | inr (old, h) ↦ ground arith
]

insert_delivery-first :
    (d : Delivery) (rows : List Delivery)
    → same_delivery d d ≡ true
    → first_where (same_delivery d) (insert_delivery d rows).1 ≡ some (insert_delivery d rows).0
unfolding insert_delivery
insert_delivery-first d rows t = elim (Option-cases (first_where (same_delivery d) rows)) [
  | inl h ↦ ground (arith, first_where-insert (same_delivery d) rows d h t)
  | inr (old, h) ↦ ground arith
]

pub insert_delivery-found :
    (d a : Delivery) (rows : List Delivery)
    → first_where (same_delivery d) rows ≡ some a
    → insert_delivery d rows ≡ (a, rows)
unfolding insert_delivery
insert_delivery-found d a rows h = ground arith

module _ (digest digest' : Json → Digest) (now now' : Millis) (event : Event)
    (revision : Uuid) where
  same_event_delivery :
      (id : Uuid) (c : Connection)
      → same_delivery
          (event_delivery digest now id event revision c)
          (event_delivery digest now id event revision c)
        ≡ true
  same_event_delivery id c = ground arith

  deliver-Extends :
      (uuid : ℕ → Uuid) (cs : List Connection) (rows : List Delivery)
      → Extends rows (deliver_to_connections digest now uuid event revision cs rows).1
  unfolding deliver_to_connections Extends
  deliver-Extends uuid [] rows p a k = k
  deliver-Extends uuid (c ∷ cs) rows p a k =
      deliver-Extends (λ n. uuid (n + 1)) cs _ p a
        (insert_delivery-Extends (event_delivery digest now (uuid 0) event revision c) rows p a k)

  -- Delivering an event again along the same connections, at another time and with other ids,
  -- answers with the same deliveries and inserts none.
  pub deliver_to_connections_twice :
      (uuid uuid' : ℕ → Uuid) (cs : List Connection) (rows rows' : List Delivery)
      → Extends (deliver_to_connections digest now uuid event revision cs rows).1 rows'
      → deliver_to_connections digest' now' uuid' event revision cs rows'
        ≡ ((deliver_to_connections digest now uuid event revision cs rows).0, rows')
  unfolding deliver_to_connections Extends
  deliver_to_connections_twice uuid uuid' [] rows rows' k = refl
  deliver_to_connections_twice uuid uuid' (c ∷ cs) rows rows' k =
      let d = event_delivery digest now (uuid 0) event revision c in
      let d' = event_delivery digest' now' (uuid' 0) event revision c in
      let (x, rows1) = insert_delivery d rows in
      let f : first_where (same_delivery d) rows' ≡ some x = k _ x (
        deliver-Extends (λ n. uuid (n + 1)) cs rows1 _ x
          (insert_delivery-first d rows (same_event_delivery (uuid 0) c))) in
      let g = insert_delivery-found d' x rows' f in
      let ih =
        deliver_to_connections_twice (λ n. uuid (n + 1)) (λ n. uuid' (n + 1)) cs rows1 rows' k in
      rw (g, ih) refl

-- Routing an event again, at another time and with other ids, answers with the same deliveries and
-- leaves the database as it is.
pub route_component_event_twice :
    (digest digest' : Json → Digest) (now now' : Millis) (uuid uuid' : ℕ → Uuid) (event : Event)
    (revision : Uuid) (db db' : Db) (ds : List Delivery)
    → route_component_event digest now uuid event revision db ≡ ok (ds, db')
    → route_component_event digest' now' uuid' event revision db' ≡ ok (ds, db')
unfolding route_component_event
route_component_event_twice digest digest' now now' uuid uuid' event revision db db' ds e =
    elim (Option-cases event.source_component_instance_id) [
      | inl h ↦ absurd (ground arith)
      | inr (component, h) ↦ elim (Option-cases event.source_port_name) [
        | inl h' ↦ absurd (ground arith)
        | inr (port, h') ↦
            let cs = rows_where (is_connection_from revision component port) db.connections in
            let t =
              deliver_to_connections_twice digest digest' now now' event revision uuid uuid' cs
                db.deliveries _ (Extends-refl _) in
            ground (arith, t)
      ]
    ]
