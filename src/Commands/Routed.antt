-- ===== src/Commands/Routed.antt =====
-- The deliveries that routeCommand answers with are those of its command in the table.
use factory_floor.Common.{
  any_row-first, any_row-longer, ==_refl, arith, ℕ, ◌+◌, ◌≡◌, refl, ◌==◌, ◌&&◌, Bool, true, none,
  some, List, [], ◌∷◌, Result, ok, first_where, first_where-true, any_row, any_row-append, All,
  All-append, Option-cases, Result-cases, ok_subst, inl, inr, subst, sym,
}
use factory_floor.Tables.{
  Db, Command, Delivery, TopologyRevision, IngressTarget, Uuid, Json, Digest, Millis,
}
use factory_floor.Tables.Kinds.{Fault}
use factory_floor.Routing.Deliver.{
  insert_delivery, same_delivery, deliver_to_targets, ready_delivery, route_command,
}
use factory_floor.Routing.Replay.{insert_delivery-found}
use factory_floor.Commands.Submit.{is_delivery_of}

-- The delivery of a command in another row.
abbrev pub is_row_of : Uuid → Delivery → Delivery → Bool
is_row_of command d r = is_delivery_of command r && r.id == d.id

abbrev command_delivery :
    (Json → Digest) → Millis → Uuid → Command → Uuid → Uuid → IngressTarget → Delivery
command_delivery digest now id c revision instance t =
    ready_delivery id c.region_id revision instance t.port (some c.id) none c.correlation_id
      c.payload (digest c.payload) now

-- What an insertion of deliveries leaves: the rows that were there and the answered ones, which
-- are deliveries of the command.
abbrev pub IsDelivered : Uuid → List Delivery → List Delivery → List Delivery → Type 1
IsDelivered command rows ds rows' =
    ((p : Delivery → Bool) → any_row p rows ≡ true → any_row p rows' ≡ true)
    × All (λ d. any_row (is_row_of command d) rows' ≡ true) ds
    × ((P : Delivery → Type 0) → All P rows → All P ds → All P rows')
    × All (λ d. is_delivery_of command d ≡ true) ds

abbrev pub IsRouted : Uuid → Db → List Delivery × Db → Type 1
IsRouted command db (ds, db') =
    (db' ≡ record db { deliveries = db'.deliveries })
    × IsDelivered command db.deliveries ds db'.deliveries

module _ (digest : Json → Digest) (now : Millis) (c : Command) (revision : Uuid) where
  insert_delivery-IsDelivered :
      (id instance : Uuid) (t : IngressTarget) (rows : List Delivery)
      → let d = command_delivery digest now id c revision instance t in
        IsDelivered c.id rows ((insert_delivery d rows).0 ∷ []) (insert_delivery d rows).1
  unfolding insert_delivery
  insert_delivery-IsDelivered id instance t rows =
      let d = command_delivery digest now id c revision instance t in
      let Delivered : Delivery × List Delivery → Type 1 =
        λ p. IsDelivered c.id rows (p.0 ∷ []) p.1 in
      elim (Option-cases (first_where (same_delivery d) rows)) [
        | inl h ↦ subst Delivered (sym (ground arith)) (
          (λ p k. any_row-longer p rows (d ∷ []) k),
          (any_row-append (is_row_of c.id d) rows d (ground arith), tt),
          (λ P k l. All-append P rows (d ∷ []) k l),
          (==_refl c.id, tt),
        )
        | inr (old, h) ↦
            let s = first_where-true (same_delivery d) rows old h in
            subst Delivered (sym (insert_delivery-found d old rows h)) (
              (λ p k. k),
              (any_row-first (same_delivery d) (is_row_of c.id old) rows old h (ground arith), tt),
              (λ P k l. k),
              (ground arith, tt),
            )
      ]

  pub deliver_to_targets-IsRouted :
      (uuid : ℕ → Uuid) (ts : List IngressTarget) (db db' : Db) (ds : List Delivery)
      → deliver_to_targets digest now uuid c revision ts db ≡ ok (ds, db')
      → IsRouted c.id db (ds, db')
  unfolding deliver_to_targets
  deliver_to_targets-IsRouted uuid [] db db' ds h =
      ok_subst (IsRouted c.id db) h (refl, ((λ p k. k), tt, (λ P k l. k), tt))
  deliver_to_targets-IsRouted uuid (t ∷ ts) db db' ds h =
      elim (Option-cases (
        first_where (λ i. i.topology_revision_id == revision && i.name == t.component)
          db.instances)) [
            | inl i ↦ absurd (ground arith)
            | inr (instance, i) ↦
                let d = command_delivery digest now (uuid 0) c revision instance.id t in
                let (x, rows) = insert_delivery d db.deliveries in
                let one = insert_delivery-IsDelivered (uuid 0) instance.id t db.deliveries in
                elim (Result-cases (
                  deliver_to_targets digest now (λ n. uuid (n + 1)) c revision ts
                    (record db { deliveries = rows }))) [
                      | inr (e, r) ↦ absurd (ground arith)
                      | inl ((others, db2), r) ↦
                          let rest =
                            deliver_to_targets-IsRouted (λ n. uuid (n + 1)) ts
                              (record db { deliveries = rows }) db2 others r in
                          let e : ◌≡◌ {A = Result Fault (List Delivery × Db)} (ok (x ∷ others, db2))
                              (ok (ds, db')) =
                            ground arith in
                          ok_subst (IsRouted c.id db) e (
                            (let same = rest.0 in ground arith),
                            (
                              (λ p k. rest.1.0 p (one.0 p k)),
                              (rest.1.0 (is_row_of c.id x) one.1.0, rest.1.1),
                              (λ P k l. rest.1.2 P (one.2 P k (l.0, tt)) l.1),
                              (one.3.0, rest.1.3),
                            ),
                          )
                    ]
          ]

pub route_command-IsRouted :
    (digest : Json → Digest) (now : Millis) (uuid : ℕ → Uuid) (c : Command) (r : TopologyRevision)
    (db db' : Db) (ds : List Delivery)
    → route_command digest now uuid c r db ≡ ok (ds, db')
    → IsRouted c.id db (ds, db')
unfolding route_command
route_command-IsRouted digest now uuid c r db db' ds h =
    deliver_to_targets-IsRouted digest now c r.id uuid _ db db' ds h
