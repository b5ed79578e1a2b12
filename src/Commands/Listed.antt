-- ===== src/Commands/Listed.antt =====
-- The deliveries that a replay of command-service.ts lists, against those of the first answer.
use factory_floor.Common.{
  rows_where-nil, any_row-order_by, any_row-rows_where, arith, ◌≡◌, refl, ◌==◌, Bool, true, List,
  [], ◌∷◌, ok, if◌then◌else◌, rows_where, All-rows_where, All-rows_where-true, any_row, All-any_row,
  order_by, All-order_by, All, All-mono, All-zip, ==_refl,
}
use factory_floor.Tables.{Db, Command, Delivery, Uuid}
use factory_floor.Tables.Kinds.{is_rejected}
use factory_floor.Commands.{SubmitCommandResult, Disposition}
use factory_floor.Commands.Submit.{replay, is_delivery_of, delivery_ids, delivery_before}
use factory_floor.Commands.Routed.{IsRouted}

abbrev pub is_listed : Uuid → List Uuid → Bool
is_listed i is = any_row (λ x. x == i) is

-- The answer of a replay: the same ids, status and rejection, the same deliveries in any order.
abbrev pub IsAnsweredAs : SubmitCommandResult → SubmitCommandResult → Type 0
IsAnsweredAs r s =
    (s.command_id ≡ r.command_id)
    × (s.status ≡ r.status)
    × (s.correlation_id ≡ r.correlation_id)
    × (s.event_id ≡ r.event_id)
    × (s.rejection ≡ r.rejection)
    × (s.disposition
        ≡ (if is_rejected r.status then Disposition.rejected else Disposition.replayed))
    × All (λ i. is_listed i s.delivery_ids ≡ true) r.delivery_ids
    × All (λ i. is_listed i r.delivery_ids ≡ true) s.delivery_ids

is_listed-delivery_ids :
    (i : Uuid) (ds : List Delivery)
    → is_listed i (delivery_ids ds) ≡ any_row (λ (d : Delivery). d.id == i) ds
unfolding any_row
is_listed-delivery_ids i [] = refl
is_listed-delivery_ids i (d ∷ ds) = ground (arith, is_listed-delivery_ids i ds)

All-delivery_ids :
    (P : Uuid → Type 0) (ds : List Delivery) → All (λ d. P d.id) ds → All P (delivery_ids ds)
All-delivery_ids P [] h = tt
All-delivery_ids P (d ∷ ds) h = (h.0, All-delivery_ids P ds h.1)

-- What a submission leaves of its command: it is replayed with the same answer.
abbrev pub IsReplayed : Command → Db → SubmitCommandResult × Db → Type 0
IsReplayed c db (r, db') =
    (db'.commands ≡ db.commands)
    × (db'.regions ≡ db.regions)
    × ((s : SubmitCommandResult) × (replay c c.request_digest db' ≡ ok s) × IsAnsweredAs r s)

pub listed_each : (is : List Uuid) → All (λ i. is_listed i is ≡ true) is
listed_each is = All-any_row (λ (i x : Uuid). x == i) ==_refl is

-- the deliveries that a replay lists
abbrev pub listed_again : Uuid → Db → List Uuid
listed_again command db =
    delivery_ids (order_by delivery_before (rows_where (is_delivery_of command) db.deliveries))

-- What routing answers with is what a replay lists.
pub IsRouted-listed :
    (command : Uuid) (db db' : Db) (ds : List Delivery)
    → rows_where (is_delivery_of command) db.deliveries ≡ []
    → IsRouted command db (ds, db')
    → All (λ i. is_listed i (listed_again command db') ≡ true) (delivery_ids ds)
      × All (λ i. is_listed i (delivery_ids ds) ≡ true) (listed_again command db')
IsRouted-listed command db db' ds none_yet h =
    let own = is_delivery_of command in
    let Known : Delivery → Type 0 = λ r. own r ≡ true → is_listed r.id (delivery_ids ds) ≡ true in
    let known : All Known db'.deliveries =
      h.1.2 Known
        (All-mono _ _ (λ r e t. absurd (cc)) db.deliveries (rows_where-nil own _ none_yet))
        (All-mono _ _ (λ r e t. ground (arith, is_listed-delivery_ids r.id ds)) ds
          (All-any_row (λ (a : Delivery) (d : Delivery). d.id == a.id) (λ a. ==_refl a.id) ds)) in
    (
      All-delivery_ids _ ds (
          All-mono _ _
            (λ d e. ground (
              arith,
              is_listed-delivery_ids d.id
                  (order_by delivery_before (rows_where own db'.deliveries)),
              any_row-order_by delivery_before (λ (r : Delivery). r.id == d.id)
                  (rows_where own db'.deliveries),
              any_row-rows_where (λ (r : Delivery). r.id == d.id) own db'.deliveries,
            ))
            ds h.1.1),
      All-delivery_ids _ _ (
          All-order_by _ delivery_before _ (
            All-mono _ _ (λ r e. e.0 e.1) _
              (All-zip _ _ _ (All-rows_where Known own _ known) (All-rows_where-true own _)))),
    )
