-- ===== src/Scheduler/Groups.antt =====
-- The groups of ready deliveries: the candidate query of leaseNextAttempt, and deferGroup of
-- scheduler-service.ts.
use factory_floor.Common.{
  ℕ, zero, suc, ◌+◌, ◌==◌, ◌&&◌, Bool, true, false, Option, none, some, List, [], ◌∷◌,
  if◌then◌else◌, ltb, leb, rows_where, set_where, order_by, any_row,
}
use factory_floor.Tables.{Db, Delivery, ComponentInstance, Name, Millis}
use factory_floor.Tables.Kinds.{is_ready}

abbrev pub incomplete_group_recheck_ms : ℕ
incomplete_group_recheck_ms = 250

abbrev pub candidate_group_limit : ℕ
candidate_group_limit = 50

-- the partition of row_number(), and the four columns of deferGroup
abbrev pub same_group : Delivery → Delivery → Bool
same_group c d =
    d.region_id == c.region_id
    && (d.topology_revision_id == c.topology_revision_id
        && (d.target_component_instance_id == c.target_component_instance_id
            && d.correlation_id == c.correlation_id))

-- status = 'ready' and available_at <= now
abbrev pub is_available : Millis → Delivery → Bool
is_available now d = is_ready d.status && leb d.available_at now

-- deferGroup
unfoldable pub defer_group : Delivery → Millis → Db → Db
defer_group candidate now db = record db {
  deliveries =
      set_where (λ d. is_available now d && same_group candidate d)
        (λ d. record d { available_at = now + incomplete_group_recheck_ms }) db.deliveries;
}

-- order by available_at, created_at, id
unfoldable pub before : Delivery → Delivery → Bool
before a b =
    if ltb a.available_at b.available_at
    then true
    else if ltb b.available_at a.available_at
    then false
    else if ltb a.created_at b.created_at
    then true
    else if ltb b.created_at a.created_at
    then false
    else leb a.id b.id

-- concat(cd.name, '@', cd.version) in (…), or true where no selectors are given
unfoldable pub is_selected : Option (List Name) → List ComponentInstance → Delivery → Bool
is_selected none instances d = any_row (λ i. i.id == d.target_component_instance_id) instances
is_selected (some selectors) instances d =
    any_row
      (λ i. i.id == d.target_component_instance_id && any_row (λ s. s == i.selector) selectors)
      instances

-- group_rank = 1: no row of the group stands before it in the ordered rows
unfoldable pub first_of_groups : List Delivery → List Delivery → List Delivery
first_of_groups seen [] = []
first_of_groups seen (d ∷ ds) =
    let rest = first_of_groups (d ∷ seen) ds in
    if any_row (λ c. same_group c d) seen then rest else d ∷ rest

unfoldable pub take_rows : ℕ → List Delivery → List Delivery
take_rows zero ds = []
take_rows (suc n) [] = []
take_rows (suc n) (d ∷ ds) = d ∷ take_rows n ds

-- the candidates, one of each group, at most the limit
unfoldable pub candidates : Option (List Name) → Millis → Db → List Delivery
unfolding before is_selected first_of_groups take_rows
candidates selectors now db = take_rows candidate_group_limit (
    first_of_groups [] (
      order_by before (
        rows_where (λ d. is_available now d && is_selected selectors db.instances d)
          db.deliveries)))
