-- ===== src/Scheduler/Select.antt =====
-- Which deliveries of a group make up an execution's inputs: fan-in counts, required ports and
-- optional ports, of tryCandidate in scheduler-service.ts.

use factory_floor.Common.{
  ℕ, ◌==◌, ◌&&◌, ◌++◌, Bool, true, false, not, Option, none, some, List, [], ◌∷◌, if◌then◌else◌,
  ltb, leb, length, rows_where, order_by, any_row, or_else,
}
use factory_floor.Tables.{Delivery, PortDefinition, FanInRule, Uuid, Name, Millis}
use factory_floor.Tables.Kinds.{is_input}
use factory_floor.Scheduler.Groups.{same_group, is_available}

-- `fanInExpected.get(port) ?? 1`: the last rule for the port of this instance that is valid
unfoldable pub fan_in_from : ℕ → Name → Name → List FanInRule → ℕ
fan_in_from acc component port [] = acc
fan_in_from acc component port (r ∷ rs) =
    fan_in_from
      (if r.instance_name == component && r.port == port then or_else r.expected acc else acc)
      component port rs

unfoldable pub fan_in_expected : List FanInRule → Name → Name → ℕ
unfolding fan_in_from
fan_in_expected rules component port = fan_in_from 1 component port rules

-- order by created_at, id
abbrev pub by_creation : Delivery → Delivery → Bool
by_creation a b =
    if ltb a.created_at b.created_at
    then true
    else if ltb b.created_at a.created_at
    then false
    else leb a.id b.id

-- the input ports of the component's definition, ordered by name
unfoldable pub input_ports : Uuid → List PortDefinition → List PortDefinition
input_ports definition ports =
    order_by (λ a b. leb a.name b.name)
      (rows_where (λ p. p.component_definition_id == definition && is_input p.direction) ports)

abbrev pub is_waiting_at : Delivery → Millis → Name → Delivery → Bool
is_waiting_at candidate now port d =
    is_available now d && (same_group candidate d && d.target_port_name == port)

-- the ready deliveries of the group at one port
unfoldable pub waiting : Delivery → Millis → Name → List Delivery → List Delivery
waiting candidate now port deliveries =
    order_by by_creation (rows_where (is_waiting_at candidate now port) deliveries)

module _ (candidate : Delivery) (now : Millis) (expected : Name → ℕ) where
  -- every required port must have exactly the expected number
  unfoldable pub select_required : List PortDefinition → List Delivery → Option (List Delivery)
  unfolding waiting
  select_required [] deliveries = some []
  select_required (p ∷ ps) deliveries =
      let rest = select_required ps deliveries in
      let rows = waiting candidate now p.name deliveries in
      if length rows == expected p.name
      then elim rest [ none ↦ none | some others ↦ some (rows ++ others) ]
      else none

  -- an optional port may wait for more, but must not have too many
  unfoldable pub select_optional : List PortDefinition → List Delivery → Option (List Delivery)
  unfolding waiting
  select_optional [] deliveries = some []
  select_optional (p ∷ ps) deliveries =
      let rest = select_optional ps deliveries in
      let rows = waiting candidate now p.name deliveries in
      if ltb (expected p.name) (length rows) then none else elim rest [
        | none ↦ none
        | some others ↦ some (if length rows == expected p.name then rows ++ others else others)
      ]

-- order by target_port_name, id
abbrev pub by_port : Delivery → Delivery → Bool
by_port a b =
    if ltb a.target_port_name b.target_port_name
    then true
    else if ltb b.target_port_name a.target_port_name
    then false
    else leb a.id b.id

abbrev pub is_required : PortDefinition → Bool
is_required p = p.required

unfoldable pub join_selected :
    Option (List Delivery) → Option (List Delivery) → Option (List Delivery)
join_selected none optional = none
join_selected (some required) none = none
join_selected (some required) (some optional) = elim (order_by by_port (required ++ optional)) [
  | [] ↦ none
  | d ∷ ds ↦ some (d ∷ ds)
]

-- the sorted inputs of the execution, or none where the group is deferred
unfoldable pub select_inputs :
    Delivery → Millis → (Name → ℕ) → List PortDefinition → List Delivery → Option (List Delivery)
unfolding select_required select_optional join_selected
select_inputs candidate now expected ports deliveries =
    if any_row (λ p. p.name == candidate.target_port_name) ports
    then join_selected
        (select_required candidate now expected (rows_where is_required ports) deliveries)
        (select_optional candidate now expected (rows_where (λ p. not p.required) ports) deliveries)
    else none
