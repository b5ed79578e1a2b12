-- ===== src/Admission/Usage.antt =====
-- The queries of reserveInTransaction in scheduling/resource-admission-service.ts: the budgets on
-- the way to the root, and what is reserved and consumed against one of them. The recursive
-- queries run on fuel, one step for each region: `parent_region_id` makes a forest.
pub mod Chain
pub mod Fuel
use factory_floor.Common.{
  ℕ, zero, suc, ◌==◌, ◌&&◌, ◌++◌, Bool, not, Option, none, some, List, [], ◌∷◌, length, leb,
  rows_where, first_where, order_by, sum_of, any_row, is_some, holds, if◌then◌else◌,
}
use factory_floor.Tables.{Region, Uuid}
use factory_floor.Tables.QuotaRows.{
  Quota, Budget, Reservation, ResourceType, same_resource, is_reserved,
}

-- with recursive ancestors: the region, its parent, and so on, nearest first
unfoldable pub from_parent : (Uuid → List Region) → Option Uuid → List Region
from_parent up none = []
from_parent up (some parent) = up parent

unfoldable pub from_region : (Uuid → List Region) → Option Region → List Region
unfolding from_parent
from_region up none = []
from_region up (some r) = r ∷ from_parent up r.parent_region_id

unfoldable pub ancestors : ℕ → List Region → Uuid → List Region
unfolding from_region
ancestors zero regions id = []
ancestors (suc fuel) regions id =
    from_region (ancestors fuel regions) (first_where (λ r. r.id == id) regions)

abbrev pub applies_to : ResourceType → Region → Budget → Bool
applies_to kind region b =
    b.scope_id == region.id && (same_resource b.resource_type kind && not (is_some b.retired_at))

-- order by ancestors.depth asc, b.id
unfoldable pub budgets_along : ResourceType → List Budget → List Region → List Budget
budgets_along kind budgets [] = []
budgets_along kind budgets (region ∷ regions) =
    order_by (λ b c. leb b.id c.id) (rows_where (applies_to kind region) budgets)
    ++ budgets_along kind budgets regions

unfoldable pub applicable_budgets : List Region → Uuid → ResourceType → Quota → List Budget
unfolding budgets_along
applicable_budgets regions region_id kind q =
    budgets_along kind q.budgets (ancestors (length regions) regions region_id)

abbrev pub is_held_against : ℕ → Reservation → Bool
is_held_against budget_id r = r.budget_id == budget_id && is_reserved r.status

-- sum(quantity) … where budget_id = … and status = 'reserved'
unfoldable pub reserved_quantity : Quota → Budget → ℕ
reserved_quantity q b = sum_of (λ r. r.quantity) (rows_where (is_held_against b.id) q.reservations)

-- the regions whose parent is `id`, each with what is below it
unfoldable pub children_of : (Uuid → List Uuid) → Uuid → List Region → List Uuid
children_of below id [] = []
children_of below id (r ∷ rs) =
    if holds r.parent_region_id id
    then below r.id ++ children_of below id rs
    else children_of below id rs

-- with recursive region_descendants: the region and all below it
unfoldable pub descendants : ℕ → List Region → Uuid → List Uuid
unfolding children_of
descendants zero regions id = []
descendants (suc fuel) regions id = id ∷ children_of (descendants fuel regions) id regions

-- sum(rl.quantity) … where rl.resource_type = … and rl.region_id in region_descendants
abbrev pub consumed_in : ResourceType → Quota → List Uuid → ℕ
consumed_in kind q below =
    sum_of (λ e. e.quantity)
      (rows_where
        (λ e. same_resource e.resource_type kind && any_row (λ id. id == e.region_id) below)
        q.ledger)

unfoldable pub consumed_quantity : List Region → ResourceType → Quota → Budget → ℕ
unfolding descendants
consumed_quantity regions kind q b =
    consumed_in kind q (descendants (length regions) regions b.scope_id)

-- The sum is the text of a numeric(38, 12): where there is a row it has decimals, and BigInt throws.
unfoldable pub has_decimals : List Region → ResourceType → Quota → Budget → Bool
unfolding descendants
has_decimals regions kind q b =
    let below = descendants (length regions) regions b.scope_id in
    any_row (λ e. same_resource e.resource_type kind && any_row (λ id. id == e.region_id) below)
      q.ledger
