-- ===== src/Tests/Admitting.antt =====
-- A reservation against the one budget, the same request again, and its settlement.
use factory_floor.Common.{
  any_row, place, order_by, first_where, rows_where, sum_of, ℕ, ◌+◌, ◌≤◌, ◌≡◌, ◌↔◌, refl, arith,
  some, none, set_where, true, false, All, List, [], ◌∷◌, Perm, ok,
}
use factory_floor.Common.Ints.{◌-ℤ◌, pos}
use factory_floor.Tables.{Region, Uuid}
use factory_floor.Tables.QuotaRows.{Quota, Exhaustion, admit, UnitName, model_tokens}
use factory_floor.Admission.Calculate.{calculate_admission, calculate_admission-admit_iff}
use factory_floor.Admission.Usage.{
  applicable_budgets, reserved_quantity, consumed_quantity, ancestors, budgets_along, consumed_in,
  descendants,
}
use factory_floor.Admission.Usage.Chain.{count_budget, IsForest}
use factory_floor.Admission.Usage.Fuel.{usage_fuel_enough}
use factory_floor.Admission.Reserve.{
  prior_reservations, budget_decision, limiting_budget, reserve_against, ReserveResourceInput,
  admitted, reserve_in_transaction,
}
use factory_floor.Admission.Reserve.Limits.{IsWithin, IsKeyed, reserve_in_transaction-IsWithin}
use factory_floor.Admission.Reserve.Replay.{reserve_in_transaction_twice}
use factory_floor.Admission.Configure.{
  ConfigureRegionBudgetsInput, is_active_in, configure_region_budgets_in_transaction,
  retire_undesired, is_desired, retire, configure_limits, configure_limit, parent_budget, put_limit,
  insert_limit, insert_budget, new_budget,
}
use factory_floor.Admission.Configure.Declared.{configure_region_budgets_in_transaction-is_desired}
use factory_floor.Admission.Settle.{release, reconcile, is_open_for}
use factory_floor.Admission.Settle.Frees.{release-frees, held_quantity}
use factory_floor.Admission.Settle.Replay.{reconcile_twice}
use factory_floor.Admission.Lease.{execution_lease_input}
use factory_floor.Tests.Data.{one_quota, one_budget, root_region, result_or}

calculate_admission-admit_iff_example :
    ((calculate_admission (pos 5) (pos 1) (pos 2) (pos 2) Exhaustion.defer).outcome ≡ admit)
    ↔ (1 + 2 + 2 ≤ 5)
calculate_admission-admit_iff_example = calculate_admission-admit_iff 5 1 2 2 Exhaustion.defer

abbrev regions : List Region
regions = root_region ∷ record root_region { id = 2; parent_region_id = some 1 } ∷ []

-- Region 2 lies below region 1.
abbrev depth : Uuid → ℕ
depth id = id

abbrev request : ReserveResourceInput
request = execution_lease_input 2 300

abbrev uuid : ℕ → Uuid
uuid n = 600 + n

abbrev held : Quota
unfolding reserve_in_transaction
held =
    (result_or (admitted 0 [], one_quota) (reserve_in_transaction regions request uuid one_quota)).1

regions-IsForest : IsForest depth regions
regions-IsForest = ((λ parent e. absurd (cc)), ((λ parent e. ground arith), tt))

one_budget-IsKeyed : IsKeyed one_budget one_quota.budgets
unfolding count_budget
one_budget-IsKeyed = record { same = ((λ e. refl), tt); once = omega arith }

one_budget-IsWithin : IsWithin regions one_quota one_budget
unfolding consumed_quantity reserved_quantity sum_of rows_where
one_budget-IsWithin = omega arith

usage_fuel_enough_example :
    (budgets_along model_tokens one_quota.budgets (ancestors 9 regions 2)
      ≡ applicable_budgets regions 2 model_tokens one_quota)
    × (consumed_in model_tokens one_quota (descendants 9 regions 1)
        ≡ consumed_quantity regions model_tokens one_quota one_budget)
unfolding any_row
usage_fuel_enough_example =
    usage_fuel_enough depth regions 9 model_tokens one_quota one_budget 2 regions-IsForest refl
      (omega arith)

reserve_in_transaction-IsWithin_example : IsWithin regions held one_budget
unfolding held reserve_in_transaction applicable_budgets ancestors first_where rows_where order_by
    place reserve_against limiting_budget budget_decision calculate_admission ◌-ℤ◌ consumed_quantity
    reserved_quantity sum_of any_row
reserve_in_transaction-IsWithin_example =
    reserve_in_transaction-IsWithin depth regions request uuid one_quota held
      (admitted 600 (601 ∷ [])) one_budget regions-IsForest one_budget-IsKeyed one_budget-IsWithin
      refl

reserve_in_transaction_twice_example :
    (ids : List Uuid) × (reserve_in_transaction regions request uuid held
      ≡ ok (admitted 600 ids, held))
    × Perm ids (601 ∷ [])
unfolding held reserve_in_transaction applicable_budgets ancestors first_where rows_where order_by
    place reserve_against limiting_budget budget_decision calculate_admission ◌-ℤ◌ consumed_quantity
    reserved_quantity sum_of any_row prior_reservations
reserve_in_transaction_twice_example =
    reserve_in_transaction_twice regions regions request request 1 uuid uuid one_quota held
      (admitted 600 (601 ∷ [])) refl refl refl (λ e. cc) refl refl

-- After its reservations are settled with 200 units.
abbrev settled : Quota
unfolding held reconcile
settled = (result_or (false, held) (reconcile 610 600 (pos 200) 5000 held)).1

release-frees_example :
    (reserved_quantity (release 600 5000 held) one_budget
        + held_quantity 600 one_budget.id held.reservations
      ≡ reserved_quantity held one_budget)
    × All (λ r. is_open_for 600 r ≡ false) (release 600 5000 held).reservations
    × ((release 600 5000 held).budgets ≡ held.budgets)
    × ((release 600 5000 held).ledger ≡ held.ledger)
release-frees_example = release-frees 600 5000 held one_budget

reconcile_twice_example : reconcile 611 600 (pos 250) 6000 settled ≡ ok (true, settled)
unfolding settled held reconcile reserve_in_transaction applicable_budgets ancestors first_where
    rows_where order_by place reserve_against limiting_budget budget_decision calculate_admission
    ◌-ℤ◌ consumed_quantity reserved_quantity sum_of any_row
reconcile_twice_example = reconcile_twice 610 611 600 200 250 5000 6000 held settled true refl

-- Tokens in place of executions.
abbrev token_budgets : ConfigureRegionBudgetsInput
token_budgets = record {
  region_id = 1;
  parent_region_id = none;
  limits =
      record {
        resource_type = model_tokens;
        limit_quantity = 500;
        unit = UnitName.tokens;
        exhaustion_outcome = Exhaustion.defer;
      }
      ∷ [];
  source = 7;
}

abbrev configured : Quota
unfolding configure_region_budgets_in_transaction
configured =
    result_or one_quota (configure_region_budgets_in_transaction token_budgets uuid 5000 one_quota)

configure_region_budgets_in_transaction-is_desired_example :
    All
      (λ b. is_desired token_budgets.limits b.resource_type ≡ true)
      (rows_where (is_active_in 1) configured.budgets)
unfolding configured configure_region_budgets_in_transaction retire_undesired is_desired any_row
    retire set_where rows_where configure_limits configure_limit parent_budget put_limit
    insert_limit insert_budget first_where
configure_region_budgets_in_transaction-is_desired_example =
    configure_region_budgets_in_transaction-is_desired token_budgets uuid 5000 one_quota configured
      refl

configured-budgets :
    configured.budgets
    ≡ record one_budget { retired_at = some 5000 }
      ∷ new_budget 600 1 7
          (record {
            resource_type = model_tokens;
            limit_quantity = 500;
            unit = UnitName.tokens;
            exhaustion_outcome = Exhaustion.defer;
          })
          none
      ∷ []
unfolding configured configure_region_budgets_in_transaction retire_undesired is_desired any_row
    retire set_where rows_where configure_limits configure_limit parent_budget put_limit
    insert_limit insert_budget first_where
configured-budgets = refl
