-- ===== src/Tests/Leasing.antt =====
-- A lease for the one delivery, and the attempt to lease again.
use factory_floor.Admission.Reserve.{reserve_in_transaction, reserve_against, budget_decision}
use factory_floor.Common.Ints.{◌-ℤ◌}
use factory_floor.Admission.Calculate.{calculate_admission}
use factory_floor.Admission.Usage.{
  reserved_quantity, consumed_quantity, ancestors, applicable_budgets,
}
use factory_floor.Admission.Lease.{execution_lease_may_proceed, reserve_execution_lease_admission}
use factory_floor.Scheduler.Groups.{first_of_groups, take_rows, candidates}
use factory_floor.Common.{
  set_where, delete_where, sum_of, first_where, any_row, rows_where, place, order_by, ◌≤◌, refl,
  true, none, [], ◌∷◌, ℕ, ◌+◌, arith,
}
use factory_floor.Tables.{Db}
use factory_floor.Scheduler.Executions.{LeasedExecutionAttempt}
use factory_floor.Scheduler.Candidate.{try_candidate}
use factory_floor.Scheduler.Select.{fan_in_expected, input_ports, select_inputs}
use factory_floor.Scheduler.Lease.{lease_next_attempt}
use factory_floor.Scheduler.SameWork.{IsSameWork, IsNewExecution}
use factory_floor.Scheduler.Loop.{IsLeaseFrom, lease_next_attempt-some, lease_next_attempt-none}
use factory_floor.Scheduler.Inputs.{AreInputs, select_inputs-AreInputs}
use factory_floor.Tests.Data.{working, start, options, fresh, result_or, first_delivery, input_port}

abbrev one_lease : LeasedExecutionAttempt
one_lease = record {
  execution_id = 300;
  attempt_id = 400;
  attempt_number = 1;
  lease_token = 500;
  lease_expires_at = 61000;
  inputs = record { port_name = 7; delivery_id = 100; payload = 5 } ∷ [];
}

abbrev leased : Db
unfolding lease_next_attempt
leased =
    (result_or (none, start) (lease_next_attempt (λ is. 0) (λ d. true) options 1000 fresh start)).1

new_ids : (n : ℕ) → IsNewExecution start (fresh n).execution
unfolding IsNewExecution
new_ids n = (tt, tt)

working_new_ids : (n : ℕ) → IsNewExecution working (fresh (n + 1)).execution
unfolding IsNewExecution
working_new_ids n = ((ground arith, tt), (ground arith, tt))

lease_next_attempt-some_example :
    (1 ≤ 60000)
    × (60000 ≤ 900000)
    × IsLeaseFrom
        (λ is. 0)
        (λ d. true)
        options
        1000
        fresh
        (candidates options.component_selectors 1000 start)
        start
        leased
        one_lease
unfolding leased candidates order_by place rows_where any_row try_candidate first_where
    select_inputs input_ports fan_in_expected reserve_execution_lease_admission
    execution_lease_may_proceed applicable_budgets ancestors calculate_admission ◌-ℤ◌
    consumed_quantity sum_of budget_decision reserve_against reserve_in_transaction
    reserved_quantity delete_where set_where lease_next_attempt
lease_next_attempt-some_example =
    lease_next_attempt-some (λ is. 0) (λ d. true) options 1000 fresh start leased one_lease new_ids
      refl

lease_next_attempt-none_example : IsSameWork working working
unfolding candidates order_by rows_where lease_next_attempt take_rows first_of_groups
lease_next_attempt-none_example =
    lease_next_attempt-none (λ is. 0) (λ d. true) options 1000 (λ n. fresh (n + 1)) working working
      working_new_ids refl

select_inputs-AreInputs_example :
    AreInputs first_delivery 1000
      (λ port. 1)
      (input_port ∷ [])
      (first_delivery ∷ [])
      (first_delivery ∷ [])
unfolding select_inputs order_by place rows_where any_row
select_inputs-AreInputs_example =
    select_inputs-AreInputs first_delivery 1000 (λ port. 1) (input_port ∷ []) (first_delivery ∷ [])
      (first_delivery ∷ []) refl
