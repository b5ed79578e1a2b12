-- ===== src/Admission/Configure.antt =====
-- configureRegionBudgetsInTransaction of scheduling/resource-admission-service.ts.
-- `limits` is what `normalizeBudgetDeclaration` gives of the declared budgets, `uuid` what
-- `createUuidV7` returns, call by call.
pub mod Declared
use factory_floor.Common.{
  ℕ, ◌+◌, ◌==◌, ◌&&◌, ◌++◌, Bool, true, false, not, none, some, Option, List, [], ◌∷◌, Result, ok,
  err, if◌then◌else◌, leb, rows_where, first_where, set_where, any_row,
}
use factory_floor.Tables.{Uuid, Millis}
use factory_floor.Tables.QuotaRows.{
  Quota, Budget, ResourceType, UnitName, Exhaustion, same_resource, same_unit, same_exhaustion,
}
use factory_floor.Admission.Reserve.{AdmissionError, child_exceeds_parent, unique_violation}

pub record NormalizedBudgetLimit : Type 0 where
  pub resource_type : ResourceType
  pub limit_quantity : ℕ
  pub unit : UnitName
  pub exhaustion_outcome : Exhaustion

pub record ConfigureRegionBudgetsInput : Type 0 where
  pub region_id : Uuid
  pub parent_region_id : Option Uuid
  pub limits : List NormalizedBudgetLimit
  pub source : ℕ

abbrev pub is_active : Budget → Bool
is_active b = elim b.retired_at [ none ↦ true | some t ↦ false ]

abbrev pub is_active_in : Uuid → Budget → Bool
is_active_in region_id b = b.scope_id == region_id && is_active b

abbrev pub is_limit_of : Uuid → ResourceType → Budget → Bool
is_limit_of region_id type b = is_active_in region_id b && same_resource type b.resource_type

-- update resource_budgets set retired_at = now() where id = …
unfoldable pub retire : Uuid → Millis → List Budget → List Budget
retire id now budgets =
    set_where (λ b. b.id == id) (λ b. record b { retired_at = some now }) budgets

-- desired
unfoldable pub is_desired : List NormalizedBudgetLimit → ResourceType → Bool
is_desired limits type = any_row (λ l. same_resource l.resource_type type) limits

-- the first loop
unfoldable pub retire_undesired :
    List NormalizedBudgetLimit → Millis → List Budget → List Budget → List Budget
unfolding retire is_desired
retire_undesired limits now [] budgets = budgets
retire_undesired limits now (r ∷ rs) budgets =
    retire_undesired limits now rs
      (if is_desired limits r.resource_type then budgets else retire r.id now budgets)

unfoldable pub parent_budget : Option Uuid → ResourceType → List Budget → Option Budget
parent_budget none type budgets = none
parent_budget (some region_id) type budgets = first_where (is_limit_of region_id type) budgets

abbrev pub same_option : Option Uuid → Option Uuid → Bool
same_option none none = true
same_option (some a) (some b) = a == b
same_option _ _ = false

-- the limit asks for what the current budget says
abbrev pub is_unchanged : NormalizedBudgetLimit → Option Uuid → Budget → Bool
is_unchanged limit parent_id b =
    same_option b.parent_budget_id parent_id
    && b.limit_quantity == limit.limit_quantity
    && same_unit b.unit limit.unit
    && same_exhaustion b.exhaustion_outcome limit.exhaustion_outcome

abbrev pub new_budget : Uuid → Uuid → ℕ → NormalizedBudgetLimit → Option Uuid → Budget
new_budget id region_id source limit parent_id = record {
  id = id;
  scope_id = region_id;
  parent_budget_id = parent_id;
  resource_type = limit.resource_type;
  limit_quantity = limit.limit_quantity;
  unit = limit.unit;
  exhaustion_outcome = limit.exhaustion_outcome;
  source = source;
  retired_at = none;
}

-- the insert, under the unique index on the active budgets of a scope and resource
unfoldable pub insert_budget : Budget → List Budget → Result AdmissionError (List Budget)
insert_budget b budgets =
    if any_row (is_limit_of b.scope_id b.resource_type) budgets
    then err unique_violation
    else ok (budgets ++ b ∷ [])

-- The budgets, and the ids that are still to be drawn.
abbrev pub Configured : Type 0
Configured = List Budget × (ℕ → Uuid)

module _ (input : ConfigureRegionBudgetsInput) (now : Millis) (existing : List Budget) where
  -- an insert draws an id
  unfoldable pub insert_limit :
      NormalizedBudgetLimit
      → Option Uuid
      → (ℕ → Uuid)
      → List Budget
      → Result AdmissionError Configured
  unfolding insert_budget
  insert_limit limit parent_id uuid budgets =
      elim (insert_budget (new_budget (uuid 0) input.region_id input.source limit parent_id)
        budgets) [ ok budgets' ↦ ok (budgets', λ n. uuid (n + 1)) | err e ↦ err e ]

  unfoldable pub put_limit :
      NormalizedBudgetLimit → Option Uuid → Configured → Result AdmissionError Configured
  unfolding retire insert_limit
  put_limit limit parent_id (budgets, uuid) =
      elim (first_where (λ (r : Budget). same_resource r.resource_type limit.resource_type)
        existing) [
          | none ↦ insert_limit limit parent_id uuid budgets
          | some current ↦
              if is_unchanged limit parent_id current
              then ok (budgets, uuid)
              else insert_limit limit parent_id uuid (retire current.id now budgets)
        ]

  -- one round of the second loop
  unfoldable pub configure_limit :
      NormalizedBudgetLimit → Configured → Result AdmissionError Configured
  unfolding parent_budget put_limit
  configure_limit limit (budgets, uuid) =
      elim (parent_budget input.parent_region_id limit.resource_type budgets) [
        | none ↦ put_limit limit none (budgets, uuid)
        | some parent ↦
            if leb limit.limit_quantity parent.limit_quantity
            then put_limit limit (some parent.id) (budgets, uuid)
            else err child_exceeds_parent
      ]

  unfoldable pub configure_limits :
      List NormalizedBudgetLimit → Configured → Result AdmissionError Configured
  unfolding configure_limit
  configure_limits [] c = ok c
  configure_limits (l ∷ ls) c = elim (configure_limit l c) [
    | ok c' ↦ configure_limits ls c'
    | err e ↦ err e
  ]

unfoldable pub configure_region_budgets_in_transaction :
    ConfigureRegionBudgetsInput → (ℕ → Uuid) → Millis → Quota → Result AdmissionError Quota
unfolding retire_undesired configure_limits
configure_region_budgets_in_transaction input uuid now q =
    let existing = rows_where (is_active_in input.region_id) q.budgets in
    elim (configure_limits input now existing input.limits
      (retire_undesired input.limits now existing q.budgets, uuid)) [
        | ok (budgets, rest) ↦ ok (record q { budgets = budgets })
        | err e ↦ err e
      ]
