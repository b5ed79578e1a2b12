-- ===== src/Tables/QuotaRows.antt =====
-- resource_budgets, resource_reservations, admission_decisions and resource_ledger
-- (packages/db/src/migrations/zzzzzzzzz_20260811_resource_admission.ts). Every budget row that the
-- code writes has `scope_kind = 'region'`; that column is left out.
use factory_floor.Common.{ℕ, Bool, true, false, ◌==◌, Option, List}
use factory_floor.Common.Ints.{ℤ}

-- In the order of `localeCompare`. The counters of a result's resourceUsage stand among them.
pub data ResourceType : Type 0 where
  concurrent_executions concurrent_regions cpu_milliseconds external_calls human_attention
        input_bytes model_tokens monetary_cost network_calls output_bytes wall_milliseconds :
      ResourceType

abbrev pub rank : ResourceType → ℕ
rank concurrent_executions = 0
rank concurrent_regions = 1
rank cpu_milliseconds = 2
rank external_calls = 3
rank human_attention = 4
rank input_bytes = 5
rank model_tokens = 6
rank monetary_cost = 7
rank network_calls = 8
rank output_bytes = 9
rank wall_milliseconds = 10

abbrev pub same_resource : ResourceType → ResourceType → Bool
same_resource a b = rank a == rank b

pub data UnitName : Type 0 where
  count tokens calls minutes micro_usd milliseconds bytes : UnitName

abbrev pub unit_rank : UnitName → ℕ
unit_rank UnitName.count = 0
unit_rank UnitName.tokens = 1
unit_rank UnitName.calls = 2
unit_rank UnitName.minutes = 3
unit_rank UnitName.micro_usd = 4
unit_rank UnitName.milliseconds = 5
unit_rank UnitName.bytes = 6

abbrev pub same_unit : UnitName → UnitName → Bool
same_unit a b = unit_rank a == unit_rank b

-- Exclude<AdmissionOutcome, 'admit'>
pub data Exhaustion : Type 0 where
  defer require_approval suspend reject : Exhaustion

abbrev pub exhaustion_rank : Exhaustion → ℕ
exhaustion_rank Exhaustion.defer = 0
exhaustion_rank Exhaustion.require_approval = 1
exhaustion_rank Exhaustion.suspend = 2
exhaustion_rank Exhaustion.reject = 3

abbrev pub same_exhaustion : Exhaustion → Exhaustion → Bool
same_exhaustion a b = exhaustion_rank a == exhaustion_rank b

pub data AdmissionOutcome : Type 0 where
  admit : AdmissionOutcome
  exhausted : Exhaustion → AdmissionOutcome

-- `execution:${id}:concurrent-executions`, `external-action:${id}:network-calls`, a caller's own text, or the empty text
pub data IdempotencyKey : Type 0 where
  empty_key : IdempotencyKey
  execution_lease : ℕ → IdempotencyKey
  action_call : ℕ → IdempotencyKey
  caller_key : ℕ → IdempotencyKey

abbrev pub same_key : IdempotencyKey → IdempotencyKey → Bool
same_key empty_key empty_key = true
same_key (execution_lease a) (execution_lease b) = a == b
same_key (action_call a) (action_call b) = a == b
same_key (caller_key a) (caller_key b) = a == b
same_key _ _ = false

pub record Budget : Type 0 where
  pub id : ℕ
  pub scope_id : ℕ
  pub parent_budget_id : Option ℕ
  pub resource_type : ResourceType
  pub limit_quantity : ℕ
  pub unit : UnitName
  pub exhaustion_outcome : Exhaustion
  pub source : ℕ
  pub retired_at : Option ℕ

pub data ReservationStatus : Type 0 where
  reserved reconciled released : ReservationStatus

abbrev pub is_reserved : ReservationStatus → Bool
is_reserved ReservationStatus.reserved = true
is_reserved _ = false

pub record Reservation : Type 0 where
  pub id : ℕ
  pub request_id : ℕ
  pub budget_id : ℕ
  pub region_id : ℕ
  pub execution_id : Option ℕ
  pub attempt_id : Option ℕ
  pub external_action_id : Option ℕ
  pub idempotency_key : IdempotencyKey
  pub quantity : ℕ
  pub actual_quantity : Option ℕ
  pub status : ReservationStatus
  pub reconciled_at : Option ℕ

-- `admission_request_id` is that member of the attributes.
pub record LedgerEntry : Type 0 where
  pub id : ℕ
  pub region_id : ℕ
  pub execution_id : Option ℕ
  pub attempt_id : Option ℕ
  pub external_action_id : Option ℕ
  pub resource_type : ResourceType
  pub quantity : ℕ
  pub unit : UnitName
  pub admission_request_id : Option ℕ

pub data SubjectKind : Type 0 where
  execution region external_action : SubjectKind

pub data Reason : Type 0 where
  no_applicable_budget : Reason
  budget_exhausted : ResourceType → Reason
  reserved_resource : ResourceType → Reason

pub record Decision : Type 0 where
  pub id : ℕ
  pub subject_kind : SubjectKind
  pub subject_id : ℕ
  pub budget_id : Option ℕ
  pub resource_type : ResourceType
  pub outcome : AdmissionOutcome
  pub reason : Reason
  pub requested_quantity : ℕ
  pub remaining_before : Option ℤ
  pub request_id : ℕ
  pub reservation_id : Option ℕ

pub record Quota : Type 0 where
  pub budgets : List Budget
  pub reservations : List Reservation
  pub decisions : List Decision
  pub ledger : List LedgerEntry
