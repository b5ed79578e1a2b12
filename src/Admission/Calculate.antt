-- ===== src/Admission/Calculate.antt =====
-- calculateAdmission of scheduling/resource-admission-service.ts.
use factory_floor.Common.{ℕ, ◌+◌, ◌≤◌, ◌≡◌, ◌↔◌, arith, if◌then◌else◌}
use factory_floor.Common.Ints.{ℤ, pos, ◌-ℤ◌, leb_ℤ}
use factory_floor.Tables.QuotaRows.{AdmissionOutcome, admit, exhausted, Exhaustion}

pub record AdmissionCalculation : Type 0 where
  pub outcome : AdmissionOutcome
  pub remaining_before : ℤ
  pub requested_quantity : ℤ

unfoldable pub calculate_admission :
    (limit_quantity consumed_quantity reserved_quantity requested_quantity : ℤ)
    → Exhaustion
    → AdmissionCalculation
calculate_admission limit_quantity consumed_quantity reserved_quantity requested_quantity o =
    let remaining = limit_quantity -ℤ consumed_quantity -ℤ reserved_quantity in
    record {
      outcome = if leb_ℤ requested_quantity remaining then admit else exhausted o;
      remaining_before = remaining;
      requested_quantity = requested_quantity;
    }

-- For stored quantities, which are not negative: a request is admitted exactly when what is
-- consumed, what is reserved and the request together stay within the limit.
pub calculate_admission-admit_iff :
    (limit consumed reserved requested : ℕ) (o : Exhaustion)
    → ((calculate_admission (pos limit) (pos consumed) (pos reserved) (pos requested) o).outcome
        ≡ admit)
      ↔ (consumed + reserved + requested ≤ limit)
unfolding calculate_admission ◌-ℤ◌
calculate_admission-admit_iff limit consumed reserved requested o = ground arith
