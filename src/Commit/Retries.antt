-- ===== src/Commit/Retries.antt =====
-- failOrRetry of execution-commit-service.ts: when a failed attempt is tried again, and when it is
-- buried.
use factory_floor.Common.{
  arith, ℕ, ◌≤◌, ◌≡◌, ◌==◌, true, some, set_where-none, first_where, set_where, is_some,
  Option-cases, inl, inr,
}
use factory_floor.Tables.{Db, Attempt, Execution, Uuid, Millis}
use factory_floor.Tables.Kinds.{is_failed, is_retryable}
use factory_floor.Tables.Proposed.{ProposedResult}
use factory_floor.Tables.Triggers.{update_attempt, update_execution}
use factory_floor.Commit.Finish.{failure_of, retry_after, retry_delay}

-- The result failed for a cause that may pass, in one of the first three attempts.
pub record IsRetryable (input : ProposedResult) (attempt : Attempt) : Type 0 where
  pub failed : is_failed input.status ≡ true
  pub retryable : is_retryable (failure_of input) ≡ true
  pub lower : 1 ≤ attempt.attempt_number
  pub upper : attempt.attempt_number ≤ 3

pub retry_delay_some : (n : ℕ) → 1 ≤ n → n ≤ 3 → is_some (retry_delay n) ≡ true
unfolding retry_delay
retry_delay_some n h k = ground arith

pub retry_delay_bounds : (n d : ℕ) → retry_delay n ≡ some d → (1 ≤ n) × (n ≤ 3)
unfolding retry_delay
retry_delay_bounds n d e = ground arith

pub retry_after-IsRetryable :
    (input : ProposedResult) (a : Attempt) (d : ℕ)
    → retry_after input a ≡ some d
    → IsRetryable input a
unfolding retry_after
retry_after-IsRetryable input a d h =
    let k : retry_delay a.attempt_number ≡ some d = ground arith in
    let (lo, hi) = retry_delay_bounds a.attempt_number d k in
    record { failed = ground arith; retryable = ground arith; lower = lo; upper = hi }

pub IsRetryable-retry_after :
    (input : ProposedResult) (a : Attempt)
    → IsRetryable input a
    → (d : ℕ) × (retry_after input a ≡ some d)
unfolding retry_after
IsRetryable-retry_after input a r = elim (Option-cases (retry_delay a.attempt_number)) [
  | inl n ↦ absurd (ground (arith, retry_delay_some a.attempt_number r.lower r.upper))
  | inr (d, h) ↦ (d, ground (arith, r.failed, r.retryable))
]

pub update_attempt-executions :
    (id : Uuid) (f : Attempt → Attempt) (db : Db)
    → (update_attempt id f db).executions ≡ db.executions
unfolding update_attempt
update_attempt-executions id f db = ground arith

pub update_attempt-attempts :
    (id : Uuid) (f : Attempt → Attempt) (db : Db)
    → (update_attempt id f db).attempts ≡ set_where (λ a. a.id == id) f db.attempts
unfolding update_attempt
update_attempt-attempts id f db = elim (Option-cases (first_where (λ a. a.id == id) db.attempts)) [
  | inl h ↦ ground (arith, set_where-none (λ a. a.id == id) f db.attempts h)
  | inr (a, h) ↦ ground arith
]

pub update_execution-attempts :
    (id : Uuid) (f : Execution → Execution) (now : Millis) (db : Db)
    → (update_execution id f now db).attempts ≡ db.attempts
unfolding update_execution
update_execution-attempts id f now db = ground arith

pub update_execution-executions :
    (id : Uuid) (f : Execution → Execution) (now : Millis) (db : Db)
    → (update_execution id f now db).executions ≡ set_where (λ e. e.id == id) f db.executions
unfolding update_execution
update_execution-executions id f now db =
    elim (Option-cases (first_where (λ e. e.id == id) db.executions)) [
      | inl h ↦ ground (arith, set_where-none (λ e. e.id == id) f db.executions h)
      | inr (e, h) ↦ ground arith
    ]
