-- ===== src/Commit/Disposed.antt =====
-- The two ends of failOrRetry in execution-commit-service.ts, as the scheduler of
-- scheduler-service.ts finds them: work for a new attempt, or none at all.
use factory_floor.Common.{
  arith, ℕ, ◌+◌, ◌≤◌, ◌≡◌, ◌==◌, ◌&&◌, ◌++◌, true, false, Option, none, some, List, [], ◌∷◌, length,
  subst, sym, any_row, set_where, rows_where, rows_where-append, All, All-updated, All-mono,
  rows_where-none, any_row-All, refl, Bool-cases, Option-cases, inl, inr, if◌then◌else◌, leb,
  order_by, place,
}
use factory_floor.Tables.{Db, Attempt, Execution, Delivery, Uuid, Millis}
use factory_floor.Tables.Kinds.{ExecutionStatus, is_pending, is_executing, Failure, ResultStatus}
use factory_floor.Tables.Proposed.{ProposedResult}
use factory_floor.Tables.Triggers.{update_attempt}
use factory_floor.Commit.Steps.{Env, Draw}
use factory_floor.Commit.Finish.{
  fail_or_retry, dispose, failure_of, retry_after, retry_delay, insert_attempt, is_among,
  expose_delivery, bury_delivery, retry_attempt, end_attempt, ended_status, fail_with,
}
use factory_floor.Commit.Retries.{
  IsRetryable, IsRetryable-retry_after, retry_after-IsRetryable, update_attempt-attempts,
  update_execution-attempts, update_execution-executions,
}
use factory_floor.Scheduler.Groups.{is_available}
use factory_floor.Scheduler.Executions.{may_start, pending_attempt}

-- The attempt with the id is the execution's last, and no other is pending.
unfoldable pub IsLast : Execution → Attempt → Uuid → Db → Type 0
IsLast x a id db =
    All
      (λ b.
        (b.execution_id == x.id) ≡ true
        → (b.attempt_number ≤ a.attempt_number)
          × ((b.id == id) ≡ false → is_pending b.status ≡ false))
      db.attempts

-- The wait before the attempt that follows the first, the second and the third.
abbrev pub wait_after : ℕ → ℕ
wait_after n = if n == 1 then 1000 else if n == 2 then 5000 else 30000

retry_delay-wait_after : (n d : ℕ) → retry_delay n ≡ some d → d ≡ wait_after n
unfolding retry_delay
retry_delay-wait_after n d e = ground arith

ended_status-is_pending : (s : ResultStatus) → is_pending (ended_status s) ≡ false
ended_status-is_pending s = ground arith

-- No attempt of the execution is pending once the last one has ended.
ended-is_pending :
    (x : Execution) (a : Attempt) (id : Uuid) (s : ResultStatus) (now : Millis) (f : Option Failure)
    (xs : List Attempt)
    → All
        (λ b.
          (b.execution_id == x.id) ≡ true
          → (b.attempt_number ≤ a.attempt_number)
            × ((b.id == id) ≡ false → is_pending b.status ≡ false))
        xs
    → All
        (λ b.
          (b.execution_id == x.id) ≡ true
          → (b.attempt_number ≤ a.attempt_number) × (is_pending b.status ≡ false))
        (set_where (λ b. b.id == id) (end_attempt (ended_status s) now f) xs)
unfolding set_where
ended-is_pending x a id s now f [] h = tt
ended-is_pending x a id s now f (b ∷ bs) h = elim (Bool-cases (b.id == id)) [
  | inl e ↦
      rw e ((λ k. ((h.0 k).0, ended_status-is_pending s)), ended-is_pending x a id s now f bs h.1)
  | inr e ↦ rw e ((λ k. ((h.0 k).0, (h.0 k).1 e)), ended-is_pending x a id s now f bs h.1)
]

module _ (x : Execution) (a : Attempt) (attempts : List Attempt)
    (ended : All
      (λ b.
        (b.execution_id == x.id) ≡ true
        → (b.attempt_number ≤ a.attempt_number) × (is_pending b.status ≡ false))
      attempts) where
  no_start : (later : Millis) → rows_where (may_start x.id later) attempts ≡ []
  no_start later = rows_where-none (may_start x.id later) attempts (
      any_row-All _ attempts (
        All-mono _ (λ b. may_start x.id later b ≡ false)
          (λ b h. elim (Bool-cases (b.execution_id == x.id)) [
            | inl e ↦ let p = (h e).1 in ground arith
            | inr e ↦ ground arith
          ])
          attempts ended))

  no_pending : (later : Millis) → pending_attempt x.id later attempts ≡ none
  unfolding pending_attempt order_by
  no_pending later = rw (no_start later) refl

  next_free :
      any_row (λ b. b.execution_id == x.id && b.attempt_number == a.attempt_number + 1) attempts
      ≡ false
  next_free = any_row-All _ attempts (
      All-mono _ _
        (λ b h. elim (Bool-cases (b.execution_id == x.id)) [
          | inl e ↦ let p = (h e).0 in ground arith
          | inr e ↦ ground arith
        ])
        attempts ended)

  next_pending :
      (id : Uuid) (t later : Millis)
      → pending_attempt x.id later (attempts ++ retry_attempt id x.id (a.attempt_number + 1) t ∷ [])
        ≡ (if leb t later then some (retry_attempt id x.id (a.attempt_number + 1) t) else none)
  unfolding pending_attempt order_by rows_where place
  next_pending id t later =
      let b = retry_attempt id x.id (a.attempt_number + 1) t in
      rw (rows_where-append (may_start x.id later) attempts (b ∷ []), no_start later)
        (elim (Bool-cases (leb t later)) [ inl e ↦ ground arith | inr e ↦ ground arith ])

fail_ended :
    (env : Env) (input : ProposedResult) (x : Execution) (a : Attempt) (db : Db)
    → IsLast x a input.attempt_id db
    → All
        (λ b.
          (b.execution_id == x.id) ≡ true
          → (b.attempt_number ≤ a.attempt_number) × (is_pending b.status ≡ false))
        (update_attempt input.attempt_id
          (end_attempt (ended_status input.status) env.now (some (failure_of input)))
          db).attempts
unfolding IsLast
fail_ended env input x a db last =
    rw
      (update_attempt-attempts input.attempt_id
        (end_attempt (ended_status input.status) env.now (some (failure_of input))) db)
      (ended-is_pending x a input.attempt_id input.status env.now (some (failure_of input))
        db.attempts last)

-- At every time from `t` on, and at none before, the scheduler finds the delivery available; it is
-- under no lease.
pub record IsExposed (t : Millis) (d : Delivery) : Type 0 where
  pub since : (later : Millis) → is_available later d ≡ leb t later
  pub free : d.lease_token ≡ none

-- At every time from `t` on, and at none before, the scheduler finds the inputs available and an
-- attempt of the execution with the number to lease.
pub record IsRetried (x : Execution) (number : ℕ) (ids : List Uuid) (t : Millis) (db : Db)
    : Type 0 where
  pub exposed : All (λ d. is_among ids d ≡ true → IsExposed t d) db.deliveries
  pub attempted :
      (b : Attempt) × (b.execution_id ≡ x.id)
      × (b.attempt_number ≡ number)
      × ((later : Millis)
          → pending_attempt x.id later db.attempts ≡ (if leb t later then some b else none))

dispose-IsRetried :
    (env : Env) (x : Execution) (a : Attempt) (ids : List Uuid) (f : Failure) (db : Db) (delay : ℕ)
    → All
        (λ b.
          (b.execution_id == x.id) ≡ true
          → (b.attempt_number ≤ a.attempt_number) × (is_pending b.status ≡ false))
        db.attempts
    → IsRetried x
        (a.attempt_number + 1)
        ids
        (env.now + delay)
        (dispose env x a ids f db (some delay)).1
unfolding dispose insert_attempt
dispose-IsRetried env x a ids f db delay h = record {
  exposed =
      All-updated (IsExposed (env.now + delay)) (is_among ids) (expose_delivery (env.now + delay))
        (λ d k. record { since = λ later. refl; free = refl }) _;
  attempted =
      let t = env.now + delay in
      let id = env.uuid Draw.attempt (length db.attempts) in
      (
        retry_attempt id x.id (a.attempt_number + 1) t,
        refl,
        refl,
        λ later. rw (next_free x a db.attempts h) (next_pending x a db.attempts h id t later),
      );
}

-- A result that is tried again opens work for the scheduler 1 second after the end of a first
-- attempt, 5 seconds after that of a second and 30 seconds after that of a third: from then on, and
-- not before, it finds every input delivery available, under no lease, and a pending attempt of the
-- execution with the next number; if the attempt was the execution's last and no other is pending.
pub fail_or_retry-IsRetried :
    (env : Env) (input : ProposedResult) (x : Execution) (a : Attempt) (ids : List Uuid) (db : Db)
    → IsRetryable input a
    → IsLast x a input.attempt_id db
    → IsRetried x
        (a.attempt_number + 1)
        ids
        (env.now + wait_after a.attempt_number)
        (fail_or_retry env input x a ids db).1
unfolding fail_or_retry IsLast retry_after
fail_or_retry-IsRetried env input x a ids db r last =
    let (delay, h) = IsRetryable-retry_after input a r in
    let q : delay ≡ wait_after a.attempt_number =
      retry_delay-wait_after a.attempt_number delay (ground arith) in
    rw (h, sym q)
      (dispose-IsRetried env x a ids (failure_of input) _ delay (fail_ended env input x a db last))

-- At no time does the scheduler find the delivery available, or leased.
pub record IsBuried (d : Delivery) : Type 0 where
  pub never : (later : Millis) → is_available later d ≡ false
  pub free : d.lease_token ≡ none

-- At no time does the scheduler find the inputs available or an attempt of the execution to lease,
-- and the execution does not run: it has failed for the given cause.
pub record IsFailed (x : Execution) (f : Failure) (ids : List Uuid) (db : Db) : Type 0 where
  pub buried : All (λ d. is_among ids d ≡ true → IsBuried d) db.deliveries
  pub attempted : (later : Millis) → pending_attempt x.id later db.attempts ≡ none
  pub failed :
      All
        (λ e.
          (e.id == x.id) ≡ true
          → (is_executing e.status ≡ false)
            × (e.status ≡ ExecutionStatus.failed)
            × (e.failure ≡ some f))
        db.executions

dispose-IsFailed :
    (env : Env) (x : Execution) (a : Attempt) (ids : List Uuid) (f : Failure) (db : Db)
    → All
        (λ b.
          (b.execution_id == x.id) ≡ true
          → (b.attempt_number ≤ a.attempt_number) × (is_pending b.status ≡ false))
        db.attempts
    → IsFailed x f ids (dispose env x a ids f db none).1
unfolding dispose
dispose-IsFailed env x a ids f db h = record {
  buried =
      All-updated IsBuried (is_among ids) (bury_delivery env.now)
        (λ d k. record { never = λ later. refl; free = refl }) _;
  attempted = λ later.
      rw (update_execution-attempts x.id (fail_with env.now f) env.now db)
        (no_pending x a db.attempts h later);
  failed =
      subst
        (All (λ e.
          (e.id == x.id) ≡ true
          → (is_executing e.status ≡ false)
            × (e.status ≡ ExecutionStatus.failed)
            × (e.failure ≡ some f)))
        (sym (update_execution-executions x.id _ env.now db))
        (All-updated
          (λ e.
            (is_executing e.status ≡ false)
            × (e.status ≡ ExecutionStatus.failed)
            × (e.failure ≡ some f))
          (λ e. e.id == x.id) _ (λ e k. (refl, refl, refl)) db.executions);
}

-- A result that is not tried again leaves no work: at no later time does the scheduler find an input
-- delivery available or an attempt of the execution to lease, and the execution has failed with the
-- failure of the result; if the attempt was the execution's last and no other is pending.
pub fail_or_retry-IsFailed :
    (env : Env) (input : ProposedResult) (x : Execution) (a : Attempt) (ids : List Uuid) (db : Db)
    → (¬ IsRetryable input a)
    → IsLast x a input.attempt_id db
    → IsFailed x (failure_of input) ids (fail_or_retry env input x a ids db).1
unfolding fail_or_retry IsLast
fail_or_retry-IsFailed env input x a ids db r last = elim (Option-cases (retry_after input a)) [
  | inl h ↦
      rw h (dispose-IsFailed env x a ids (failure_of input) _ (fail_ended env input x a db last))
  | inr (d, h) ↦ absurd (r (retry_after-IsRetryable input a d h))
]
