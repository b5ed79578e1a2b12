-- ===== src/Recovery/Limits.antt =====
-- How often an execution is tried: the attempt numbers that failOrRetry of
-- execution-commit-service.ts and run of recovery-service.ts give.
use factory_floor.Common.{
  arith, ℕ, ◌+◌, ◌≤◌, ◌≡◌, ◌==◌, ◌&&◌, refl, sym, subst, Option, none, some, List, [], ◌∷◌, All,
  All-append, All-set_where, Bool-cases, Option-cases, inl, inr, first_where, any_row, ok, ltb,
  length,
}
use factory_floor.Tables.{Db, Attempt, Execution, Region, Uuid, Millis}
use factory_floor.Tables.Kinds.{Failure, recovery_terminal, is_executing, is_running}
use factory_floor.Tables.Proposed.{ProposedResult}
use factory_floor.Tables.Triggers.{update_attempt, update_execution}
use factory_floor.Commit.Steps.{Env, Draw}
use factory_floor.Commit.Finish.{
  end_attempt, ended_status, fail_with, retry_attempt, fail_or_retry, dispose, insert_attempt,
  retry_after, retry_delay, failure_of,
}
use factory_floor.Commit.Retries.{
  update_attempt-attempts, update_execution-attempts, retry_delay_bounds,
}
use factory_floor.Recovery.Attempts.{
  Recovered, recover_attempt, settle_execution, replace_attempt, fail_execution, input_ids, abandon,
  is_expired, max_attempts,
}

-- No attempt has a number above the limit.
abbrev pub IsBounded : Db → Type 0
IsBounded db = All (λ a. a.attempt_number ≤ 4) db.attempts

pub insert_attempt-IsBounded :
    (a : Attempt) (db : Db) → a.attempt_number ≤ 4 → IsBounded db → IsBounded (insert_attempt a db)
unfolding insert_attempt
insert_attempt-IsBounded a db h k =
    elim (Bool-cases (
      any_row (λ b. b.execution_id == a.execution_id && b.attempt_number == a.attempt_number)
        db.attempts)) [
          | inl e ↦ rw e k
          | inr e ↦ rw e (All-append (λ x. x.attempt_number ≤ 4) db.attempts (a ∷ []) k (h, tt))
        ]

pub update_attempt-IsBounded :
    (id : Uuid) (f : Attempt → Attempt) (db : Db)
    → ((a : Attempt) → (f a).attempt_number ≡ a.attempt_number)
    → IsBounded db
    → IsBounded (update_attempt id f db)
update_attempt-IsBounded id f db same k =
    subst (All (λ x. x.attempt_number ≤ 4)) (sym (update_attempt-attempts id f db)) (
      All-set_where (λ x. x.attempt_number ≤ 4) (λ a. a.id == id) f (λ a e h. omega (arith, same a))
        db.attempts k)

pub update_execution-IsBounded :
    (id : Uuid) (f : Execution → Execution) (now : Millis) (db : Db)
    → IsBounded db
    → IsBounded (update_execution id f now db)
update_execution-IsBounded id f now db k =
    subst (All (λ x. x.attempt_number ≤ 4)) (sym (update_execution-attempts id f now db)) k

dispose-IsBounded :
    (env : Env) (x : Execution) (a : Attempt) (ids : List Uuid) (f : Failure) (db : Db)
    (delay : Option ℕ)
    → ((d : ℕ) → delay ≡ some d → a.attempt_number ≤ 3)
    → IsBounded db
    → IsBounded (dispose env x a ids f db delay).1
unfolding dispose
dispose-IsBounded env x a ids f db (some d) h k =
    insert_attempt-IsBounded
      (retry_attempt (env.uuid Draw.attempt (length db.attempts)) x.id (a.attempt_number + 1)
        (env.now + d))
      db (omega (arith, h d refl)) k
dispose-IsBounded env x a ids f db none h k =
    update_execution-IsBounded x.id (fail_with env.now f) env.now db k

retry_after_bounds :
    (input : ProposedResult) (a : Attempt) (d : ℕ)
    → retry_after input a ≡ some d
    → a.attempt_number ≤ 3
unfolding retry_after
retry_after_bounds input a d e =
    let k : retry_delay a.attempt_number ≡ some d = ground arith in
    (retry_delay_bounds a.attempt_number d k).1

-- No attempt has a number above 4: a result that does not complete keeps it so.
pub fail_or_retry-IsBounded :
    (env : Env) (input : ProposedResult) (x : Execution) (a : Attempt) (ids : List Uuid) (db : Db)
    → IsBounded db
    → IsBounded (fail_or_retry env input x a ids db).1
unfolding fail_or_retry
fail_or_retry-IsBounded env input x a ids db k =
    let ended = end_attempt (ended_status input.status) env.now (some (failure_of input)) in
    dispose-IsBounded env x a ids (failure_of input) (update_attempt input.attempt_id ended db)
      (retry_after input a) (retry_after_bounds input a)
      (update_attempt-IsBounded input.attempt_id ended db (λ b. refl) k)

settle_execution-IsBounded :
    (id : Uuid) (now : Millis) (a : Attempt) (x : Execution) (g : Region) (ids : List Uuid)
    (db : Db)
    → IsBounded db
    → IsBounded (settle_execution id now a x g ids db).1
unfolding settle_execution replace_attempt fail_execution
settle_execution-IsBounded id now a x g ids db k =
    elim (Bool-cases (
      is_executing x.status
      && (is_running g.lifecycle_status && ltb a.attempt_number max_attempts))) [
        | inl e ↦ rw e (
            insert_attempt-IsBounded (retry_attempt id x.id (a.attempt_number + 1) now) db
              (ground arith) k)
        | inr e ↦ elim (Bool-cases (is_executing x.status)) [
          | inl t ↦
              rw (e, t) (update_execution-IsBounded x.id (fail_with now recovery_terminal) now db k)
          | inr t ↦ rw (e, t) k
        ]
      ]

-- No attempt has a number above 4: the recovery of an attempt keeps it so.
pub recover_attempt-IsBounded :
    (id : Uuid) (now : Millis) (candidate : Uuid) (db db' : Db) (counts : Recovered)
    → IsBounded db
    → recover_attempt id now candidate db ≡ ok (counts, db')
    → IsBounded db'
unfolding recover_attempt
recover_attempt-IsBounded id now candidate db db' counts k e =
    elim (Option-cases (first_where (λ a. a.id == candidate) db.attempts)) [
      | inl h ↦ let q : db' ≡ db = ground arith in rw q k
      | inr (a, h) ↦ elim (Bool-cases (is_expired now a)) [
        | inr t ↦ let q : db' ≡ db = ground arith in rw q k
        | inl t ↦ elim (Option-cases (first_where (λ x. x.id == a.execution_id) db.executions)) [
          | inl h1 ↦ absurd (ground arith)
          | inr (x, h1) ↦ elim (Option-cases (first_where (λ r. r.id == x.region_id) db.regions)) [
            | inl h2 ↦ absurd (ground arith)
            | inr (g, h2) ↦
                let db1 = update_attempt a.id (abandon now) db in
                let q : db' ≡ (settle_execution id now a x g (input_ids x.id db) db1).1 =
                  ground arith in
                rw q (
                  settle_execution-IsBounded id now a x g (input_ids x.id db) db1
                    (update_attempt-IsBounded a.id (abandon now) db (λ b. refl) k))
          ]
        ]
      ]
    ]
