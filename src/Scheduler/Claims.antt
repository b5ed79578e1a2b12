-- ===== src/Scheduler/Claims.antt =====
-- The steps of tryCandidate in scheduler-service.ts that write: what they leave as it was where they
-- lease nothing, and what they lease.
use factory_floor.Common.{
  arith, ℕ, ◌+◌, ◌≡◌, refl, ap, ◌==◌, ◌&&◌, Bool, true, false, none, some, List, map-set_where,
  set_where, first_where, Option-cases, Bool-cases, inl, inr, ok, Result-cases, any_row,
  any_row-All, delete_where-append, All, ==_refl,
}
use factory_floor.Tables.{Db, Delivery, Uuid, Millis, Digest}
use factory_floor.Tables.Kinds.{is_executing}
use factory_floor.Tables.QuotaRows.{Quota}
use factory_floor.Admission.Lease.{reserve_execution_lease_admission, execution_lease_may_proceed}
use factory_floor.Admission.Reserve.Untouched.{lease_admission-IsUntouched}
use factory_floor.Scheduler.Groups.{
  defer_group, is_available, same_group, incomplete_group_recheck_ms,
}
use factory_floor.Scheduler.Executions.{
  LeaseNextAttemptOptions, Fresh, LeasedExecutionAttempt, pending_attempt, with_execution,
  is_execution_of,
}
use factory_floor.Scheduler.Candidate.{
  lease_attempt, admit_execution, execute_inputs, with_inputs, withdraw,
}
use factory_floor.Scheduler.Leases.{IsUnderLease, lease_attempt-IsUnderLease}
use factory_floor.Scheduler.SameWork.{
  IsSameWork, IsSameWork-trans, same_inputs, IsNewExecution, insert_inputs-adds,
  forget_availability,
}

module _ (options : LeaseNextAttemptOptions) (fresh : Fresh) (now : Millis) where
  pub defer_group-IsSameWork : (c : Delivery) (db : Db) → IsSameWork db (defer_group c now db)
  unfolding defer_group
  defer_group-IsSameWork c db = record {
    others = refl;
    deliveries = map-set_where forget_availability _ _ db.deliveries (λ d. refl);
    inputs = same_inputs db;
    budgets = refl;
    ledger = refl;
  }

  lease_attempt-IsSameWork :
      (c : Delivery) (x : Uuid) (sel : List Delivery) (db db' : Db)
      → lease_attempt options fresh now c x sel db ≡ (none, db')
      → IsSameWork db db'
  unfolding lease_attempt
  lease_attempt-IsSameWork c x sel db db' e =
      elim (Option-cases (pending_attempt x now db.attempts)) [
        | inr (a, h) ↦ absurd (ground arith)
        | inl h ↦ elim (Bool-cases (any_row (λ a. a.execution_id == x) db.attempts)) [
          | inl k ↦
              let q : db' ≡ defer_group c now db = ground arith in
              rw q (defer_group-IsSameWork c db)
          | inr k ↦ absurd (ground arith)
        ]
      ]

  -- An execution without attempts is leased.
  lease_attempt-new :
      (c : Delivery) (x : Uuid) (sel : List Delivery) (db db' : Db)
      → All (λ a. (a.execution_id == x) ≡ false) db.attempts
      → (lease_attempt options fresh now c x sel db ≡ (none, db'))
      → ⊥
  unfolding lease_attempt
  lease_attempt-new c x sel db db' n e =
      let m = any_row-All (λ a. a.execution_id == x) db.attempts n in
      elim (Option-cases (pending_attempt x now db.attempts)) [
        | inr (a, h) ↦ absurd (ground arith)
        | inl h ↦ absurd (ground arith)
      ]

  module _ (q : Quota) (db : Db) (budgets : q.budgets ≡ db.quota.budgets)
      (ledger : q.ledger ≡ db.quota.ledger) where
    with_inputs-IsSameWork :
        (x : Uuid) (sel : List Delivery) → IsSameWork db (with_inputs options fresh now x sel q db)
    unfolding with_inputs
    with_inputs-IsSameWork x sel = record {
      others = refl;
      deliveries = refl;
      inputs = insert_inputs-adds x fresh.inputs sel db.inputs;
      budgets = budgets;
      ledger = ledger;
    }

    withdraw-IsSameWork :
        (c : Delivery) (x : Uuid) → IsSameWork db (withdraw options fresh now c x false q db)
    unfolding withdraw defer_group
    withdraw-IsSameWork c x = record {
      others = refl;
      deliveries = map-set_where forget_availability _ _ db.deliveries (λ d. refl);
      inputs = same_inputs db;
      budgets = budgets;
      ledger = ledger;
    }

    -- The execution that was made for a refused admission goes again.
    withdraw-new :
        (c : Delivery) (epoch : ℕ) (digest : Digest) (sel : List Delivery)
        → IsNewExecution db fresh.execution
        → IsSameWork db (
            withdraw options fresh now c fresh.execution true q
              (with_execution fresh c epoch digest sel db))
    unfolding withdraw defer_group with_execution IsNewExecution
    withdraw-new c epoch digest sel n = record {
      others =
          ap
            (λ es. record db {
              deliveries =
                  set_where (λ d. is_available now d && same_group c d)
                    (λ d. record d { available_at = now + incomplete_group_recheck_ms })
                    db.deliveries;
              quota = q;
              executions = es;
            })
            (delete_where-append (λ e. e.id == fresh.execution) db.executions _ n.0
              (==_refl fresh.execution));
      deliveries = map-set_where forget_availability _ _ db.deliveries (λ d. refl);
      inputs = same_inputs db;
      budgets = budgets;
      ledger = ledger;
    }

  admit_execution-none :
      (c : Delivery) (x : Uuid) (sel : List Delivery) (db db' : Db)
      → admit_execution options fresh now c x false sel db ≡ ok (none, db')
      → IsSameWork db db'
  unfolding admit_execution
  admit_execution-none c x sel db db' e =
      elim (Result-cases
        (reserve_execution_lease_admission db.regions c.region_id x fresh.admission db.quota)) [
          | inr (f, h) ↦ absurd (ground arith)
          | inl ((adm, quota), h) ↦
              let (b, l) =
                lease_admission-IsUntouched db.regions c.region_id x fresh.admission db.quota adm
                  quota h in
              elim (Bool-cases (execution_lease_may_proceed adm)) [
                | inl k ↦
                    let q : lease_attempt options fresh now c x sel
                          (with_inputs options fresh now x sel quota db)
                        ≡ (none, db') =
                      ground arith in
                    IsSameWork-trans _ _ _ (with_inputs-IsSameWork quota db b l x sel)
                      (lease_attempt-IsSameWork c x sel _ db' q)
                | inr k ↦
                    let q : db' ≡ withdraw options fresh now c x false quota db = ground arith in
                    rw q (withdraw-IsSameWork quota db b l c x)
              ]
        ]

  quota_same :
      (c : Delivery) (epoch : ℕ) (digest : Digest) (sel : List Delivery) (q : Quota) (db : Db)
      → q.budgets ≡ (with_execution fresh c epoch digest sel db).quota.budgets
      → q.ledger ≡ (with_execution fresh c epoch digest sel db).quota.ledger
      → (q.budgets ≡ db.quota.budgets) × (q.ledger ≡ db.quota.ledger)
  unfolding with_execution
  quota_same c epoch digest sel q db b l = (b, l)

  new_attempts :
      (c : Delivery) (epoch : ℕ) (digest : Digest) (sel : List Delivery) (q : Quota) (db : Db)
      → IsNewExecution db fresh.execution
      → All
          (λ a. (a.execution_id == fresh.execution) ≡ false)
          (with_inputs options fresh now fresh.execution sel q
            (with_execution fresh c epoch digest sel db)).attempts
  unfolding with_execution with_inputs IsNewExecution
  new_attempts c epoch digest sel q db n = n.1

  admit_execution-new :
      (c : Delivery) (epoch : ℕ) (digest : Digest) (sel : List Delivery) (db db' : Db)
      → IsNewExecution db fresh.execution
      → admit_execution options fresh now c fresh.execution true sel
          (with_execution fresh c epoch digest sel db)
        ≡ ok (none, db')
      → IsSameWork db db'
  unfolding admit_execution
  admit_execution-new c epoch digest sel db db' n e =
      let x = fresh.execution in
      let db1 = with_execution fresh c epoch digest sel db in
      elim (Result-cases
        (reserve_execution_lease_admission db1.regions c.region_id x fresh.admission db1.quota)) [
          | inr (f, h) ↦ absurd (ground arith)
          | inl ((adm, quota), h) ↦
              let (b, l) =
                lease_admission-IsUntouched db1.regions c.region_id x fresh.admission db1.quota adm
                  quota h in
              elim (Bool-cases (execution_lease_may_proceed adm)) [
                | inl k ↦
                    let q : lease_attempt options fresh now c x sel
                          (with_inputs options fresh now x sel quota db1)
                        ≡ (none, db') =
                      ground arith in
                    absurd (
                      lease_attempt-new c x sel _ db' (new_attempts c epoch digest sel quota db n)
                        q)
                | inr k ↦
                    let q : db' ≡ withdraw options fresh now c x true quota db1 = ground arith in
                    rw q (
                      withdraw-new quota db (quota_same c epoch digest sel quota db b l).0
                        (quota_same c epoch digest sel quota db b l).1 c epoch digest sel n)
              ]
        ]

  admit_execution-some :
      (c : Delivery) (x : Uuid) (created : Bool) (sel : List Delivery) (db db' : Db)
      (l : LeasedExecutionAttempt)
      → admit_execution options fresh now c x created sel db ≡ ok (some l, db')
      → IsUnderLease options fresh now l sel db'
  unfolding admit_execution
  admit_execution-some c x created sel db db' l e =
      elim (Result-cases
        (reserve_execution_lease_admission db.regions c.region_id x fresh.admission db.quota)) [
          | inr (f, h) ↦ absurd (ground arith)
          | inl ((adm, quota), h) ↦ elim (Bool-cases (execution_lease_may_proceed adm)) [
            | inl k ↦
                let q : lease_attempt options fresh now c x sel
                      (with_inputs options fresh now x sel quota db)
                    ≡ (some l, db') =
                  ground arith in
                lease_attempt-IsUnderLease options fresh now c x sel _ db' l q
            | inr k ↦ absurd (ground arith)
          ]
        ]

  pub execute_inputs-none :
      (c : Delivery) (epoch : ℕ) (digest : Digest) (sel : List Delivery) (db db' : Db)
      → IsNewExecution db fresh.execution
      → execute_inputs options fresh now c epoch digest sel db ≡ ok (none, db')
      → IsSameWork db db'
  unfolding execute_inputs
  execute_inputs-none c epoch digest sel db db' n e =
      elim (Option-cases (first_where (is_execution_of c epoch digest) db.executions)) [
        | inr (x, h) ↦ elim (Bool-cases (is_executing x.status)) [
          | inl k ↦ admit_execution-none c x.id sel db db' (ground arith)
          | inr k ↦
              let q : db' ≡ defer_group c now db = ground arith in
              rw q (defer_group-IsSameWork c db)
        ]
        | inl h ↦ admit_execution-new c epoch digest sel db db' n (ground arith)
      ]

  pub execute_inputs-some :
      (c : Delivery) (epoch : ℕ) (digest : Digest) (sel : List Delivery) (db db' : Db)
      (l : LeasedExecutionAttempt)
      → execute_inputs options fresh now c epoch digest sel db ≡ ok (some l, db')
      → IsUnderLease options fresh now l sel db'
  unfolding execute_inputs
  execute_inputs-some c epoch digest sel db db' l e =
      elim (Option-cases (first_where (is_execution_of c epoch digest) db.executions)) [
        | inr (x, h) ↦ elim (Bool-cases (is_executing x.status)) [
          | inl k ↦ admit_execution-some c x.id false sel db db' l (ground arith)
          | inr k ↦ absurd (ground arith)
        ]
        | inl h ↦
            admit_execution-some c fresh.execution true sel
              (with_execution fresh c epoch digest sel db) db' l (ground arith)
      ]
