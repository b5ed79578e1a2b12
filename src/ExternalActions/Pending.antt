-- ===== src/ExternalActions/Pending.antt =====
-- reconcilePending of external-action-service.ts: its report against the answers of the calls that
-- it makes.
use factory_floor.Common.{
  arith, ℕ, zero, suc, ◌+◌, ◌≤◌, ◌≡◌, refl, ap, Bool, true, false, List, [], ◌∷◌, Result, ok, err,
  ok_subst, length, rows_where, ltb, Bool-cases, Result-cases, inl, inr,
}
use factory_floor.Tables.{Db, Uuid}
use factory_floor.Tables.Kinds.{ActionStatus}
use factory_floor.ExternalActions.{Provider}
use factory_floor.ExternalActions.Service.{
  Call, Answer, Report, reconcile_action, reconcile_each, PendingError, reconcile_pending,
  reconciliation_candidates, at_most, add_to, empty_report,
}

-- The states that reconcile answers with, action by action, each from the database that the one
-- before has left, up to the first failure.
pub told : (ℕ → Provider) → (ℕ → Call) → List Uuid → Db → List ActionStatus
told provider call [] db = []
told provider call (id ∷ ids) db =
    let (answer, db') = reconcile_action (provider 0) (call 0) id db in
    let rest = told (λ n. provider (n + 1)) (λ n. call (n + 1)) ids db' in
    elim answer [ err e ↦ [] | ok status ↦ status ∷ rest ]

abbrev pub is_told_reconciled : ActionStatus → Bool
is_told_reconciled ActionStatus.reconciled = true
is_told_reconciled _ = false

abbrev pub is_told_failed : ActionStatus → Bool
is_told_failed ActionStatus.failed = true
is_told_failed _ = false

abbrev pub is_told_indeterminate : ActionStatus → Bool
is_told_indeterminate ActionStatus.indeterminate = true
is_told_indeterminate _ = false

-- The second report is the first with the answers added to it.
pub record Counts (before after : Report) (answers : List ActionStatus) : Type 0 where
  pub scanned : after.scanned ≡ before.scanned + length answers
  pub reconciled :
      after.reconciled ≡ before.reconciled + length (rows_where is_told_reconciled answers)
  pub failed : after.failed ≡ before.failed + length (rows_where is_told_failed answers)
  pub indeterminate :
      after.indeterminate ≡ before.indeterminate + length (rows_where is_told_indeterminate answers)

Counts-add_to :
    (s : ActionStatus) (before after : Report) (answers : List ActionStatus)
    → Counts (add_to s before) after answers
    → Counts before after (s ∷ answers)
unfolding rows_where
Counts-add_to ActionStatus.reconciled before after answers c = record {
  scanned = omega (arith, c.scanned);
  reconciled = omega (arith, c.reconciled);
  failed = omega (arith, c.failed);
  indeterminate = omega (arith, c.indeterminate);
}
Counts-add_to ActionStatus.failed before after answers c = record {
  scanned = omega (arith, c.scanned);
  reconciled = omega (arith, c.reconciled);
  failed = omega (arith, c.failed);
  indeterminate = omega (arith, c.indeterminate);
}
Counts-add_to ActionStatus.indeterminate before after answers c = record {
  scanned = omega (arith, c.scanned);
  reconciled = omega (arith, c.reconciled);
  failed = omega (arith, c.failed);
  indeterminate = omega (arith, c.indeterminate);
}
Counts-add_to _ before after answers c = record {
  scanned = omega (arith, c.scanned);
  reconciled = omega (arith, c.reconciled);
  failed = omega (arith, c.failed);
  indeterminate = omega (arith, c.indeterminate);
}

reconcile_each-Counts :
    (provider : ℕ → Provider) (call : ℕ → Call) (ids : List Uuid) (before after : Report)
    (db db' : Db)
    → reconcile_each provider call ids before db ≡ (ok after, db')
    → Counts before after (told provider call ids db)
      × (length (told provider call ids db) ≡ length ids)
unfolding reconcile_each told rows_where
reconcile_each-Counts provider call [] before after db db' run =
    ok_subst (λ (r : Report). Counts before r [] × (◌≡◌ {A = ℕ} 0 0))
      (ap (λ (x : Answer Report). x.0) run)
      (
        record {
          scanned = omega arith;
          reconciled = omega arith;
          failed = omega arith;
          indeterminate = omega arith;
        },
        refl,
      )
reconcile_each-Counts provider call (id ∷ ids) before after db db' run =
    elim (Result-cases (reconcile_action (provider 0) (call 0) id db).0) [
      | inr (e, failed) ↦ absurd (let run' = rw (failed, reconcile_each) at run in cc)
      | inl (status, done) ↦
          let (counts, each) =
            reconcile_each-Counts (λ n. provider (n + 1)) (λ n. call (n + 1)) ids
              (add_to status before) after (reconcile_action (provider 0) (call 0) id db).1 db'
              (rw (done, reconcile_each) at run) in
          rw (done, told) (Counts-add_to status before after _ counts, ap suc each)
    ]

length-at_most : (n : ℕ) (xs : List Uuid) → length (at_most n xs) ≤ n
unfolding at_most
length-at_most zero xs = omega arith
length-at_most (suc n) [] = omega arith
length-at_most (suc n) (x ∷ xs) = omega (arith, length-at_most n xs)

candidates-le : (limit : ℕ) (db : Db) → length (reconciliation_candidates limit db) ≤ limit
unfolding reconciliation_candidates
candidates-le limit db = length-at_most limit _

-- A report of reconcilePending counts what it did: reconcile has answered for each candidate in
-- turn, of which there are at most `limit`, and the report counts all the answers as scanned and
-- exactly those that are reconciled, failed and indeterminate under these names.
pub reconcile_pending-Counts :
    (provider : ℕ → Provider) (call : ℕ → Call) (limit : ℕ) (report : Report) (db db' : Db)
    → reconcile_pending provider call limit db ≡ (ok report, db')
    → Counts empty_report report (told provider call (reconciliation_candidates limit db) db)
      × (length (told provider call (reconciliation_candidates limit db) db)
          ≡ length (reconciliation_candidates limit db))
      × (length (reconciliation_candidates limit db) ≤ limit)
unfolding reconcile_pending
reconcile_pending-Counts provider call limit report db db' run =
    let ids = reconciliation_candidates limit db in
    let last = reconcile_each provider call ids empty_report db in
    elim (Bool-cases (ltb limit 1)) [
      | inl none_asked ↦ absurd (let run' = rw (none_asked, reconcile_pending) at run in cc)
      | inr some_asked ↦ elim (Result-cases last.0) [
        | inr (e, failed) ↦
            absurd (let run' = rw (some_asked, failed, reconcile_pending) at run in cc)
        | inl (r, done) ↦
            let (counts, each) =
              reconcile_each-Counts provider call ids empty_report r db last.1
                (λ i. (done i, last.1)) in
            ok_subst
              (λ (x : Report).
                Counts empty_report x (told provider call ids db)
                × (length (told provider call ids db) ≡ length ids)
                × (length ids ≤ limit))
              (ap (λ (x : Result PendingError Report × Db). x.0)
                (rw (some_asked, done, reconcile_pending) at run))
              (counts, each, candidates-le limit db)
      ]
    ]
