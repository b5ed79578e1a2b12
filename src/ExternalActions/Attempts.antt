-- ===== src/ExternalActions/Attempts.antt =====
-- How often an action is attempted, under the steps of external-action-service.ts and its
-- neighbours.
use factory_floor.Common.{
  arith, ℕ, ◌≤◌, ◌≡◌, ◌==◌, ◌&&◌, ◌||◌, ◌⊎◌, refl, ap, sym, subst, Bool, true, false, not, some,
  List, [], ◌∷◌, All, All-mono, All-append, All-first_where, length, Result, ok, err, ok_subst,
  rows_where, first_where, first_where-true, set_where, any_row, Bool-cases, Option-cases, inl, inr,
}
use factory_floor.Tables.{Db, ExternalAction, ActionAttempt, Uuid, Millis, Json}
use factory_floor.Tables.Kinds.{ActionStatus}
use factory_floor.Tables.QuotaRows.{Quota, AdmissionOutcome, Exhaustion, admit, exhausted}
use factory_floor.Admission.Reserve.{AdmissionResult, AdmissionError}
use factory_floor.Commit.Actions.{insert_action, same_idempotency, same_proposal}
use factory_floor.Policies.Approvals.{
  ApprovalDecision, ApprovalReceipt, decide_approval, record_decision, is_under, is_awaiting,
  decided_action_status,
}
use factory_floor.ExternalActions.{Preparation}
use factory_floor.ExternalActions.Dispatch.{
  has_id, is_attempt_of, prepare_dispatch, set_status, begin_attempt, after_admission, new_attempt,
}
use factory_floor.ExternalActions.Persist.{
  Outcome, action_status, persist_result, record_outcome, completed_attempt, network_reservation,
  after_settlement, reconcile_network_reservation,
}
use factory_floor.Policies.Replay.{decide_approval-elim}
use factory_floor.Admission.Settle.{reconcile}
use factory_floor.Common.Ints.{pos}
use factory_floor.ExternalActions.Cases.{prepare_dispatch-elim, persist_result-elim}
use factory_floor.ExternalActions.Steps.{
  attempts_of, Step, proposed, decided, prepared, persisted, settled, Reach, here, next,
}
use factory_floor.ExternalActions.Counted.{
  allowed, IsCounted, allowed-authorized, allowed-awaiting, allowed-le-one, allowed-action_status,
  count_at, begin-IsCounted, set_status-IsCounted,
}

-- No action has more attempts than its state allows: none before it is dispatched, and one after.
abbrev pub IsAttemptedOnce : Db → Type 0
IsAttemptedOnce db = All (λ a. length (attempts_of a.id db) ≤ allowed a.status) db.actions

pub outcome_cases : (o : AdmissionOutcome) → (o ≡ admit) ⊎ ((x : Exhaustion) × (o ≡ exhausted x))
outcome_cases admit = inl refl
outcome_cases (exhausted x) = inr (x, refl)

admission-IsAttemptedOnce :
    (attempt : Uuid) (now : Millis) (a : ExternalAction) (db : Db) (admission : AdmissionResult)
    (quota : Quota)
    → length (attempts_of a.id db) ≡ 0
    → IsAttemptedOnce db
    → IsAttemptedOnce (after_admission attempt now a db (admission, quota)).1
unfolding after_admission begin_attempt set_status
admission-IsAttemptedOnce attempt now a db admission quota none_yet h =
    elim (outcome_cases admission.outcome) [
      | inl admitted ↦
          rw (admitted, after_admission)
            (begin-IsCounted db.action_attempts
              (new_attempt attempt now a (record db { quota = quota })) a.id refl none_yet
              db.actions h)
      | inr (x, refused) ↦ rw (refused, after_admission) h
    ]

length-set_attempts :
    (p : ActionAttempt → Bool) (f : ActionAttempt → ActionAttempt) (id : Uuid)
    → ((t : ActionAttempt) → (f t).external_action_id ≡ t.external_action_id)
    → (ts : List ActionAttempt)
    → length (rows_where (is_attempt_of id) (set_where p f ts))
      ≡ length (rows_where (is_attempt_of id) ts)
unfolding rows_where set_where
length-set_attempts p f id same [] = refl
length-set_attempts p f id same (t ∷ ts) =
    ground (arith, same t, length-set_attempts p f id same ts)

record_outcome-IsAttemptedOnce :
    (now : Millis) (action_id attempt_id : Uuid) (o : Outcome) (response : Json) (db : Db)
    → length (attempts_of action_id db) ≤ 1
    → IsAttemptedOnce db
    → IsAttemptedOnce (record_outcome now action_id attempt_id o response db)
unfolding record_outcome set_status
record_outcome-IsAttemptedOnce now action_id attempt_id o response db few h =
    let count : (id : Uuid)
        → length (
            rows_where (is_attempt_of id) (
              set_where (λ (t : ActionAttempt). t.id == attempt_id)
                (completed_attempt now o response) db.action_attempts))
          ≡ length (attempts_of id db) =
      λ id.
        length-set_attempts (λ t. t.id == attempt_id) (completed_attempt now o response) id
          (λ t. refl) db.action_attempts in
    set_status-IsCounted _ action_id (action_status o)
      (omega (arith, count action_id, allowed-action_status o)) db.actions
      (All-mono _ _ (λ x k. omega (arith, count x.id)) db.actions h)

count_of_found :
    (id : Uuid) (a : ExternalAction) (db : Db)
    → IsAttemptedOnce db
    → first_where (has_id id) db.actions ≡ some a
    → (length (attempts_of a.id db) ≤ allowed a.status)
      × (length (attempts_of id db) ≡ length (attempts_of a.id db))
count_of_found id a db h found = (
  All-first_where (IsCounted db.action_attempts) (has_id id) db.actions a h found,
  sym (count_at db.action_attempts a.id id (first_where-true (has_id id) db.actions a found)),
)

prepare_dispatch-IsAttemptedOnce :
    (uuid : ℕ → Uuid) (attempt : Uuid) (now : Millis) (id : Uuid) (p : Preparation) (db db' : Db)
    → IsAttemptedOnce db
    → prepare_dispatch uuid attempt now id db ≡ ok (p, db')
    → IsAttemptedOnce db'
unfolding set_status
prepare_dispatch-IsAttemptedOnce uuid attempt now id p db db' h run =
    prepare_dispatch-elim uuid attempt now id db IsAttemptedOnce h
      (λ a found n.
        set_status-IsCounted db.action_attempts a.id ActionStatus.cancelled
          (let k = (count_of_found id a db h found).0 in
            omega (arith, allowed-authorized a.status n))
          db.actions h)
      (λ a admission quota found n.
        admission-IsAttemptedOnce attempt now a db admission quota
          (let k = (count_of_found id a db h found).0 in
            omega (arith, allowed-authorized a.status n))
          h)
      p db' run

persist_result-IsAttemptedOnce :
    (now : Millis) (action_id attempt_id : Uuid) (o : Outcome) (response : Json) (db db' : Db)
    → IsAttemptedOnce db
    → persist_result now action_id attempt_id o response db ≡ ok db'
    → IsAttemptedOnce db'
persist_result-IsAttemptedOnce now action_id attempt_id o response db db' h run =
    persist_result-elim now action_id attempt_id o response db IsAttemptedOnce (λ a found r. h)
      (λ a found u.
        record_outcome-IsAttemptedOnce now action_id attempt_id o response db
          (let k = count_of_found action_id a db h found in
            let e = k.1 in let f = k.0 in omega (arith, allowed-le-one a.status))
          h)
      db' run

insert_action-IsAttemptedOnce :
    (a : ExternalAction) (db : Db)
    → a.status ≡ ActionStatus.proposed
    → attempts_of a.id db ≡ []
    → IsAttemptedOnce db
    → IsAttemptedOnce (insert_action a db)
unfolding insert_action
insert_action-IsAttemptedOnce a db new none_yet h =
    elim (Bool-cases (any_row (λ b. same_idempotency a b || same_proposal a b) db.actions)) [
      | inl there ↦ rw there h
      | inr fresh ↦ rw fresh (
          All-append (IsCounted db.action_attempts) db.actions (a ∷ []) h
            (ground (arith, ap (λ (ts : List ActionAttempt). length ts) none_yet), tt))
    ]

-- Where every action under the approval awaits it, a decision moves them all.
decided-IsCounted :
    (ts : List ActionAttempt) (id : Uuid) (s : ActionStatus) (xs : List ExternalAction)
    → any_row (λ (x : ExternalAction). is_under id x && not (is_awaiting x.status)) xs ≡ false
    → All (IsCounted ts) xs
    → All (IsCounted ts) (set_where (is_under id) (λ a. record a { status = s }) xs)
unfolding any_row set_where
decided-IsCounted ts id s [] none_else h = tt
decided-IsCounted ts id s (x ∷ xs) none_else h = elim (Bool-cases (is_under id x)) [
  | inl under ↦ rw under (
    (let w : is_awaiting x.status ≡ true = ground arith in
        omega (arith, allowed-awaiting x.status w)),
    decided-IsCounted ts id s xs (ground arith) h.1,
  )
  | inr other ↦ rw other (h.0, decided-IsCounted ts id s xs (ground arith) h.1)
]

after_settlement-actions :
    (found : Bool) (db db' : Db) (r : Result AdmissionError (Bool × Quota))
    → after_settlement db r ≡ ok (found, db')
    → (db'.actions ≡ db.actions) × (db'.action_attempts ≡ db.action_attempts)
unfolding after_settlement
after_settlement-actions found db db' (err e) run = absurd (cc)
after_settlement-actions found db db' (ok (b, quota)) run =
    ok_subst
      (λ (y : Bool × Db). (y.1.actions ≡ db.actions) × (y.1.action_attempts ≡ db.action_attempts))
      run (refl, refl)

-- The settlement of a reservation touches no action.
pub reconcile_network_reservation-actions :
    (ledger_id : Uuid) (now : Millis) (action_id : Uuid) (found : Bool) (db db' : Db)
    → reconcile_network_reservation ledger_id now action_id db ≡ ok (found, db')
    → (db'.actions ≡ db.actions) × (db'.action_attempts ≡ db.action_attempts)
unfolding reconcile_network_reservation
reconcile_network_reservation-actions ledger_id now action_id found db db' run =
    elim (Option-cases (network_reservation action_id db.quota)) [
      | inl none_held ↦
          ok_subst
            (λ (y : Bool × Db).
              (y.1.actions ≡ db.actions) × (y.1.action_attempts ≡ db.action_attempts))
            (rw (none_held, reconcile_network_reservation) at run) (refl, refl)
      | inr (request, held) ↦
          after_settlement-actions found db db' (reconcile ledger_id request (pos 1) now db.quota)
            (rw (held, reconcile_network_reservation) at run)
    ]

reconcile_network_reservation-IsAttemptedOnce :
    (ledger_id : Uuid) (now : Millis) (action_id : Uuid) (found : Bool) (db db' : Db)
    → IsAttemptedOnce db
    → reconcile_network_reservation ledger_id now action_id db ≡ ok (found, db')
    → IsAttemptedOnce db'
reconcile_network_reservation-IsAttemptedOnce ledger_id now action_id found db db' h run =
    let same = reconcile_network_reservation-actions ledger_id now action_id found db db' run in
    subst (λ xs. All (λ a. length (attempts_of a.id db') ≤ allowed a.status) xs) (sym same.0)
      (subst
        (λ ts.
          All
            (λ (a : ExternalAction). length (rows_where (is_attempt_of a.id) ts) ≤ allowed a.status)
            db.actions)
        (sym same.1) h)

decide_approval-IsAttemptedOnce :
    (now : Millis) (id : Uuid) (input : ApprovalDecision) (r : ApprovalReceipt) (db db' : Db)
    → IsAttemptedOnce db
    → decide_approval now id input db ≡ ok (r, db')
    → IsAttemptedOnce db'
unfolding record_decision
decide_approval-IsAttemptedOnce now id input r db db' h run =
    decide_approval-elim now id input db (λ y. IsAttemptedOnce y.1) (λ a found done u s. h)
      (λ a found open_ u c.
        decided-IsCounted db.action_attempts id (decided_action_status input.decision) db.actions c
          h)
      (r, db') run

Step-IsAttemptedOnce : {db db' : Db} → Step db db' → IsAttemptedOnce db → IsAttemptedOnce db'
Step-IsAttemptedOnce {db} (proposed a new fresh none_yet) h =
    insert_action-IsAttemptedOnce a db new none_yet h
Step-IsAttemptedOnce {db} {db'} (decided now id input r e) h =
    decide_approval-IsAttemptedOnce now id input r db db' h e
Step-IsAttemptedOnce {db} {db'} (prepared uuid attempt now id p e) h =
    prepare_dispatch-IsAttemptedOnce uuid attempt now id p db db' h e
Step-IsAttemptedOnce {db} {db'} (persisted now action_id attempt_id o response e) h =
    persist_result-IsAttemptedOnce now action_id attempt_id o response db db' h e
Step-IsAttemptedOnce {db} {db'} (settled ledger_id now action_id found e) h =
    reconcile_network_reservation-IsAttemptedOnce ledger_id now action_id found db db' h e

-- However the steps on external actions interleave, an action is attempted at most once: not at all
-- before it is dispatched, nor if it is denied or cancelled, and in one attempt from then on.
pub Reach-IsAttemptedOnce : {db db' : Db} → Reach db db' → IsAttemptedOnce db → IsAttemptedOnce db'
Reach-IsAttemptedOnce here h = h
Reach-IsAttemptedOnce (next r st) h = Step-IsAttemptedOnce st (Reach-IsAttemptedOnce r h)
