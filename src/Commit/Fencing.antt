-- ===== src/Commit/Fencing.antt =====
-- The fence of commit in execution-commit-service.ts: what held of the database in which a result
-- was accepted.
use factory_floor.Common.{
  arith, ℕ, ◌<◌, ◌≡◌, subst, All, ==_iff, Option-cases, refl, ap, sym, ◌∙◌, ◌==◌, ◌&&◌, ◌||◌, Bool,
  true, false, Option, none, some, List, [], ◌∷◌, ok, length, ltb, first_where, holds, all_rows,
  Result-cases, ◌⊎◌, inl, inr, is_some,
}
use factory_floor.Tables.{Db, Attempt, Execution, Region, Delivery, Millis, Digest, Submission}
use factory_floor.Tables.Kinds.{
  is_active, AttemptStatus, ExecutionStatus, RegionStatus, DeliveryStatus,
}
use factory_floor.Tables.Proposed.{ProposedResult}
use factory_floor.Commit.Steps.{Env, done}
use factory_floor.Commit.Authority.{is_lease_live, is_delivery_held}
use factory_floor.Commit.Submit.{
  Locked, lock_attempt, check_result, input_deliveries, commit_transaction, commit,
  commit_unless_duplicate, is_submitted_by, is_committed, agrees_with,
}
use factory_floor.Commit.Checks.{IsFenced, check_result-ok}
use factory_floor.Commit.Finish.{Disposition, duplicate}

-- What a database says of an attempt whose result may be published.
pub record IsAuthorized (input : ProposedResult) (allow : Bool) (now : Millis) (db : Db)
    (a : Attempt) (x : Execution) (g : Region) : Type 0 where
  pub attempt_found :
      first_where
        (λ b. b.id == input.attempt_id && b.execution_id == input.execution_id)
        db.attempts
      ≡ some a
  pub execution_found : first_where (λ e. e.id == input.execution_id) db.executions ≡ some x
  pub region_found : first_where (λ r. r.id == x.region_id) db.regions ≡ some g
  pub attempt_active : (a.status ≡ AttemptStatus.leased) ⊎ (a.status ≡ AttemptStatus.running)
  pub execution_running : x.status ≡ ExecutionStatus.running
  pub region_running : g.lifecycle_status ≡ RegionStatus.running
  pub token_current : a.lease_token ≡ some input.lease_token
  pub lease_live : (allow ≡ true) ⊎ ((t : Millis) × (a.lease_expires_at ≡ some t) × (now < t))
  pub execution_epoch : x.lifecycle_epoch ≡ input.lifecycle_epoch
  pub region_epoch : g.lifecycle_epoch ≡ input.lifecycle_epoch
  pub inputs_some : 0 < length (input_deliveries x.id db)
  pub inputs_held :
      All
        (λ d. (d.status ≡ DeliveryStatus.leased) × (d.lease_token ≡ some input.lease_token))
        (input_deliveries x.id db)

pub IsAccepted : ProposedResult → Bool → Millis → Db → Type 0
IsAccepted input allow now db =
    (a : Attempt) × (x : Execution) × (g : Region) × IsAuthorized input allow now db a x g

holds-some : (o : Option ℕ) (n : ℕ) → holds o n ≡ true → o ≡ some n
holds-some none n h = absurd (cc)
holds-some (some m) n h = ground (arith, (==_iff m n).0 h)

lease_live_cases :
    (allow : Bool) (a : Attempt) (now : Millis)
    → (allow || is_lease_live a now) ≡ true
    → (allow ≡ true) ⊎ ((t : Millis) × (a.lease_expires_at ≡ some t) × (now < t))
lease_live_cases true a now h = inl refl
lease_live_cases false a now h = elim (Option-cases a.lease_expires_at) [
  | inl e ↦ absurd (ground arith)
  | inr (t, e) ↦ inr (t, e, ground arith)
]

active_cases :
    (s : AttemptStatus)
    → is_active s ≡ true
    → (s ≡ AttemptStatus.leased) ⊎ (s ≡ AttemptStatus.running)
active_cases AttemptStatus.leased h = inl refl
active_cases AttemptStatus.running h = inr refl
active_cases AttemptStatus.pending h = absurd (cc)
active_cases AttemptStatus.completed h = absurd (cc)
active_cases AttemptStatus.failed h = absurd (cc)
active_cases AttemptStatus.cancelled h = absurd (cc)
active_cases AttemptStatus.abandoned h = absurd (cc)

All-held :
    (token : ℕ) (ds : List Delivery)
    → all_rows (is_delivery_held token) ds ≡ true
    → All (λ d. (d.status ≡ DeliveryStatus.leased) × (d.lease_token ≡ some token)) ds
unfolding all_rows
All-held token [] h = tt
All-held token (d ∷ ds) h = (
  (ground arith, holds-some d.lease_token token (ground arith)),
  All-held token ds (ground arith),
)

-- The checks on the locked rows, as facts about the database.
fenced-IsAuthorized :
    (input : ProposedResult) (allow : Bool) (now : Millis) (db : Db) (l : Locked)
    → IsFenced input allow now l
    → first_where
        (λ b. b.id == input.attempt_id && b.execution_id == input.execution_id)
        db.attempts
      ≡ some l.attempt
    → first_where (λ e. e.id == input.execution_id) db.executions ≡ some l.execution
    → first_where (λ r. r.id == l.execution.region_id) db.regions ≡ some l.region
    → l.deliveries ≡ input_deliveries l.execution.id db
    → ltb 0 (length l.deliveries) ≡ true
    → IsAuthorized input allow now db l.attempt l.execution l.region
fenced-IsAuthorized input allow now db l f ha hx hg hd hn =
    let active = f.attempt_active in
    let executing = f.execution_executing in
    let epoch = f.epoch_current in
    record {
      attempt_found = ha;
      execution_found = hx;
      region_found = hg;
      attempt_active = active_cases l.attempt.status active;
      execution_running = ground arith;
      region_running = ground arith;
      token_current = holds-some l.attempt.lease_token input.lease_token f.token_current;
      lease_live = lease_live_cases allow l.attempt now f.lease_live;
      execution_epoch = ground arith;
      region_epoch = ground arith;
      inputs_some = ground arith;
      inputs_held =
          subst
            (All
              (λ d. (d.status ≡ DeliveryStatus.leased) × (d.lease_token ≡ some input.lease_token)))
            hd (All-held input.lease_token l.deliveries f.deliveries_held);
    }

-- A digest that a committed submission of the attempt carries.
pub IsCommitted : ProposedResult → Digest → Db → Type 0
IsCommitted input digest db =
    (s : Submission) × (first_where (is_submitted_by input.attempt_id) db.submissions ≡ some s)
    × (is_some s.committed_at ≡ true)
    × ((s.submission_digest == digest) ≡ true)

pub lock_attempt-ok :
    (input : ProposedResult) (db : Db) (r : (Attempt × Execution) × Db)
    → lock_attempt input db ≡ ok r
    → (first_where
          (λ a. a.id == input.attempt_id && a.execution_id == input.execution_id)
          db.attempts
        ≡ some r.0.0)
      × (first_where (λ e. e.id == input.execution_id) db.executions ≡ some r.0.1)
      × (r.1 ≡ db)
unfolding lock_attempt
lock_attempt-ok input db r e = ground arith

pub commit_unless_duplicate-ok :
    (env : Env) (input : ProposedResult) (digest : Digest) (allow : Bool) (a : Attempt)
    (x : Execution) (s : Option Submission) (b : Bool) (db : Db) (r : Disposition × Db)
    → commit_unless_duplicate env input digest allow a x s b db ≡ ok r
    → ((b ≡ true) × (r ≡ (duplicate, db)))
      ⊎ ((l : Locked × Db) × (check_result env input allow a x db ≡ ok l))
unfolding commit_unless_duplicate done
commit_unless_duplicate-ok env input digest allow a x s true db r e = inl (refl, ground arith)
commit_unless_duplicate-ok env input digest allow a x s false db r e =
    elim (Result-cases (check_result env input allow a x db)) [
      | inl (l, h) ↦ inr (l, h)
      | inr (f, h) ↦ absurd (ground arith)
    ]

-- The transaction went through its last step on the rows that it found.
commit_transaction-last :
    (env : Env) (input : ProposedResult) (digest : Digest) (allow : Bool) (a : Attempt)
    (x : Execution) (db : Db) (r : Disposition × Db)
    → commit_transaction env input digest allow db ≡ ok r
    → lock_attempt input db ≡ ok ((a, x), db)
    → (s : Option Submission) × (first_where (is_submitted_by input.attempt_id) db.submissions ≡ s)
      × (agrees_with digest s ≡ true)
      × (commit_unless_duplicate env input digest allow a x s (is_committed s) db ≡ ok r)
unfolding commit_transaction
commit_transaction-last env input digest allow a x db r e h = (
  first_where (is_submitted_by input.attempt_id) db.submissions,
  refl,
  ground arith,
  ground arith,
)

pub commit_transaction-ok :
    (env : Env) (input : ProposedResult) (digest : Digest) (allow : Bool) (db : Db)
    (r : Disposition × Db)
    → commit_transaction env input digest allow db ≡ ok r
    → ((r ≡ (duplicate, db)) × IsCommitted input digest db) ⊎ IsAccepted input allow env.now db
unfolding commit_transaction IsCommitted IsAccepted
commit_transaction-ok env input digest allow db r e = elim (Result-cases (lock_attempt input db)) [
  | inr (f, h) ↦ absurd (ground arith)
  | inl (((a, x), db1), h) ↦ let (h1, h2, h3) = lock_attempt-ok input db _ h in go a x h1 h2 (cc)
]
  where
    known :
        (s : Option Submission)
        → first_where (is_submitted_by input.attempt_id) db.submissions ≡ s
        → agrees_with digest s ≡ true
        → is_committed s ≡ true
        → IsCommitted input digest db
    known (some s) h1 h2 h3 = (s, h1, h3, h2)
    known none h1 h2 h3 = absurd (cc)

    go :
        (a : Attempt) (x : Execution)
        → first_where
            (λ a. a.id == input.attempt_id && a.execution_id == input.execution_id)
            db.attempts
          ≡ some a
        → first_where (λ e. e.id == input.execution_id) db.executions ≡ some x
        → lock_attempt input db ≡ ok ((a, x), db)
        → ((r ≡ (duplicate, db)) × IsCommitted input digest db) ⊎ IsAccepted input allow env.now db
    go a x h1 h2 h =
        let (s, k1, k2, k3) = commit_transaction-last env input digest allow a x db r e h in
        elim (commit_unless_duplicate-ok env input digest allow a x s (is_committed s) db r k3) [
          | inl (t, q) ↦ inl (q, known s k1 k2 t)
          | inr (l, c) ↦
              let (f, p1, p2, p3, p4, p5) = check_result-ok env input allow a x db l c in
              inr (
                l.0.attempt,
                l.0.execution,
                l.0.region,
                fenced-IsAuthorized input allow env.now db l.0 f (h1 ∙ ap some (sym p1))
                    (h2 ∙ ap some (sym p2)) (ground arith)
                    (p3 ∙ ap (λ y. input_deliveries y.id db) (sym p2)) p4,
              )
        ]

-- A result that commit accepts is either one that the attempt has already committed, with the same
-- digest, and then nothing changes; or its attempt and its execution were active, its lease token
-- was current and its lease had not expired (unless expired leases are allowed), its lifecycle
-- epoch was that of the execution and of a running region, and the execution had inputs, all of
-- them leased under the token.
pub commit-IsAccepted :
    (env : Env) (input : ProposedResult) (digest : Digest) (allow : Bool) (db db' : Db)
    (d : Disposition)
    → commit env input digest allow db ≡ (ok d, db')
    → ((d ≡ duplicate) × (db' ≡ db) × IsCommitted input digest db)
      ⊎ IsAccepted input allow env.now db
unfolding commit
commit-IsAccepted env input digest allow db db' d e =
    elim (Result-cases (commit_transaction env input digest allow db)) [
      | inr (f, h) ↦ absurd (ground arith)
      | inl (r, h) ↦ elim (commit_transaction-ok env input digest allow db r h) [
        | inl (q, k) ↦ inl (ground arith, ground arith, k)
        | inr k ↦ inr k
      ]
    ]
