-- ===== src/Worker/Heartbeats.antt =====
-- What a heartbeat of worker-protocol-service.ts leaves: the attempt and its deliveries under the
-- same extended lease.
use factory_floor.Common.{
  arith, ℕ, ◌+◌, ◌<◌, ◌≡◌, ◌==◌, ◌&&◌, refl, sym, ◌∙◌, subst, Bool, true, false, Option, none, some,
  All, All-mono, All-updated, set_where, first_where, holds, is_some, same_option, Bool-cases,
  Option-cases, inl, inr, ok, List, map, rows_where, map-rows_where-set_where,
}
use factory_floor.Tables.{Db, Attempt, Delivery, Uuid, Millis}
use factory_floor.Tables.Kinds.{is_active, is_leased, AttemptStatus}
use factory_floor.Tables.Triggers.{
  update_attempt, sync_attempt_delivery_lease, is_input_of, lease_changed, is_synced, follow_lease,
}
use factory_floor.Commit.Retries.{update_attempt-attempts}
use factory_floor.Worker.Normalize.{AttemptIdentity}
use factory_floor.Worker.Attempts.{
  ActiveAttemptRow, active_attempt, check_active, attempt_row, extend, Heartbeat, extend_lease,
  is_lease_over,
}

-- What the guards of activeAttempt say of the rows.
pub record IsHeld (input : AttemptIdentity) (now : Millis) (row : ActiveAttemptRow) (db : Db)
    : Type 0 where
  pub found :
      first_where
        (λ a. a.id == input.attempt_id && a.execution_id == input.execution_id)
        db.attempts
      ≡ some row.attempt
  pub of_attempt :
      first_where (λ e. e.id == row.attempt.execution_id) db.executions ≡ some row.execution
  pub of_execution : first_where (λ r. r.id == row.execution.region_id) db.regions ≡ some row.region
  pub active : is_active row.attempt.status ≡ true
  pub token : row.attempt.lease_token ≡ some input.lease_token
  pub execution_epoch : row.execution.lifecycle_epoch ≡ input.region_fencing_epoch
  pub region_epoch : row.region.lifecycle_epoch ≡ input.region_fencing_epoch
  pub live : (t : Millis) × (row.attempt.lease_expires_at ≡ some t) × (now < t)

lease_live :
    (a : Attempt) (now : Millis)
    → is_lease_over a now ≡ false
    → (t : Millis) × (a.lease_expires_at ≡ some t) × (now < t)
lease_live a now h = elim (Option-cases a.lease_expires_at) [
  | inl e ↦ absurd (ground arith)
  | inr (t, e) ↦ (t, e, ground arith)
]

token_held : (o : Option ℕ) (n : ℕ) → holds o n ≡ true → o ≡ some n
token_held none n h = absurd (cc)
token_held (some m) n h = ground arith

attempt_row-found :
    (input : AttemptIdentity) (db : Db) (row : ActiveAttemptRow)
    → attempt_row input db ≡ some row
    → (first_where
          (λ a. a.id == input.attempt_id && a.execution_id == input.execution_id)
          db.attempts
        ≡ some row.attempt)
      × (first_where (λ e. e.id == row.attempt.execution_id) db.executions ≡ some row.execution)
      × (first_where (λ r. r.id == row.execution.region_id) db.regions ≡ some row.region)
unfolding attempt_row
attempt_row-found input db row e =
    elim (Option-cases (
      first_where (λ a. a.id == input.attempt_id && a.execution_id == input.execution_id)
        db.attempts)) [
          | inl n ↦ absurd (ground arith)
          | inr (a, h) ↦
              elim (Option-cases (first_where (λ e. e.id == a.execution_id) db.executions)) [
                | inl n ↦ absurd (ground arith)
                | inr (x, k) ↦
                    elim (Option-cases (first_where (λ r. r.id == x.region_id) db.regions)) [
                      | inl n ↦ absurd (ground arith)
                      | inr (g, l) ↦ (ground arith, ground arith, ground arith)
                    ]
              ]
        ]

-- activeAttempt answers only with the attempt that the worker names, the execution of that attempt
-- and the region of that execution; the attempt is active under the worker's own live lease, and the
-- execution and the region are both in the epoch that the worker names.
pub active_attempt-IsHeld :
    (input : AttemptIdentity) (now : Millis) (db : Db) (row : ActiveAttemptRow)
    → active_attempt input now db ≡ ok row
    → IsHeld input now row db
unfolding active_attempt check_active
active_attempt-IsHeld input now db row e = elim (Option-cases (attempt_row input db)) [
  | inl h ↦ absurd (ground arith)
  | inr (r, h) ↦
      let q : row ≡ r = ground arith in
      let a : is_active r.attempt.status ≡ true = ground arith in
      let t : holds r.attempt.lease_token input.lease_token ≡ true = ground arith in
      let l : is_lease_over r.attempt now ≡ false = ground arith in
      rw q (record {
        found = (attempt_row-found input db r h).0;
        of_attempt = (attempt_row-found input db r h).1;
        of_execution = (attempt_row-found input db r h).2;
        active = a;
        token = token_held r.attempt.lease_token input.lease_token t;
        execution_epoch = ground arith;
        region_epoch = ground arith;
        live = lease_live r.attempt now l;
      })
]

-- A delivery that is an input of the execution, leased under the token.
abbrev pub is_under_lease : Uuid → ℕ → Db → Delivery → Bool
is_under_lease execution_id token db d =
    is_input_of execution_id db.inputs d.id && is_leased d.status && holds d.lease_token token

-- The deliveries that are under it, by their ids.
abbrev pub ids_under_lease : Uuid → ℕ → Db → List Uuid
ids_under_lease execution_id token db =
    map (λ d. d.id) (rows_where (is_under_lease execution_id token db) db.deliveries)

-- The deliveries under the token are leased until `t`.
abbrev pub IsLeasedUntil : Uuid → ℕ → Option Millis → Db → Type 0
IsLeasedUntil execution_id token t db =
    All (λ d. is_under_lease execution_id token db d ≡ true → d.lease_expires_at ≡ t) db.deliveries

same_option-some : (t : Millis) (o : Option Millis) → same_option (some t) o ≡ true → o ≡ some t
same_option-some t none h = absurd (cc)
same_option-some t (some u) h = ground arith

unchanged :
    (a : Attempt) (token : ℕ) (t : Millis)
    → a.lease_token ≡ some token
    → lease_changed a (extend_lease t a) ≡ false
    → a.lease_expires_at ≡ some t
unchanged a token t h e =
    same_option-some t a.lease_expires_at
      (let k : is_some a.lease_token ≡ true = ground arith in ground arith)

sync-IsLeasedUntil :
    (a : Attempt) (token : ℕ) (t : Millis) (db : Db)
    → a.lease_token ≡ some token
    → IsLeasedUntil a.execution_id token a.lease_expires_at db
    → IsLeasedUntil a.execution_id token
        (some t)
        (sync_attempt_delivery_lease a (extend_lease t a) db)
unfolding sync_attempt_delivery_lease
sync-IsLeasedUntil a token t db h k = elim (Bool-cases (lease_changed a (extend_lease t a))) [
  | inl e ↦ rw e (
      All-mono _ _ (λ d f u. f (synced d u)) _
        (All-updated (λ d. d.lease_expires_at ≡ some t) (is_synced (extend_lease t a) db.inputs)
          (follow_lease (extend_lease t a)) (λ d u. refl) db.deliveries))
  | inr e ↦
      let same : a.lease_expires_at ≡ some t = unchanged a token t h e in
      rw e (All-mono _ _ (λ d f u. f u ∙ same) db.deliveries k)
]
  where
    synced :
        (d : Delivery)
        → is_under_lease a.execution_id token db d ≡ true
        → is_synced (extend_lease t a) db.inputs d ≡ true
    synced d u = ground arith

follow_lease-is_under_lease :
    (a : Attempt) (token : ℕ) (db : Db) (d : Delivery)
    → a.lease_token ≡ some token
    → is_synced a db.inputs d ≡ true
    → is_under_lease a.execution_id token db (follow_lease a d)
      ≡ is_under_lease a.execution_id token db d
follow_lease-is_under_lease a token db d h e = elim (Option-cases d.lease_token) [
  | inl n ↦ absurd (ground arith)
  | inr (t, n) ↦ ground arith
]

sync-ids_under_lease :
    (a : Attempt) (token : ℕ) (t : Millis) (db : Db)
    → a.lease_token ≡ some token
    → ids_under_lease a.execution_id token (sync_attempt_delivery_lease a (extend_lease t a) db)
      ≡ ids_under_lease a.execution_id token db
unfolding sync_attempt_delivery_lease
sync-ids_under_lease a token t db h = elim (Bool-cases (lease_changed a (extend_lease t a))) [
  | inl e ↦ rw e (
      map-rows_where-set_where (λ d. d.id) (is_under_lease a.execution_id token db)
        (is_synced (extend_lease t a) db.inputs) (follow_lease (extend_lease t a)) (λ d. refl)
        (λ d u. follow_lease-is_under_lease (extend_lease t a) token db d h u) db.deliveries)
  | inr e ↦ rw e refl
]

update_attempt-sync :
    (a : Attempt) (f : Attempt → Attempt) (db : Db)
    → first_where (λ b. b.id == a.id) db.attempts ≡ some a
    → update_attempt a.id f db
      ≡ sync_attempt_delivery_lease a
          (f a)
          (record db { attempts = set_where (λ b. b.id == a.id) f db.attempts })
unfolding update_attempt
update_attempt-sync a f db h = ground arith

-- A heartbeat succeeds only for the holder of a live lease in the current epoch. It moves the
-- attempt's lease to the end that it answers; the inputs leased under its token are the same
-- deliveries as before, still leased under it, and their leases have that end too, if they all had
-- the attempt's before and attempt ids are a key.
pub extend-IsLeasedUntil :
    (duration : ℕ) (input : AttemptIdentity) (now : Millis) (db db' : Db) (answer : Heartbeat)
    (row : ActiveAttemptRow)
    → active_attempt input now db ≡ ok row
    → first_where (λ b. b.id == row.attempt.id) db.attempts ≡ some row.attempt
    → IsLeasedUntil row.attempt.execution_id input.lease_token row.attempt.lease_expires_at db
    → extend duration input now db ≡ ok (answer, db')
    → IsHeld input now row db
      × (answer.lease_expires_at ≡ now + duration)
      × All
          (λ b.
            (b.id == row.attempt.id) ≡ true
            → (b.status ≡ AttemptStatus.running) × (b.lease_expires_at ≡ some (now + duration)))
          db'.attempts
      × IsLeasedUntil row.attempt.execution_id input.lease_token (some (now + duration)) db'
      × (ids_under_lease row.attempt.execution_id input.lease_token db'
          ≡ ids_under_lease row.attempt.execution_id input.lease_token db)
unfolding extend
extend-IsLeasedUntil duration input now db db' answer row h key k e =
    let held = active_attempt-IsHeld input now db row h in
    let t = now + duration in
    let a = row.attempt in
    let q : db' ≡ update_attempt a.id (extend_lease t) db = ground arith in
    (
      held,
      ground arith,
      rw (q, update_attempt-attempts a.id (extend_lease t) db)
          (All-updated (λ b. (b.status ≡ AttemptStatus.running) × (b.lease_expires_at ≡ some t))
            (λ b. b.id == a.id) (extend_lease t) (λ b u. (refl, refl)) db.attempts),
      subst (IsLeasedUntil a.execution_id input.lease_token (some t))
          (sym (q ∙ update_attempt-sync a (extend_lease t) db key))
          (sync-IsLeasedUntil a input.lease_token t
            (record db { attempts = set_where (λ b. b.id == a.id) (extend_lease t) db.attempts })
            held.token k),
      rw (q, update_attempt-sync a (extend_lease t) db key)
          (sync-ids_under_lease a input.lease_token t
            (record db { attempts = set_where (λ b. b.id == a.id) (extend_lease t) db.attempts })
            held.token),
    )
