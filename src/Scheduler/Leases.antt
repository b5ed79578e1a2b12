-- ===== src/Scheduler/Leases.antt =====
-- The two ends of tryCandidate in scheduler-service.ts: a lease under one token, or a deferral.
use factory_floor.Common.{
  arith, ◌+◌, ◌≡◌, refl, ap, sym, ◌==◌, ◌&&◌, ◌++◌, Bool, true, false, some, List, [], ◌∷◌, map,
  All, All-order_by, All-rows_where, All-any_row, All-updated, any_row-set_where_wider,
  any_row-append, All-mono, All-zip, All-rows_where-true, any_row, holds, Option-cases, Bool-cases,
  inl, inr, subst, ==_refl,
}
use factory_floor.Tables.{Db, Delivery, Attempt, Uuid, Millis}
use factory_floor.Tables.Kinds.{DeliveryStatus, AttemptStatus}
use factory_floor.Tables.Triggers.{update_attempt}
use factory_floor.Commit.Retries.{update_attempt-attempts}
use factory_floor.Scheduler.Executions.{
  LeaseNextAttemptOptions, Fresh, LeasedExecutionAttempt, pending_attempt, input_of, LeasedInput,
  first_row, may_start,
}
use factory_floor.Scheduler.Candidate.{
  first_attempt, take_lease, lease_delivery, lease_deliveries, lease_attempt, leased_result,
}

All-first_row :
    (P : Attempt → Type 0) (as' : List Attempt) (a : Attempt)
    → All P as'
    → first_row as' ≡ some a
    → P a
All-first_row P [] a h e = absurd (cc)
All-first_row P (b ∷ bs) a h e = subst P (ground arith) h.0

same_id_refl : (a : Attempt) → (a.id == a.id && a.execution_id == a.execution_id) ≡ true
same_id_refl a = rw (==_refl a.id, ==_refl a.execution_id) refl

module _ (options : LeaseNextAttemptOptions) (fresh : Fresh) (now : Millis) where
  -- under the worker's token, for the lease duration from now on
  pub record IsLeasedDelivery (d : Delivery) : Type 0 where
    pub leased : d.status ≡ DeliveryStatus.leased
    pub owner : d.lease_owner ≡ some options.worker_id
    pub token : d.lease_token ≡ some fresh.lease_token
    pub until : d.lease_expires_at ≡ some (now + options.lease_duration_ms)

  abbrev pub is_leased_attempt : Uuid → Uuid → Attempt → Bool
  is_leased_attempt execution_id id a =
      (a.id == id && a.execution_id == execution_id)
      && (elim a.status [ AttemptStatus.leased ↦ true | _ ↦ false ]
          && (holds a.lease_token fresh.lease_token
              && holds a.lease_expires_at (now + options.lease_duration_ms)))

  -- What a database says once an attempt is leased.
  pub record IsUnderLease (l : LeasedExecutionAttempt) (sel : List Delivery) (db : Db)
      : Type 0 where
    pub deliveries_leased :
        All (λ d. any_row (λ s. s.id == d.id) sel ≡ true → IsLeasedDelivery d) db.deliveries
    pub attempt_leased : any_row (is_leased_attempt l.execution_id l.attempt_id) db.attempts ≡ true
    pub token : l.lease_token ≡ fresh.lease_token
    pub until : l.lease_expires_at ≡ now + options.lease_duration_ms
    pub inputs_told : map (λ i. i.delivery_id) l.inputs ≡ map (λ d. d.id) sel

  pending_attempt-any_row :
      (execution_id : Uuid) (as' : List Attempt) (a : Attempt)
      → pending_attempt execution_id now as' ≡ some a
      → any_row (λ b. b.id == a.id && b.execution_id == execution_id) as' ≡ true
  unfolding pending_attempt
  pending_attempt-any_row execution_id as' a h =
      All-first_row (λ x. any_row (λ b. b.id == x.id && b.execution_id == execution_id) as' ≡ true)
        _ a
        (All-order_by _ _ _ (
          All-mono _ _
            (λ x (own, found).
              subst (λ e. any_row (λ b. b.id == x.id && b.execution_id == e) as' ≡ true) own found)
            _
            (All-zip _ _ _
              (All-mono _ (λ x. x.execution_id ≡ execution_id) (λ x m. ground arith) _
                (All-rows_where-true (may_start execution_id now) as'))
              (All-rows_where _ (may_start execution_id now) as' (
                All-any_row (λ x b. b.id == x.id && b.execution_id == x.execution_id) same_id_refl
                  as')))))
        h

  lease_deliveries-All :
      (sel : List Delivery) (db : Db)
      → All
          (λ d. any_row (λ s. s.id == d.id) sel ≡ true → IsLeasedDelivery d)
          (lease_deliveries options fresh now sel db).deliveries
  unfolding lease_deliveries
  lease_deliveries-All sel db =
      All-updated IsLeasedDelivery (λ d. any_row (λ s. s.id == d.id) sel)
        (lease_delivery options fresh now)
        (λ d k. record { leased = refl; owner = refl; token = refl; until = refl }) db.deliveries

  told-leased_result :
      (sel : List Delivery)
      → map {A = LeasedInput} (λ i. i.delivery_id) (map input_of sel)
        ≡ map {A = Delivery} (λ d. d.id) sel
  told-leased_result [] = refl
  told-leased_result (d ∷ ds) = ap (λ ids. d.id ∷ ids) (told-leased_result ds)

  lease_deliveries-IsUnderLease :
      (execution_id : Uuid) (a : Attempt) (sel : List Delivery) (db : Db)
      → any_row (is_leased_attempt execution_id a.id) db.attempts ≡ true
      → IsUnderLease
          (leased_result options fresh now execution_id a sel)
          sel
          (lease_deliveries options fresh now sel db)
  unfolding lease_deliveries
  lease_deliveries-IsUnderLease execution_id a sel db h = record {
    deliveries_leased = lease_deliveries-All sel db;
    attempt_leased = h;
    token = refl;
    until = refl;
    inputs_told = told-leased_result sel;
  }

  take_lease-leased :
      (execution_id : Uuid) (a : Attempt) (db : Db)
      → any_row (λ b. b.id == a.id && b.execution_id == execution_id) db.attempts ≡ true
      → any_row
          (is_leased_attempt execution_id a.id)
          (update_attempt a.id (take_lease options fresh now) db).attempts
        ≡ true
  take_lease-leased execution_id a db h =
      subst (λ rows. any_row (is_leased_attempt execution_id a.id) rows ≡ true)
        (sym (update_attempt-attempts a.id (take_lease options fresh now) db))
        (any_row-set_where_wider (λ b. b.id == a.id && b.execution_id == execution_id)
          (λ b. b.id == a.id) (is_leased_attempt execution_id a.id) (take_lease options fresh now)
          db.attempts (λ b k. (ground arith, ground arith)) h)

  pub lease_attempt-IsUnderLease :
      (candidate : Delivery) (execution_id : Uuid) (sel : List Delivery) (db db' : Db)
      (l : LeasedExecutionAttempt)
      → lease_attempt options fresh now candidate execution_id sel db ≡ (some l, db')
      → IsUnderLease l sel db'
  unfolding lease_attempt
  lease_attempt-IsUnderLease candidate execution_id sel db db' l e =
      elim (Option-cases (pending_attempt execution_id now db.attempts)) [
        | inr (a, h) ↦
            let q : l ≡ leased_result options fresh now execution_id a sel = ground arith in
            let r : db'
                ≡ lease_deliveries options fresh now sel
                    (update_attempt a.id (take_lease options fresh now) db) =
              ground arith in
            rw (q, r)
              (lease_deliveries-IsUnderLease execution_id a sel _ (
                take_lease-leased execution_id a db
                  (pending_attempt-any_row execution_id db.attempts a h)))
        | inl h ↦ elim (Bool-cases (any_row (λ a. a.execution_id == execution_id) db.attempts)) [
          | inl k ↦ absurd (ground arith)
          | inr k ↦
              let a = first_attempt options fresh now execution_id in
              let q : l ≡ leased_result options fresh now execution_id a sel = ground arith in
              let r : db'
                  ≡ lease_deliveries options fresh now sel
                      (record db { attempts = db.attempts ++ a ∷ [] }) =
                ground arith in
              rw (q, r)
                (lease_deliveries-IsUnderLease execution_id a sel _ (
                  any_row-append (is_leased_attempt execution_id a.id) db.attempts a
                    (ground arith)))
        ]
      ]
