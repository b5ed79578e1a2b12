-- ===== src/Scheduler/Lease.antt =====
-- leaseNextAttempt and listExpiredLeases of scheduler-service.ts, validateLeaseDuration of
-- lease.ts. `acquired` says which advisory locks are free; each candidate has its own fresh ids.
use factory_floor.Common.{
  ℕ, ◌+◌, ◌*◌, ◌&&◌, Bool, true, false, not, Option, none, some, List, [], ◌∷◌, Result, ok, err,
  if◌then◌else◌, ltb, leb, rows_where,
}
use factory_floor.Tables.{Db, Delivery, Attempt, Name, Millis, Digest}
use factory_floor.Tables.Kinds.{is_active}
use factory_floor.Scheduler.Groups.{candidates}
use factory_floor.Scheduler.Executions.{
  LeaseNextAttemptOptions, Fresh, LeasedExecutionAttempt, LeaseError, invalid_lease_duration,
  InputIdentity,
}
use factory_floor.Scheduler.Candidate.{try_candidate}

-- validateLeaseDuration: an integer between 1 ms and 15 minutes
unfoldable pub is_lease_duration : ℕ → Bool
is_lease_duration ms = ltb 0 ms && leb ms (15 * 60000)

-- componentSelectors !== undefined && componentSelectors.length === 0
abbrev pub is_empty_selection : Option (List Name) → Bool
is_empty_selection (some []) = true
is_empty_selection _ = false

module _ (digest : List InputIdentity → Digest) (acquired : Delivery → Bool)
    (options : LeaseNextAttemptOptions) (now : Millis) where
  -- for (const candidate of candidates): the first that is scheduled ends the loop
  unfoldable pub try_candidates :
      (ℕ → Fresh) → List Delivery → Db → Result LeaseError (Option LeasedExecutionAttempt × Db)
  try_candidates fresh [] db = ok (none, db)
  try_candidates fresh (c ∷ cs) db =
      elim (try_candidate options (fresh 0) now digest acquired c db) [
        | err e ↦ err e
        | ok (none, db') ↦ try_candidates (λ n. fresh (n + 1)) cs db'
        | ok (some leased, db') ↦ ok (some leased, db')
      ]

  unfoldable pub lease_next_attempt :
      (ℕ → Fresh) → Db → Result LeaseError (Option LeasedExecutionAttempt × Db)
  unfolding try_candidates is_lease_duration
  lease_next_attempt fresh db =
      if not (is_lease_duration options.lease_duration_ms)
      then err invalid_lease_duration
      else if is_empty_selection options.component_selectors
      then ok (none, db)
      else try_candidates fresh (candidates options.component_selectors now db) db

-- listExpiredLeases
unfoldable pub list_expired_leases : Millis → Db → List Attempt
list_expired_leases now db =
    rows_where
      (λ a. is_active a.status && elim a.lease_expires_at [ none ↦ false | some t ↦ ltb t now ])
      db.attempts
