-- ===== src/Scheduler/Loop.antt =====
-- The loop of leaseNextAttempt in scheduler-service.ts over its candidates.
use factory_floor.Common.{
  arith, ℕ, ◌+◌, ◌≤◌, ◌≡◌, sym, ◌∙◌, Bool, true, Option, none, some, List, [], ◌∷◌, Bool-cases, inl,
  inr, ◌⊎◌, ok, Result-cases, any_row, ◌==◌, ==_refl, refl,
}
use factory_floor.Tables.{Db, Delivery, Region, ComponentInstance, TopologyRevision, Millis, Digest}
use factory_floor.Scheduler.Groups.{candidates}
use factory_floor.Scheduler.Executions.{
  LeaseNextAttemptOptions, Fresh, LeasedExecutionAttempt, InputIdentity,
}
use factory_floor.Scheduler.Candidate.{try_candidate}
use factory_floor.Scheduler.Lease.{
  try_candidates, lease_next_attempt, is_lease_duration, is_empty_selection,
}
use factory_floor.Scheduler.Leases.{IsUnderLease}
use factory_floor.Scheduler.SameWork.{
  IsSameWork, IsSameWork-trans, IsSameWork-refl, IsNewExecution, IsNewExecution-IsSameWork,
}
use factory_floor.Scheduler.Rounds.{IsReadyGroup, try_candidate-none, try_candidate-some}

module _ (digest : List InputIdentity → Digest) (acquired : Delivery → Bool)
    (options : LeaseNextAttemptOptions) (now : Millis) where
  -- The lease of one of the candidates, under ids of the supply, made in a database with the work of
  -- the first one.
  pub IsLeaseFrom : (ℕ → Fresh) → List Delivery → Db → Db → LeasedExecutionAttempt → Type 0
  IsLeaseFrom fresh cs db db' l =
      (n : ℕ) × (db1 : Db) × (c : Delivery) × (g : Region) × (i : ComponentInstance)
      × (v : TopologyRevision) × (sel : List Delivery) × (any_row (λ d. d.id == c.id) cs ≡ true)
      × IsSameWork db db1
      × IsReadyGroup c now db1 g i v sel
      × IsUnderLease options (fresh n) now l sel db'

  try_candidates-step :
      (fresh : ℕ → Fresh) (c : Delivery) (cs : List Delivery) (db db' : Db)
      (l : Option LeasedExecutionAttempt)
      → try_candidates digest acquired options now fresh (c ∷ cs) db ≡ ok (l, db')
      → ((x : LeasedExecutionAttempt) × (l ≡ some x)
          × (try_candidate options (fresh 0) now digest acquired c db ≡ ok (some x, db')))
        ⊎ ((db1 : Db) × (try_candidate options (fresh 0) now digest acquired c db ≡ ok (none, db1))
            × (try_candidates digest acquired options now (λ n. fresh (n + 1)) cs db1
                ≡ ok (l, db')))
  unfolding try_candidates
  try_candidates-step fresh c cs db db' l e =
      elim (Result-cases (try_candidate options (fresh 0) now digest acquired c db)) [
        | inr (f, h) ↦ absurd (ground arith)
        | inl ((none, db1), h) ↦ inr (db1, h, ground arith)
        | inl ((some x, db1), h) ↦ inl (x, ground arith, h ∙ ground arith)
      ]

  try_candidates-none :
      (fresh : ℕ → Fresh) (cs : List Delivery) (db db' : Db)
      → ((n : ℕ) → IsNewExecution db (fresh n).execution)
      → try_candidates digest acquired options now fresh cs db ≡ ok (none, db')
      → IsSameWork db db'
  unfolding try_candidates
  try_candidates-none fresh [] db db' new e =
      let q : db' ≡ db = ground arith in rw q (IsSameWork-refl db)
  try_candidates-none fresh (c ∷ cs) db db' new e =
      elim (try_candidates-step fresh c cs db db' none e) [
        | inl (x, p, q) ↦ absurd (cc)
        | inr (db1, p, q) ↦
            let w = try_candidate-none options (fresh 0) now digest acquired c db db1 (new 0) p in
            IsSameWork-trans db db1 db' w (
              try_candidates-none (λ n. fresh (n + 1)) cs db1 db'
                (λ n. IsNewExecution-IsSameWork db db1 _ w (new (n + 1))) q)
      ]

  try_candidates-some :
      (fresh : ℕ → Fresh) (cs : List Delivery) (db db' : Db) (l : LeasedExecutionAttempt)
      → ((n : ℕ) → IsNewExecution db (fresh n).execution)
      → try_candidates digest acquired options now fresh cs db ≡ ok (some l, db')
      → IsLeaseFrom fresh cs db db' l
  unfolding try_candidates IsLeaseFrom any_row
  try_candidates-some fresh [] db db' l new e = absurd (ground arith)
  try_candidates-some fresh (c ∷ cs) db db' l new e =
      elim (try_candidates-step fresh c cs db db' (some l) e) [
        | inl (x, p, q) ↦
            let p' : x ≡ l = ground arith in
            let (g, i, v, sel, r, u) =
              try_candidate-some options (fresh 0) now digest acquired c db db' l (rw (sym p') q) in
            (0, db, c, g, i, v, sel, rw (==_refl c.id) refl, IsSameWork-refl db, r, u)
        | inr (db1, p, q) ↦
            let w = try_candidate-none options (fresh 0) now digest acquired c db db1 (new 0) p in
            let (n, db2, c', g, i, v, sel, m, w', r, u) =
              try_candidates-some (λ n. fresh (n + 1)) cs db1 db' l
                (λ n. IsNewExecution-IsSameWork db db1 _ w (new (n + 1))) q in
            (
              n + 1,
              db2,
              c',
              g,
              i,
              v,
              sel,
              ground (arith, m),
              IsSameWork-trans db db1 db2 w w',
              r,
              u,
            )
      ]

  lease_next_attempt-ok :
      (fresh : ℕ → Fresh) (db db' : Db) (l : Option LeasedExecutionAttempt)
      → lease_next_attempt digest acquired options now fresh db ≡ ok (l, db')
      → (is_lease_duration options.lease_duration_ms ≡ true)
        × (((l ≡ none) × (db' ≡ db))
            ⊎ (try_candidates digest acquired options now fresh
                  (candidates options.component_selectors now db)
                  db
                ≡ ok (l, db')))
  unfolding lease_next_attempt
  lease_next_attempt-ok fresh db db' l e =
      elim (Bool-cases (is_lease_duration options.lease_duration_ms)) [
        | inr h ↦ absurd (ground arith)
        | inl h ↦ elim (Bool-cases (is_empty_selection options.component_selectors)) [
          | inl k ↦ (h, inl (ground arith, ground arith))
          | inr k ↦ (h, inr (ground arith))
        ]
      ]

  -- A claim that finds no work changes no table but the deliveries, the inputs and the quota: of the
  -- deliveries only the time from which they are available, of the inputs and the quota it may add
  -- inputs, and change reservations and decisions, but no budget and no ledger entry. So it leaves
  -- no new execution behind, if the ids that it may give to one are new.
  pub lease_next_attempt-none :
      (fresh : ℕ → Fresh) (db db' : Db)
      → ((n : ℕ) → IsNewExecution db (fresh n).execution)
      → lease_next_attempt digest acquired options now fresh db ≡ ok (none, db')
      → IsSameWork db db'
  lease_next_attempt-none fresh db db' new e =
      let (b, k) = lease_next_attempt-ok fresh db db' none e in
      elim k [
        | inl (p, q) ↦ rw q (IsSameWork-refl db)
        | inr q ↦ try_candidates-none fresh _ db db' new q
      ]

  -- A claim that finds work was for a lease of 1 ms to 15 minutes. It leases an attempt of the
  -- execution that it answers, for the complete inputs of the group of one of its candidates, in a
  -- region that runs: all of them and the attempt are under the one token, of the supply of new ids,
  -- until the end of the lease duration. The candidates before it have left the regions, components,
  -- revisions, ports, executions and attempts as they were; if the ids that a new execution may get
  -- are new.
  pub lease_next_attempt-some :
      (fresh : ℕ → Fresh) (db db' : Db) (l : LeasedExecutionAttempt)
      → ((n : ℕ) → IsNewExecution db (fresh n).execution)
      → lease_next_attempt digest acquired options now fresh db ≡ ok (some l, db')
      → (1 ≤ options.lease_duration_ms)
        × (options.lease_duration_ms ≤ 900000)
        × IsLeaseFrom fresh (candidates options.component_selectors now db) db db' l
  unfolding is_lease_duration
  lease_next_attempt-some fresh db db' l new e =
      let (b, k) = lease_next_attempt-ok fresh db db' (some l) e in
      (
        ground arith,
        ground arith,
        elim k [ inl (p, q) ↦ absurd (cc) | inr q ↦ try_candidates-some fresh _ db db' l new q ],
      )
