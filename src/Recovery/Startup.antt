-- ===== src/Recovery/Startup.antt =====
-- The phases of run in recovery-service.ts, each a loop of transactions. The reconciliation of
-- artifacts and external actions, the event of the summary and the projections are left out.
use factory_floor.Common.{
  ℕ, zero, suc, ◌+◌, Bool, true, false, not, List, [], ◌∷◌, map, length, if◌then◌else◌, ltb, leb,
  rows_where, order_by, is_some, Result, ok, err,
}
use factory_floor.Tables.{Db, Attempt, Region, Submission, Uuid, Millis}
use factory_floor.Tables.Kinds.{is_cancelling}
use factory_floor.Commit.Steps.{CommitError, thrown, Env, Draw}
use factory_floor.Commit.Rollback.{is_refusal}
use factory_floor.Commit.Submit.{commit_submitted_result}
use factory_floor.Recovery.Attempts.{Recovered, no_change, is_expired, recover_attempt}
use factory_floor.Recovery.Regions.{Settled, settle_region, expose_orphans}

-- order by created_at, id
abbrev pub by_submission : Submission → Submission → Bool
by_submission a b =
    if ltb a.created_at b.created_at
    then true
    else if ltb b.created_at a.created_at
    then false
    else leb a.id b.id

abbrev pub take : {A : Type 0} → ℕ → List A → List A
take zero xs = []
take (suc n) [] = []
take (suc n) (x ∷ xs) = x ∷ take n xs

-- the submissions that wait, oldest first
unfoldable pub pending_submissions : ℕ → Db → List Submission
pending_submissions limit db =
    take limit
      (order_by by_submission (rows_where (λ s. not (is_some s.committed_at)) db.submissions))

pub record Committed : Type 0 where
  pub scanned : ℕ
  pub committed : ℕ
  pub rejected : ℕ

abbrev pub count_committed : Committed → Committed
count_committed c = record c { scanned = c.scanned + 1; committed = c.committed + 1 }

abbrev pub count_rejected : Committed → Committed
count_rejected c = record c { scanned = c.scanned + 1; rejected = c.rejected + 1 }

-- the first loop: an error below 500 counts as a rejection, any other ends the start
unfoldable pub commit_pending :
    Env → List Submission → Committed → Db → Result CommitError Committed × Db
unfolding commit_submitted_result
commit_pending env [] counts db = (ok counts, db)
commit_pending env (s ∷ ss) counts db =
    let (answer, db') = commit_submitted_result env s.attempt_id true db in
    elim answer [
      | ok disposition ↦ commit_pending env ss (count_committed counts) db'
      | err e ↦ elim (is_refusal e) [
        | true ↦ commit_pending env ss (count_rejected counts) db'
        | false ↦ (err e, db')
      ]
    ]

abbrev pub add_recovered : Recovered → Recovered → Recovered
add_recovered a b = record {
  abandoned = a.abandoned + b.abandoned;
  replacement = a.replacement + b.replacement;
  exposed = a.exposed + b.exposed;
  terminal = a.terminal + b.terminal;
}

-- the ids of the expired attempts, in order
unfoldable pub expired_attempts : Millis → Db → List Uuid
expired_attempts now db =
    order_by leb (map (λ (a : Attempt). a.id) (rows_where (is_expired now) db.attempts))

-- the second loop
unfoldable pub recover_attempts :
    Env → Millis → List Uuid → Recovered → Db → Result CommitError Recovered × Db
unfolding recover_attempt
recover_attempts env now [] counts db = (ok counts, db)
recover_attempts env now (id ∷ ids) counts db =
    elim (recover_attempt (env.uuid Draw.attempt (length db.attempts)) now id db) [
      | err f ↦ (err (thrown f), db)
      | ok (recovered, db') ↦ recover_attempts env now ids (add_recovered counts recovered) db'
    ]

abbrev pub add_settled : Settled → Settled → Settled
add_settled a b = record {
  region = a.region + b.region;
  attempts = a.attempts + b.attempts;
  deliveries = a.deliveries + b.deliveries;
}

-- the ids of the cancelling regions, in order
unfoldable pub cancelling_regions : Db → List Uuid
cancelling_regions db =
    order_by leb
      (map (λ (r : Region). r.id) (rows_where (λ r. is_cancelling r.lifecycle_status) db.regions))

-- the third loop
unfoldable pub settle_regions : Millis → List Uuid → Settled → Db → Settled × Db
unfolding settle_region
settle_regions now [] counts db = (counts, db)
settle_regions now (id ∷ ids) counts db =
    let (settled, db') = settle_region now id db in
    settle_regions now ids (add_settled counts settled) db'

pub record StartupRecoverySummary : Type 0 where
  pub submissions : Committed
  pub recovered : Recovered
  pub orphans : ℕ
  pub settled : Settled

-- the phases after the submissions
unfoldable pub run_settling :
    Millis → Committed → Recovered → Db → Result CommitError StartupRecoverySummary × Db
unfolding expose_orphans settle_regions cancelling_regions
run_settling now submissions recovered db =
    let (orphans, db1) = expose_orphans now db in
    let (settled, db2) =
      settle_regions now (cancelling_regions db1)
        (record { region = 0; attempts = 0; deliveries = 0 }) db1 in
    (
      ok (record {
        submissions = submissions;
        recovered = recovered;
        orphans = orphans;
        settled = settled;
      }),
      db2,
    )

unfoldable pub run_recovering :
    Env → Millis → Committed → Db → Result CommitError StartupRecoverySummary × Db
unfolding recover_attempts expired_attempts run_settling
run_recovering env now submissions db =
    let (answer, db') = recover_attempts env now (expired_attempts now db) no_change db in
    elim answer [ err e ↦ (err e, db') | ok recovered ↦ run_settling now submissions recovered db' ]

-- run
unfoldable pub run : Env → Millis → ℕ → Db → Result CommitError StartupRecoverySummary × Db
unfolding commit_pending pending_submissions run_recovering
run env now batch db =
    let (answer, db') =
      commit_pending env (pending_submissions batch db)
        (record { scanned = 0; committed = 0; rejected = 0 }) db in
    elim answer [ err e ↦ (err e, db') | ok submissions ↦ run_recovering env now submissions db' ]
