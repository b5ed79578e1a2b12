-- ===== src/Commit/Checks.antt =====
-- The checks of commit in execution-commit-service.ts, where they succeed.
use factory_floor.Common.{
  arith, ◌≡◌, ◌==◌, ◌||◌, Bool, true, some, List, ok, length, ltb, first_where, holds, all_rows,
}
use factory_floor.Tables.{Db, Attempt, Execution, Region, Delivery, Millis}
use factory_floor.Tables.Kinds.{is_active, is_executing}
use factory_floor.Tables.Proposed.{ProposedResult}
use factory_floor.Commit.Steps.{Env, require, found, done, query, require-eq-ok, require-then}
use factory_floor.Commit.Authority.{
  assert_authority, is_lease_live, is_delivery_held, is_epoch_current,
}
use factory_floor.Commit.Submit.{Locked, lock_context, check_result, input_deliveries}

-- The checks of assertAuthority on the rows that the transaction locked.
pub record IsFenced (input : ProposedResult) (allow_expired_lease : Bool) (now : Millis)
    (l : Locked) : Type 0 where
  pub attempt_active : is_active (l.attempt.status) ≡ true
  pub execution_executing : is_executing (l.execution.status) ≡ true
  pub token_current : holds (l.attempt.lease_token) input.lease_token ≡ true
  pub lease_live : (allow_expired_lease || is_lease_live l.attempt now) ≡ true
  pub epoch_current : is_epoch_current input l.execution l.region ≡ true
  pub deliveries_held : all_rows (is_delivery_held input.lease_token) l.deliveries ≡ true

pub assert_authority-ok :
    (input : ProposedResult) (a : Attempt) (x : Execution) (g : Region) (ds : List Delivery)
    (allow : Bool) (now : Millis) (db : Db) (r : Unit {0} × Db)
    → assert_authority input a x g ds allow now db ≡ ok r
    → (holds a.lease_token input.lease_token ≡ true)
      × ((allow || is_lease_live a now) ≡ true)
      × (is_epoch_current input x g ≡ true)
      × (all_rows (is_delivery_held input.lease_token) ds ≡ true)
      × (r.1 ≡ db)
unfolding assert_authority
assert_authority-ok input a x g ds allow now db r e =
    let (h1, e1) = require-then _ _ _ _ db r e in
    let (h2, e2) = require-then _ _ _ _ db r e1 in
    let (h3, e3) = require-then _ _ _ _ db r e2 in
    let (h4, e4) = require-eq-ok _ _ _ db r e3 in (h1, h2, h3, h4, e4)

pub lock_context-ok :
    (a : Attempt) (x : Execution) (db : Db) (r : Locked × Db)
    → lock_context a x db ≡ ok r
    → (r.0.attempt ≡ a)
      × (r.0.execution ≡ x)
      × (r.0.deliveries ≡ input_deliveries x.id db)
      × (ltb 0 (length r.0.deliveries) ≡ true)
      × (first_where (λ g. g.id == x.region_id) db.regions ≡ some r.0.region)
      × (r.1 ≡ db)
unfolding lock_context query done found require
lock_context-ok a x db r e = ground arith

-- The rows that the result is checked against are those of the database.
pub check_result-ok :
    (env : Env) (input : ProposedResult) (allow : Bool) (a : Attempt) (x : Execution) (db : Db)
    (r : Locked × Db)
    → check_result env input allow a x db ≡ ok r
    → IsFenced input allow env.now r.0
      × (r.0.attempt ≡ a)
      × (r.0.execution ≡ x)
      × (r.0.deliveries ≡ input_deliveries x.id db)
      × (ltb 0 (length r.0.deliveries) ≡ true)
      × (first_where (λ g. g.id == x.region_id) db.regions ≡ some r.0.region)
unfolding check_result found require done
check_result-ok env input allow a x db r e = ground arith
