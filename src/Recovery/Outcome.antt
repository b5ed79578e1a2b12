-- ===== src/Recovery/Outcome.antt =====
-- What is left of a region that was being cancelled, after run of recovery-service.ts.
use factory_floor.Common.{
  arith, ◌+◌, ◌≡◌, ◌==◌, ◌&&◌, refl, sym, subst, true, false, some, All, All-mono, All-updated,
  All-cleared, any_row-set_where_same, first_where,
}
use factory_floor.Tables.{Db, Region, Millis}
use factory_floor.Tables.Kinds.{RegionStatus}
use factory_floor.Recovery.Regions.{
  settle_region, cancel_region, is_open_attempt, is_running_in, is_open_delivery, cancel_attempt,
  cancel_execution, cancel_delivery,
}

-- A region with nothing left to do, fenced by a new epoch.
pub record IsCancelled (g : Region) (db : Db) : Type 0 where
  pub cancelled :
      All
        (λ r.
          (r.id == g.id) ≡ true
          → (r.lifecycle_status ≡ RegionStatus.cancelled)
            × (r.lifecycle_epoch ≡ g.lifecycle_epoch + 1))
        db.regions
  pub no_attempt : All (λ a. is_open_attempt g.id db.executions a ≡ false) db.attempts
  pub no_execution : All (λ e. is_running_in g.id e ≡ false) db.executions
  pub no_delivery : All (λ d. is_open_delivery g.id d ≡ false) db.deliveries

cancel_region-IsCancelled :
    (now : Millis) (g : Region) (db : Db) → IsCancelled g (cancel_region now g db)
unfolding cancel_region
cancel_region-IsCancelled now g db = record {
  cancelled =
      All-updated
        (λ r.
          (r.lifecycle_status ≡ RegionStatus.cancelled)
          × (r.lifecycle_epoch ≡ g.lifecycle_epoch + 1))
        (λ r. r.id == g.id) _ (λ r e. (refl, refl)) db.regions;
  no_attempt =
      All-mono _ _
        (λ a h. ground (
          arith,
          any_row-set_where_same (is_running_in g.id)
              (λ e. e.id == a.execution_id && e.region_id == g.id) (cancel_execution now)
              db.executions (λ e. refl),
        ))
        _
        (All-cleared (is_open_attempt g.id db.executions) (cancel_attempt now) (λ a e. refl)
          db.attempts);
  no_execution =
      All-cleared (is_running_in g.id) (cancel_execution now) (λ e h. ground arith) db.executions;
  no_delivery =
      All-cleared (is_open_delivery g.id) cancel_delivery (λ d h. ground arith) db.deliveries;
}

-- A cancelling region is settled at the start: it is cancelled under the next epoch, and has no
-- open attempt, no running execution and no ready or leased delivery left.
pub settle_region-IsCancelled :
    (now : Millis) (g : Region) (db : Db)
    → first_where (λ r. r.id == g.id) db.regions ≡ some g
    → g.lifecycle_status ≡ RegionStatus.cancelling
    → IsCancelled g (settle_region now g.id db).1
unfolding settle_region
settle_region-IsCancelled now g db h k =
    let q : (settle_region now g.id db).1 ≡ cancel_region now g db = ground arith in
    subst (IsCancelled g) (sym q) (cancel_region-IsCancelled now g db)
