-- ===== src/Recovery/Regions.antt =====
-- Orphaned deliveries and cancelling regions, in run of recovery-service.ts.
use factory_floor.Common.{
  ℕ, ◌+◌, ◌==◌, ◌&&◌, ◌||◌, Bool, false, not, none, some, List, [], ◌∷◌, length, if◌then◌else◌, leb,
  any_row, first_where, rows_where, set_where,
}
use factory_floor.Tables.{Db, Attempt, Execution, Region, Delivery, Uuid, Millis}
use factory_floor.Tables.Kinds.{
  is_active, is_pending, is_executing, is_running, is_cancelling, is_ready, is_leased,
  AttemptStatus, ExecutionStatus, DeliveryStatus, RegionStatus, region_cancelled,
}
use factory_floor.Tables.QuotaRows.{Quota}
use factory_floor.Tables.Triggers.{release_admission}
use factory_floor.Recovery.Attempts.{expose_again}

-- leased, under a lease that is over, in a running region
abbrev pub is_orphaned : Millis → List Region → Delivery → Bool
is_orphaned now regions d =
    is_leased d.status
    && (elim d.lease_expires_at [ none ↦ false | some t ↦ leb t now ]
        && any_row (λ r. r.id == d.region_id && is_running r.lifecycle_status) regions)

-- the update of orphaned deliveries, with the number of rows
unfoldable pub expose_orphans : Millis → Db → ℕ × Db
expose_orphans now db = (
  length (rows_where (is_orphaned now db.regions) db.deliveries),
  record db {
    deliveries = set_where (is_orphaned now db.regions) (expose_again now) db.deliveries;
  },
)

pub record Settled : Type 0 where
  pub region : ℕ
  pub attempts : ℕ
  pub deliveries : ℕ

-- an open attempt of an execution of the region
abbrev pub is_open_attempt : Uuid → List Execution → Attempt → Bool
is_open_attempt region_id executions a =
    (is_pending a.status || is_active a.status)
    && any_row (λ e. e.id == a.execution_id && e.region_id == region_id) executions

abbrev pub is_running_in : Uuid → Execution → Bool
is_running_in region_id e = e.region_id == region_id && is_executing e.status

abbrev pub is_open_delivery : Uuid → Delivery → Bool
is_open_delivery region_id d = d.region_id == region_id && (is_ready d.status || is_leased d.status)

abbrev pub cancel_attempt : Millis → Attempt → Attempt
cancel_attempt now a = record a {
  status = AttemptStatus.cancelled;
  completed_at = some now;
  failure = none;
  lease_owner = none;
  lease_token = none;
  lease_expires_at = none;
}

abbrev pub cancel_execution : Millis → Execution → Execution
cancel_execution now e = record e {
  status = ExecutionStatus.failed;
  failed_at = some now;
  completed_at = none;
  failure = some region_cancelled;
}

abbrev pub cancel_delivery : Delivery → Delivery
cancel_delivery d = record d {
  status = DeliveryStatus.cancelled;
  lease_owner = none;
  lease_token = none;
  lease_expires_at = none;
}

-- the trigger release_terminal_execution_admission, for each row of the update
unfoldable pub release_each : Millis → List Execution → Quota → Quota
unfolding release_admission
release_each now [] q = q
release_each now (e ∷ es) q = release_each now es (release_admission e.id now q)

-- the four updates
unfoldable pub cancel_region : Millis → Region → Db → Db
unfolding release_each
cancel_region now g db = record db {
  attempts = set_where (is_open_attempt g.id db.executions) (cancel_attempt now) db.attempts;
  executions = set_where (is_running_in g.id) (cancel_execution now) db.executions;
  deliveries = set_where (is_open_delivery g.id) cancel_delivery db.deliveries;
  regions =
      set_where (λ r. r.id == g.id)
        (λ r. record r {
          lifecycle_status = RegionStatus.cancelled;
          lifecycle_epoch = g.lifecycle_epoch + 1;
        })
        db.regions;
  quota = release_each now (rows_where (is_running_in g.id) db.executions) db.quota;
}

-- the transaction of one cancelling region
unfoldable pub settle_region : Millis → Uuid → Db → Settled × Db
unfolding cancel_region
settle_region now candidate db = elim (first_where (λ r. r.id == candidate) db.regions) [
  | none ↦ (record { region = 0; attempts = 0; deliveries = 0 }, db)
  | some g ↦
      if not (is_cancelling g.lifecycle_status)
      then (record { region = 0; attempts = 0; deliveries = 0 }, db)
      else (
        record {
          region = 1;
          attempts = length (rows_where (is_open_attempt g.id db.executions) db.attempts);
          deliveries = length (rows_where (is_open_delivery g.id) db.deliveries);
        },
        cancel_region now g db,
      )
]
