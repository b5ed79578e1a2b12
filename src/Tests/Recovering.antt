-- ===== src/Tests/Recovering.antt =====
-- The worker's requests on its lease, and the recovery of the runtime when it is over.
use factory_floor.Common.{
  all_rows, rows_where, any_row, set_where, first_where, ◌+◌, ◌≡◌, refl, arith, true, false, none,
  some, [], ◌∷◌, ok, err, All, ◌==◌,
}
use factory_floor.Tables.{Db, Region}
use factory_floor.Tables.Kinds.{RegionStatus, AttemptStatus}
use factory_floor.Commit.Finish.{fail_or_retry}
use factory_floor.Recovery.Attempts.{Recovered, recover_attempt}
use factory_floor.Recovery.Regions.{settle_region}
use factory_floor.Recovery.Limits.{IsBounded, fail_or_retry-IsBounded, recover_attempt-IsBounded}
use factory_floor.Recovery.Outcome.{IsCancelled, settle_region-IsCancelled}
use factory_floor.Worker.Normalize.{AttemptIdentity, trimmed, normalize_component_selectors}
use factory_floor.Worker.Attempts.{ActiveAttemptRow, active_attempt, extend, Heartbeat}
use factory_floor.Worker.Heartbeats.{
  IsHeld, IsLeasedUntil, ids_under_lease, active_attempt-IsHeld, extend-IsLeasedUntil,
}
use factory_floor.Worker.Identity.{IsUnique, normalize_component_selectors-IsUnique}
use factory_floor.Tests.Data.{working, env, failed_result, one_execution, one_attempt, root_region}

fail_or_retry-IsBounded_example :
    IsBounded (fail_or_retry env failed_result one_execution one_attempt (100 ∷ []) working).1
fail_or_retry-IsBounded_example =
    fail_or_retry-IsBounded env failed_result one_execution one_attempt (100 ∷ []) working
      (omega arith, tt)

abbrev no_recovery : Recovered × Db
no_recovery = (record { abandoned = 0; replacement = 0; exposed = 0; terminal = 0 }, working)

abbrev recovered : Recovered × Db
unfolding recover_attempt
recovered = elim (recover_attempt 850 70000 400 working) [ ok r ↦ r | err e ↦ no_recovery ]

recover_attempt-IsBounded_example : IsBounded recovered.1
unfolding recovered recover_attempt first_where set_where any_row rows_where
recover_attempt-IsBounded_example =
    recover_attempt-IsBounded 850 70000 400 working recovered.1 recovered.0 (omega arith, tt) refl

abbrev cancelling_region : Region
cancelling_region = record root_region { lifecycle_status = RegionStatus.cancelling }

abbrev cancelling : Db
cancelling = record working { regions = cancelling_region ∷ [] }

settle_region-IsCancelled_example :
    IsCancelled cancelling_region (settle_region 5000 1 cancelling).1
unfolding first_where
settle_region-IsCancelled_example =
    settle_region-IsCancelled 5000 cancelling_region cancelling refl refl

abbrev identity : AttemptIdentity
identity = record {
  execution_id = 300;
  attempt_id = 400;
  lease_token = 500;
  region_fencing_epoch = 3;
}

abbrev held_row : ActiveAttemptRow
held_row = record { attempt = one_attempt; execution = one_execution; region = root_region }

active_attempt-IsHeld_example : IsHeld identity 2000 held_row working
unfolding active_attempt first_where
active_attempt-IsHeld_example = active_attempt-IsHeld identity 2000 working held_row refl

abbrev answer : Heartbeat
answer = record { lease_expires_at = 62000; cancellation_requested = false }

abbrev extended : Db
unfolding extend
extended = elim (extend 60000 identity 2000 working) [ ok (a, db) ↦ db | err e ↦ working ]

extend-IsLeasedUntil_example :
    IsHeld identity 2000 held_row working
    × (62000 ≡ 2000 + 60000)
    × All
        (λ b.
          (b.id == 400) ≡ true
          → (b.status ≡ AttemptStatus.running) × (b.lease_expires_at ≡ some 62000))
        extended.attempts
    × IsLeasedUntil 300 500 (some 62000) extended
    × (ids_under_lease 300 500 extended ≡ ids_under_lease 300 500 working)
unfolding extended extend active_attempt first_where set_where any_row
extend-IsLeasedUntil_example =
    extend-IsLeasedUntil 60000 identity 2000 working extended answer held_row refl refl
      ((λ h. refl), tt) refl

normalize_component_selectors-IsUnique_example : IsUnique (22 ∷ 23 ∷ [])
unfolding normalize_component_selectors all_rows any_row
normalize_component_selectors-IsUnique_example =
    normalize_component_selectors-IsUnique (some (trimmed 22 ∷ trimmed 23 ∷ trimmed 22 ∷ [])) none
      (22 ∷ 23 ∷ []) refl
