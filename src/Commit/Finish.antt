-- ===== src/Commit/Finish.antt =====
-- complete and failOrRetry of execution-commit-service.ts.
use factory_floor.Common.{
  ℕ, zero, suc, ◌+◌, ◌==◌, ◌&&◌, ◌++◌, Bool, Option, none, some, List, [], ◌∷◌, length,
  if◌then◌else◌, any_row, set_where, ◌>>◌,
}
use factory_floor.Tables.{Db, Attempt, Execution, Delivery, Uuid, Millis}
use factory_floor.Tables.Kinds.{
  AttemptStatus, ExecutionStatus, DeliveryStatus, ResultStatus, is_failed, Failure,
  worker_cancelled, worker_failed, is_retryable,
}
use factory_floor.Tables.Proposed.{ProposedResult}
use factory_floor.Tables.Triggers.{update_attempt, update_execution}
use factory_floor.Commit.Steps.{Commit, Env, Draw, done, write}
use factory_floor.Commit.Staged.{ArtifactIds}
use factory_floor.Commit.Publish.{publish_outputs, publish_state, publish_events}

abbrev pub retry_backoff_ms : List ℕ
retry_backoff_ms = 1000 ∷ 5000 ∷ 30000 ∷ []

-- RETRY_BACKOFF_MS[attempt_number - 1]; attempt numbers start at 1
abbrev pub get_elem? : List ℕ → ℕ → Option ℕ
get_elem? [] i = none
get_elem? (x ∷ xs) zero = some x
get_elem? (x ∷ xs) (suc i) = get_elem? xs i

unfoldable pub retry_delay : ℕ → Option ℕ
retry_delay zero = none
retry_delay (suc n) = get_elem? retry_backoff_ms n

abbrev pub end_attempt : AttemptStatus → Millis → Option Failure → Attempt → Attempt
end_attempt status now failure a = record a {
  status = status;
  completed_at = some now;
  failure = failure;
  lease_owner = none;
  lease_token = none;
  lease_expires_at = none;
}

abbrev pub is_among : List Uuid → Delivery → Bool
is_among ids d = any_row (λ i. i == d.id) ids

unfoldable pub set_deliveries : List Uuid → (Delivery → Delivery) → Db → Db
set_deliveries ids f db = record db { deliveries = set_where (is_among ids) f db.deliveries }

abbrev pub complete_delivery : Millis → Delivery → Delivery
complete_delivery now d = record d {
  status = DeliveryStatus.completed;
  completed_at = some now;
  failed_at = none;
  dead_lettered_at = none;
  lease_owner = none;
  lease_token = none;
  lease_expires_at = none;
}

abbrev pub expose_delivery : Millis → Delivery → Delivery
expose_delivery available d = record d {
  status = DeliveryStatus.ready;
  available_at = available;
  completed_at = none;
  failed_at = none;
  dead_lettered_at = none;
  lease_owner = none;
  lease_token = none;
  lease_expires_at = none;
}

abbrev pub bury_delivery : Millis → Delivery → Delivery
bury_delivery now d = record d {
  status = DeliveryStatus.dead_lettered;
  completed_at = none;
  failed_at = none;
  dead_lettered_at = some now;
  lease_owner = none;
  lease_token = none;
  lease_expires_at = none;
}

pub data Disposition : Type 0 where
  committed retry_scheduled dead_lettered duplicate : Disposition

-- the end of complete: attempt, execution and deliveries
unfoldable pub mark_completed : ProposedResult → List Uuid → Millis → Db → Db
unfolding update_attempt update_execution set_deliveries
mark_completed input delivery_ids now db = set_deliveries delivery_ids (complete_delivery now) (
    update_execution input.execution_id
      (λ e. record e {
        status = ExecutionStatus.completed;
        completed_at = some now;
        failed_at = none;
        failure = none;
      })
      now (update_attempt input.attempt_id (end_attempt AttemptStatus.completed now none) db))

-- complete
unfoldable pub complete :
    Env → ProposedResult → Execution → Uuid → Uuid → List Uuid → ArtifactIds → Commit Disposition
unfolding publish_outputs publish_state publish_events mark_completed write done
complete env input execution component correlation delivery_ids ids = do
  publish_outputs env input execution component correlation ids input.staged_artifacts
  write (publish_state env input execution component correlation ids input.proposed_state)
  publish_events env input execution component correlation ids input.proposed_events
  write (mark_completed input delivery_ids env.now)
  done committed

-- input.failure ?? the runtime's own
abbrev pub failure_of : ProposedResult → Failure
failure_of input = elim input.failure [
  | some f ↦ f
  | none ↦ elim input.status [ ResultStatus.cancelled ↦ worker_cancelled | _ ↦ worker_failed ]
]

abbrev pub ended_status : ResultStatus → AttemptStatus
ended_status ResultStatus.cancelled = AttemptStatus.cancelled
ended_status _ = AttemptStatus.failed

abbrev pub retry_attempt : Uuid → Uuid → ℕ → Millis → Attempt
retry_attempt id execution_id number available = record {
  id = id;
  execution_id = execution_id;
  attempt_number = number;
  status = AttemptStatus.pending;
  lease_owner = none;
  lease_token = none;
  lease_expires_at = none;
  started_at = some available;
  completed_at = none;
  failure = none;
}

-- insert … on conflict (execution_id, attempt_number) do nothing
unfoldable pub insert_attempt : Attempt → Db → Db
insert_attempt a db =
    if any_row (λ b. b.execution_id == a.execution_id && b.attempt_number == a.attempt_number)
      db.attempts
    then db
    else record db { attempts = db.attempts ++ a ∷ [] }

-- the delay of the next attempt, if there is one
unfoldable pub retry_after : ProposedResult → Attempt → Option ℕ
unfolding retry_delay
retry_after input attempt =
    if is_failed input.status && is_retryable (failure_of input)
    then retry_delay attempt.attempt_number
    else none

abbrev pub fail_with : Millis → Failure → Execution → Execution
fail_with now failure e = record e {
  status = ExecutionStatus.failed;
  failed_at = some now;
  completed_at = none;
  failure = some failure;
}

-- the two ends of failOrRetry
unfoldable pub dispose :
    Env → Execution → Attempt → List Uuid → Failure → Db → Option ℕ → Disposition × Db
unfolding update_execution set_deliveries insert_attempt
dispose env execution attempt delivery_ids failure ended (some delay) = (
  retry_scheduled,
  set_deliveries delivery_ids (expose_delivery (env.now + delay)) (
      insert_attempt
        (retry_attempt (env.uuid Draw.attempt (length ended.attempts)) execution.id
          (attempt.attempt_number + 1) (env.now + delay))
        ended),
)
dispose env execution attempt delivery_ids failure ended none = (
  dead_lettered,
  set_deliveries delivery_ids (bury_delivery env.now)
      (update_execution execution.id (fail_with env.now failure) env.now ended),
)

-- failOrRetry
unfoldable pub fail_or_retry :
    Env → ProposedResult → Execution → Attempt → List Uuid → Db → Disposition × Db
unfolding update_attempt dispose
fail_or_retry env input execution attempt delivery_ids db =
    let failure = failure_of input in
    dispose env execution attempt delivery_ids failure
      (update_attempt input.attempt_id
        (end_attempt (ended_status input.status) env.now (some failure)) db)
      (retry_after input attempt)
