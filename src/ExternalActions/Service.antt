-- ===== src/ExternalActions/Service.antt =====
-- dispatch, reconcile and reconcilePending of external-action-service.ts. Each of their
-- transactions is kept when a later one fails, so a database comes with an error too.
use factory_floor.Common.{
  ℕ, zero, suc, ◌+◌, Bool, true, false, not, Option, none, some, List, [], ◌∷◌, Result, ok, err,
  if◌then◌else◌, ltb, first_where, rows_where, map,
}
use factory_floor.Tables.{Db, ExternalAction, ActionAttempt, Uuid, Millis}
use factory_floor.Tables.Kinds.{ActionStatus}
use factory_floor.ExternalActions.{
  Provider, ProviderResult, ProviderStatus, Reply, answered, response_lost, thrown, ActionError,
  external_action_not_found, external_action_attempt_missing, provider_failed, is_uncertain,
  provider_request, Preparation, dispatch,
}
use factory_floor.ExternalActions.Dispatch.{has_id, is_attempt_of, prepare_dispatch}
use factory_floor.ExternalActions.Persist.{
  Outcome, action_status, persist_result, reconcile_network_reservation,
}

abbrev pub Answer : Type 0 → Type 0
Answer A = Result ActionError A × Db

-- The clock and the ids of one call: of the attempt, of the ledger's row, of the admission.
pub record Call : Type 0 where
  pub now : Millis
  pub attempt_id : Uuid
  pub ledger_id : Uuid
  pub uuid : ℕ → Uuid

abbrev pub dispatch_outcome : ProviderStatus → Outcome
dispatch_outcome ProviderStatus.acknowledged = Outcome.acknowledged
dispatch_outcome ProviderStatus.failed = Outcome.failed
dispatch_outcome ProviderStatus.indeterminate = Outcome.indeterminate

abbrev pub reconciliation_outcome : ProviderStatus → Outcome
reconciliation_outcome ProviderStatus.acknowledged = Outcome.reconciled
reconciliation_outcome ProviderStatus.failed = Outcome.failed
reconciliation_outcome ProviderStatus.indeterminate = Outcome.indeterminate

abbrev pub is_settled : ProviderStatus → Bool
is_settled ProviderStatus.indeterminate = false
is_settled _ = true

-- persistDispatchResult and persistReconciliationResult, for the outcome that each records
unfoldable pub persist_and_settle :
    Call → Uuid → Uuid → Outcome → ProviderResult → Db → Answer ActionStatus
unfolding persist_result reconcile_network_reservation
persist_and_settle call action_id attempt_id outcome result db =
    elim (persist_result call.now action_id attempt_id outcome result.response db) [
      | err e ↦ (err e, db)
      | ok recorded ↦
          if not (is_settled result.status)
          then (ok (action_status outcome), recorded)
          else elim (reconcile_network_reservation call.ledger_id call.now action_id recorded) [
            | err e ↦ (err e, recorded)
            | ok (found, settled) ↦ (ok (action_status outcome), settled)
          ]
    ]

pub data Dispatched : Type 0 where
  dispatched : ActionStatus → Dispatched
  not_sent : Preparation → Dispatched

abbrev pub as_dispatched : Answer ActionStatus → Answer Dispatched
as_dispatched (ok status, db) = (ok (dispatched status), db)
as_dispatched (err e, db) = (err e, db)

unfoldable pub after_call : Call → Uuid → Uuid → Reply → Db → Answer Dispatched
unfolding persist_and_settle
after_call call action_id attempt_id (answered result) db =
    as_dispatched
      (persist_and_settle call action_id attempt_id (dispatch_outcome result.status) result db)
after_call call action_id attempt_id (response_lost response) db = as_dispatched (
    persist_and_settle call action_id attempt_id Outcome.indeterminate
      (record { status = ProviderStatus.indeterminate; response = response }) db)
after_call call action_id attempt_id thrown db = (err provider_failed, db)

-- dispatch
unfoldable pub dispatch_action : Provider → Call → Uuid → Db → Answer Dispatched
unfolding prepare_dispatch after_call
dispatch_action provider call action_id db =
    elim (prepare_dispatch call.uuid call.attempt_id call.now action_id db) [
      | err e ↦ (err e, db)
      | ok (dispatch attempt_id request, sent) ↦
          after_call call action_id attempt_id (provider.dispatch request) sent
      | ok (preparation, db') ↦ (ok (not_sent preparation), db')
    ]

-- the attempt with the highest number
unfoldable pub latest : List ActionAttempt → Option ActionAttempt
latest [] = none
latest (t ∷ ts) = elim (latest ts) [
  | none ↦ some t
  | some u ↦ if ltb t.attempt_number u.attempt_number then some u else some t
]

unfoldable pub reconcile_with : Provider → Call → ExternalAction → Uuid → Db → Answer ActionStatus
unfolding persist_and_settle
reconcile_with provider call a attempt_id db = elim (provider.reconcile (provider_request a)) [
  | answered result ↦
      persist_and_settle call a.id attempt_id (reconciliation_outcome result.status) result db
  | _ ↦ (err provider_failed, db)
]

-- reconcile; its answer has the action's status, whether it was terminal or has been reconciled
unfoldable pub reconcile_action : Provider → Call → Uuid → Db → Answer ActionStatus
unfolding latest reconcile_with
reconcile_action provider call action_id db = elim (first_where (has_id action_id) db.actions) [
  | none ↦ (err external_action_not_found, db)
  | some a ↦
      if not (is_uncertain a.status)
      then (ok a.status, db)
      else elim (latest (rows_where (is_attempt_of a.id) db.action_attempts)) [
        | none ↦ (err external_action_attempt_missing, db)
        | some t ↦ reconcile_with provider call a t.id db
      ]
]

-- ExternalActionReconciliationReport
pub record Report : Type 0 where
  pub scanned : ℕ
  pub reconciled : ℕ
  pub failed : ℕ
  pub indeterminate : ℕ

abbrev pub add_to : ActionStatus → Report → Report
add_to ActionStatus.reconciled r = record r {
  scanned = r.scanned + 1;
  reconciled = r.reconciled + 1;
}
add_to ActionStatus.failed r = record r { scanned = r.scanned + 1; failed = r.failed + 1 }
add_to ActionStatus.indeterminate r = record r {
  scanned = r.scanned + 1;
  indeterminate = r.indeterminate + 1;
}
add_to _ r = record r { scanned = r.scanned + 1 }

abbrev pub empty_report : Report
empty_report = record { scanned = 0; reconciled = 0; failed = 0; indeterminate = 0 }

-- The loop over the candidates: a failure ends it. The provider and the clock may answer each call
-- differently.
unfoldable pub reconcile_each :
    (ℕ → Provider) → (ℕ → Call) → List Uuid → Report → Db → Answer Report
unfolding reconcile_action
reconcile_each provider call [] report db = (ok report, db)
reconcile_each provider call (id ∷ ids) report db =
    let (answer, db') = reconcile_action (provider 0) (call 0) id db in
    elim answer [
      | err e ↦ (err e, db')
      | ok status ↦
          reconcile_each (λ n. provider (n + 1)) (λ n. call (n + 1)) ids (add_to status report) db'
    ]

unfoldable pub at_most : ℕ → List Uuid → List Uuid
at_most zero xs = []
at_most (suc n) [] = []
at_most (suc n) (x ∷ xs) = x ∷ at_most n xs

-- the query of the candidates; the actions stand in the order of created_at, id
unfoldable pub reconciliation_candidates : ℕ → Db → List Uuid
unfolding at_most
reconciliation_candidates limit db = at_most limit (
    map (λ (a : ExternalAction). a.id)
      (rows_where (λ (a : ExternalAction). is_uncertain a.status) db.actions))

pub data PendingError : Type 0 where
  limit_not_positive : PendingError
  stopped_by : ActionError → PendingError

-- reconcilePending
unfoldable pub reconcile_pending :
    (ℕ → Provider) → (ℕ → Call) → ℕ → Db → Result PendingError Report × Db
unfolding reconcile_each reconciliation_candidates
reconcile_pending provider call limit db =
    if ltb limit 1
    then (err limit_not_positive, db)
    else let (answer, db') =
        reconcile_each provider call (reconciliation_candidates limit db) empty_report db in
      elim answer [ ok report ↦ (ok report, db') | err e ↦ (err (stopped_by e), db') ]
