-- ===== src/ExternalActions/Dispatch.antt =====
-- prepareDispatch of external-action-service.ts.
use factory_floor.Common.{
  ℕ, ◌+◌, ◌==◌, ◌&&◌, ◌++◌, Bool, Option, none, some, List, [], ◌∷◌, Result, ok, err, if◌then◌else◌,
  leb, not, first_where, rows_where, set_where,
}
use factory_floor.Common.Ints.{pos}
use factory_floor.Tables.{Db, ExternalAction, ActionAttempt, Execution, Region, Uuid, Millis}
use factory_floor.Tables.Kinds.{ActionStatus, ActionAttemptStatus, is_running}
use factory_floor.Tables.QuotaRows.{
  Quota, network_calls, action_call, SubjectKind, admit, exhausted,
}
use factory_floor.Admission.Reserve.{ReserveResourceInput, AdmissionResult, reserve_in_transaction}
use factory_floor.ExternalActions.{
  Preparation, dispatch, deferred, uncertain, cancelled, terminal, ActionError,
  external_action_not_found, admission_failed, is_uncertain, is_authorized, provider_request,
}

abbrev pub has_id : Uuid → ExternalAction → Bool
has_id id a = a.id == id

-- the action with its execution and region
unfoldable pub joined_action : Uuid → Db → Option (ExternalAction × Execution × Region)
joined_action id db = elim (first_where (has_id id) db.actions) [
  | none ↦ none
  | some a ↦ elim (first_where (λ (e : Execution). e.id == a.execution_id) db.executions) [
    | none ↦ none
    | some e ↦ elim (first_where (λ (r : Region). r.id == e.region_id) db.regions) [
      | none ↦ none
      | some r ↦ some (a, e, r)
    ]
  ]
]

abbrev pub network_call_input : ExternalAction → Region → ReserveResourceInput
network_call_input a r = record {
  region_id = r.id;
  resource_type = network_calls;
  quantity = pos 1;
  idempotency_key = action_call a.id;
  subject_kind = SubjectKind.external_action;
  subject_id = a.id;
  execution_id = some a.execution_id;
  attempt_id = some a.attempt_id;
  external_action_id = some a.id;
}

-- update external_actions set status = … where id = …
unfoldable pub set_status : Uuid → ActionStatus → Db → Db
set_status id status db = record db {
  actions = set_where (has_id id) (λ a. record a { status = status }) db.actions;
}

abbrev pub is_attempt_of : Uuid → ActionAttempt → Bool
is_attempt_of id t = t.external_action_id == id

-- max(attempt_number) of the action's attempts, 0 without any
unfoldable pub last_number : List ActionAttempt → ℕ
last_number [] = 0
last_number (t ∷ ts) =
    let rest = last_number ts in if leb t.attempt_number rest then rest else t.attempt_number

abbrev pub new_attempt : Uuid → Millis → ExternalAction → Db → ActionAttempt
unfolding last_number
new_attempt attempt now a db = record {
  id = attempt;
  external_action_id = a.id;
  attempt_number = last_number (rows_where (is_attempt_of a.id) db.action_attempts) + 1;
  status = ActionAttemptStatus.dispatching;
  requested_at = now;
  completed_at = none;
  response = none;
}

-- once the call is admitted
unfoldable pub begin_attempt : Uuid → Millis → ExternalAction → Db → Preparation × Db
unfolding set_status new_attempt
begin_attempt attempt now a db = (
  dispatch attempt (provider_request a),
  set_status a.id ActionStatus.dispatching
      (record db { action_attempts = db.action_attempts ++ new_attempt attempt now a db ∷ [] }),
)

-- the admission's answer
unfoldable pub after_admission :
    Uuid → Millis → ExternalAction → Db → AdmissionResult × Quota → Preparation × Db
unfolding begin_attempt
after_admission attempt now a db (admission, quota) = elim admission.outcome [
  | admit ↦ begin_attempt attempt now a (record db { quota = quota })
  | exhausted outcome ↦ (deferred outcome, record db { quota = quota })
]

unfoldable pub prepare_joined :
    (ℕ → Uuid)
    → Uuid
    → Millis
    → ExternalAction × Execution × Region
    → Db
    → Result ActionError (Preparation × Db)
unfolding set_status after_admission
prepare_joined uuid attempt now (a, e, r) db =
    if is_uncertain a.status
    then ok (uncertain a.status, db)
    else if not (is_authorized a.status)
    then ok (terminal, db)
    else if not (is_running r.lifecycle_status && e.lifecycle_epoch == r.lifecycle_epoch)
    then ok (cancelled, set_status a.id ActionStatus.cancelled db)
    else elim (reserve_in_transaction db.regions (network_call_input a r) uuid db.quota) [
      | err e ↦ err (admission_failed e)
      | ok p ↦ ok (after_admission attempt now a db p)
    ]

unfoldable pub prepare_dispatch :
    (ℕ → Uuid) → Uuid → Millis → Uuid → Db → Result ActionError (Preparation × Db)
unfolding joined_action prepare_joined
prepare_dispatch uuid attempt now id db = elim (joined_action id db) [
  | none ↦ err external_action_not_found
  | some joined ↦ prepare_joined uuid attempt now joined db
]
