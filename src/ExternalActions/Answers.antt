-- ===== src/ExternalActions/Answers.antt =====
-- What reconcile and reconcilePending of external-action-service.ts come to.
use factory_floor.Common.{
  arith, ◌≡◌, refl, sym, ap, ◌∙◌, subst, Bool, true, false, some, [], ◌∷◌, ok, rows_where,
  first_where, set_where, Option-cases, inl, inr, ==_refl, ==_iff, All, All-rows_where-true,
}
use factory_floor.Common.Ints.{pos}
use factory_floor.Tables.{Db, ExternalAction, ActionAttempt, Uuid, Millis}
use factory_floor.Tables.Kinds.{ActionStatus}
use factory_floor.Admission.Settle.{reconcile, settle_first, reservations_of}
use factory_floor.Tables.QuotaRows.{Quota}
use factory_floor.ExternalActions.{
  Provider, ProviderResult, ProviderStatus, answered, is_uncertain, is_reconciled, can_complete,
  provider_request,
}
use factory_floor.ExternalActions.Dispatch.{has_id, is_attempt_of, set_status}
use factory_floor.ExternalActions.Persist.{
  Outcome, action_status, is_attempt, persist_result, record_outcome, after_settlement,
  network_reservation, reconcile_network_reservation,
}
use factory_floor.ExternalActions.Service.{
  Call, Answer, latest, reconcile_with, reconcile_action, reconciliation_outcome, is_settled,
  persist_and_settle,
}
use factory_floor.ExternalActions.Attempts.{reconcile_network_reservation-actions}
use factory_floor.ExternalActions.Diagram.{head_of, rows_where-set_where, first_where-eq-head_of}
use factory_floor.ExternalActions.Moves.{is_final}

reconcile-ok :
    (ledger_id request : Uuid) (now : Millis) (q : Quota)
    → (p : Bool × Quota) × (reconcile ledger_id request (pos 1) now q ≡ ok p)
unfolding reconcile
reconcile-ok ledger_id request now q =
    (settle_first ledger_id request 1 now q (reservations_of request q), refl)

-- The settlement of one call cannot fail.
reconcile_network_reservation-ok :
    (ledger_id : Uuid) (now : Millis) (action_id : Uuid) (db : Db)
    → (p : Bool × Db) × (reconcile_network_reservation ledger_id now action_id db ≡ ok p)
unfolding reconcile_network_reservation after_settlement
reconcile_network_reservation-ok ledger_id now action_id db =
    elim (Option-cases (network_reservation action_id db.quota)) [
      | inl none_held ↦ ((false, db), rw (none_held, reconcile_network_reservation) refl)
      | inr (request, held) ↦
          let ((b, quota), run) = reconcile-ok ledger_id request now db.quota in
          (
            (b, record db { quota = quota }),
            rw (held, reconcile_network_reservation) (ap (after_settlement db) run),
          )
    ]

uncertain_not_reconciled : (s : ActionStatus) → is_uncertain s ≡ true → is_reconciled s ≡ false
uncertain_not_reconciled ActionStatus.reconciled h = absurd (ground arith)
uncertain_not_reconciled _ h = refl

reconciliation_outcome-final :
    (s : ProviderStatus)
    → is_settled s ≡ true
    → is_final (action_status (reconciliation_outcome s)) ≡ true
reconciliation_outcome-final ProviderStatus.acknowledged h = refl
reconciliation_outcome-final ProviderStatus.failed h = refl
reconciliation_outcome-final ProviderStatus.indeterminate h = absurd (ground arith)

-- What an answer of the service leaves: the state that it tells, which is final, is that of the
-- action's row.
abbrev pub IsSettledAs : Uuid → Answer ActionStatus → Type 0
IsSettledAs id x =
    (b : ExternalAction) × (x.0 ≡ ok b.status)
    × (is_final b.status ≡ true)
    × (rows_where (has_id id) x.1.actions ≡ b ∷ [])

module _ (call : Call) (id : Uuid) (a : ExternalAction) (t : ActionAttempt)
    (result : ProviderResult) (db : Db) (one : rows_where (has_id id) db.actions ≡ a ∷ [])
    (open_ : is_uncertain a.status ≡ true)
    (on_record : first_where (is_attempt a.id t.id) db.action_attempts ≡ some t)
    (completes : can_complete t.status ≡ true) where
  own_id : a.id ≡ id
  own_id =
      (==_iff a.id id).0
        (subst (λ rows. All (λ x. has_id id x ≡ true) rows) one
          (All-rows_where-true (has_id id) db.actions)).0

  found : first_where (has_id id) db.actions ≡ some a
  found = first_where-eq-head_of (has_id id) db.actions ∙ ap head_of one

  found_own : first_where (has_id a.id) db.actions ≡ some a
  found_own = subst (λ i. first_where (has_id i) db.actions ≡ some a) (sym own_id) found

  persisted :
      (o : Outcome)
      → persist_result call.now a.id t.id o result.response db
        ≡ ok (record_outcome call.now a.id t.id o result.response db)
  unfolding persist_result
  persisted o =
      rw
        (
          found_own,
          on_record,
          uncertain_not_reconciled a.status open_,
          open_,
          completes,
          persist_result,
        )
        refl

  recorded :
      (o : Outcome)
      → rows_where (has_id id) (record_outcome call.now a.id t.id o result.response db).actions
        ≡ record a { status = action_status o } ∷ []
  unfolding record_outcome set_status set_where
  recorded o =
      rw
        (
          rows_where-set_where (has_id id) (has_id a.id)
              (λ x. record x { status = action_status o }) (λ x. refl) db.actions,
          one,
          ==_refl a.id,
        )
        refl

  persist_and_settle-IsSettledAs :
      is_settled result.status ≡ true
      → IsSettledAs id
          (persist_and_settle call a.id t.id (reconciliation_outcome result.status) result db)
  unfolding persist_and_settle
  persist_and_settle-IsSettledAs settles =
      let o = reconciliation_outcome result.status in
      let after = record_outcome call.now a.id t.id o result.response db in
      let ((b, db'), run) = reconcile_network_reservation-ok call.ledger_id call.now a.id after in
      let kept =
        (reconcile_network_reservation-actions call.ledger_id call.now a.id b after db' run).0 in
      (
        record a { status = action_status o },
        rw (persisted o, settles, run, persist_and_settle) refl,
        reconciliation_outcome-final result.status settles,
        rw (persisted o, settles, run, persist_and_settle) (rw kept (recorded o)),
      )

-- Reconciliation makes progress: where the provider answers for an uncertain action with a durable
-- attempt, and is not itself uncertain, reconcile succeeds and leaves the action in the final state
-- that it tells.
pub reconcile_action-IsSettledAs :
    (provider : Provider) (call : Call) (id : Uuid) (a : ExternalAction) (t : ActionAttempt)
    (result : ProviderResult) (db : Db)
    → rows_where (has_id id) db.actions ≡ a ∷ []
    → is_uncertain a.status ≡ true
    → latest (rows_where (is_attempt_of a.id) db.action_attempts) ≡ some t
    → first_where (is_attempt a.id t.id) db.action_attempts ≡ some t
    → can_complete t.status ≡ true
    → provider.reconcile (provider_request a) ≡ answered result
    → is_settled result.status ≡ true
    → IsSettledAs id (reconcile_action provider call id db)
unfolding reconcile_action reconcile_with
reconcile_action-IsSettledAs provider call id a t result db one open_ last on_record completes
      answers settles =
    rw
      (
        found call id a t result db one open_ on_record completes,
        open_,
        last,
        answers,
        reconcile_action,
        reconcile_with,
      )
      (persist_and_settle-IsSettledAs call id a t result db one open_ on_record completes settles)
