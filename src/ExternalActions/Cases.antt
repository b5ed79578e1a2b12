-- ===== src/ExternalActions/Cases.antt =====
-- What prepareDispatch and persistResult of external-action-service.ts come to, case by case.
use factory_floor.Common.{
  ℕ, ◌≡◌, ◌==◌, ◌&&◌, true, some, ok, ok_subst, first_where, Bool-cases, Option-cases, Result-cases,
  inl, inr,
}
use factory_floor.Tables.{Db, ExternalAction, Uuid, Millis, Json, Execution, Region}
use factory_floor.Tables.Kinds.{ActionStatus, is_running}
use factory_floor.Tables.QuotaRows.{Quota}
use factory_floor.Admission.Reserve.{AdmissionResult, reserve_in_transaction}
use factory_floor.ExternalActions.{
  Preparation, is_authorized, is_uncertain, is_reconciled, can_complete,
}
use factory_floor.ExternalActions.Dispatch.{
  has_id, prepare_dispatch, prepare_joined, joined_action, set_status, after_admission,
  network_call_input,
}
use factory_floor.ExternalActions.Persist.{Outcome, persist_result, record_outcome, is_attempt}

-- A preparation that succeeds leaves the database as it is, or cancels an authorized action of a
-- region that does not run its epoch, or asks the admission for one.
module _ (uuid : ℕ → Uuid) (attempt : Uuid) (now : Millis) (id : Uuid) (db : Db) (P : Db → Type 0)
    (unchanged : P db)
    (stale : (a : ExternalAction)
      → first_where (has_id id) db.actions ≡ some a
      → is_authorized a.status ≡ true
      → P (set_status a.id ActionStatus.cancelled db))
    (asked : (a : ExternalAction) (admission : AdmissionResult) (quota : Quota)
      → first_where (has_id id) db.actions ≡ some a
      → is_authorized a.status ≡ true
      → P (after_admission attempt now a db (admission, quota)).1) where
  prepare_joined-elim :
      (a : ExternalAction) (e : Execution) (r : Region) (p : Preparation) (db' : Db)
      → first_where (has_id id) db.actions ≡ some a
      → prepare_joined uuid attempt now (a, e, r) db ≡ ok (p, db')
      → P db'
  unfolding prepare_joined
  prepare_joined-elim a e r p db' found run =
      let Goal : Preparation × Db → Type 0 = λ y. P y.1 in
      elim (Bool-cases (is_uncertain a.status)) [
        | inl u ↦ ok_subst Goal (rw (u, prepare_joined) at run) unchanged
        | inr u ↦ elim (Bool-cases (is_authorized a.status)) [
          | inr n ↦ ok_subst Goal (rw (u, n, prepare_joined) at run) unchanged
          | inl n ↦
              elim (Bool-cases
                (is_running r.lifecycle_status && e.lifecycle_epoch == r.lifecycle_epoch)) [
                  | inr old ↦
                      ok_subst Goal (rw (u, n, old, prepare_joined) at run) (stale a found n)
                  | inl live ↦
                      elim (Result-cases (
                        reserve_in_transaction db.regions (network_call_input a r) uuid db.quota)) [
                          | inr (error, refused) ↦
                              absurd
                                (let run' = rw (u, n, live, refused, prepare_joined) at run in cc)
                          | inl ((admission, quota), held) ↦
                              ok_subst Goal (rw (u, n, live, held, prepare_joined) at run)
                                (asked a admission quota found n)
                        ]
                ]
        ]
      ]

  pub prepare_dispatch-elim :
      (p : Preparation) (db' : Db) → prepare_dispatch uuid attempt now id db ≡ ok (p, db') → P db'
  unfolding prepare_dispatch joined_action
  prepare_dispatch-elim p db' run = elim (Option-cases (first_where (has_id id) db.actions)) [
    | inl absent ↦ absurd (let run' = rw (absent, joined_action, prepare_dispatch) at run in cc)
    | inr (a, found) ↦
        elim (Option-cases
          (first_where (λ (e : Execution). e.id == a.execution_id) db.executions)) [
            | inl absent ↦
                absurd (let run' = rw (found, absent, joined_action, prepare_dispatch) at run in cc)
            | inr (e, e_found) ↦
                elim (Option-cases (first_where (λ (r : Region). r.id == e.region_id) db.regions)) [
                  | inl absent ↦ absurd (
                      let run' =
                        rw (found, e_found, absent, joined_action, prepare_dispatch) at run in
                      cc)
                  | inr (r, r_found) ↦
                      prepare_joined-elim a e r p db' found
                        (rw (found, e_found, r_found, joined_action, prepare_dispatch) at run)
                ]
          ]
  ]

-- A result that persists changes nothing of a reconciled action, or is recorded for an uncertain
-- one.
module _ (now : Millis) (action_id attempt_id : Uuid) (outcome : Outcome) (response : Json)
    (db : Db) (P : Db → Type 0)
    (late : (a : ExternalAction)
      → first_where (has_id action_id) db.actions ≡ some a
      → is_reconciled a.status ≡ true
      → P db)
    (recorded : (a : ExternalAction)
      → first_where (has_id action_id) db.actions ≡ some a
      → is_uncertain a.status ≡ true
      → P (record_outcome now action_id attempt_id outcome response db)) where
  pub persist_result-elim :
      (db' : Db) → persist_result now action_id attempt_id outcome response db ≡ ok db' → P db'
  unfolding persist_result
  persist_result-elim db' run = elim (Option-cases (first_where (has_id action_id) db.actions)) [
    | inl absent ↦ absurd (let run' = rw (absent, persist_result) at run in cc)
    | inr (a, found) ↦
        elim (Option-cases (first_where (is_attempt action_id attempt_id) db.action_attempts)) [
          | inl absent ↦ absurd (let run' = rw (found, absent, persist_result) at run in cc)
          | inr (t, t_found) ↦ elim (Bool-cases (is_reconciled a.status)) [
            | inl r ↦ ok_subst P (rw (found, t_found, r, persist_result) at run) (late a found r)
            | inr r ↦ elim (Bool-cases (is_uncertain a.status)) [
              | inr u ↦ absurd (let run' = rw (found, t_found, r, u, persist_result) at run in cc)
              | inl u ↦ elim (Bool-cases (can_complete t.status)) [
                | inr c ↦
                    absurd (let run' = rw (found, t_found, r, u, c, persist_result) at run in cc)
                | inl c ↦
                    ok_subst P (rw (found, t_found, r, u, c, persist_result) at run)
                      (recorded a found u)
              ]
            ]
          ]
        ]
  ]
