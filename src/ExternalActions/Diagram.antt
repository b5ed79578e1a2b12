-- ===== src/ExternalActions/Diagram.antt =====
-- The states of an external action as a diagram, and the steps as moves in it.
use factory_floor.Common.{
  any_row-none, rows_where-none, any_row-false, some_injective, arith, ◌≡◌, ◌==◌, ◌&&◌, ◌||◌, refl,
  sym, ap, ◌∙◌, subst, Bool, true, false, not, Option, none, some, List, [], ◌∷◌, All,
  All-rows_where, ok, rows_where, rows_where-append, first_where, first_where-true, set_where,
  All-rows_where-true, any_row, Bool-cases, inl, inr, ==_iff,
}
use factory_floor.Tables.{Db, ExternalAction, Uuid, Millis}
use factory_floor.Tables.Kinds.{ActionStatus}
use factory_floor.Tables.QuotaRows.{Quota}
use factory_floor.Admission.Reserve.{AdmissionResult}
use factory_floor.Commit.Actions.{insert_action, same_idempotency, same_proposal}
use factory_floor.Policies.Approvals.{
  ApprovalDecision, ApprovalReceipt, decide_approval, record_decision, is_under, is_awaiting,
  decided_action_status,
}
use factory_floor.Policies.Replay.{decide_approval-elim}
use factory_floor.ExternalActions.{is_authorized, is_uncertain}
use factory_floor.ExternalActions.Dispatch.{has_id, set_status, begin_attempt, after_admission}
use factory_floor.ExternalActions.Persist.{
  action_status, record_outcome, reconcile_network_reservation,
}
use factory_floor.ExternalActions.Cases.{prepare_dispatch-elim, persist_result-elim}
use factory_floor.ExternalActions.Attempts.{outcome_cases, reconcile_network_reservation-actions}
use factory_floor.ExternalActions.Steps.{
  Step, proposed, decided, prepared, persisted, settled, Reach, here, next,
}
use factory_floor.ExternalActions.Moves.{
  Move, Moves, decision, withdrawal, departure, answer, stay, then_move, Moves-trans, is_final,
  Moves-final,
}

-- The one row of the id is there, in a state to which moves lead.
abbrev pub IsMoved : Uuid → ActionStatus → Db → Type 0
IsMoved id s db =
    (b : ExternalAction) × (rows_where (has_id id) db.actions ≡ b ∷ []) × Moves s b.status

abbrev pub head_of : List ExternalAction → Option ExternalAction
head_of [] = none
head_of (x ∷ xs) = some x

pub first_where-eq-head_of :
    (p : ExternalAction → Bool) (xs : List ExternalAction)
    → first_where p xs ≡ head_of (rows_where p xs)
unfolding first_where rows_where
first_where-eq-head_of p [] = refl
first_where-eq-head_of p (x ∷ xs) = ground (arith, first_where-eq-head_of p xs)

pub rows_where-set_where :
    (p q : ExternalAction → Bool) (f : ExternalAction → ExternalAction)
    → ((a : ExternalAction) → p (f a) ≡ p a)
    → (xs : List ExternalAction) → rows_where p (set_where q f xs) ≡ set_where q f (rows_where p xs)
unfolding rows_where set_where
rows_where-set_where p q f same [] = refl
rows_where-set_where p q f same (x ∷ xs) = elim (Bool-cases (q x)) [
  | inl e ↦ ground (arith, same x, rows_where-set_where p q f same xs)
  | inr e ↦ ground (arith, rows_where-set_where p q f same xs)
]

module _ (id : Uuid) (a : ExternalAction) where
  -- The row that an id finds is the one row of that id.
  found-eq :
      (k : Uuid) (found : ExternalAction) (xs : List ExternalAction)
      → rows_where (has_id id) xs ≡ a ∷ []
      → first_where (has_id k) xs ≡ some found
      → (found.id == a.id) ≡ true
      → found ≡ a
  found-eq k found xs one first same =
      let found_k = (==_iff found.id k).0 (first_where-true (has_id k) xs found first) in
      let mine =
        subst (λ rows. All (λ x. has_id id x ≡ true) rows) one
          (All-rows_where-true (has_id id) xs) in
      let keys = sym found_k ∙ (==_iff found.id a.id).0 same ∙ (==_iff a.id id).0 mine.0 in
      let first' = subst (λ i. first_where (has_id i) xs ≡ some found) keys first in
      some_injective found a (sym first' ∙ first_where-eq-head_of (has_id id) xs ∙ ap head_of one)

  -- An update of the status, of the rows that a test selects.
  update-IsMoved :
      (q : ExternalAction → Bool) (s : ActionStatus) (xs : List ExternalAction) (db : Db)
      → rows_where (has_id id) xs ≡ a ∷ []
      → (q a ≡ true → Move a.status s)
      → db.actions ≡ set_where q (λ x. record x { status = s }) xs
      → IsMoved id a.status db
  unfolding set_where
  update-IsMoved q s xs db one move e =
      let rows = rows_where-set_where (has_id id) q (λ x. record x { status = s }) (λ x. refl) xs in
      elim (Bool-cases (q a)) [
        | inl yes_ ↦
            (record a { status = s }, rw (e, rows, one, yes_) refl, then_move stay (move yes_))
        | inr no_ ↦ (a, rw (e, rows, one, no_) refl, stay)
      ]

module _ (id : Uuid) (a : ExternalAction) (db : Db)
    (one : rows_where (has_id id) db.actions ≡ a ∷ []) where
  -- A step on the row that another id finds: it is this row, or not touched.
  status-IsMoved :
      (k : Uuid) (found : ExternalAction) (s : ActionStatus) (db' : Db)
      → first_where (has_id k) db.actions ≡ some found
      → (found ≡ a → Move a.status s)
      → db'.actions ≡ set_where (has_id found.id) (λ x. record x { status = s }) db.actions
      → IsMoved id a.status db'
  status-IsMoved k found s db' first move e =
      update-IsMoved id a (has_id found.id) s db.actions db' one
        (λ mine. move (
          found-eq id a k found db.actions one first
            ((==_iff found.id a.id).1 (sym ((==_iff a.id found.id).0 mine)))))
        e

  other :
      (x : ExternalAction)
      → first_where (has_id x.id) db.actions ≡ none
      → rows_where (has_id id) (x ∷ []) ≡ []
  unfolding rows_where
  other x fresh = elim (Bool-cases (has_id id x)) [
    | inr e ↦ rw e refl
    | inl e ↦ absurd (
        let gone = rows_where-none (has_id id) db.actions (
          any_row-none (has_id id) db.actions
            (subst (λ i. first_where (has_id i) db.actions ≡ none) ((==_iff x.id id).0 e) fresh)) in
        let contra : ◌≡◌ {A = List ExternalAction} [] (a ∷ []) = sym gone ∙ one in cc)
  ]

  insert_action-IsMoved :
      (x : ExternalAction)
      → first_where (has_id x.id) db.actions ≡ none
      → IsMoved id a.status (insert_action x db)
  unfolding insert_action
  insert_action-IsMoved x fresh =
      elim (Bool-cases (any_row (λ b. same_idempotency x b || same_proposal x b) db.actions)) [
        | inl there ↦ rw there (a, one, stay)
        | inr new ↦ rw new (
          a,
          rw (rows_where-append (has_id id) db.actions (x ∷ []), one, other x fresh) refl,
          stay,
        )
      ]

  after_admission-IsMoved :
      (k attempt : Uuid) (now : Millis) (found : ExternalAction) (admission : AdmissionResult)
      (quota : Quota)
      → first_where (has_id k) db.actions ≡ some found
      → is_authorized found.status ≡ true
      → IsMoved id a.status (after_admission attempt now found db (admission, quota)).1
  unfolding after_admission begin_attempt set_status
  after_admission-IsMoved k attempt now found admission quota first ready =
      elim (outcome_cases admission.outcome) [
        | inl admitted ↦
            rw (admitted, after_admission)
              (status-IsMoved k found ActionStatus.dispatching
                (begin_attempt attempt now found (record db { quota = quota })).1 first
                (λ same.
                  departure
                    (subst (λ (x : ExternalAction). is_authorized x.status ≡ true) same ready) refl)
                refl)
        | inr (x, refused) ↦ rw (refused, after_admission) (a, one, stay)
      ]

  decide_approval-IsMoved :
      (now : Millis) (approval_id : Uuid) (input : ApprovalDecision) (r : ApprovalReceipt)
      (db' : Db)
      → decide_approval now approval_id input db ≡ ok (r, db')
      → IsMoved id a.status db'
  unfolding record_decision
  decide_approval-IsMoved now approval_id input r db' run =
      decide_approval-elim now approval_id input db (λ y. IsMoved id a.status y.1)
        (λ p found done u s. (a, one, stay))
        (λ p found open_ u c.
          update-IsMoved id a (is_under approval_id) (decided_action_status input.decision)
            db.actions (record_decision now approval_id input db) one
            (λ under.
              decision input.decision
                (let mine =
                    subst
                      (λ rows.
                        All
                          (λ (x : ExternalAction).
                            (is_under approval_id x && not (is_awaiting x.status)) ≡ false)
                          rows)
                      one
                      (All-rows_where _ (has_id id) db.actions (any_row-false _ db.actions c)) in
                  let k = mine.0 in ground arith)
                refl)
            refl)
        (r, db') run

  reconcile_network_reservation-IsMoved :
      (ledger_id : Uuid) (now : Millis) (action_id : Uuid) (found : Bool) (db' : Db)
      → reconcile_network_reservation ledger_id now action_id db ≡ ok (found, db')
      → IsMoved id a.status db'
  reconcile_network_reservation-IsMoved ledger_id now action_id found db' run = (
    a,
    subst (λ xs. rows_where (has_id id) xs ≡ a ∷ [])
        (sym (reconcile_network_reservation-actions ledger_id now action_id found db db' run).0)
        one,
    stay,
  )

  Step-IsMoved : {db' : Db} → Step db db' → IsMoved id a.status db'
  unfolding set_status record_outcome
  Step-IsMoved (proposed x new fresh none_yet) = insert_action-IsMoved x fresh
  Step-IsMoved {db'} (decided now approval_id input r e) =
      decide_approval-IsMoved now approval_id input r db' e
  Step-IsMoved {db'} (prepared uuid attempt now k p e) =
      prepare_dispatch-elim uuid attempt now k db (IsMoved id a.status) (a, one, stay)
        (λ x found ready.
          status-IsMoved k x ActionStatus.cancelled (set_status x.id ActionStatus.cancelled db)
            found
            (λ same.
              withdrawal (subst (λ (y : ExternalAction). is_authorized y.status ≡ true) same ready)
                refl)
            refl)
        (λ x admission quota found ready.
          after_admission-IsMoved k attempt now x admission quota found ready)
        p db' e
  Step-IsMoved {db'} (persisted now action_id attempt_id o response e) =
      persist_result-elim now action_id attempt_id o response db (IsMoved id a.status)
        (λ x found late. (a, one, stay))
        (λ x found open_.
          status-IsMoved action_id x (action_status o)
            (record_outcome now action_id attempt_id o response db) found
            (λ same.
              answer o (subst (λ (y : ExternalAction). is_uncertain y.status ≡ true) same open_)
                refl)
            (ap (λ i. set_where (has_id i) (λ y. record y { status = action_status o }) db.actions)
              (sym (
                (==_iff x.id action_id).0
                  (first_where-true (has_id action_id) db.actions x found)))))
        db' e
  Step-IsMoved {db'} (settled ledger_id now action_id found e) =
      reconcile_network_reservation-IsMoved ledger_id now action_id found db' e

-- Whatever happens, the state of an action follows the diagram: only a decision leads out of
-- awaiting_approval, only a dispatch or a withdrawal out of authorized, and only an answer out of
-- dispatching, acknowledged and indeterminate; from all other states there is no way.
pub Reach-IsMoved :
    (id : Uuid) (a : ExternalAction) {db db' : Db}
    → rows_where (has_id id) db.actions ≡ a ∷ []
    → Reach db db'
    → IsMoved id a.status db'
Reach-IsMoved id a one here = (a, one, stay)
Reach-IsMoved id a {db} {db'} one (next {mid} r st) =
    let before = Reach-IsMoved id a one r in
    let after = Step-IsMoved id before.0 mid before.1 st in
    (after.0, after.1, Moves-trans before.2 after.2)

-- Reconciled, denied, failed and cancelled are final: no interleaving of the steps ever changes the
-- state of such an action.
pub Reach-is_final :
    (id : Uuid) (a : ExternalAction) {db db' : Db}
    → rows_where (has_id id) db.actions ≡ a ∷ []
    → is_final a.status ≡ true
    → Reach db db'
    → (b : ExternalAction) × (rows_where (has_id id) db'.actions ≡ b ∷ []) × (b.status ≡ a.status)
Reach-is_final id a one final r =
    let moved = Reach-IsMoved id a one r in (moved.0, moved.1, Moves-final final moved.2)
