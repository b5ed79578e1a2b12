-- ===== src/ExternalActions/Steps.antt =====
-- The steps that write external actions or their attempts, in any order and any number of them at
-- a time: the two transactions of external-action-service.ts around a call of the provider, the
-- settlement of the call's reservation, a decision on an approval (operator-command-service.ts),
-- and the publication of a proposal (execution-commit-service.ts), whose id is new.
use factory_floor.Common.{ℕ, ◌≡◌, Bool, none, List, [], ok, rows_where, first_where}
use factory_floor.Tables.{Db, ExternalAction, ActionAttempt, Uuid, Millis, Json}
use factory_floor.Tables.Kinds.{ActionStatus}
use factory_floor.Commit.Actions.{insert_action}
use factory_floor.Policies.Approvals.{ApprovalDecision, ApprovalReceipt, decide_approval}
use factory_floor.ExternalActions.{Preparation}
use factory_floor.ExternalActions.Dispatch.{has_id, is_attempt_of, prepare_dispatch}
use factory_floor.ExternalActions.Persist.{Outcome, persist_result, reconcile_network_reservation}

abbrev pub attempts_of : Uuid → Db → List ActionAttempt
attempts_of id db = rows_where (is_attempt_of id) db.action_attempts

pub data Step (db : Db) : Db → Type 0 where
  proposed :
      (a : ExternalAction)
      → a.status ≡ ActionStatus.proposed
      → first_where (has_id a.id) db.actions ≡ none
      → attempts_of a.id db ≡ []
      → Step db (insert_action a db)
  decided :
      (now : Millis) (approval_id : Uuid) (input : ApprovalDecision) (r : ApprovalReceipt)
      {db' : Db}
      → decide_approval now approval_id input db ≡ ok (r, db')
      → Step db db'
  prepared :
      (uuid : ℕ → Uuid) (attempt : Uuid) (now : Millis) (id : Uuid) (p : Preparation) {db' : Db}
      → prepare_dispatch uuid attempt now id db ≡ ok (p, db')
      → Step db db'
  persisted :
      (now : Millis) (action_id attempt_id : Uuid) (outcome : Outcome) (response : Json) {db' : Db}
      → persist_result now action_id attempt_id outcome response db ≡ ok db'
      → Step db db'
  settled :
      (ledger_id : Uuid) (now : Millis) (action_id : Uuid) (found : Bool) {db' : Db}
      → reconcile_network_reservation ledger_id now action_id db ≡ ok (found, db')
      → Step db db'

pub data Reach (db : Db) : Db → Type 0 where
  here : Reach db db
  next : {mid last : Db} → Reach db mid → Step mid last → Reach db last
