-- ===== src/Policies/Approvals.antt =====
-- decideApproval of packages/runtime-core/src/operator/operator-command-service.ts.
use factory_floor.Common.{
  ◌==◌, ◌&&◌, Bool, true, false, not, none, some, List, Result, ok, err, if◌then◌else◌, first_where,
  set_where, any_row, holds, or_else,
}
use factory_floor.Tables.{Db, Approval, ExternalAction, Uuid, Name, Millis, Digest}
use factory_floor.Tables.Kinds.{ApprovalStatus, is_requested, ActionStatus}

pub data Decision : Type 0 where
  approve reject : Decision

-- A decision that has passed requireOperator, requireClientRequestId and requireReason, by the
-- principal; `digest` is that of the approval, the client's request, the decision and the reason.
pub record ApprovalDecision : Type 0 where
  pub principal_id : Name
  pub client_request_id : Name
  pub decision : Decision
  pub reason : Name
  pub digest : Digest

pub data Disposition : Type 0 where
  accepted replayed : Disposition

-- approvalReceipt
pub record ApprovalReceipt : Type 0 where
  pub approval_id : Uuid
  pub principal_id : Name
  pub client_request_id : Name
  pub decision : Decision
  pub reason : Name
  pub disposition : Disposition

pub data ApprovalError : Type 0 where
  approval_idempotency_conflict approval_not_found approval_not_pending approval_context_changed :
      ApprovalError

abbrev pub decided_status : Decision → ApprovalStatus
decided_status approve = ApprovalStatus.approved
decided_status reject = ApprovalStatus.denied

abbrev pub decided_action_status : Decision → ActionStatus
decided_action_status approve = ActionStatus.authorized
decided_action_status reject = ActionStatus.denied

abbrev pub is_awaiting : ActionStatus → Bool
is_awaiting ActionStatus.awaiting_approval = true
is_awaiting _ = false

abbrev pub is_under : Uuid → ExternalAction → Bool
is_under approval_id a = holds a.approval_id approval_id

abbrev pub is_reused : ApprovalDecision → Approval → Bool
is_reused input a =
    holds a.decided_by input.principal_id
    && holds a.decision_client_request_id input.client_request_id

-- The client's request was used for an approval before: for which one?
unfoldable pub is_used_elsewhere : ApprovalDecision → Uuid → List Approval → Bool
is_used_elsewhere input approval_id approvals = elim (first_where (is_reused input) approvals) [
  | none ↦ false
  | some a ↦ not (a.id == approval_id)
]

abbrev pub receipt : ApprovalDecision → Uuid → Name → Disposition → ApprovalReceipt
receipt input approval_id reason disposition = record {
  approval_id = approval_id;
  principal_id = input.principal_id;
  client_request_id = input.client_request_id;
  decision = input.decision;
  reason = reason;
  disposition = disposition;
}

abbrev pub is_same_decision : ApprovalDecision → Approval → Bool
is_same_decision input a =
    holds a.decided_by input.principal_id
    && (holds a.decision_client_request_id input.client_request_id
        && holds a.decision_request_digest input.digest)

-- the two updates
unfoldable pub record_decision : Millis → Uuid → ApprovalDecision → Db → Db
record_decision now approval_id input db = record db {
  approvals =
      set_where (λ (a : Approval). a.id == approval_id)
        (λ a. record a {
          status = decided_status input.decision;
          decided_at = some now;
          decided_by = some input.principal_id;
          decision_reason = some input.reason;
          decision_client_request_id = some input.client_request_id;
          decision_request_digest = some input.digest;
        })
        db.approvals;
  actions =
      set_where (is_under approval_id)
        (λ a. record a { status = decided_action_status input.decision }) db.actions;
}

unfoldable pub decide_approval :
    Millis → Uuid → ApprovalDecision → Db → Result ApprovalError (ApprovalReceipt × Db)
unfolding is_used_elsewhere record_decision
decide_approval now approval_id input db =
    if is_used_elsewhere input approval_id db.approvals
    then err approval_idempotency_conflict
    else elim (first_where (λ (a : Approval). a.id == approval_id) db.approvals) [
      | none ↦ err approval_not_found
      | some a ↦
          if not (is_requested a.status)
          then if is_same_decision input a
            then ok
                (receipt input approval_id (or_else a.decision_reason input.reason) replayed, db)
            else err approval_not_pending
          else if any_row
              (λ (x : ExternalAction). is_under approval_id x && not (is_awaiting x.status))
              db.actions
          then err approval_context_changed
          else ok (
            receipt input approval_id input.reason accepted,
            record_decision now approval_id input db,
          )
    ]
