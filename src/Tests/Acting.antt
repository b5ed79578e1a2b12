-- ===== src/Tests/Acting.antt =====
-- An external action on its way: approved, sent, answered and reconciled.
use factory_floor.Admission.Settle.{with_budgets}
use factory_floor.Admission.Usage.{ancestors, applicable_budgets}
use factory_floor.Admission.Reserve.{prior_reservations, reserve_in_transaction}
use factory_floor.Common.{
  ℕ, ◌+◌, ◌≤◌, ◌≡◌, refl, arith, none, some, [], ◌∷◌, ok, length, rows_where, first_where,
  set_where, any_row, order_by, place,
}
use factory_floor.Tables.{Db, ExternalAction, ActionAttempt, Approval, Uuid}
use factory_floor.Tables.Kinds.{ActionStatus, ActionAttemptStatus, ApprovalStatus}
use factory_floor.Tables.Proposed.{low}
use factory_floor.Policies.Approvals.{
  ApprovalDecision, approve, accepted, replayed, receipt, decide_approval, record_decision,
  is_used_elsewhere,
}
use factory_floor.Policies.Replay.{decide_approval_twice}
use factory_floor.ExternalActions.{
  Provider, ProviderStatus, ProviderResult, answered, response_lost, dispatch, provider_request,
}
use factory_floor.ExternalActions.Dispatch.{has_id, prepare_dispatch}
use factory_floor.ExternalActions.Service.{
  latest, Call, Report, reconcile_action, reconcile_pending, reconciliation_candidates,
  empty_report,
}
use factory_floor.ExternalActions.Steps.{Reach, here, next, decided, prepared}
use factory_floor.ExternalActions.Attempts.{IsAttemptedOnce, Reach-IsAttemptedOnce}
use factory_floor.ExternalActions.Diagram.{IsMoved, Reach-IsMoved, Reach-is_final}
use factory_floor.ExternalActions.Answers.{IsSettledAs, reconcile_action-IsSettledAs}
use factory_floor.ExternalActions.Pending.{Counts, told, reconcile_pending-Counts}
use factory_floor.Tests.Data.{working, result_or}

abbrev waiting_action : ExternalAction
waiting_action = record {
  id = 30;
  execution_id = 300;
  attempt_id = 400;
  proposal_id = 1;
  capability_grant_id = 2;
  outbound_request_artifact_id = 3;
  action_type = 4;
  risk = low;
  idempotency_key = 5;
  status = ActionStatus.awaiting_approval;
  approval_id = some 50;
}

abbrev asked : Approval
asked = record {
  id = 50;
  policy_decision_id = 51;
  status = ApprovalStatus.requested;
  requested_at = 100;
  decided_at = none;
  decided_by = none;
  decision_reason = none;
  decision_client_request_id = none;
  decision_request_digest = none;
}

abbrev waiting : Db
waiting = record working { actions = waiting_action ∷ []; approvals = asked ∷ [] }

abbrev approval : ApprovalDecision
approval = record {
  principal_id = 7;
  client_request_id = 8;
  decision = approve;
  reason = 9;
  digest = 10;
}

abbrev approved : Db
unfolding record_decision
approved = record_decision 3000 50 approval waiting

abbrev uuid : ℕ → Uuid
uuid n = 600 + n

abbrev sent_action : ExternalAction
sent_action = record waiting_action { status = ActionStatus.dispatching }

abbrev attempt : ActionAttempt
attempt = record {
  id = 60;
  external_action_id = 30;
  attempt_number = 1;
  status = ActionAttemptStatus.dispatching;
  requested_at = 4000;
  completed_at = none;
  response = none;
}

abbrev sent : Db
unfolding approved prepare_dispatch
sent =
    (result_or (dispatch 0 (provider_request waiting_action), approved)
      (prepare_dispatch uuid 60 4000 30 approved)).1

sent_rows : (sent.actions ≡ sent_action ∷ []) × (sent.action_attempts ≡ attempt ∷ [])
unfolding sent approved record_decision prepare_dispatch first_where set_where rows_where
    reserve_in_transaction prior_reservations applicable_budgets ancestors order_by place
sent_rows = (refl, refl)

decide_approval_twice_example :
    decide_approval 5000 50 approval approved ≡ ok (receipt approval 50 9 replayed, approved)
unfolding approved decide_approval record_decision is_used_elsewhere first_where set_where any_row
decide_approval_twice_example =
    decide_approval_twice 3000 5000 50 approval waiting approved (receipt approval 50 9 accepted)
      refl

decided_run :
    decide_approval 3000 50 approval waiting ≡ ok (receipt approval 50 9 accepted, approved)
unfolding approved decide_approval record_decision is_used_elsewhere first_where set_where any_row
decided_run = refl

prepared_run :
    prepare_dispatch uuid 60 4000 30 approved
    ≡ ok (dispatch 60 (provider_request waiting_action), sent)
unfolding sent approved record_decision prepare_dispatch first_where set_where rows_where
    reserve_in_transaction prior_reservations applicable_budgets ancestors order_by place
prepared_run = refl

way : Reach waiting sent
way =
    next (next here (decided 3000 50 approval (receipt approval 50 9 accepted) (decided_run)))
      (prepared uuid 60 4000 30 (dispatch 60 (provider_request waiting_action)) (prepared_run))

waiting-IsAttemptedOnce : IsAttemptedOnce waiting
unfolding rows_where
waiting-IsAttemptedOnce = (omega arith, tt)

Reach-IsAttemptedOnce_example : IsAttemptedOnce sent
Reach-IsAttemptedOnce_example = Reach-IsAttemptedOnce way waiting-IsAttemptedOnce

Reach-IsMoved_example : IsMoved 30 ActionStatus.awaiting_approval sent
unfolding rows_where
Reach-IsMoved_example = Reach-IsMoved 30 waiting_action refl way

abbrev over : Db
over = record working {
  actions = record waiting_action { status = ActionStatus.denied; approval_id = none } ∷ [];
}

over_decided :
    decide_approval 3000 50 approval (record over { approvals = asked ∷ [] })
    ≡ ok (
      receipt approval 50 9 accepted,
      record_decision 3000 50 approval (record over { approvals = asked ∷ [] }),
    )
unfolding decide_approval record_decision is_used_elsewhere first_where set_where any_row
over_decided = refl

Reach-is_final_example :
    (b : ExternalAction) × (rows_where
        (has_id 30)
        (record_decision 3000 50 approval (record over { approvals = asked ∷ [] })).actions
      ≡ b ∷ [])
    × (b.status ≡ ActionStatus.denied)
unfolding rows_where
Reach-is_final_example =
    Reach-is_final 30 (record waiting_action { status = ActionStatus.denied; approval_id = none })
      refl refl (next here (decided 3000 50 approval (receipt approval 50 9 accepted) over_decided))

abbrev result : ProviderResult
result = record { status = ProviderStatus.acknowledged; response = 99 }

abbrev provider : Provider
provider = record { dispatch = λ r. response_lost 0; reconcile = λ r. answered result }

abbrev call : Call
call = record { now = 6000; attempt_id = 61; ledger_id = 62; uuid = uuid }

abbrev lost : Db
lost = record working { actions = sent_action ∷ []; action_attempts = attempt ∷ [] }

reconcile_action-IsSettledAs_example : IsSettledAs 30 (reconcile_action provider call 30 lost)
unfolding rows_where first_where latest
reconcile_action-IsSettledAs_example =
    reconcile_action-IsSettledAs provider call 30 sent_action attempt result lost refl refl refl
      refl refl refl refl

abbrev report : Report
report = record { scanned = 1; reconciled = 1; failed = 0; indeterminate = 0 }

abbrev afterwards : Db
unfolding reconcile_action
afterwards = (reconcile_action provider call 30 lost).1

reconcile_pending-Counts_example :
    Counts empty_report report
      (told (λ n. provider) (λ n. call) (reconciliation_candidates 100 lost) lost)
    × (length (told (λ n. provider) (λ n. call) (reconciliation_candidates 100 lost) lost)
        ≡ length (reconciliation_candidates 100 lost))
    × (length (reconciliation_candidates 100 lost) ≤ 100)
unfolding afterwards reconcile_pending rows_where first_where set_where latest with_budgets
    reconciliation_candidates reconcile_action
reconcile_pending-Counts_example =
    reconcile_pending-Counts (λ n. provider) (λ n. call) 100 report lost afterwards refl
