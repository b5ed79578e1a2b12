-- ===== src/Policies/Evaluate.antt =====
-- packages/runtime-core/src/policies/policy-decision-service.ts.
use factory_floor.Common.{
  ◌==◌, ◌&&◌, ◌++◌, Bool, not, Option, none, some, [], ◌∷◌, Result, ok, err, if◌then◌else◌,
  first_where, is_some,
}
use factory_floor.Tables.{
  Db, Policy, PolicySpec, PolicyReason, given, evaluated_to, PolicyDecision, Approval, Uuid, Name,
  Json, Millis,
}
use factory_floor.Tables.Kinds.{PolicyOutcome, require_approval, modify, ApprovalStatus}

-- EvaluatePolicyInput; `has_subject_kind` is that the kind is not blank.
pub record EvaluatePolicyInput : Type 0 where
  pub policy_name : Name
  pub policy_version : Name
  pub subject_kind : Name
  pub has_subject_kind : Bool
  pub subject_id : Name
  pub normalized_inputs : Json
  pub input_artifact_id : Option Uuid

-- PolicyDecisionResult; `none` is the empty list of modifications.
pub record PolicyDecisionResult : Type 0 where
  pub decision_id : Uuid
  pub approval_id : Option Uuid
  pub outcome : PolicyOutcome
  pub reason : PolicyReason
  pub modifications : Option Json

pub data PolicyError : Type 0 where
  subject_kind_required policy_not_found policy_not_object unsupported_outcome : PolicyError

abbrev pub is_policy : EvaluatePolicyInput → Policy → Bool
is_policy input p =
    p.name == input.policy_name && (p.version == input.policy_version && not (is_some p.retired_at))

unfoldable pub reason_of : Policy → PolicySpec → PolicyOutcome → PolicyReason
reason_of p spec outcome = elim spec.reason [
  | some text ↦ given text
  | none ↦ evaluated_to p.name p.version outcome
]

unfoldable pub modifications_of : PolicySpec → PolicyOutcome → Option Json
modifications_of spec modify = spec.modifications
modifications_of spec _ = none

abbrev pub approval_of : PolicyOutcome → Uuid → Option Uuid
approval_of require_approval id = some id
approval_of _ id = none

abbrev pub requested_approval : Uuid → Uuid → Millis → Approval
requested_approval id decision_id now = record {
  id = id;
  policy_decision_id = decision_id;
  status = ApprovalStatus.requested;
  requested_at = now;
  decided_at = none;
  decided_by = none;
  decision_reason = none;
  decision_client_request_id = none;
  decision_request_digest = none;
}

unfoldable pub insert_approval : Option Uuid → Uuid → Millis → Db → Db
insert_approval none decision_id now db = db
insert_approval (some id) decision_id now db = record db {
  approvals = db.approvals ++ requested_approval id decision_id now ∷ [];
}

module _ (evaluator_version : Name) (input : EvaluatePolicyInput) where
  -- once the policy is read: the decision, and its approval where it asks for one
  unfoldable pub decide :
      Uuid → Uuid → Millis → Policy → PolicySpec → PolicyOutcome → Db → PolicyDecisionResult × Db
  unfolding reason_of modifications_of insert_approval
  decide decision_id approval_id now p spec outcome db = (
    record {
      decision_id = decision_id;
      approval_id = approval_of outcome approval_id;
      outcome = outcome;
      reason = reason_of p spec outcome;
      modifications = modifications_of spec outcome;
    },
    insert_approval (approval_of outcome approval_id) decision_id now
        (record db { policy_decisions = db.policy_decisions ++ decision ∷ [] }),
  )
    where
      decision : PolicyDecision
      decision = record {
        id = decision_id;
        policy_id = p.id;
        policy_name = p.name;
        policy_version = p.version;
        evaluator_version = evaluator_version;
        subject_kind = input.subject_kind;
        subject_id = input.subject_id;
        input_artifact_id = input.input_artifact_id;
        normalized_inputs = input.normalized_inputs;
        outcome = outcome;
        reason = reason_of p spec outcome;
        modifications = modifications_of spec outcome;
      }

  -- evaluate
  unfoldable pub evaluate :
      Uuid → Uuid → Millis → Db → Result PolicyError (PolicyDecisionResult × Db)
  unfolding decide
  evaluate decision_id approval_id now db =
      if not input.has_subject_kind
      then err subject_kind_required
      else elim (first_where (is_policy input) db.policies) [
        | none ↦ err policy_not_found
        | some p ↦ elim p.policy [
          | none ↦ err policy_not_object
          | some spec ↦ elim spec.outcome [
            | none ↦ err unsupported_outcome
            | some outcome ↦ ok (decide decision_id approval_id now p spec outcome db)
          ]
        ]
      ]
