-- ===== src/Commit/Actions.antt =====
-- publishExternalActions of execution-commit-service.ts: each proposal of a completed result
-- becomes an external action, once for its idempotency key.
use factory_floor.Common.{
  ℕ, ◌==◌, ◌&&◌, ◌||◌, ◌++◌, Bool, false, not, Option, none, some, List, [], ◌∷◌, length,
  if◌then◌else◌, any_row, first_where, is_some, ◌>>=◌, ◌>>◌,
}
use factory_floor.Tables.{Db, PortDefinition, Grant, ExternalAction, Uuid}
use factory_floor.Tables.Kinds.{Direction, DerivationType, ActionStatus}
use factory_floor.Tables.Proposed.{
  ProposedResult, Staged, ExternalActionProposal, Risk, low, medium, high, irreversible,
}
use factory_floor.Commit.Steps.{
  Commit, Env, Draw, require, done, query, write, found, commit_error,
  invalid_external_action_proposal, external_action_unauthorized,
  duplicate_conflicting_external_action,
}
use factory_floor.Commit.Staged.{ArtifactIds, artifact_id_of, validate_staged, publish_artifact}

abbrev pub risk_code : Risk → ℕ
risk_code low = 0
risk_code medium = 1
risk_code high = 2
risk_code irreversible = 3

-- an active grant of the handle's id to the component's definition, of a live capability
abbrev pub is_authorized : Option Uuid → Uuid → Grant → Bool
is_authorized none definition g = false
is_authorized (some id) definition g =
    g.id == id
    && (g.grantee_component_definition_id == definition
        && (g.is_active && not (is_some g.capability_retired_at)))

-- the request artifact: one of the outputs, or validated and published for this proposal
unfoldable pub request_artifact :
    Env
    → ProposedResult
    → List PortDefinition
    → Staged
    → ArtifactIds
    → Option Uuid
    → Commit (Uuid × ArtifactIds)
unfolding validate_staged publish_artifact done
request_artifact env input ports staged ids (some id) = do
  validate_staged env input staged ports Direction.output
  done (id, ids)
request_artifact env input ports staged ids none = do
  row ← validate_staged env input staged ports Direction.output
  id ← publish_artifact env input row DerivationType.external_action_request
  done (id, (staged.staging_id, id) ∷ ids)

abbrev pub new_action :
    ProposedResult → ExternalActionProposal → Uuid → Uuid → Uuid → ExternalAction
new_action input p grant artifact id = record {
  id = id;
  execution_id = input.execution_id;
  attempt_id = input.attempt_id;
  proposal_id = p.proposal_id;
  capability_grant_id = grant;
  outbound_request_artifact_id = artifact;
  action_type = p.action_type;
  risk = p.risk;
  idempotency_key = p.idempotency_key;
  status = ActionStatus.proposed;
  approval_id = none;
}

-- the unique keys of external_actions
abbrev pub same_idempotency : ExternalAction → ExternalAction → Bool
same_idempotency new old =
    old.capability_grant_id == new.capability_grant_id
    && (old.action_type == new.action_type && old.idempotency_key == new.idempotency_key)

abbrev pub same_proposal : ExternalAction → ExternalAction → Bool
same_proposal new old = old.attempt_id == new.attempt_id && old.proposal_id == new.proposal_id

abbrev pub is_same_action : ExternalAction → ExternalAction → Bool
is_same_action new old =
    old.execution_id == new.execution_id
    && (old.attempt_id == new.attempt_id
        && (old.proposal_id == new.proposal_id
            && (old.outbound_request_artifact_id == new.outbound_request_artifact_id
                && risk_code old.risk == risk_code new.risk)))

-- insert … on conflict do nothing
unfoldable pub insert_action : ExternalAction → Db → Db
insert_action a db =
    if any_row (λ b. same_idempotency a b || same_proposal a b) db.actions
    then db
    else record db { actions = db.actions ++ a ∷ [] }

-- the row of the proposal, else the row of its idempotency key, must be this very action
unfoldable pub stands_as : ExternalAction → Db → Bool
stands_as a db = elim (first_where (same_proposal a) db.actions) [
  | some b ↦ is_same_action a b
  | none ↦ elim (first_where (same_idempotency a) db.actions) [
    | some b ↦ is_same_action a b
    | none ↦ false
  ]
]

unfoldable pub publish_external_action :
    Env
    → ProposedResult
    → Uuid
    → List PortDefinition
    → ArtifactIds
    → ExternalActionProposal
    → Commit ArtifactIds
unfolding require found request_artifact query write insert_action stands_as done
publish_external_action env input definition ports ids p = do
  require p.has_metadata invalid_external_action_proposal 400
  require (is_some p.grant_id) external_action_unauthorized 403
  grant ←
      found (λ db. first_where (is_authorized p.grant_id definition) db.grants)
        (commit_error external_action_unauthorized 403)
  (artifact, ids') ←
      request_artifact env input ports p.request_artifact ids
        (artifact_id_of p.request_artifact.staging_id ids)
  id ← query (λ db. env.uuid Draw.action (length db.actions))
  write (insert_action (new_action input p grant.id artifact id))
  same ← query (stands_as (new_action input p grant.id artifact id))
  require same duplicate_conflicting_external_action 409
  done ids'

-- publishExternalActions
unfoldable pub publish_external_actions :
    Env
    → ProposedResult
    → Uuid
    → List PortDefinition
    → ArtifactIds
    → List ExternalActionProposal
    → Commit ArtifactIds
unfolding publish_external_action done
publish_external_actions env input definition ports ids [] = done ids
publish_external_actions env input definition ports ids (p ∷ ps) = do
  ids' ← publish_external_action env input definition ports ids p
  publish_external_actions env input definition ports ids' ps
