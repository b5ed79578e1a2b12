-- ===== src/Tests/Data.antt =====
-- A small runtime: one running region with a component that has one input and one output port, and
-- one delivery for it.
use factory_floor.Common.{ℕ, ◌+◌, true, none, some, List, [], ◌∷◌, Result, ok, err}
use factory_floor.Common.Ints.{pos}
use factory_floor.Tables.{
  Db, Region, TopologyRevision, ComponentInstance, Connection, PortDefinition, Delivery, Event,
  Execution, Attempt, ExecutionInput,
}
use factory_floor.Tables.Kinds.{
  RegionStatus, Direction, DeliveryStatus, EventType, StreamKey, SourceKind, ResultStatus, reported,
  ExecutionStatus, AttemptStatus,
}
use factory_floor.Tables.QuotaRows.{Quota, Budget, concurrent_executions, UnitName, Exhaustion}
use factory_floor.Tables.Proposed.{ProposedResult, Counter, integer, UsageKey}
use factory_floor.Artifacts.Validation.{Validator}
use factory_floor.Commit.Steps.{Env}
use factory_floor.Scheduler.Executions.{LeaseNextAttemptOptions, Fresh}

abbrev pub one_budget : Budget
one_budget = record {
  id = 900;
  scope_id = 1;
  parent_budget_id = none;
  resource_type = concurrent_executions;
  limit_quantity = 2;
  unit = UnitName.count;
  exhaustion_outcome = Exhaustion.defer;
  source = 0;
  retired_at = none;
}

abbrev pub one_quota : Quota
one_quota = record { budgets = one_budget ∷ []; reservations = []; decisions = []; ledger = [] }

abbrev pub root_region : Region
root_region = record {
  id = 1;
  name = 11;
  parent_region_id = none;
  lifecycle_status = RegionStatus.running;
  lifecycle_epoch = 3;
  active_topology_revision_id = some 10;
}

abbrev pub first_delivery : Delivery
first_delivery = record {
  id = 100;
  region_id = 1;
  topology_revision_id = 10;
  target_component_instance_id = 20;
  target_port_name = 7;
  source_command_id = some 200;
  source_event_id = none;
  correlation_id = 77;
  input_payload = 5;
  input_payload_digest = 6;
  status = DeliveryStatus.ready;
  available_at = 0;
  created_at = 0;
  lease_owner = none;
  lease_token = none;
  lease_expires_at = none;
  attempts_count = 0;
  completed_at = none;
  failed_at = none;
  dead_lettered_at = none;
}

abbrev pub input_port : PortDefinition
input_port = record {
  component_definition_id = 30;
  name = 7;
  direction = Direction.input;
  required = true;
  schema_id = 60;
}

abbrev pub one_instance : ComponentInstance
one_instance = record {
  id = 20;
  topology_revision_id = 10;
  component_definition_id = 30;
  name = 21;
  selector = 22;
}

abbrev pub one_revision : TopologyRevision
one_revision = record { id = 10; fan_in = []; ingress = [] }

abbrev pub one_connection : Connection
one_connection = record {
  topology_revision_id = 10;
  source_component_instance_id = 20;
  source_port_name = 8;
  target_component_instance_id = 20;
  target_port_name = 7;
}

abbrev pub start : Db
start = record {
  regions = root_region ∷ [];
  revisions = one_revision ∷ [];
  instances = one_instance ∷ [];
  connections = one_connection ∷ [];
  ports = input_port ∷ [];
  commands = [];
  events = [];
  sequences = [];
  deliveries = first_delivery ∷ [];
  executions = [];
  inputs = [];
  attempts = [];
  outputs = [];
  submissions = [];
  schemas = [];
  staging = [];
  uploads = [];
  artifacts = [];
  derivations = [];
  grants = [];
  actions = [];
  action_attempts = [];
  policies = [];
  policy_decisions = [];
  approvals = [];
  quota = one_quota;
}

abbrev pub options : LeaseNextAttemptOptions
options = record { worker_id = 40; lease_duration_ms = 60000; component_selectors = some (22 ∷ []) }

abbrev pub fresh : ℕ → Fresh
fresh n = record {
  execution = 300 + n;
  attempt = 400 + n;
  lease_token = 500 + n;
  admission = λ k. 600 + k;
  inputs = λ k. 700 + k;
}

-- What a transaction that succeeds returns, and otherwise `a`.
abbrev pub result_or : {E A : Type 0} → A → Result E A → A
result_or a (ok b) = b
result_or a (err e) = a

abbrev pub validator : Validator
validator = record {
  read_staged = λ id. some (record { size = 4; digest = 9; parsed = some 1 });
  conforms = λ schema document. some true;
  is_json_media_type = λ name. true;
  max_json_bytes = 1000;
}

abbrev pub env : Env
env = record {
  now = 2000;
  has_blob_store = true;
  validator = validator;
  receipts = [];
  payload_digest = λ payload. payload;
  output_document = λ port artifact. artifact;
  uuid = λ draw n. 800 + n;
}

abbrev pub usage : List (UsageKey × Counter)
usage =
    (UsageKey.cpu_milliseconds, integer (pos 12))
    ∷ (UsageKey.wall_milliseconds, integer (pos 30))
    ∷ (UsageKey.input_bytes, integer (pos 0))
    ∷ (UsageKey.output_bytes, integer (pos 0))
    ∷ (UsageKey.external_calls, integer (pos 0))
    ∷ []

-- What the worker of the first lease hands over: a failure that may pass.
abbrev pub failed_result : ProposedResult
failed_result = record {
  execution_id = 300;
  attempt_id = 400;
  lease_token = 500;
  lifecycle_epoch = 3;
  status = ResultStatus.failed;
  staged_artifacts = [];
  proposed_state = none;
  proposed_events = [];
  external_action_proposals = [];
  resource_usage = usage;
  failure = some (reported 1 true);
}

abbrev pub one_execution : Execution
one_execution = record {
  id = 300;
  delivery_id = 100;
  region_id = 1;
  component_instance_id = 20;
  topology_revision_id = 10;
  lifecycle_epoch = 3;
  input_set_digest = 0;
  status = ExecutionStatus.running;
  completed_at = none;
  failed_at = none;
  failure = none;
}

abbrev pub one_attempt : Attempt
one_attempt = record {
  id = 400;
  execution_id = 300;
  attempt_number = 1;
  status = AttemptStatus.leased;
  lease_owner = some 40;
  lease_token = some 500;
  lease_expires_at = some 61000;
  started_at = some 1000;
  completed_at = none;
  failure = none;
}

abbrev pub one_input : ExecutionInput
one_input = record { id = 700; execution_id = 300; port_name = 7; delivery_id = 100; payload = 5 }

-- The delivery is leased to a worker.
abbrev pub working : Db
working = record start {
  deliveries =
      record first_delivery {
        status = DeliveryStatus.leased;
        lease_owner = some 40;
        lease_token = some 500;
        lease_expires_at = some 61000;
      }
      ∷ [];
  executions = one_execution ∷ [];
  inputs = one_input ∷ [];
  attempts = one_attempt ∷ [];
}

-- An event that the component put out.
abbrev pub output_event : Event
output_event = record {
  id = 810;
  region_id = 1;
  event_type = EventType.component_output;
  payload = 5;
  stream_key = StreamKey.component_port 20 8;
  sequence_number = 1;
  created_at = 2000;
  correlation_id = 77;
  source_kind = SourceKind.component;
  source_command_id = none;
  source_event_id = none;
  source_execution_id = some 300;
  source_attempt_id = some 400;
  source_component_instance_id = some 20;
  source_port_name = some 8;
}
