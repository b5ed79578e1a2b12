-- ===== src/Lib.antt =====
-- Factory Floor's runtime core: workers lease attempts of executions, hand results over, and the
-- control plane commits them in one transaction.
--
-- The parts and how they interact
-- Tables (packages/db/src/database.ts, packages/db/src/migrations): the rows of the runtime's
--   tables, one record for each, and `Db`, a list of rows for each table. Tables/Kinds holds their
--   states (terminology.ts), Tables/QuotaRows the rows of resource admission, Tables/Proposed a
--   worker's result, Tables/Triggers the two triggers and the updates that fire them.
-- Admission (packages/runtime-core/src/scheduling/resource-admission-service.ts and
--   execution-admission.ts): a reservation is held against every budget on the way from a region to
--   the root. Admission/Usage has its queries, Calculate its arithmetic, Configure, Reserve,
--   Settle and Lease its operations.
-- Scheduler (scheduling/scheduler-service.ts, lease.ts): leaseNextAttempt takes the groups of
--   ready deliveries in turn (Groups), selects the inputs of an execution (Select, Executions), asks
--   Admission, and leases an attempt with its deliveries (Candidate), or defers the group (Lease has
--   the loop).
-- Commit (commit/execution-commit-service.ts): a worker's result is checked against the locked
--   rows (Authority, Submit), its artifacts are published (Staged, Actions; Artifacts validates
--   their content), and it completes its execution or fails or retries it (Publish, Finish). Its
--   events and deliveries are those of Routing.
-- Routing (events/event-service.ts, routing/routing-service.ts): numbers in a stream, events, and
--   deliveries along the ingress targets and connections of a topology revision.
-- Artifacts (artifacts/artifact-validation-service.ts): the validation of staged content and its
--   receipts.
-- Worker (worker/worker-protocol-service.ts): the requests of a worker on its attempt: the two names
--   of the protocol's versions (Normalize), the lease (Attempts), the staging and the upload of an
--   artifact (Staging, Upload), and the hand-over of a result that Commit then takes (Submission).
--   An upload has two databases, before and after the transfer of its bytes.
-- Recovery (observability/recovery-service.ts): the work that is found at the start: pending
--   results, expired attempts (Attempts), orphaned deliveries and cancelling regions (Regions), in
--   the phases of run (Startup).
-- Commands (commands/command-service.ts, identity.ts): a command is submitted to a region and becomes
--   an event and deliveries, or is replayed under its idempotency key (Submit). The first query of
--   the key may see fewer commands than the insert, as when another transaction commits between.
-- Policies (policies/policy-decision-service.ts, operator/operator-command-service.ts): a policy's
--   outcome is recorded for an external action, with the approval that it asks for (Evaluate), and an
--   operator's decision settles the approval and moves the action on (Approvals).
-- ExternalActions (external-actions/external-action-service.ts): an attempt of an action is prepared
--   in one transaction, the provider is called, and its answer is kept in another (Dispatch,
--   Persist, Service). Steps has the transactions as a step relation, with the approvals of Policies.
-- ControlPlane (apps/control-plane/src/service-auth.ts, nonce-repository.ts): requests between the
--   services are signed under a key and verified with a nonce that is used once. Header has the
--   header's syntax, Numerals the decimal timestamps and hexadecimal digests.
-- Common: tests, lists as tables and their queries, sorting, integers, texts, and transactions as
--   results.
-- Tests: the theorems on a small runtime.
--
-- Bounds and conventions
-- - UUIDs, lease tokens, digests, names and JSON documents are opaque numbers; times are
--   milliseconds. What createUuidV7 and generateLeaseToken return are arguments (`uuid`, `Fresh`).
-- - A transaction is one step: it takes the database and returns another, or an error and no
--   database. Row locks make transactions serial, so their interleavings are sequences of such
--   steps; `acquired` says which advisory locks are free.
-- - The recursive queries on the region tree run on fuel, the number of regions: a way to the root
--   is no longer than that where parents make a forest (`IsForest`).
-- - sha256, the JSON Schema validator and the blob store are parameters, and the last two may fail (a
--   missing blob, a schema that does not compile); predicates on texts (blank,
--   UUID, media type, handle) are read off as Booleans of the rows or of a parameter.
-- - Texts that are taken apart are lists of UTF-16 code units (Common/Text); HMAC is a parameter, and
--   a method is upper case in ASCII. A timestamp has at most 16 digits, as a safe integer has.
-- - Ledger quantities are whole numbers that the database writes with twelve decimals: where a
--   reservation reads a sum of them, BigInt refuses it (`throws` of Admission/Reserve). Every budget
--   has the scope kind 'region'.
--
-- Not modelled: the envelope and the URLs of the worker protocol, the reconciliations and projections
-- of the start, the promotion of blobs after a commit, the cache of compiled validators, the HTTP
-- routes and clients, queries for display, templates and registration, the reading of service keys
-- from the environment, and the adapters that carry out external actions.
pub mod Common
pub mod Tables
pub mod Admission
pub mod Scheduler
pub mod Routing
pub mod Artifacts
pub mod Commands
pub mod Commit
pub mod Recovery
pub mod Policies
pub mod ExternalActions
pub mod Worker
pub mod ControlPlane
pub mod Tests
