-- ===== src/Commit/Steps.antt =====
-- The transaction of execution-commit-service.ts as steps on the database, with its errors.
use factory_floor.Common.{
  arith, ℕ, ◌≡◌, Bool, true, false, Option, none, some, List, Result, ok, err, Tx, ◌>>=◌, refl,
  Option-cases, inl, inr,
}
use factory_floor.Tables.{Db, Uuid, Millis, Json, Digest}
use factory_floor.Tables.Kinds.{Fault}
use factory_floor.Artifacts.Validation.{Validator}
use factory_floor.Artifacts.Validation.Receipts.{Receipt}

pub data CommitCode : Type 0 where
  inactive_attempt duplicate_conflicting_result stale_lease_token lease_expired
        stale_lifecycle_epoch invalid_resource_usage invalid_proposed_event
        external_action_unauthorized invalid_staged_artifact undeclared_output_port
        blob_store_unavailable artifact_conflict invalid_external_action_proposal
        duplicate_conflicting_external_action :
      CommitCode

-- ExecutionCommitError with its code and status, or another error
pub data CommitError : Type 0 where
  commit_error : (code : CommitCode) (status_code : ℕ) → CommitError
  thrown : Fault → CommitError

abbrev pub Commit : Type 0 → Type 0
Commit A = Tx Db CommitError A

-- The tables whose rows get a new id.
pub data Draw : Type 0 where
  submission artifact derivation action entry event output delivery attempt : Draw

-- The clock, the ids that createUuidV7 returns (by the table and its number of rows), and what
-- stands outside: the blob store's validator with the receipts of the process, the digest of a
-- payload, and the document `{ portName, artifactId }`.
pub record Env : Type 0 where
  pub now : Millis
  pub has_blob_store : Bool
  pub validator : Validator
  pub receipts : List Receipt
  pub payload_digest : Json → Digest
  pub output_document : Uuid → Uuid → Json
  pub uuid : Draw → ℕ → Uuid

unfoldable pub done : {A : Type 0} → A → Commit A
done a db = ok (a, db)

-- if (!test) throw new ExecutionCommitError(code, …, status)
unfoldable pub require : Bool → CommitCode → ℕ → Commit (Unit {0})
require true code status db = ok (tt, db)
require false code status db = err (commit_error code status)

-- executeTakeFirst, with an error where there is no row
unfoldable pub found : {A : Type 0} → (Db → Option A) → CommitError → Commit A
found query e db = elim (query db) [ none ↦ err e | some a ↦ ok (a, db) ]

unfoldable pub query : {A : Type 0} → (Db → A) → Commit A
query q db = ok (q db, db)

unfoldable pub write : (Db → Db) → Commit (Unit {0})
write f db = ok (tt, f db)

-- a statement of another service
unfoldable pub during : {A : Type 0} → (Db → Result Fault (A × Db)) → Commit A
during m db = elim (m db) [ ok r ↦ ok r | err e ↦ err (thrown e) ]

pub bind-eq-ok :
    {A B : Type 0} (r : Result CommitError (A × Db)) (f : A → Commit B) (b : B × Db)
    → (elim r [ ok (a, db') ↦ f a db' | err e ↦ err e ]) ≡ ok b
    → (a : A) × (db' : Db) × (r ≡ ok (a, db')) × (f a db' ≡ ok b)
bind-eq-ok (ok (a, db')) f b e = (a, db', refl, e)
bind-eq-ok (err x) f b e = absurd (cc)

-- Inversion of a successful bind.
pub >>=-eq-ok :
    {A B : Type 0} (m : Commit A) (f : A → Commit B) (db : Db) (b : B × Db)
    → (m >>= f) db ≡ ok b
    → (a : A) × (db' : Db) × (m db ≡ ok (a, db')) × (f a db' ≡ ok b)
>>=-eq-ok m f db b e = bind-eq-ok (m db) f b e

-- A step that succeeded had its test true and left the database alone.
pub require-eq-ok :
    (b : Bool) (code : CommitCode) (status : ℕ) (db : Db) (r : Unit {0} × Db)
    → require b code status db ≡ ok r
    → (b ≡ true) × (r.1 ≡ db)
unfolding require
require-eq-ok true code status db r e = (refl, ground arith)
require-eq-ok false code status db r e = absurd (cc)

-- The first step of a chain that succeeded succeeded too, and kept the database.
pub require-then :
    {A : Type 0} (b : Bool) (code : CommitCode) (status : ℕ) (m : Commit A) (db : Db) (r : A × Db)
    → (require b code status >>= λ _. m) db ≡ ok r
    → (b ≡ true) × (m db ≡ ok r)
unfolding require
require-then true code status m db r e = (refl, e)
require-then false code status m db r e = absurd (cc)

pub found-then :
    {A B : Type 0} (q : Db → Option A) (x : CommitError) (f : A → Commit B) (db : Db) (r : B × Db)
    → (found q x >>= f) db ≡ ok r
    → (a : A) × (q db ≡ some a) × (f a db ≡ ok r)
unfolding found
found-then q x f db r e = elim (Option-cases (q db)) [
  | inl h ↦ absurd (ground arith)
  | inr (a, h) ↦ (a, h, ground arith)
]
