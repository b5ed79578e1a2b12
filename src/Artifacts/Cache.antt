-- ===== src/Artifacts/Cache.antt =====
-- The receipts of artifact-validation-service.ts save the reading of a staged object, and change
-- nothing of the answer but the flag and the instance that say so.
use factory_floor.Common.{
  arith, ◌≡◌, true, false, none, some, List, [], ◌∷◌, Result, ok, err, All, any_row, first_where,
  ◌==◌, Bool-cases, Option-cases, Result-cases, inl, inr, subst, if◌then◌else◌, refl, sym,
}
use factory_floor.Tables.{Db, Staging, ArtifactSchema, Uuid, Json}
use factory_floor.Tables.Kinds.{is_staged}
use factory_floor.Artifacts.Validation.{
  Validator,
  Validated,
  ArtifactError.{staging_not_found, staging_not_active, schema_not_found, unsupported_media_type},
  ArtifactError,
  read_and_validate,
  validate_bytes,
  authoritative_schema,
  validate_staged_artifact,
  validate_unless_remembered,
}
use factory_floor.Artifacts.Validation.Receipts.{
  Receipt, fingerprint, is_remembered, remember_receipt, same_receipt, All-remember_receipt,
}

-- The content of the staged object is read and valid under the schema.
pub IsValid : Validator → Staging → ArtifactSchema → Type 0
IsValid v row schema = (j : Json) × (read_and_validate v row schema ≡ ok j)

-- A receipt is honest where the content that it stands for is valid under the schemas in force.
pub IsHonest : Validator → Db → Receipt → Type 0
IsHonest v db r =
    (row : Staging) (schema : ArtifactSchema)
    → authoritative_schema v row.schema_id db.schemas ≡ some schema
    → same_receipt (fingerprint row schema) r ≡ true
    → IsValid v row schema

abbrev pub answer : Result ArtifactError (Validated × List Receipt) → Result ArtifactError Validated
answer (ok (a, receipts)) = ok a
answer (err e) = err e

-- An answer given without receipts, as it is given with them: a remembered one has no instance.
abbrev pub with_receipts :
    List Receipt → Result ArtifactError Validated → Result ArtifactError Validated
with_receipts receipts (ok y) =
    if is_remembered (fingerprint y.row y.schema) receipts
    then ok (record y { instance_ = none; cached = true })
    else ok y
with_receipts receipts (err e) = err e

-- A success was read: its instance is the content of the row's staged object, valid under the schema.
pub IsRead : Validator → Result ArtifactError Validated → Type 0
IsRead v (ok y) =
    (y.cached ≡ false)
    × ((j : Json) × (y.instance_ ≡ some j) × (read_and_validate v y.row y.schema ≡ ok j))
IsRead v (err e) = Unit

remembered-IsHonest :
    (v : Validator) (db : Db) (row : Staging) (schema : ArtifactSchema) (receipts : List Receipt)
    → All (IsHonest v db) receipts
    → authoritative_schema v row.schema_id db.schemas ≡ some schema
    → is_remembered (fingerprint row schema) receipts ≡ true
    → IsValid v row schema
unfolding is_remembered any_row IsHonest
remembered-IsHonest v db row schema [] h s k = absurd (cc)
remembered-IsHonest v db row schema (r ∷ rs) h s k =
    elim (Bool-cases (same_receipt (fingerprint row schema) r)) [
      | inl e ↦ h.0 row schema s e
      | inr e ↦ remembered-IsHonest v db row schema rs h.1 s (ground arith)
    ]

validate_unless_remembered-answer :
    (v : Validator) (db : Db) (receipts : List Receipt) (row : Staging) (schema : ArtifactSchema)
    → All (IsHonest v db) receipts
    → authoritative_schema v row.schema_id db.schemas ≡ some schema
    → answer (validate_unless_remembered v receipts row schema)
      ≡ with_receipts receipts (answer (validate_unless_remembered v [] row schema))
unfolding validate_unless_remembered is_remembered any_row IsValid
validate_unless_remembered-answer v db receipts row schema h s =
    elim (Bool-cases (is_remembered (fingerprint row schema) receipts)) [
      | inl k ↦
          let valid = remembered-IsHonest v db row schema receipts h s k in rw (k, valid.1, k) refl
      | inr k ↦ elim (Result-cases (read_and_validate v row schema)) [
        | inl (a, e) ↦ rw (k, e, k) refl
        | inr (x, e) ↦ rw (k, e) refl
      ]
    ]

validate_unless_remembered-IsRead :
    (v : Validator) (row : Staging) (schema : ArtifactSchema)
    → IsRead v (answer (validate_unless_remembered v [] row schema))
unfolding validate_unless_remembered is_remembered any_row IsRead
validate_unless_remembered-IsRead v row schema =
    elim (Result-cases (read_and_validate v row schema)) [
      | inl (a, e) ↦ rw e (refl, (a, refl, e))
      | inr (x, e) ↦ rw e tt
    ]

-- Without receipts, a validation that succeeds has read the staged object: it answers its content,
-- valid under the schema, and says that it was not cached. With honest receipts it answers the same,
-- errors included, but for the instance, which is left out, and the flag, which is set, exactly where
-- the fingerprint of the row and its schema is remembered.
pub validate_staged_artifact-answer :
    (v : Validator) (receipts : List Receipt) (id : Uuid) (db : Db)
    → All (IsHonest v db) receipts
    → IsRead v (answer (validate_staged_artifact v [] id db))
      × (answer (validate_staged_artifact v receipts id db)
          ≡ with_receipts receipts (answer (validate_staged_artifact v [] id db)))
unfolding validate_staged_artifact IsRead
validate_staged_artifact-answer v receipts id db h =
    elim (Option-cases (first_where (λ s. s.id == id) db.staging)) [
      | inl e ↦ (read-err staging_not_found (ground arith), ground arith)
      | inr (row, e) ↦ elim (Bool-cases (is_staged row.status)) [
        | inr l ↦ (read-err staging_not_active (ground arith), ground arith)
        | inl l ↦ elim (Option-cases (authoritative_schema v row.schema_id db.schemas)) [
          | inl k ↦ (read-err schema_not_found (ground arith), ground arith)
          | inr (schema, k) ↦ elim (Bool-cases (v.is_json_media_type row.media_type)) [
            | inr m ↦ (read-err unsupported_media_type (ground arith), ground arith)
            | inl m ↦
                let t = validate_unless_remembered-IsRead v row schema in
                let u = validate_unless_remembered-answer v db receipts row schema h k in
                (subst (IsRead v) (ground arith) t, ground (arith, u))
          ]
        ]
      ]
    ]
  where
    read-err :
        (e : ArtifactError)
        → answer (validate_staged_artifact v [] id db) ≡ err e
        → IsRead v (answer (validate_staged_artifact v [] id db))
    read-err e q = subst (IsRead v) (sym q) tt

fingerprint-IsHonest :
    (v : Validator) (db : Db) (row : Staging) (schema : ArtifactSchema)
    → authoritative_schema v row.schema_id db.schemas ≡ some schema
    → IsValid v row schema
    → IsHonest v db (fingerprint row schema)
unfolding IsHonest IsValid read_and_validate validate_bytes
fingerprint-IsHonest v db row schema s k row' schema' s' t =
    let a : row'.staged_ref ≡ row.staged_ref = ground arith in
    let b : row'.digest ≡ row.digest = ground arith in
    let c : row'.size_bytes ≡ row.size_bytes = ground arith in
    let d : row'.schema_id ≡ row.schema_id = ground arith in
    let e : schema' ≡ schema = cc in (k.0, rw (a, b, c, e) k.1)

-- A validation that succeeds keeps the receipts honest: each stands for content that is read and
-- valid under the schemas in force.
pub validate_staged_artifact-IsHonest :
    (v : Validator) (receipts receipts' : List Receipt) (id : Uuid) (db : Db) (y : Validated)
    → All (IsHonest v db) receipts
    → validate_staged_artifact v receipts id db ≡ ok (y, receipts')
    → All (IsHonest v db) receipts'
unfolding validate_staged_artifact validate_unless_remembered IsValid
validate_staged_artifact-IsHonest v receipts receipts' id db y h e =
    elim (Option-cases (first_where (λ s. s.id == id) db.staging)) [
      | inl q ↦ absurd (ground arith)
      | inr (row, q) ↦ elim (Option-cases (authoritative_schema v row.schema_id db.schemas)) [
        | inl k ↦ absurd (ground arith)
        | inr (schema, k) ↦ elim (Bool-cases (is_remembered (fingerprint row schema) receipts)) [
          | inl m ↦ subst (All (IsHonest v db)) (ground arith) h
          | inr m ↦ elim (Result-cases (read_and_validate v row schema)) [
            | inr (x, p) ↦ absurd (ground arith)
            | inl (j, p) ↦
                let r : remember_receipt (fingerprint row schema) receipts ≡ receipts' =
                  ground arith in
                subst (All (IsHonest v db)) r (
                  All-remember_receipt (IsHonest v db) (fingerprint row schema) receipts h
                    (fingerprint-IsHonest v db row schema k (j, p)))
          ]
        ]
      ]
    ]
