-- ===== src/Artifacts/Validation/Receipts.antt =====
-- The receipts of artifact-validation-service.ts: a map in insertion order, oldest first, from the
-- staging row to the fingerprint that was validated, of bounded size.
use factory_floor.Common.{
  ℕ, ◌≤◌, ◌<◌, ◌≡◌, inl, inr, ◌==◌, ◌&&◌, ◌++◌, Bool, true, List, [], ◌∷◌, arith, length,
  any_row-append, All, All-append, All-delete_where, any_row, delete_where, if◌then◌else◌, ltb,
  Bool-cases,
}
use factory_floor.Tables.{Staging, ArtifactSchema, Uuid, Digest, Name}

abbrev pub validation_receipt_limit : ℕ
validation_receipt_limit = 1024

pub record Receipt : Type 0 where
  pub id : Uuid
  pub staged_ref : Uuid
  pub digest : Digest
  pub size_bytes : ℕ
  pub schema_id : Uuid
  pub media_type : Name
  pub schema_digest : Digest

abbrev pub fingerprint : Staging → ArtifactSchema → Receipt
fingerprint row schema = record {
  id = row.id;
  staged_ref = row.staged_ref;
  digest = row.digest;
  size_bytes = row.size_bytes;
  schema_id = row.schema_id;
  media_type = row.media_type;
  schema_digest = schema.content_digest;
}

abbrev pub same_receipt : Receipt → Receipt → Bool
same_receipt a b =
    a.id == b.id
    && (a.staged_ref == b.staged_ref
        && (a.digest == b.digest
            && (a.size_bytes == b.size_bytes
                && (a.schema_id == b.schema_id
                    && (a.media_type == b.media_type && a.schema_digest == b.schema_digest)))))

-- validationReceipts.get(row.id) === fingerprint
unfoldable pub is_remembered : Receipt → List Receipt → Bool
is_remembered r receipts = any_row (same_receipt r) receipts

-- while (size > limit) delete the oldest
unfoldable pub drop_oldest : ℕ → List Receipt → List Receipt
drop_oldest limit [] = []
drop_oldest limit (r ∷ rs) =
    let rest = drop_oldest limit rs in if ltb limit (length (r ∷ rs)) then rest else r ∷ rs

-- rememberReceipt: delete, set, and drop the oldest
unfoldable pub remember_receipt : Receipt → List Receipt → List Receipt
unfolding drop_oldest
remember_receipt r receipts =
    drop_oldest validation_receipt_limit (delete_where (λ s. s.id == r.id) receipts ++ r ∷ [])

drop_oldest-length : (limit : ℕ) (rs : List Receipt) → length (drop_oldest limit rs) ≤ limit
unfolding drop_oldest
drop_oldest-length limit [] = omega arith
drop_oldest-length limit (r ∷ rs) = ground (arith, drop_oldest-length limit rs)

same_receipt_refl : (r : Receipt) → same_receipt r r ≡ true
same_receipt_refl r = ground arith

is_remembered-append : (r : Receipt) (rs : List Receipt) → is_remembered r (rs ++ r ∷ []) ≡ true
unfolding is_remembered
is_remembered-append r rs = any_row-append (same_receipt r) rs r (same_receipt_refl r)

drop_oldest-last :
    (limit : ℕ) (r : Receipt) (rs : List Receipt)
    → 0 < limit
    → is_remembered r (drop_oldest limit (rs ++ r ∷ [])) ≡ true
unfolding drop_oldest is_remembered any_row
drop_oldest-last limit r [] p = ground (arith, same_receipt_refl r)
drop_oldest-last limit r (s ∷ rs) p =
    ground (arith, drop_oldest-last limit r rs p, is_remembered-append r rs)

-- The receipts never exceed their limit, and the newest one is always among them.
pub remember_receipt-bounded :
    (r : Receipt) (rs : List Receipt)
    → (length (remember_receipt r rs) ≤ validation_receipt_limit)
      × (is_remembered r (remember_receipt r rs) ≡ true)
unfolding remember_receipt
remember_receipt-bounded r rs = (
  drop_oldest-length validation_receipt_limit (delete_where (λ s. s.id == r.id) rs ++ r ∷ []),
  drop_oldest-last validation_receipt_limit r (delete_where (λ s. s.id == r.id) rs) (omega arith),
)

All-drop_oldest :
    (P : Receipt → Type 0) (limit : ℕ) (rs : List Receipt) → All P rs → All P (drop_oldest limit rs)
unfolding drop_oldest
All-drop_oldest P limit [] h = tt
All-drop_oldest P limit (r ∷ rs) h = elim (Bool-cases (ltb limit (length (r ∷ rs)))) [
  | inl e ↦ rw e (All-drop_oldest P limit rs h.1)
  | inr e ↦ rw e h
]

-- What holds of the receipts and of a new one holds of the receipts that result.
pub All-remember_receipt :
    (P : Receipt → Type 0) (r : Receipt) (rs : List Receipt)
    → All P rs
    → P r
    → All P (remember_receipt r rs)
unfolding remember_receipt
All-remember_receipt P r rs h k =
    All-drop_oldest P validation_receipt_limit _
      (All-append P _ (r ∷ []) (All-delete_where P (λ s. s.id == r.id) rs h) (k, tt))
