-- ===== src/ControlPlane/ServiceAuth/Remembered.antt =====
-- How long nonce-repository.ts remembers a nonce: through the cleanups of the skew that follows.
use factory_floor.Common.{
  arith, ℕ, ◌+◌, ◌≤◌, ◌≡◌, ◌&&◌, ◌||◌, refl, ◌++◌, Bool, true, false, List, [], ◌∷◌, leb, ltb,
  any_row, delete_where, Bool-cases, inl, inr,
}
use factory_floor.Common.Text.{Text, same_text_refl}
use factory_floor.ControlPlane.Nonces.{
  Nonces, NonceRow, Moment, is_nonce, is_old, clean_up, consume_nonce, nonce_retention_ms,
  nonce_cleanup_interval_ms,
}
use factory_floor.ControlPlane.ServiceAuth.{key_id}

-- A row of this key and nonce that was written at `stamp` or later.
abbrev pub is_kept : Text → Text → ℕ → NonceRow → Bool
is_kept key_id nonce stamp row = is_nonce key_id nonce row && leb stamp row.created_at

abbrev pub IsRemembered : Text → Text → ℕ → Nonces → Type 0
IsRemembered key_id nonce stamp s = any_row (is_kept key_id nonce stamp) s.rows ≡ true

old-not_kept :
    (stamp now created : ℕ)
    → now ≤ stamp + nonce_retention_ms
    → ltb (created + nonce_retention_ms) now ≡ true
    → leb stamp created ≡ false
old-not_kept stamp now created soon old = ground arith

or_right : (a b c : Bool) → a ≡ false → ((c && a) || b) ≡ true → b ≡ true
or_right a b c e h = ground arith

module _ (key nonce : Text) (stamp : ℕ) where
  delete_where-kept :
      (now : ℕ) (rows : List NonceRow)
      → now ≤ stamp + nonce_retention_ms
      → any_row (is_kept key nonce stamp) rows ≡ true
      → any_row (is_kept key nonce stamp) (delete_where (is_old now) rows) ≡ true
  unfolding any_row delete_where
  delete_where-kept now [] soon h = absurd (cc)
  delete_where-kept now (x ∷ rows) soon h = elim (Bool-cases (is_old now x)) [
    | inl old ↦ rw old (
        delete_where-kept now rows soon (
          or_right (leb stamp x.created_at) (any_row (is_kept key nonce stamp) rows)
            (is_nonce key nonce x) (old-not_kept stamp now x.created_at soon old) h))
    | inr new ↦ rw new (elim (Bool-cases (is_kept key nonce stamp x)) [
      | inl e ↦ rw e refl
      | inr e ↦ rw e (delete_where-kept now rows soon (rw e at h))
    ])
  ]

  append-kept :
      (rows : List NonceRow) (x : NonceRow)
      → any_row (is_kept key nonce stamp) rows ≡ true
      → any_row (is_kept key nonce stamp) (rows ++ x ∷ []) ≡ true
  unfolding any_row
  append-kept [] x h = absurd (cc)
  append-kept (y ∷ rows) x h = elim (Bool-cases (is_kept key nonce stamp y)) [
    | inl e ↦ rw e refl
    | inr e ↦ rw e (append-kept rows x (rw e at h))
  ]

  pub clean_up-IsRemembered :
      (m : Moment) (s : Nonces)
      → m.now ≤ stamp + nonce_retention_ms
      → IsRemembered key nonce stamp s
      → IsRemembered key nonce stamp (clean_up m s)
  unfolding clean_up
  clean_up-IsRemembered m s soon h =
      elim (Bool-cases (leb (s.last_cleanup_at + nonce_cleanup_interval_ms) m.now)) [
        | inr early ↦ rw (early, clean_up) h
        | inl due ↦ elim (Bool-cases m.cleans) [
          | inr fails ↦ rw (due, fails, clean_up) h
          | inl works ↦ rw (due, works, clean_up) (delete_where-kept m.now s.rows soon h)
        ]
      ]

  pub consume_nonce-IsRemembered :
      (k n : Text) (m : Moment) (s : Nonces)
      → m.now ≤ stamp + nonce_retention_ms
      → IsRemembered key nonce stamp s
      → IsRemembered key nonce stamp (consume_nonce k n m s).1
  unfolding consume_nonce
  consume_nonce-IsRemembered k n m s soon h = elim (Bool-cases (any_row (is_nonce k n) s.rows)) [
    | inl used ↦ rw (used, consume_nonce) h
    | inr fresh ↦
        rw (fresh, consume_nonce) (clean_up-IsRemembered m _ soon (append-kept s.rows _ h))
  ]

  pub remembered_used :
      (rows : List NonceRow)
      → any_row (is_kept key nonce stamp) rows ≡ true
      → any_row (is_nonce key nonce) rows ≡ true
  unfolding any_row
  remembered_used [] h = absurd (cc)
  remembered_used (x ∷ rows) h = elim (Bool-cases (is_nonce key nonce x)) [
    | inl e ↦ rw e refl
    | inr e ↦ rw e (remembered_used rows (rw e at h))
  ]

pub own-kept :
    (key nonce : Text) (stamp : ℕ)
    → is_kept key nonce stamp (record { key_id = key; nonce = nonce; created_at = stamp }) ≡ true
own-kept key nonce stamp = rw (same_text_refl key, same_text_refl nonce) (ground arith)
