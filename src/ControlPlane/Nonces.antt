-- ===== src/ControlPlane/Nonces.antt =====
-- apps/control-plane/src/nonce-repository.ts: the nonces that were used, kept for five minutes.
use factory_floor.Common.{
  ℕ, ◌+◌, ◌&&◌, ◌++◌, Bool, true, false, List, [], ◌∷◌, if◌then◌else◌, any_row, delete_where, leb,
  ltb,
}
use factory_floor.Common.Text.{Text, same_text}

abbrev pub nonce_retention_ms : ℕ
nonce_retention_ms = 300000

abbrev pub nonce_cleanup_interval_ms : ℕ
nonce_cleanup_interval_ms = 30000

-- service_request_nonces
pub record NonceRow : Type 0 where
  pub key_id : Text
  pub nonce : Text
  pub created_at : ℕ

-- The table, and the variable of the repository's closure.
pub record Nonces : Type 0 where
  pub rows : List NonceRow
  pub last_cleanup_at : ℕ

-- A moment at which a nonce is used: the process's clock, the database's, and whether a cleanup
-- would succeed.
pub record Moment : Type 0 where
  pub now : ℕ
  pub created_at : ℕ
  pub cleans : Bool

-- the unique index on (key_id, nonce)
abbrev pub is_nonce : Text → Text → NonceRow → Bool
is_nonce key_id nonce r = same_text r.key_id key_id && same_text r.nonce nonce

-- created_at < now - NONCE_RETENTION_MS
abbrev pub is_old : ℕ → NonceRow → Bool
is_old now r = ltb (r.created_at + nonce_retention_ms) now

unfoldable pub clean_up : Moment → Nonces → Nonces
clean_up m s =
    if leb (s.last_cleanup_at + nonce_cleanup_interval_ms) m.now
    then record s {
      rows = if m.cleans then delete_where (is_old m.now) s.rows else s.rows;
      last_cleanup_at = m.now;
    }
    else s

-- consumeNonce
unfoldable pub consume_nonce : Text → Text → Moment → Nonces → Bool × Nonces
unfolding clean_up
consume_nonce key_id nonce m s = if any_row (is_nonce key_id nonce) s.rows then (false, s) else (
  true,
  clean_up m (record s {
    rows = s.rows ++ record { key_id = key_id; nonce = nonce; created_at = m.created_at } ∷ [];
  }),
)
