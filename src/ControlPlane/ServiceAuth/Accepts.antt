-- ===== src/ControlPlane/ServiceAuth/Accepts.antt =====
-- What signRequest of service-auth.ts signs, verifyServiceRequest accepts.
use factory_floor.Common.{
  arith, ℕ, ◌≤◌, ◌<◌, ◌≡◌, refl, true, false, Option, none, some, [], ◌∷◌, All, ok, le→not_ltb,
  length, any_row,
}
use factory_floor.Common.Text.{Text, same_text_refl, is_blank}
use factory_floor.ControlPlane.Header.{
  Signature, IsField, signature_header, parse_signature_header,
  parse_signature_header-signature_header,
}
use factory_floor.ControlPlane.Numerals.{
  decimal, value_of-decimal, decimal-is_timestamp, decimal-IsField, to_hex-is_signature,
  from_hex-to_hex,
}
use factory_floor.ControlPlane.Nonces.{Nonces, Moment, is_nonce, consume_nonce}
use factory_floor.ControlPlane.ServiceAuth.{
  Direction, agent_to_ff, ff_to_agent, ServiceAuthKeys, Crypto, Request, key_id, current_key,
  verification_keys, keys_from, previous_key, signature_payload, sign_request, matches_a_key,
  check_signature, check_content, use_nonce, check_and_use, verify_service_request,
  max_safe_integer, max_nonce_length, skew,
}

-- HMAC-SHA256 gives 32 bytes.
pub record IsHmac (crypto : Crypto) : Type 0 where
  pub bytes : (key payload : Text) → All (λ b. b < 256) (crypto.hmac key payload)
  pub size : (key payload : Text) → length (crypto.hmac key payload) ≡ 32

key_id-IsField : (d : Direction) → IsField (key_id d)
unfolding key_id
key_id-IsField agent_to_ff = (refl, ground arith)
key_id-IsField ff_to_agent = (refl, ground arith)

-- The current key is the first that is tried.
keys_from-matches :
    (crypto : Crypto) (current payload : Text) (previous : Option Text)
    → matches_a_key crypto (keys_from current previous) payload (crypto.hmac current payload) ≡ true
unfolding matches_a_key keys_from any_row
keys_from-matches crypto current payload none =
    ground (arith, same_text_refl (crypto.hmac current payload))
keys_from-matches crypto current payload (some []) =
    ground (arith, same_text_refl (crypto.hmac current payload))
keys_from-matches crypto current payload (some (c ∷ k)) =
    ground (arith, same_text_refl (crypto.hmac current payload))

module _ (crypto : Crypto) (hmac : IsHmac crypto) (keys : ServiceAuthKeys) (max_skew : ℕ)
    (direction : Direction) (r : Request) (signed_at : ℕ) (nonce : Text) (m : Moment)
    (safe : signed_at ≤ max_safe_integer) (near : skew m.now signed_at ≤ max_skew)
    (field : IsField nonce) (shown : is_blank nonce ≡ false)
    (short : length nonce ≤ max_nonce_length) where
  abbrev signed : Signature
  signed = sign_request crypto keys direction r signed_at nonce

  check_signature-signed : check_signature crypto keys max_skew direction r signed m.now ≡ ok tt
  unfolding check_signature sign_request verification_keys
  check_signature-signed =
      let payload = signature_payload crypto direction (decimal 16 signed_at) nonce r in
      let digest = crypto.hmac (current_key keys direction) payload in
      let value = value_of-decimal 16 signed_at (omega arith) in
      let in_range = le→not_ltb max_safe_integer signed_at safe in
      let in_time = le→not_ltb max_skew (skew m.now signed_at) near in
      let fits = le→not_ltb max_nonce_length (length nonce) short in
      let (hex, some_, commas) =
        to_hex-is_signature digest (hmac.bytes (current_key keys direction) payload)
          (hmac.size (current_key keys direction) payload) in
      rw
        (
          same_text_refl (key_id direction),
          decimal-is_timestamp signed_at,
          value,
          in_range,
          in_time,
          shown,
          fits,
          hex,
          from_hex-to_hex digest (hmac.bytes (current_key keys direction) payload),
          keys_from-matches crypto (current_key keys direction) payload
              (previous_key keys direction),
          check_signature,
          check_content,
        )
        refl

  use_nonce-fresh :
      (nonces : Nonces)
      → any_row (is_nonce (key_id direction) nonce) nonces.rows ≡ false
      → (use_nonce crypto keys max_skew direction r signed m nonces).0 ≡ ok tt
  unfolding use_nonce consume_nonce sign_request
  use_nonce-fresh nonces fresh = rw (fresh, use_nonce, consume_nonce) refl

parse_signature_header-nil : (s : Signature) → parse_signature_header [] ≡ some s → ⊥
unfolding parse_signature_header
parse_signature_header-nil s e = cc

-- A header is read: it is not empty, and what it is read as is checked.
verify_service_request-parsed :
    (crypto : Crypto) (keys : ServiceAuthKeys) (max_skew : ℕ) (direction : Direction) (r : Request)
    (header : Text) (s : Signature) (m : Moment) (nonces : Nonces)
    → parse_signature_header header ≡ some s
    → verify_service_request crypto keys max_skew direction r (some header) m nonces
      ≡ check_and_use crypto keys max_skew direction r s m nonces
unfolding verify_service_request
verify_service_request-parsed crypto keys max_skew direction r [] s m nonces e =
    absurd (parse_signature_header-nil s e)
verify_service_request-parsed crypto keys max_skew direction r (c ∷ header) s m nonces e =
    rw (e, verify_service_request) refl

-- What one side signs the other accepts: a request that is signed with the current key at a time
-- that is a safe integer, and whose header arrives within the skew, is accepted for the same
-- method, path and body, if its nonce is new, is not blank, has no comma and at most 128 code
-- units.
pub verify_service_request-sign_request :
    (crypto : Crypto) (keys : ServiceAuthKeys) (max_skew : ℕ) (direction : Direction) (r : Request)
    (signed_at : ℕ) (nonce : Text) (m : Moment) (nonces : Nonces)
    → IsHmac crypto
    → signed_at ≤ max_safe_integer
    → skew m.now signed_at ≤ max_skew
    → IsField nonce
    → is_blank nonce ≡ false
    → length nonce ≤ max_nonce_length
    → any_row (is_nonce (key_id direction) nonce) nonces.rows ≡ false
    → (verify_service_request crypto keys max_skew direction r
        (some (signature_header (sign_request crypto keys direction r signed_at nonce)))
        m
        nonces).0
      ≡ ok tt
unfolding sign_request check_and_use
verify_service_request-sign_request crypto keys max_skew direction r signed_at nonce m nonces hmac
      safe near field shown short fresh =
    let payload = signature_payload crypto direction (decimal 16 signed_at) nonce r in
    let key = current_key keys direction in
    let (hex, some_, commas) =
      to_hex-is_signature (crypto.hmac key payload) (hmac.bytes key payload)
        (hmac.size key payload) in
    let s = sign_request crypto keys direction r signed_at nonce in
    let read =
      parse_signature_header-signature_header s (key_id-IsField direction)
        (decimal-IsField signed_at) field (some_, commas) in
    rw
      (
        verify_service_request-parsed crypto keys max_skew direction r (signature_header s) s m
            nonces read,
        check_signature-signed crypto hmac keys max_skew direction r signed_at nonce m safe near
            field shown short,
        check_and_use,
      )
      (use_nonce-fresh crypto hmac keys max_skew direction r signed_at nonce m safe near field shown
        short nonces fresh)
