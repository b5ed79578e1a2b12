-- ===== src/ControlPlane/ServiceAuth.antt =====
-- apps/control-plane/src/service-auth.ts: requests between an agent and the control plane are
-- signed, and accepted once.
pub mod Accepts
pub mod Remembered
pub mod Replay
use factory_floor.Common.{
  ℕ, ◌+◌, ◌-◌, ◌==◌, ◌&&◌, ◌||◌, ◌++◌, Bool, true, false, not, Option, none, some, List, [], ◌∷◌,
  map, Result, ok, err, if◌then◌else◌, leb, ltb, length, any_row,
}
use factory_floor.Common.Text.{Text, codes, same_text, is_blank}
use factory_floor.ControlPlane.Header.{Signature, signature_header, parse_signature_header}
use factory_floor.ControlPlane.Numerals.{
  decimal, value_of, is_timestamp, is_signature, from_hex, to_hex,
}
use factory_floor.ControlPlane.Nonces.{Nonces, Moment, consume_nonce}

pub data Direction : Type 0 where
  agent_to_ff ff_to_agent : Direction

-- ServiceAuthKeys
pub record ServiceAuthKeys : Type 0 where
  pub agent_to_factory_key : Text
  pub factory_to_agent_key : Text
  pub previous_agent_to_factory_key : Option Text
  pub previous_factory_to_agent_key : Option Text

-- What node:crypto computes: the HMAC-SHA256 of a payload under a key, as bytes, and the
-- hexadecimal digest of a body.
pub record Crypto : Type 0 where
  pub hmac : Text → Text → List ℕ
  pub sha256_hex : List ℕ → Text

pub data ServiceAuthError : Type 0 where
  header_required header_malformed unknown_key invalid_timestamp timestamp_skew nonce_required
        nonce_too_long signature_mismatch nonce_replayed :
      ServiceAuthError

-- keyId
unfoldable pub key_id : Direction → Text
key_id agent_to_ff = codes "ff-agent-to-ff-v1"
key_id ff_to_agent = codes "ff-ff-to-agent-v1"

-- currentKey
unfoldable pub current_key : ServiceAuthKeys → Direction → Text
current_key keys agent_to_ff = keys.agent_to_factory_key
current_key keys ff_to_agent = keys.factory_to_agent_key

abbrev pub previous_key : ServiceAuthKeys → Direction → Option Text
previous_key keys agent_to_ff = keys.previous_agent_to_factory_key
previous_key keys ff_to_agent = keys.previous_factory_to_agent_key

-- the keys to try; an empty previous key is none
unfoldable pub keys_from : Text → Option Text → List Text
keys_from current none = current ∷ []
keys_from current (some []) = current ∷ []
keys_from current (some (c ∷ k)) = current ∷ (c ∷ k) ∷ []

-- verificationKeys
unfoldable pub verification_keys : ServiceAuthKeys → Direction → List Text
unfolding current_key keys_from
verification_keys keys direction =
    keys_from (current_key keys direction) (previous_key keys direction)

-- toUpperCase of an HTTP method, which is ASCII
abbrev pub to_upper : ℕ → ℕ
to_upper c = if leb b'a' c && leb c b'z' then c - 32 else c

pub record Request : Type 0 where
  pub method : Text
  pub path : Text
  pub body : List ℕ

-- signaturePayload: the parts, joined by line feeds
unfoldable pub signature_payload : Crypto → Direction → Text → Text → Request → Text
unfolding key_id
signature_payload crypto direction timestamp nonce r =
    codes "1"
    ++ (10
        ∷ (key_id direction
            ++ (10
                ∷ (timestamp
                    ++ (10
                        ∷ (nonce
                            ++ (10
                                ∷ (map to_upper r.method
                                    ++ (10 ∷ (r.path ++ (10 ∷ crypto.sha256_hex r.body)))))))))))

abbrev pub max_safe_integer : ℕ
max_safe_integer = 9007199254740991

-- signRequest, at a time that is a safe integer
unfoldable pub sign_request : Crypto → ServiceAuthKeys → Direction → Request → ℕ → Text → Signature
unfolding key_id current_key signature_payload decimal to_hex
sign_request crypto keys direction r now nonce =
    let payload = signature_payload crypto direction (decimal 16 now) nonce r in
    record {
      key_id = key_id direction;
      timestamp = decimal 16 now;
      nonce = nonce;
      signature = to_hex (crypto.hmac (current_key keys direction) payload);
    }

abbrev pub max_nonce_length : ℕ
max_nonce_length = 128

abbrev pub max_skew_ms : ℕ
max_skew_ms = 30000

-- Math.abs(now - timestamp)
abbrev pub skew : ℕ → ℕ → ℕ
skew now timestamp = now - timestamp + (timestamp - now)

-- the loop over the keys, which tries each
unfoldable pub matches_a_key : Crypto → List Text → Text → List ℕ → Bool
matches_a_key crypto keys payload supplied =
    any_row (λ key. same_text supplied (crypto.hmac key payload)) keys

module _ (crypto : Crypto) (keys : ServiceAuthKeys) (max_skew : ℕ) (direction : Direction)
    (r : Request) where
  -- the checks on the nonce and on the signature
  unfoldable pub check_content : Signature → Result ServiceAuthError (Unit {0})
  unfolding is_blank is_signature verification_keys signature_payload from_hex matches_a_key
  check_content s =
      if is_blank s.nonce
      then err nonce_required
      else if ltb max_nonce_length (length s.nonce)
      then err nonce_too_long
      else if not (is_signature s.signature)
      then err signature_mismatch
      else if not (
          matches_a_key crypto (verification_keys keys direction)
            (signature_payload crypto direction s.timestamp s.nonce r) (from_hex s.signature))
      then err signature_mismatch
      else ok tt

  -- the checks on a header that was read, before its nonce is used
  unfoldable pub check_signature : Signature → ℕ → Result ServiceAuthError (Unit {0})
  unfolding key_id is_timestamp value_of check_content
  check_signature s now =
      if not (same_text s.key_id (key_id direction))
      then err unknown_key
      else if not (is_timestamp s.timestamp)
      then err invalid_timestamp
      else if ltb max_safe_integer (value_of 0 s.timestamp)
      then err invalid_timestamp
      else if ltb max_skew (skew now (value_of 0 s.timestamp))
      then err timestamp_skew
      else check_content s

  unfoldable pub use_nonce :
      Signature → Moment → Nonces → Result ServiceAuthError (Unit {0}) × Nonces
  unfolding consume_nonce
  use_nonce s m nonces =
      let (fresh, nonces') = consume_nonce s.key_id s.nonce m nonces in
      (if fresh then ok tt else err nonce_replayed, nonces')

  unfoldable pub check_and_use :
      Signature → Moment → Nonces → Result ServiceAuthError (Unit {0}) × Nonces
  unfolding check_signature use_nonce
  check_and_use s m nonces = elim (check_signature s m.now) [
    | err e ↦ (err e, nonces)
    | ok u ↦ use_nonce s m nonces
  ]

  -- verifyServiceRequest
  unfoldable pub verify_service_request :
      Option Text → Moment → Nonces → Result ServiceAuthError (Unit {0}) × Nonces
  unfolding parse_signature_header check_and_use
  verify_service_request none m nonces = (err header_required, nonces)
  verify_service_request (some []) m nonces = (err header_required, nonces)
  verify_service_request (some (c ∷ header)) m nonces = elim (parse_signature_header (c ∷ header)) [
    | none ↦ (err header_malformed, nonces)
    | some s ↦ check_and_use s m nonces
  ]
