-- ===== src/Tests/Authenticating.antt =====
-- A request from the agent, signed and verified.
use factory_floor.Common.{ℕ, ◌≡◌, refl, arith, true, none, some, List, [], ◌∷◌, ok, any_row}
use factory_floor.Common.Text.{Text, codes, is_blank}
use factory_floor.ControlPlane.Header.{
  signature_header, parse_signature_header, parse_signature_header-signature_header,
}
use factory_floor.ControlPlane.Nonces.{Nonces, Moment}
use factory_floor.ControlPlane.ServiceAuth.{
  agent_to_ff, ServiceAuthKeys, Crypto, Request, sign_request, verify_service_request,
}
use factory_floor.ControlPlane.ServiceAuth.Accepts.{IsHmac, verify_service_request-sign_request}
use factory_floor.ControlPlane.ServiceAuth.Replay.{same, verify_service_request_once}

abbrev thirty_two : ℕ → List ℕ
thirty_two n =
    n ∷ 1 ∷ 2 ∷ 3 ∷ 4 ∷ 5 ∷ 6 ∷ 7 ∷ 8 ∷ 9 ∷ 10 ∷ 11 ∷ 12 ∷ 13 ∷ 14 ∷ 15 ∷ 16 ∷ 17 ∷ 18 ∷ 19 ∷ 20
    ∷ 21 ∷ 22 ∷ 23 ∷ 24 ∷ 25 ∷ 26 ∷ 27 ∷ 28 ∷ 29 ∷ 30 ∷ 255 ∷ []

-- A stand-in for the digests.
abbrev crypto : Crypto
crypto = record { hmac = λ key payload. thirty_two 0; sha256_hex = λ body. codes "00" }

crypto-IsHmac : IsHmac crypto
crypto-IsHmac = record { bytes = λ key payload. omega arith; size = λ key payload. refl }

abbrev keys : ServiceAuthKeys
keys = record {
  agent_to_factory_key = codes "new";
  factory_to_agent_key = codes "other";
  previous_agent_to_factory_key = some (codes "old");
  previous_factory_to_agent_key = none;
}

abbrev request : Request
request = record { method = codes "post"; path = codes "/api"; body = 1 ∷ [] }

abbrev empty : Nonces
empty = record { rows = []; last_cleanup_at = 0 }

abbrev moment : Moment
moment = record { now = 1700000010000; created_at = 1700000010000; cleans = true }

abbrev later : Moment
later = record { now = 1700000020000; created_at = 1700000020000; cleans = true }

abbrev header : Text
unfolding signature_header sign_request
header = signature_header (sign_request crypto keys agent_to_ff request 1700000000000 (codes "n1"))

parse_signature_header-signature_header_example :
    parse_signature_header (
      signature_header (record {
        key_id = codes "k";
        timestamp = codes "12";
        nonce = codes "n";
        signature = codes "ab";
      }))
    ≡ some (record {
      key_id = codes "k";
      timestamp = codes "12";
      nonce = codes "n";
      signature = codes "ab";
    })
parse_signature_header-signature_header_example =
    parse_signature_header-signature_header
      (record {
        key_id = codes "k";
        timestamp = codes "12";
        nonce = codes "n";
        signature = codes "ab";
      })
      (refl, (refl, tt)) (refl, (refl, (refl, tt))) (refl, (refl, tt)) (refl, (refl, (refl, tt)))

verify_service_request-sign_request_example :
    (verify_service_request crypto keys 30000 agent_to_ff request
      (some (
        signature_header (sign_request crypto keys agent_to_ff request 1700000000000 (codes "n1"))))
      moment
      empty).0
    ≡ ok tt
unfolding is_blank any_row
verify_service_request-sign_request_example =
    verify_service_request-sign_request crypto keys 30000 agent_to_ff request 1700000000000
      (codes "n1") moment empty crypto-IsHmac (omega arith) (omega arith) (refl, (refl, (refl, tt)))
      refl (omega arith) refl

verify_service_request_once_example : ¬ (
    (verify_service_request crypto keys 30000 agent_to_ff request
      (some header)
      later
      (verify_service_request crypto keys 30000 agent_to_ff request (some header) moment empty).1).0
    ≡ ok tt)
unfolding header signature_header
verify_service_request_once_example =
    verify_service_request_once crypto keys 30000 agent_to_ff agent_to_ff request request header
      moment later 1700000010000 empty
      (verify_service_request crypto keys 30000 agent_to_ff request (some header) moment empty).1
      (omega arith) verify_service_request-sign_request_example same (omega arith)
