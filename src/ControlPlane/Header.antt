-- ===== src/ControlPlane/Header.antt =====
-- signatureHeader and parseSignatureHeader of apps/control-plane/src/service-auth.ts.
use factory_floor.Common.{
  ◌≡◌, refl, ◌++◌, false, Option, none, some, [], ◌∷◌, All, ◌==◌, if◌then◌else◌,
}
use factory_floor.Common.Text.{
  Text, codes, strip_prefix, is_space, skip_spaces, cut_field, cut_field-append, cut_field-All,
  is_empty,
}

pub record Signature : Type 0 where
  pub key_id : Text
  pub timestamp : Text
  pub nonce : Text
  pub signature : Text

-- signatureHeader
unfoldable pub signature_header : Signature → Text
signature_header s =
    codes "HMAC-SHA256 keyId="
    ++ (s.key_id
        ++ (codes ",timestamp="
            ++ (s.timestamp
                ++ (codes ",nonce=" ++ (s.nonce ++ (codes ",signature=" ++ s.signature))))))

-- `\s+`
unfoldable pub some_spaces : Text → Option Text
unfolding skip_spaces
some_spaces [] = none
some_spaces (c ∷ s) = if is_space c then some (skip_spaces s) else none

-- `[^,]+`
unfoldable pub some_field : Text → Option (Text × Text)
unfolding cut_field
some_field s =
    let (field, rest) = cut_field s in if is_empty field then none else some (field, rest)

-- `label([^,]+)`
unfoldable pub labelled : Text → Text → Option (Text × Text)
unfolding strip_prefix some_field
labelled label s = elim (strip_prefix label s) [ none ↦ none | some t ↦ some_field t ]

-- the last field, which ends the header
unfoldable pub last_field : Text → Text → Option Text
unfolding labelled
last_field label s = elim (labelled label s) [
  | none ↦ none
  | some (field, rest) ↦ if is_empty rest then some field else none
]

-- parseSignatureHeader: a field is cut before the next label, which starts with a comma
unfoldable pub parse_signature_header : Text → Option Signature
unfolding strip_prefix some_spaces labelled last_field
parse_signature_header header = elim (strip_prefix (codes "HMAC-SHA256") header) [
  | none ↦ none
  | some s ↦ elim (some_spaces s) [
    | none ↦ none
    | some s ↦ elim (labelled (codes "keyId=") s) [
      | none ↦ none
      | some (key_id, s) ↦ elim (labelled (codes ",timestamp=") s) [
        | none ↦ none
        | some (timestamp, s) ↦ elim (labelled (codes ",nonce=") s) [
          | none ↦ none
          | some (nonce, s) ↦ elim (last_field (codes ",signature=") s) [
            | none ↦ none
            | some signature ↦ some (record {
              key_id = key_id;
              timestamp = timestamp;
              nonce = nonce;
              signature = signature;
            })
          ]
        ]
      ]
    ]
  ]
]

-- A text that a field of the header can hold.
abbrev pub IsField : Text → Type 0
IsField s = (is_empty s ≡ false) × All (λ c. (c == b',') ≡ false) s

-- A header is read back as it was written, whatever its fields hold but for commas and nothing.
pub parse_signature_header-signature_header :
    (s : Signature)
    → IsField s.key_id
    → IsField s.timestamp
    → IsField s.nonce
    → IsField s.signature
    → parse_signature_header (signature_header s) ≡ some s
unfolding parse_signature_header signature_header
parse_signature_header-signature_header s k t n g =
    let after_nonce = codes "signature=" ++ s.signature in
    let after_timestamp = codes "nonce=" ++ (s.nonce ++ b',' ∷ after_nonce) in
    let after_key = codes "timestamp=" ++ (s.timestamp ++ b',' ∷ after_timestamp) in
    let k_some = k.0 in
    let t_some = t.0 in
    let n_some = n.0 in
    let g_some = g.0 in
    rw
      (
        cut_field-append s.key_id after_key k.1,
        k_some,
        cut_field-append s.timestamp after_timestamp t.1,
        t_some,
        cut_field-append s.nonce after_nonce n.1,
        n_some,
        cut_field-All s.signature g.1,
        g_some,
        parse_signature_header,
        labelled,
        some_field,
        last_field,
      )
      refl
