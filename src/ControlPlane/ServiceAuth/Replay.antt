-- ===== src/ControlPlane/ServiceAuth/Replay.antt =====
-- A signed request is accepted once: the nonces of nonce-repository.ts outlive the time in which
-- verifyServiceRequest of service-auth.ts accepts a timestamp.
use factory_floor.Common.{
  some_injective, arith, ℕ, ◌+◌, ◌*◌, ◌≤◌, ◌≡◌, refl, sym, ◌∙◌, subst, ◌++◌, true, false, not,
  Option, none, some, [], ◌∷◌, Result, ok, err, passes, if◌then◌else◌, ltb, not_ltb→le, any_row,
  any_row-append, Bool-cases, Result-cases, Option-cases, inl, inr,
}
use factory_floor.Common.Text.{Text, same_text}
use factory_floor.ControlPlane.Header.{Signature, parse_signature_header}
use factory_floor.ControlPlane.Numerals.{value_of, is_timestamp}
use factory_floor.ControlPlane.Nonces.{
  Nonces, Moment, is_nonce, clean_up, consume_nonce, nonce_retention_ms,
}
use factory_floor.ControlPlane.ServiceAuth.{
  Direction, ServiceAuthKeys, Crypto, Request, ServiceAuthError, unknown_key, invalid_timestamp,
  timestamp_skew, check_content, key_id, check_signature, use_nonce, check_and_use,
  verify_service_request, skew, max_safe_integer,
}
use factory_floor.ControlPlane.ServiceAuth.Remembered.{
  is_kept, IsRemembered, clean_up-IsRemembered, consume_nonce-IsRemembered, remembered_used,
  own-kept,
}

-- What a moment's clocks and retention have to do with the skew: a row is kept for as long as its
-- request's timestamp is accepted.
abbrev pub OutlivesSkew : ℕ → Moment → Type 0
OutlivesSkew max_skew m = m.now + 2 * max_skew ≤ m.created_at + nonce_retention_ms

-- The nonces over time: verifications at moments that do not go back, and restarts, which forget
-- when the last cleanup was.
module _ (crypto : Crypto) (keys : ServiceAuthKeys) (max_skew : ℕ) where
  pub data Later (t : ℕ) (s : Nonces) : ℕ → Nonces → Type 0 where
    same : Later t s t s
    verified :
        {t' : ℕ} {s' : Nonces} (direction : Direction) (r : Request) (header : Option Text)
        (m : Moment)
        → Later t s t' s'
        → t' ≤ m.now
        → Later t s m.now (verify_service_request crypto keys max_skew direction r header m s').1
    restarted :
        {t' : ℕ} {s' : Nonces} → Later t s t' s' → Later t s t' (record s' { last_cleanup_at = 0 })

  module _ (key nonce : Text) (stamp : ℕ) where
    check_and_use-IsRemembered :
        (direction : Direction) (r : Request) (sig : Signature) (m : Moment) (s : Nonces)
        → m.now ≤ stamp + nonce_retention_ms
        → IsRemembered key nonce stamp s
        → IsRemembered key nonce stamp (check_and_use crypto keys max_skew direction r sig m s).1
    unfolding check_and_use use_nonce
    check_and_use-IsRemembered direction r sig m s soon h =
        elim (Result-cases (check_signature crypto keys max_skew direction r sig m.now)) [
          | inr (e, refused) ↦ rw (refused, check_and_use) h
          | inl (u, passed) ↦
              rw (passed, check_and_use)
                (consume_nonce-IsRemembered key nonce stamp sig.key_id sig.nonce m s soon h)
        ]

    verify_service_request-IsRemembered :
        (direction : Direction) (r : Request) (header : Option Text) (m : Moment) (s : Nonces)
        → m.now ≤ stamp + nonce_retention_ms
        → IsRemembered key nonce stamp s
        → IsRemembered key nonce stamp
            (verify_service_request crypto keys max_skew direction r header m s).1
    unfolding verify_service_request
    verify_service_request-IsRemembered direction r none m s soon h = h
    verify_service_request-IsRemembered direction r (some []) m s soon h = h
    verify_service_request-IsRemembered direction r (some (c ∷ header)) m s soon h =
        elim (Option-cases (parse_signature_header (c ∷ header))) [
          | inl unread ↦ rw (unread, verify_service_request) h
          | inr (sig, read) ↦
              rw (read, verify_service_request)
                (check_and_use-IsRemembered direction r sig m s soon h)
        ]

    Later-IsRemembered :
        {t : ℕ} {s : Nonces} {t' : ℕ} {s' : Nonces}
        → Later t s t' s'
        → t' ≤ stamp + nonce_retention_ms
        → IsRemembered key nonce stamp s
        → IsRemembered key nonce stamp s'
    Later-IsRemembered same soon h = h
    Later-IsRemembered (verified {t'} {s'} direction r header m later order) soon h =
        verify_service_request-IsRemembered direction r header m s' soon
          (Later-IsRemembered later (omega arith) h)
    Later-IsRemembered (restarted later) soon h = Later-IsRemembered later soon h

  -- What an accepted header tells.
  record Accepted (direction : Direction) (r : Request) (header : Text) (m : Moment) (s : Nonces)
      (sig : Signature) : Type 0 where
    read : parse_signature_header header ≡ some sig
    checked : check_signature crypto keys max_skew direction r sig m.now ≡ ok tt
    fresh : any_row (is_nonce sig.key_id sig.nonce) s.rows ≡ false
    after :
        (verify_service_request crypto keys max_skew direction r (some header) m s).1
        ≡ clean_up m (record s {
          rows =
              s.rows
              ++ record { key_id = sig.key_id; nonce = sig.nonce; created_at = m.created_at } ∷ [];
        })

  verify_service_request-Accepted :
      (direction : Direction) (r : Request) (header : Text) (m : Moment) (s : Nonces)
      → (verify_service_request crypto keys max_skew direction r (some header) m s).0 ≡ ok tt
      → (sig : Signature) × Accepted direction r header m s sig
  unfolding verify_service_request check_and_use use_nonce consume_nonce
  verify_service_request-Accepted direction r [] m s h = absurd (cc)
  verify_service_request-Accepted direction r (c ∷ header) m s h =
      elim (Option-cases (parse_signature_header (c ∷ header))) [
        | inl unread ↦ absurd (let h' = rw (unread, verify_service_request) at h in cc)
        | inr (sig, read) ↦
            elim (Result-cases (check_signature crypto keys max_skew direction r sig m.now)) [
              | inr (e, refused) ↦
                  absurd
                    (let h' = rw (read, refused, verify_service_request, check_and_use) at h in cc)
              | inl (u, passed) ↦
                  elim (Bool-cases (any_row (is_nonce sig.key_id sig.nonce) s.rows)) [
                    | inl used ↦ absurd (
                        let h' =
                          rw
                            (
                              read, passed, used, verify_service_request, check_and_use, use_nonce,
                              consume_nonce,
                            )
                            at h in
                        cc)
                    | inr fresh ↦ (
                      sig,
                      record {
                        read = read;
                        checked = passed;
                        fresh = fresh;
                        after =
                            rw
                              (
                                read, passed, fresh, verify_service_request, check_and_use,
                                use_nonce, consume_nonce,
                              )
                              refl;
                      },
                    )
                  ]
            ]
      ]

  check_signature-skew :
      (direction : Direction) (r : Request) (sig : Signature) (now : ℕ)
      → check_signature crypto keys max_skew direction r sig now ≡ ok tt
      → skew now (value_of 0 sig.timestamp) ≤ max_skew
  unfolding check_signature
  check_signature-skew direction r sig now h =
      let content = check_content crypto keys max_skew direction r sig in
      let timestamp = value_of 0 sig.timestamp in
      let near : Result ServiceAuthError (Unit {0}) =
        if ltb max_skew (skew now timestamp) then err timestamp_skew else content in
      let safe : Result ServiceAuthError (Unit {0}) =
        if ltb max_safe_integer timestamp then err invalid_timestamp else near in
      let formed : Result ServiceAuthError (Unit {0}) =
        if not (is_timestamp sig.timestamp) then err invalid_timestamp else safe in
      let known = passes (not (same_text sig.key_id (key_id direction))) unknown_key formed h in
      let in_form = passes (not (is_timestamp sig.timestamp)) invalid_timestamp safe known.1 in
      let in_range = passes (ltb max_safe_integer timestamp) invalid_timestamp near in_form.1 in
      let in_time = passes (ltb max_skew (skew now timestamp)) timestamp_skew content in_range.1 in
      not_ltb→le max_skew (skew now timestamp) in_time.0

-- A signed request is accepted once: where the nonce of an accepted request outlives its timestamp
-- (which holds for the default skew of 30 s if the database's clock is at most 4 minutes behind),
-- the same header is refused at every later moment, for whatever request, after whatever other
-- requests and restarts.
pub verify_service_request_once :
    (crypto : Crypto) (keys : ServiceAuthKeys) (max_skew : ℕ) (direction direction' : Direction)
    (r r' : Request) (header : Text) (m m' : Moment) (t : ℕ) (s s' : Nonces)
    → OutlivesSkew max_skew m
    → (verify_service_request crypto keys max_skew direction r (some header) m s).0 ≡ ok tt
    → Later crypto keys max_skew m.now
        (verify_service_request crypto keys max_skew direction r (some header) m s).1
        t
        s'
    → t ≤ m'.now
    → ¬ ((verify_service_request crypto keys max_skew direction' r' (some header) m' s').0 ≡ ok tt)
verify_service_request_once crypto keys max_skew direction direction' r r' header m m' t s s' lives
      first later order second =
    let (sig, one) =
      verify_service_request-Accepted crypto keys max_skew direction r header m s first in
    let (sig', two) =
      verify_service_request-Accepted crypto keys max_skew direction' r' header m' s' second in
    let same_sig : sig ≡ sig' = some_injective sig sig' (sym one.read ∙ two.read) in
    let near = check_signature-skew crypto keys max_skew direction r sig m.now one.checked in
    let near' = check_signature-skew crypto keys max_skew direction' r' sig m'.now (
      subst (λ x. check_signature crypto keys max_skew direction' r' x m'.now ≡ ok tt)
        (sym same_sig) two.checked) in
    let kept =
      subst (λ n. IsRemembered sig.key_id sig.nonce m.created_at n) (sym one.after)
        (clean_up-IsRemembered sig.key_id sig.nonce m.created_at m _ (omega arith) (
          any_row-append (is_kept sig.key_id sig.nonce m.created_at) s.rows _
            (own-kept sig.key_id sig.nonce m.created_at))) in
    let used = remembered_used sig.key_id sig.nonce m.created_at s'.rows (
      Later-IsRemembered crypto keys max_skew sig.key_id sig.nonce m.created_at later (omega arith)
        kept) in
    let unused =
      subst (λ (x : Signature). any_row (is_nonce x.key_id x.nonce) s'.rows ≡ false) (sym same_sig)
        two.fresh in
    absurd (let contra : true ≡ false = sym used ∙ unused in cc)
