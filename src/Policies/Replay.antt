-- ===== src/Policies/Replay.antt =====
-- A decision on an approval, taken again.
use factory_floor.Common.{
  arith, ◌≡◌, ◌==◌, ◌&&◌, refl, true, false, not, some, List, [], ◌∷◌, ok, ok_subst, or_else,
  first_where, set_where, any_row, Bool-cases, Option-cases, inl, inr, ==_refl,
}
use factory_floor.Tables.{Db, Approval, ExternalAction, Uuid, Millis}
use factory_floor.Tables.Kinds.{is_requested}
use factory_floor.Policies.Approvals.{
  ApprovalDecision, ApprovalReceipt, Decision, decide_approval, record_decision, receipt, accepted,
  replayed, is_used_elsewhere, is_reused, is_same_decision, is_awaiting, is_under, decided_status,
}

abbrev decided : Millis → ApprovalDecision → Approval → Approval
decided now input a = record a {
  status = decided_status input.decision;
  decided_at = some now;
  decided_by = some input.principal_id;
  decision_reason = some input.reason;
  decision_client_request_id = some input.client_request_id;
  decision_request_digest = some input.digest;
}

-- A decision that is accepted is recorded for a pending approval, whose actions all await it.
module _ (now : Millis) (id : Uuid) (input : ApprovalDecision) (db : Db)
    (P : ApprovalReceipt × Db → Type 0)
    (again : (a : Approval)
      → first_where (λ (x : Approval). x.id == id) db.approvals ≡ some a
      → is_requested a.status ≡ false
      → is_used_elsewhere input id db.approvals ≡ false
      → is_same_decision input a ≡ true
      → P (receipt input id (or_else a.decision_reason input.reason) replayed, db))
    (first : (a : Approval)
      → first_where (λ (x : Approval). x.id == id) db.approvals ≡ some a
      → is_requested a.status ≡ true
      → is_used_elsewhere input id db.approvals ≡ false
      → any_row (λ (x : ExternalAction). is_under id x && not (is_awaiting x.status)) db.actions
        ≡ false
      → P (receipt input id input.reason accepted, record_decision now id input db)) where
  pub decide_approval-elim :
      (r : ApprovalReceipt × Db) → decide_approval now id input db ≡ ok r → P r
  unfolding decide_approval
  decide_approval-elim r run = elim (Bool-cases (is_used_elsewhere input id db.approvals)) [
    | inl u ↦ absurd (let run' = rw (u, decide_approval) at run in cc)
    | inr u ↦ elim (Option-cases (first_where (λ (x : Approval). x.id == id) db.approvals)) [
      | inl absent ↦ absurd (let run' = rw (u, absent, decide_approval) at run in cc)
      | inr (a, found) ↦ elim (Bool-cases (is_requested a.status)) [
        | inr done ↦ elim (Bool-cases (is_same_decision input a)) [
          | inr s ↦ absurd (let run' = rw (u, found, done, s, decide_approval) at run in cc)
          | inl s ↦
              ok_subst P (rw (u, found, done, s, decide_approval) at run) (again a found done u s)
        ]
        | inl open_ ↦
            elim (Bool-cases (
              any_row (λ (x : ExternalAction). is_under id x && not (is_awaiting x.status))
                db.actions)) [
                  | inl c ↦
                      absurd (let run' = rw (u, found, open_, c, decide_approval) at run in cc)
                  | inr c ↦
                      ok_subst P (rw (u, found, open_, c, decide_approval) at run)
                        (first a found open_ u c)
                ]
      ]
    ]
  ]

-- The decision's own approval is not taken for another one that used the request.
is_used_elsewhere-decided :
    (now : Millis) (id : Uuid) (input : ApprovalDecision) (xs : List Approval)
    → is_used_elsewhere input id xs ≡ false
    → is_used_elsewhere input id (set_where (λ (x : Approval). x.id == id) (decided now input) xs)
      ≡ false
unfolding is_used_elsewhere first_where set_where
is_used_elsewhere-decided now id input [] h = refl
is_used_elsewhere-decided now id input (x ∷ xs) h = elim (Bool-cases (x.id == id)) [
  | inl mine ↦ ground (arith, ==_refl input.principal_id, ==_refl input.client_request_id)
  | inr other ↦ elim (Bool-cases (is_reused input x)) [
    | inl used ↦ absurd (ground arith)
    | inr unused ↦ ground (arith, is_used_elsewhere-decided now id input xs (ground arith))
  ]
]

first_where-decided :
    (now : Millis) (id : Uuid) (input : ApprovalDecision) (xs : List Approval) (a : Approval)
    → first_where (λ (x : Approval). x.id == id) xs ≡ some a
    → first_where
        (λ (x : Approval). x.id == id)
        (set_where (λ (x : Approval). x.id == id) (decided now input) xs)
      ≡ some (decided now input a)
unfolding first_where set_where
first_where-decided now id input [] a h = absurd (cc)
first_where-decided now id input (x ∷ xs) a h = elim (Bool-cases (x.id == id)) [
  | inl mine ↦ ground arith
  | inr other ↦ ground (arith, first_where-decided now id input xs a (ground arith))
]

is_requested-decided : (d : Decision) → is_requested (decided_status d) ≡ false
is_requested-decided Decision.approve = refl
is_requested-decided Decision.reject = refl

-- A decision is taken once: after it has succeeded, the same decision, at any time, gets the same
-- receipt, marked as replayed, and changes nothing.
pub decide_approval_twice :
    (now later : Millis) (id : Uuid) (input : ApprovalDecision) (db db' : Db) (r : ApprovalReceipt)
    → decide_approval now id input db ≡ ok (r, db')
    → decide_approval later id input db' ≡ ok (record r { disposition = replayed }, db')
unfolding decide_approval record_decision
decide_approval_twice now later id input db db' r run =
    decide_approval-elim now id input db
      (λ p. decide_approval later id input p.1 ≡ ok (record p.0 { disposition = replayed }, p.1))
      (λ a found done u s. rw (u, found, done, s) refl)
      (λ a found open_ u c.
        rw
          (
            is_used_elsewhere-decided now id input db.approvals u,
            first_where-decided now id input db.approvals a found,
            is_requested-decided input.decision,
            ==_refl input.principal_id,
            ==_refl input.client_request_id,
            ==_refl input.digest,
          )
          refl)
      (r, db') run
