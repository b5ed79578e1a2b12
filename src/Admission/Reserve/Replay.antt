-- ===== src/Admission/Reserve/Replay.antt =====
-- Idempotency and refusal in reserveInTransaction.
use mathlib.Core.List.{append-nil, append_assoc}
use mathlib.Core.List.Perm
use factory_floor.Common.{
  Bool-cases, ℕ, ◌+◌, ◌≡◌, ◌≢◌, refl, sym, ap, ◌∙◌, subst, inl, inr, ◌++◌, Bool, true, List, [],
  ◌∷◌, map, Perm, All, All-mono, All-order_by, ok_injective, rows_where, rows_where-append,
  rows_where-All, order_by, order_by-perm, order_by-eq-nil, leb, Option-cases, ==_refl, ok,
}
use factory_floor.Common.Ints.{pos}
use factory_floor.Tables.{Region, Uuid}
use factory_floor.Tables.QuotaRows.{
  Quota, Budget, Reservation, IdempotencyKey, empty_key, execution_lease, action_call, caller_key,
  same_key, admit,
}
use factory_floor.Admission.Usage.{applicable_budgets}
use factory_floor.Admission.Reserve.{
  ReserveResourceInput, AdmissionResult, record_decision, new_reservation, admitted,
  limiting_budget, reserve_each, reserve_against, reserve_unless_prior, reserve_in_transaction,
  throws, prior_reservations,
}
use factory_floor.Admission.Reserve.Limits.{limiting_budget-ne-admit}

same_key_refl : (k : IdempotencyKey) → same_key k k ≡ true
same_key_refl empty_key = refl
same_key_refl (execution_lease a) = ==_refl a
same_key_refl (action_call a) = ==_refl a
same_key_refl (caller_key a) = ==_refl a

module _ (input : ReserveResourceInput) (n : ℕ) (request_id : Uuid) where
  -- the rows that the second loop inserts
  held_rows : (ℕ → Uuid) → List Budget → List Reservation
  held_rows uuid [] = []
  held_rows uuid (b ∷ bs) =
      new_reservation input n (uuid 0) request_id b.id ∷ held_rows (λ k. uuid (k + 2)) bs

  reserve_each-rows :
      (uuid : ℕ → Uuid) (bs : List Budget) (q : Quota)
      → (reserve_each input n request_id uuid bs q).1.reservations
        ≡ q.reservations ++ held_rows uuid bs
  unfolding reserve_each held_rows record_decision
  reserve_each-rows uuid [] q = sym (append-nil q.reservations)
  reserve_each-rows uuid (b ∷ bs) q =
      reserve_each-rows (λ k. uuid (k + 2)) bs _
      ∙ append_assoc q.reservations (new_reservation input n (uuid 0) request_id b.id ∷ [])
          (held_rows (λ k. uuid (k + 2)) bs)

  reserve_each-ids :
      (uuid : ℕ → Uuid) (bs : List Budget) (q : Quota)
      → (reserve_each input n request_id uuid bs q).0
        ≡ map (λ (r : Reservation). r.id) (held_rows uuid bs)
  unfolding reserve_each held_rows new_reservation
  reserve_each-ids uuid [] q = refl
  reserve_each-ids uuid (b ∷ bs) q = ap (◌∷◌ (uuid 0)) (reserve_each-ids (λ k. uuid (k + 2)) bs _)

  held_rows-All :
      (uuid : ℕ → Uuid) (bs : List Budget)
      → All
          (λ r.
            (same_key r.idempotency_key input.idempotency_key ≡ true) × (r.request_id ≡ request_id))
          (held_rows uuid bs)
  unfolding held_rows new_reservation
  held_rows-All uuid [] = tt
  held_rows-All uuid (b ∷ bs) =
      ((same_key_refl input.idempotency_key, refl), held_rows-All (λ k. uuid (k + 2)) bs)

-- A prior reservation answers for its request.
unless_prior-admitted :
    (regions : List Region) (input : ReserveResourceInput) (uuid : ℕ → Uuid) (q : Quota)
    (prior : List Reservation) (request_id : Uuid)
    → prior ≢ []
    → All (λ r. r.request_id ≡ request_id) prior
    → reserve_unless_prior regions input uuid q prior input.quantity
      ≡ ok (admitted request_id (map (λ (r : Reservation). r.id) prior), q)
unfolding reserve_unless_prior
unless_prior-admitted regions input uuid q [] request_id h a = absurd (h refl)
unless_prior-admitted regions input uuid q (r ∷ rs) request_id h a = let e = a.0 in rw e

prior_rows :
    (input : ReserveResourceInput) (n : ℕ) (request_id : Uuid) (uuid : ℕ → Uuid) (bs : List Budget)
    (q : Quota)
    → prior_reservations input.idempotency_key q ≡ []
    → prior_reservations input.idempotency_key (reserve_each input n request_id uuid bs q).1
      ≡ order_by (λ a b. leb a.budget_id b.budget_id) (held_rows input n request_id uuid bs)
unfolding prior_reservations
prior_rows input n request_id uuid bs q none_prior =
    let held = held_rows input n request_id uuid bs in
    let mine : Reservation → Bool = λ r. same_key r.idempotency_key input.idempotency_key in
    rw
      (
        reserve_each-rows input n request_id uuid bs q,
        rows_where-append mine q.reservations held,
        order_by-eq-nil _ (rows_where mine q.reservations) none_prior,
        rows_where-All mine held
            (All-mono _ _ (λ r h. h.0) held (held_rows-All input n request_id uuid bs)),
      )
      refl

prior_rows_key :
    (key : IdempotencyKey) (input : ReserveResourceInput) (n : ℕ) (request_id : Uuid)
    (uuid : ℕ → Uuid) (bs : List Budget) (q : Quota)
    → key ≡ input.idempotency_key
    → prior_reservations input.idempotency_key q ≡ []
    → prior_reservations key (reserve_each input n request_id uuid bs q).1
      ≡ order_by (λ a b. leb a.budget_id b.budget_id) (held_rows input n request_id uuid bs)
prior_rows_key key input n request_id uuid bs q e fresh =
    ap (λ k. prior_reservations k (reserve_each input n request_id uuid bs q).1) e
    ∙ prior_rows input n request_id uuid bs q fresh

reserve_in_transaction_lem :
    (regions : List Region) (input : ReserveResourceInput) (uuid : ℕ → Uuid) (q : Quota)
    → reserve_in_transaction regions input uuid q
      ≡ reserve_unless_prior regions input uuid q
          (prior_reservations input.idempotency_key q)
          input.quantity
unfolding reserve_in_transaction
reserve_in_transaction_lem regions input uuid q = refl

held_rows-ne-nil :
    (input : ReserveResourceInput) (n : ℕ) (request_id : Uuid) (uuid : ℕ → Uuid) (b : Budget)
    (bs : List Budget)
    → held_rows input n request_id uuid (b ∷ bs) ≢ []
unfolding held_rows
held_rows-ne-nil input n request_id uuid b bs e = cc

-- What a second call under the key of a finished request answers.
abbrev AnswersAgain :
    List Region → ReserveResourceInput → (ℕ → Uuid) → AdmissionResult × Quota → Type 0
AnswersAgain regions input uuid p =
    (ids : List Uuid) × (reserve_in_transaction regions input uuid p.1
      ≡ ok (admitted p.0.request_id ids, p.1))
    × Perm ids p.0.reservation_ids

module _ (regions regions' : List Region) (input input' : ReserveResourceInput) (n : ℕ)
    (uuid uuid' : ℕ → Uuid) (q : Quota) (key : input'.idempotency_key ≡ input.idempotency_key)
    (fresh : prior_reservations input.idempotency_key q ≡ []) where
  reserve_each_twice :
      (rid : Uuid) (uuid : ℕ → Uuid) (b : Budget) (bs : List Budget)
      → AnswersAgain regions' input' uuid' (
        admitted rid (reserve_each input n rid uuid (b ∷ bs) q).0,
        (reserve_each input n rid uuid (b ∷ bs) q).1,
      )
  reserve_each_twice rid uuid b bs =
      let held = held_rows input n rid uuid (b ∷ bs) in
      let before : Reservation → Reservation → Bool = λ x y. leb x.budget_id y.budget_id in
      let perm = order_by-perm before held in
      (
        map (λ (x : Reservation). x.id) (order_by before held),
        rw
            (
              reserve_in_transaction_lem regions' input' uuid'
                  (reserve_each input n rid uuid (b ∷ bs) q).1,
              prior_rows_key input'.idempotency_key input n rid uuid (b ∷ bs) q key fresh,
            )
            (unless_prior-admitted regions' input' uuid' _ (order_by before held) rid
              (λ e. held_rows-ne-nil input n rid uuid b bs (order_by-eq-nil before held e))
              (All-order_by _ before held
                (All-mono _ _ (λ x h. h.1) held (held_rows-All input n rid uuid (b ∷ bs))))),
        rw (reserve_each-ids input n rid uuid (b ∷ bs) q) (Perm.map _ perm),
      )

  reserve_against_twice :
      (bs : List Budget) (p : AdmissionResult × Quota)
      → bs ≢ []
      → reserve_against regions input n uuid bs q ≡ p
      → p.0.outcome ≡ admit
      → AnswersAgain regions' input' uuid' p
  unfolding reserve_against
  reserve_against_twice [] p some_budget e a = absurd (some_budget refl)
  reserve_against_twice (b ∷ bs) p some_budget e a =
      elim (Option-cases (limiting_budget regions input n q (b ∷ bs))) [
        | inl room ↦
            subst (AnswersAgain regions' input' uuid') (rw (room, reserve_against) at e)
              (reserve_each_twice (uuid 0) (λ k. uuid (k + 1)) b bs)
        | inr ((c, d), stop) ↦ absurd (
            limiting_budget-ne-admit regions input n q (b ∷ bs) c d stop (
              ap (λ (x : AdmissionResult × Quota). x.0.outcome) (rw (stop, reserve_against) at e)
              ∙ a))
      ]

-- A request is reserved once: after an admission under a fresh key that reserved something, any
-- later call under the same key, whatever else it asks and whatever its ids, changes nothing and
-- answers with the same request and the same reservations, in some order.
pub reserve_in_transaction_twice :
    (regions regions' : List Region) (input input' : ReserveResourceInput) (n : ℕ)
    (uuid uuid' : ℕ → Uuid) (q q' : Quota) (r : AdmissionResult)
    → input'.idempotency_key ≡ input.idempotency_key
    → prior_reservations input.idempotency_key q ≡ []
    → input.quantity ≡ pos n
    → applicable_budgets regions input.region_id input.resource_type q ≢ []
    → reserve_in_transaction regions input uuid q ≡ ok (r, q')
    → r.outcome ≡ admit
    → (ids : List Uuid) × (reserve_in_transaction regions' input' uuid' q'
        ≡ ok (admitted r.request_id ids, q'))
      × Perm ids r.reservation_ids
unfolding reserve_in_transaction reserve_unless_prior
reserve_in_transaction_twice regions regions' input input' n uuid uuid' q q' r key fresh amount
      some_budget e a =
    let bs = applicable_budgets regions input.region_id input.resource_type q in
    elim (Bool-cases (throws regions input n q bs)) [
      | inl t ↦
          absurd (
            let e' = rw (fresh, amount, t, reserve_in_transaction, reserve_unless_prior) at e in cc)
      | inr t ↦
          reserve_against_twice regions regions' input input' n uuid uuid' q key fresh _ (r, q')
            some_budget
            (ok_injective _ _
              (rw (fresh, amount, t, reserve_in_transaction, reserve_unless_prior) at e))
            a
    ]
