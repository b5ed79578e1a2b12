-- ===== src/Admission/Settle/Replay.antt =====
-- reconcile of resource-admission-service.ts, called again.
use factory_floor.Common.{
  arith, ℕ, ◌≡◌, ◌==◌, refl, ap, ◌∙◌, Bool, true, false, some, List, [], ◌∷◌, map, All, All-cleared,
  rows_where, set_where, first_where, any_row, any_row-append, order_by, place, if◌then◌else◌,
  Bool-cases, Option-cases, inl, inr, leb, ok, ok_injective, subst,
}
use factory_floor.Common.Ints.{pos}
use factory_floor.Tables.{Uuid, Millis}
use factory_floor.Tables.QuotaRows.{Quota, Budget, Reservation, LedgerEntry, ReservationStatus}
use factory_floor.Admission.Settle.{
  reconcile, settled_usage, settle, settle_first, insert_entry, reservations_of, with_budgets,
  is_open_for, same_admission,
}

abbrev close : ℕ → Millis → Reservation → Reservation
close actual now r = record r {
  status = ReservationStatus.reconciled;
  actual_quantity = some actual;
  reconciled_at = some now;
}

-- The update as a map.
abbrev close_open : Uuid → ℕ → Millis → Reservation → Reservation
close_open request_id actual now r = if is_open_for request_id r then close actual now r else r

abbrev by_budget : Reservation → Reservation → Bool
by_budget a b = leb a.budget_id b.budget_id

abbrev is_of : Uuid → Reservation → Bool
is_of request_id r = r.request_id == request_id

module _ (request_id : Uuid) (actual : ℕ) (now : Millis) where
  rows_where-close :
      (rs : List Reservation)
      → rows_where (is_of request_id) (set_where (is_open_for request_id) (close actual now) rs)
        ≡ map (close_open request_id actual now) (rows_where (is_of request_id) rs)
  unfolding rows_where set_where
  rows_where-close [] = refl
  rows_where-close (r ∷ rs) = elim (Bool-cases (is_of request_id r)) [
    | inl e ↦ ground (arith, rows_where-close rs)
    | inr e ↦ ground (arith, rows_where-close rs)
  ]

  place-close :
      (r : Reservation) (rs : List Reservation)
      → place by_budget
          (close_open request_id actual now r)
          (map (close_open request_id actual now) rs)
        ≡ map (close_open request_id actual now) (place by_budget r rs)
  unfolding place
  place-close r [] = refl
  place-close r (x ∷ xs) = elim (Bool-cases (leb r.budget_id x.budget_id)) [
    | inl e ↦ ground arith
    | inr e ↦ ground (arith, place-close r xs)
  ]

  order_by-close :
      (rs : List Reservation)
      → order_by by_budget (map (close_open request_id actual now) rs)
        ≡ map (close_open request_id actual now) (order_by by_budget rs)
  unfolding order_by
  order_by-close [] = refl
  order_by-close (r ∷ rs) =
      ap (place by_budget (close_open request_id actual now r)) (order_by-close rs)
      ∙ place-close r (order_by by_budget rs)

  with_budgets-close :
      (budgets : List Budget) (rs : List Reservation)
      → with_budgets budgets (map (close_open request_id actual now) rs)
        ≡ map
            (λ (p : Reservation × Budget). (close_open request_id actual now p.0, p.1))
            (with_budgets budgets rs)
  unfolding with_budgets
  with_budgets-close budgets [] = refl
  with_budgets-close budgets (r ∷ rs) =
      elim (Option-cases (first_where (λ (b : Budget). b.id == r.budget_id) budgets)) [
        | inl e ↦ ground (arith, with_budgets-close budgets rs)
        | inr (b, e) ↦ ground (arith, with_budgets-close budgets rs)
      ]

set_where-All :
    (p : Reservation → Bool) (f : Reservation → Reservation) (rs : List Reservation)
    → All (λ r. p r ≡ false) rs
    → set_where p f rs ≡ rs
unfolding set_where
set_where-All p f [] h = refl
set_where-All p f (r ∷ rs) h = let e = h.0 in rw (e, set_where-All p f rs h.1) refl

insert_entry-recorded :
    (e : LedgerEntry) (q : Quota)
    → same_admission e e ≡ true
    → any_row (same_admission e) (insert_entry e q).ledger ≡ true
unfolding insert_entry
insert_entry-recorded e q self = elim (Bool-cases (any_row (same_admission e) q.ledger)) [
  | inl there ↦ rw there there
  | inr fresh ↦ rw fresh (any_row-append (same_admission e) q.ledger e self)
]

insert_entry-known :
    (e : LedgerEntry) (q : Quota)
    → any_row (same_admission e) q.ledger ≡ true
    → insert_entry e q ≡ q
unfolding insert_entry
insert_entry-known e q there = rw there refl

insert_entry-budgets :
    (e : LedgerEntry) (q : Quota)
    → ((insert_entry e q).budgets ≡ q.budgets) × ((insert_entry e q).reservations ≡ q.reservations)
unfolding insert_entry
insert_entry-budgets e q = elim (Bool-cases (any_row (same_admission e) q.ledger)) [
  | inl there ↦ rw there (refl, refl)
  | inr fresh ↦ rw fresh (refl, refl)
]

settled_usage_refl :
    (id request_id : Uuid) (actual : ℕ) (first : Reservation) (budget : Budget)
    → same_admission
        (settled_usage id request_id actual first budget)
        (settled_usage id request_id actual first budget)
      ≡ true
settled_usage_refl id request_id actual first budget = ground arith

module _ (id id' request_id : Uuid) (actual again : ℕ) (now later : Millis) where
  settle-reservations :
      (first : Reservation) (budget : Budget) (q : Quota)
      → reservations_of request_id (settle id request_id actual now first budget q)
        ≡ map
            (λ (p : Reservation × Budget). (close_open request_id actual now p.0, p.1))
            (reservations_of request_id q)
  unfolding reservations_of settle
  settle-reservations first budget q =
      let kept = insert_entry-budgets (settled_usage id request_id actual first budget) q in
      let budgets = kept.0 in
      let rows = kept.1 in
      rw
        (
          budgets,
          rows,
          rows_where-close request_id actual now q.reservations,
          order_by-close request_id actual now (rows_where (is_of request_id) q.reservations),
        )
        (with_budgets-close request_id actual now q.budgets _)

  settle_twice :
      (first other : Reservation) (budget : Budget) (q : Quota)
      → settle id' request_id again later other budget
          (settle id request_id actual now first budget q)
        ≡ settle id request_id actual now first budget q
  unfolding settle
  settle_twice first other budget q =
      let used = settled_usage id request_id actual first budget in
      let known =
        insert_entry-known (settled_usage id' request_id again other budget)
          (settle id request_id actual now first budget q)
          (insert_entry-recorded used q (settled_usage_refl id request_id actual first budget)) in
      let reclose : List Reservation → List Reservation =
        set_where (is_open_for request_id) (close again later) in
      ap (λ (x : Quota). record x { reservations = reclose x.reservations }) known
      ∙ ap (λ rs. record (insert_entry used q) { reservations = rs })
          (set_where-All (is_open_for request_id) (close again later) _ (
            All-cleared (is_open_for request_id) (close actual now) (λ r h. ground arith)
              (insert_entry used q).reservations))

  settle_first_twice :
      (rows : List (Reservation × Budget)) (q : Quota)
      → reservations_of request_id q ≡ rows
      → (let p = settle_first id request_id actual now q rows in
          settle_first id' request_id again later p.1 (reservations_of request_id p.1) ≡ p)
  unfolding settle_first
  settle_first_twice [] q e = rw e refl
  settle_first_twice ((first, budget) ∷ rest) q e =
      rw (settle-reservations first budget q, e)
        (ap (λ (x : Quota). (true, x))
          (settle_twice first (close_open request_id actual now first) budget q))

-- Settling a request is idempotent: once reconcile has succeeded for a request, calling it again,
-- with whatever id, actual quantity and time, gives the same answer and changes no table of the
-- admissions.
pub reconcile_twice :
    (id id' request_id : Uuid) (actual again : ℕ) (now later : Millis) (q q' : Quota) (found : Bool)
    → reconcile id request_id (pos actual) now q ≡ ok (found, q')
    → reconcile id' request_id (pos again) later q' ≡ ok (found, q')
unfolding reconcile
reconcile_twice id id' request_id actual again now later q q' found run = ap ok (
    subst
      (λ (p : Bool × Quota).
        settle_first id' request_id again later p.1 (reservations_of request_id p.1) ≡ p)
      (ok_injective _ _ run)
      (settle_first_twice id id' request_id actual again now later (reservations_of request_id q) q
        refl))
