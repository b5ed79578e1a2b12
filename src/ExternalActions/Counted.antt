-- ===== src/ExternalActions/Counted.antt =====
-- How many attempts of external-action-service.ts a state of an external action allows.
use factory_floor.Common.{
  length-rows_where-snoc, arith, ℕ, ◌≤◌, ◌≡◌, ◌==◌, refl, ap, ◌++◌, true, List, [], ◌∷◌, All,
  All-set_where, length, rows_where, set_where, Bool-cases, inl, inr, ==_iff,
}
use factory_floor.Tables.{ExternalAction, ActionAttempt, Uuid}
use factory_floor.Tables.Kinds.{ActionStatus}
use factory_floor.Policies.Approvals.{is_awaiting}
use factory_floor.ExternalActions.{is_authorized, is_uncertain}
use factory_floor.ExternalActions.Dispatch.{has_id, is_attempt_of}
use factory_floor.ExternalActions.Persist.{Outcome, action_status}

-- How many attempts an action may have in a state.
abbrev pub allowed : ActionStatus → ℕ
allowed ActionStatus.proposed = 0
allowed ActionStatus.policy_checked = 0
allowed ActionStatus.awaiting_approval = 0
allowed ActionStatus.authorized = 0
allowed ActionStatus.denied = 0
allowed ActionStatus.cancelled = 0
allowed _ = 1

-- The attempts of a row's id are no more than its state allows.
abbrev pub IsCounted : List ActionAttempt → ExternalAction → Type 0
IsCounted ts a = length (rows_where (is_attempt_of a.id) ts) ≤ allowed a.status

pub allowed-uncertain : (s : ActionStatus) → is_uncertain s ≡ true → allowed s ≡ 1
allowed-uncertain ActionStatus.dispatching h = refl
allowed-uncertain ActionStatus.indeterminate h = refl
allowed-uncertain ActionStatus.acknowledged h = refl
allowed-uncertain _ h = absurd (ground arith)

pub allowed-authorized : (s : ActionStatus) → is_authorized s ≡ true → allowed s ≡ 0
allowed-authorized ActionStatus.authorized h = refl
allowed-authorized _ h = absurd (ground arith)

pub allowed-awaiting : (s : ActionStatus) → is_awaiting s ≡ true → allowed s ≡ 0
allowed-awaiting ActionStatus.awaiting_approval h = refl
allowed-awaiting _ h = absurd (ground arith)

pub allowed-le-one : (s : ActionStatus) → allowed s ≤ 1
allowed-le-one ActionStatus.proposed = omega arith
allowed-le-one _ = omega arith

pub allowed-action_status : (o : Outcome) → allowed (action_status o) ≡ 1
allowed-action_status Outcome.acknowledged = refl
allowed-action_status _ = refl

pub count_at :
    (ts : List ActionAttempt) (a b : Uuid)
    → (a == b) ≡ true
    → length (rows_where (is_attempt_of a) ts) ≡ length (rows_where (is_attempt_of b) ts)
count_at ts a b e = ap (λ i. length (rows_where (is_attempt_of i) ts)) ((==_iff a b).0 e)

-- Beginning the attempt of an action that has none.
pub begin-IsCounted :
    (ts : List ActionAttempt) (t : ActionAttempt) (id : Uuid)
    → t.external_action_id ≡ id
    → length (rows_where (is_attempt_of id) ts) ≡ 0
    → (xs : List ExternalAction) → All (IsCounted ts) xs
    → All
        (IsCounted (ts ++ t ∷ []))
        (set_where (has_id id) (λ a. record a { status = ActionStatus.dispatching }) xs)
unfolding set_where
begin-IsCounted ts t id e none_yet [] h = tt
begin-IsCounted ts t id e none_yet (x ∷ xs) h = elim (Bool-cases (has_id id x)) [
  | inl mine ↦ rw mine (
    ground (arith, length-rows_where-snoc (is_attempt_of x.id) ts t, count_at ts x.id id mine),
    begin-IsCounted ts t id e none_yet xs h.1,
  )
  | inr other ↦ rw other (
    ground (arith, length-rows_where-snoc (is_attempt_of x.id) ts t, h.0),
    begin-IsCounted ts t id e none_yet xs h.1,
  )
]

-- A state that allows as many attempts as there are.
pub set_status-IsCounted :
    (ts : List ActionAttempt) (id : Uuid) (s : ActionStatus)
    → length (rows_where (is_attempt_of id) ts) ≤ allowed s
    → (xs : List ExternalAction) → All (IsCounted ts) xs
    → All (IsCounted ts) (set_where (has_id id) (λ a. record a { status = s }) xs)
set_status-IsCounted ts id s fits xs h =
    All-set_where (IsCounted ts) (has_id id) _ (λ a e k. omega (arith, count_at ts a.id id e)) xs h
