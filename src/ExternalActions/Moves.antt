-- ===== src/ExternalActions/Moves.antt =====
-- The diagram of the states of an external action.
use factory_floor.Common.{arith, ◌≡◌, refl, subst, Bool, true, false}
use factory_floor.Tables.Kinds.{ActionStatus}
use factory_floor.Policies.Approvals.{Decision, is_awaiting, decided_action_status}
use factory_floor.ExternalActions.{is_authorized, is_uncertain}
use factory_floor.ExternalActions.Persist.{Outcome, action_status}

pub data Move : ActionStatus → ActionStatus → Type 0 where
  decision :
      {s t : ActionStatus} (d : Decision)
      → is_awaiting s ≡ true
      → t ≡ decided_action_status d
      → Move s t
  withdrawal : {s t : ActionStatus} → is_authorized s ≡ true → t ≡ ActionStatus.cancelled → Move s t
  departure :
      {s t : ActionStatus} → is_authorized s ≡ true → t ≡ ActionStatus.dispatching → Move s t
  answer :
      {s t : ActionStatus} (o : Outcome) → is_uncertain s ≡ true → t ≡ action_status o → Move s t

pub data Moves (s : ActionStatus) : ActionStatus → Type 0 where
  stay : Moves s s
  then_move : {t u : ActionStatus} → Moves s t → Move t u → Moves s u

pub Moves-trans : {s t u : ActionStatus} → Moves s t → Moves t u → Moves s u
Moves-trans r stay = r
Moves-trans r (then_move q m) = then_move (Moves-trans r q) m

abbrev pub is_final : ActionStatus → Bool
is_final ActionStatus.reconciled = true
is_final ActionStatus.denied = true
is_final ActionStatus.failed = true
is_final ActionStatus.cancelled = true
is_final _ = false

pub Move-final : {s t : ActionStatus} → Move s t → is_final s ≡ false
Move-final (decision {s} d h e) = ground arith
Move-final (withdrawal {s} h e) = ground arith
Move-final (departure {s} h e) = ground arith
Move-final (answer {s} o h e) = ground arith

pub Moves-final : {s t : ActionStatus} → is_final s ≡ true → Moves s t → t ≡ s
Moves-final f stay = refl
Moves-final {s} f (then_move {t} r m) = absurd (
    let e = Moves-final f r in
    let k = Move-final m in ground (arith, subst (λ x. is_final x ≡ false) e k))
