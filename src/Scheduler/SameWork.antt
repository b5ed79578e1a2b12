-- ===== src/Scheduler/SameWork.antt =====
-- What a try of tryCandidate in scheduler-service.ts that leases nothing may change of the database.
use mathlib.Core.List.{append_assoc, append-nil}
use factory_floor.Common.{
  ℕ, ◌+◌, ◌≡◌, refl, ◌∙◌, ap, sym, ◌==◌, ◌&&◌, ◌++◌, false, List, [], ◌∷◌, map, Bool-cases, inl,
  inr, any_row, All,
}
use factory_floor.Tables.{Db, Delivery, ExecutionInput, Uuid}
use factory_floor.Scheduler.Executions.{insert_inputs}

abbrev pub forget_availability : Delivery → Delivery
forget_availability d = record d { available_at = 0 }

-- The second database has the work of the first: no table but four differs. Deferral moves only the
-- time from which a delivery is available; inputs of the executions may have been added, and
-- reservations and decisions, but no budget and no ledger entry.
pub record IsSameWork (db db' : Db) : Type 0 where
  pub others :
      db' ≡ record db { deliveries = db'.deliveries; inputs = db'.inputs; quota = db'.quota }
  pub deliveries : map forget_availability db'.deliveries ≡ map forget_availability db.deliveries
  pub inputs : (added : List ExecutionInput) × (db'.inputs ≡ db.inputs ++ added)
  pub budgets : db'.quota.budgets ≡ db.quota.budgets
  pub ledger : db'.quota.ledger ≡ db.quota.ledger

pub IsSameWork-trans : (a b c : Db) → IsSameWork a b → IsSameWork b c → IsSameWork a c
IsSameWork-trans a b c h k =
    let (xs, p) = h.inputs in
    let (ys, q) = k.inputs in
    record {
      others =
          k.others
          ∙ ap {A = Db} {B = Db}
              (λ z. record z { deliveries = c.deliveries; inputs = c.inputs; quota = c.quota })
              h.others;
      deliveries = k.deliveries ∙ h.deliveries;
      inputs = (xs ++ ys, q ∙ ap (λ zs. zs ++ ys) p ∙ append_assoc a.inputs xs ys);
      budgets = k.budgets ∙ h.budgets;
      ledger = k.ledger ∙ h.ledger;
    }

pub same_inputs : (a : Db) → (added : List ExecutionInput) × (a.inputs ≡ a.inputs ++ added)
same_inputs a = ([], sym (append-nil a.inputs))

pub IsSameWork-refl : (a : Db) → IsSameWork a a
IsSameWork-refl a = record {
  others = refl;
  deliveries = refl;
  inputs = same_inputs a;
  budgets = refl;
  ledger = refl;
}

-- The id for a new execution is in no execution and in no attempt.
unfoldable pub IsNewExecution : Db → Uuid → Type 0
IsNewExecution db id =
    All (λ e. (e.id == id) ≡ false) db.executions
    × All (λ a. (a.execution_id == id) ≡ false) db.attempts

pub IsNewExecution-IsSameWork :
    (db db' : Db) (id : Uuid) → IsSameWork db db' → IsNewExecution db id → IsNewExecution db' id
unfolding IsNewExecution
IsNewExecution-IsSameWork db db' id h k = rw h.others k

pub insert_inputs-adds :
    (x : Uuid) (uuid : ℕ → Uuid) (ds : List Delivery) (rows : List ExecutionInput)
    → (added : List ExecutionInput) × (insert_inputs x uuid ds rows ≡ rows ++ added)
unfolding insert_inputs
insert_inputs-adds x uuid [] rows = ([], sym (append-nil rows))
insert_inputs-adds x uuid (d ∷ ds) rows =
    elim (Bool-cases (
      any_row
        (λ i. i.execution_id == x && (i.port_name == d.target_port_name && i.delivery_id == d.id))
        rows)) [
          | inl h ↦ let (ys, e) = insert_inputs-adds x (λ n. uuid (n + 1)) ds rows in (ys, rw h e)
          | inr h ↦
              let i : ExecutionInput = record {
                id = uuid 0;
                execution_id = x;
                port_name = d.target_port_name;
                delivery_id = d.id;
                payload = d.input_payload;
              } in
              let (ys, e) = insert_inputs-adds x (λ n. uuid (n + 1)) ds (rows ++ i ∷ []) in
              (i ∷ ys, rw h (e ∙ append_assoc rows (i ∷ []) ys))
        ]
