-- ===== src/Common/Results.antt =====
-- Fallible code, and transactions: a step on the state that an error abandons whole.
use mathlib.Core.Path.{◌≡◌, refl, subst}
use mathlib.Core.Logic.{◌⊎◌, inl, inr}
use mathlib.Core.Bool.{Bool, true, false}
use factory_floor.Common.Tests.{if◌then◌else◌}

pub data Result (E : Type 0) (A : Type 0) : Type 0 where
  ok : A → Result E A
  err : E → Result E A

-- A transaction: `err` rolls every write of it back, so no state comes with an error.
abbrev pub Tx : Type 0 → Type 0 → Type 0 → Type 0
Tx S E A = S → Result E (A × S)

infixl 5 ◌>>=◌ ◌>>◌
abbrev pub ◌>>=◌ : {S E A B : Type 0} → Tx S E A → (A → Tx S E B) → Tx S E B
◌>>=◌ m f s = elim (m s) [ ok (a, s') ↦ f a s' | err e ↦ err e ]

abbrev pub ◌>>◌ : {S E A B : Type 0} → Tx S E A → Tx S E B → Tx S E B
m >> k = m >>= λ _. k

abbrev pub guard : {E : Type 0} → Bool → E → Result E (Unit {0})
guard true e = ok tt
guard false e = err e

pub Result-cases :
    {E A : Type 0} (r : Result E A) → ((a : A) × (r ≡ ok a)) ⊎ ((e : E) × (r ≡ err e))
Result-cases (ok a) = inl (a, refl)
Result-cases (err e) = inr (e, refl)

pub ok_injective : {E A : Type 0} (a b : A) → ◌≡◌ {A = Result E A} (ok a) (ok b) → a ≡ b
ok_injective a b e = cc

-- What holds of one result holds of the result that it equals.
pub ok_subst {ℓ} :
    {E A : Type 0} (P : A → Type ℓ) {a b : A} → ◌≡◌ {A = Result E A} (ok a) (ok b) → P a → P b
ok_subst {E} {A} P {a} {b} e p = subst P (ok_injective {E = E} a b e) p

-- A check that was passed.
pub passes :
    {E A : Type 0} (b : Bool) (e : E) (k : Result E A) {a : A}
    → (if b then err e else k) ≡ ok a
    → (b ≡ false) × (k ≡ ok a)
passes true e k h = absurd (cc)
passes false e k h = (refl, h)
