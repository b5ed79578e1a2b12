-- ===== src/ControlPlane/Numerals.antt =====
-- The numerals of apps/control-plane/src/service-auth.ts: `String(now)` and `Number(timestamp)` on
-- safe integers, and hexadecimal digests.
use Prim.Native.Nat.{◌^◌}
use factory_floor.Common.{
  arith, ℕ, zero, suc, ◌+◌, ◌-◌, ◌*◌, ◌/◌, ◌%◌, ◌≤◌, ◌<◌, ◌≡◌, refl, ap, ◌++◌, Bool, true, false,
  List, [], ◌∷◌, All, length, ◌==◌, ◌&&◌, ◌||◌, if◌then◌else◌, leb, ltb, not, all_rows, Bool-cases,
  inl, inr,
}
use factory_floor.Common.Text.{Text, is_empty}

abbrev pub is_digit : ℕ → Bool
is_digit c = leb b'0' c && leb c b'9'

-- String(n); the fuel is the number of digits at most
unfoldable pub decimal : ℕ → ℕ → Text
decimal zero n = []
decimal (suc fuel) n =
    let rest = decimal fuel (n / 10) in
    if ltb n 10 then (b'0' + n) ∷ [] else rest ++ (b'0' + n % 10) ∷ []

-- the number that digits show, after a prefix that shows `acc`
unfoldable pub value_of : ℕ → Text → ℕ
value_of acc [] = acc
value_of acc (c ∷ s) = value_of (acc * 10 + (c - b'0')) s

-- /^\d{1,16}$/
unfoldable pub is_timestamp : Text → Bool
is_timestamp s = not (is_empty s) && (all_rows is_digit s && leb (length s) 16)

value_of-append :
    (acc c : ℕ) (s : Text) → value_of acc (s ++ c ∷ []) ≡ value_of acc s * 10 + (c - b'0')
unfolding value_of
value_of-append acc c [] = refl
value_of-append acc c (x ∷ s) = value_of-append (acc * 10 + (x - b'0')) c s

pub value_of-decimal : (fuel n : ℕ) → n < 10 ^ fuel → value_of 0 (decimal fuel n) ≡ n
unfolding value_of decimal
value_of-decimal zero n h = omega arith
value_of-decimal (suc fuel) n h = elim (Bool-cases (ltb n 10)) [
  | inl small ↦ rw small (omega arith)
  | inr large ↦
      rw (large, value_of-append 0 (b'0' + n % 10) (decimal fuel (n / 10)))
        (ground (arith, value_of-decimal fuel (n / 10) (ground arith)))
]

all_rows-append :
    (p : ℕ → Bool) (s : Text) (c : ℕ) → all_rows p (s ++ c ∷ []) ≡ (all_rows p s && p c)
unfolding all_rows
all_rows-append p [] c = ground arith
all_rows-append p (x ∷ s) c = ground (arith, all_rows-append p s c)

length-append_one : (s : Text) (c : ℕ) → length (s ++ c ∷ []) ≡ length s + 1
length-append_one [] c = refl
length-append_one (x ∷ s) c = omega (arith, length-append_one s c)

not_empty-append : (s : Text) (c : ℕ) → is_empty (s ++ c ∷ []) ≡ false
not_empty-append [] c = refl
not_empty-append (x ∷ s) c = refl

decimal-digits :
    (fuel n : ℕ) → (all_rows is_digit (decimal fuel n) ≡ true) × (length (decimal fuel n) ≤ fuel)
unfolding decimal all_rows
decimal-digits zero n = (refl, omega arith)
decimal-digits (suc fuel) n = elim (Bool-cases (ltb n 10)) [
  | inl small ↦ rw small (ground arith, omega arith)
  | inr large ↦
      let rest = decimal-digits fuel (n / 10) in
      rw
        (
          large,
          all_rows-append is_digit (decimal fuel (n / 10)) (b'0' + n % 10),
          length-append_one (decimal fuel (n / 10)) (b'0' + n % 10),
        )
        (ground (arith, decimal-digits fuel (n / 10)), omega (arith, rest.1))
]

decimal_not_empty : (fuel n : ℕ) → is_empty (decimal (suc fuel) n) ≡ false
unfolding decimal
decimal_not_empty fuel n = elim (Bool-cases (ltb n 10)) [
  | inl small ↦ rw small refl
  | inr large ↦ rw large (not_empty-append (decimal fuel (n / 10)) (b'0' + n % 10))
]

pub decimal-is_timestamp : (n : ℕ) → is_timestamp (decimal 16 n) ≡ true
unfolding is_timestamp
decimal-is_timestamp n =
    let digits = decimal-digits 16 n in
    let (shown, short) = digits in rw (decimal_not_empty 15 n, shown) (ground arith)

-- Digits hold no comma.
no_comma : (s : Text) → all_rows is_digit s ≡ true → All (λ c. (c == b',') ≡ false) s
unfolding all_rows
no_comma [] h = tt
no_comma (c ∷ s) h = (ground arith, no_comma s (ground arith))

pub decimal-IsField :
    (n : ℕ) → (is_empty (decimal 16 n) ≡ false) × All (λ c. (c == b',') ≡ false) (decimal 16 n)
decimal-IsField n = (decimal_not_empty 15 n, no_comma (decimal 16 n) (decimal-digits 16 n).0)

abbrev pub hex_digit : ℕ → ℕ
hex_digit v = if ltb v 10 then b'0' + v else b'a' + (v - 10)

-- digest('hex')
unfoldable pub to_hex : List ℕ → Text
to_hex [] = []
to_hex (b ∷ bs) = hex_digit (b / 16) ∷ hex_digit (b % 16) ∷ to_hex bs

abbrev pub hex_value : ℕ → ℕ
hex_value c = if leb b'a' c then c - b'a' + 10 else if leb b'A' c then c - b'A' + 10 else c - b'0'

abbrev pub is_hex : ℕ → Bool
is_hex c = is_digit c || (leb b'a' c && leb c b'f' || leb b'A' c && leb c b'F')

-- /^[0-9a-f]{64}$/i
unfoldable pub is_signature : Text → Bool
is_signature s = all_rows is_hex s && length s == 64

-- Buffer.from(signature, 'hex') of hexadecimal digits
unfoldable pub from_hex : Text → List ℕ
from_hex [] = []
from_hex (c ∷ []) = []
from_hex (c ∷ d ∷ s) = (hex_value c * 16 + hex_value d) ∷ from_hex s

hex_value-hex_digit : (v : ℕ) → v < 16 → hex_value (hex_digit v) ≡ v
hex_value-hex_digit v h = ground arith

-- A list of bytes is read back from its hexadecimal text.
pub from_hex-to_hex : (bs : List ℕ) → All (λ b. b < 256) bs → from_hex (to_hex bs) ≡ bs
unfolding from_hex to_hex
from_hex-to_hex [] h = refl
from_hex-to_hex (b ∷ bs) h =
    let byte = h.0 in
    rw
      (
        hex_value-hex_digit (b / 16) (omega arith),
        hex_value-hex_digit (b % 16) (omega arith),
        from_hex-to_hex bs h.1,
      )
      (ap (λ x. x ∷ bs) (omega arith))

hex_digit-is_hex :
    (v : ℕ) → v < 16 → (is_hex (hex_digit v) ≡ true) × ((hex_digit v == b',') ≡ false)
hex_digit-is_hex v h = (ground arith, ground arith)

to_hex-shape :
    (bs : List ℕ)
    → All (λ b. b < 256) bs
    → (all_rows is_hex (to_hex bs) ≡ true)
      × (length (to_hex bs) ≡ length bs * 2)
      × All (λ c. (c == b',') ≡ false) (to_hex bs)
unfolding to_hex all_rows
to_hex-shape [] h = (refl, refl, tt)
to_hex-shape (b ∷ bs) h =
    let byte = h.0 in
    let rest = to_hex-shape bs h.1 in
    let high = hex_digit-is_hex (b / 16) (omega arith) in
    let low = hex_digit-is_hex (b % 16) (omega arith) in
    let (hex, twice, commas) = rest in
    (rw (high.0, low.0, hex) refl, omega arith, (high.1, (low.1, commas)))

to_hex_not_empty : (bs : List ℕ) → 0 < length bs → is_empty (to_hex bs) ≡ false
unfolding to_hex
to_hex_not_empty [] h = absurd (omega arith)
to_hex_not_empty (b ∷ bs) h = refl

-- The text of 32 bytes is a signature that a header can hold.
pub to_hex-is_signature :
    (bs : List ℕ)
    → All (λ b. b < 256) bs
    → length bs ≡ 32
    → (is_signature (to_hex bs) ≡ true)
      × (is_empty (to_hex bs) ≡ false)
      × All (λ c. (c == b',') ≡ false) (to_hex bs)
unfolding is_signature
to_hex-is_signature bs bytes many =
    let (hex, twice, commas) = to_hex-shape bs bytes in
    (rw hex (ground arith), to_hex_not_empty bs (omega arith), commas)
