-- ===== src/Common/Text.antt =====
-- Texts as lists of UTF-16 code units, with the tests and cuts that the code makes on them.
use Prim.Native.Nat.{ℕ}
use Prim.Native.Char.{code}
use Prim.Native.String.{String}
use mathlib.Core.Path.{◌≡◌, refl}
use mathlib.Core.Bool.{Bool, true, false, ◌&&◌, ◌||◌}
use mathlib.Core.Option.{Option, none, some}
use mathlib.Core.List.{List, [], ◌∷◌, ◌++◌}
use native.Mathlib.Omega.{arith}
use factory_floor.Common.Tests.{if◌then◌else◌, ◌==◌, leb, ==_refl}
use factory_floor.Common.Lists.{All}

abbrev pub Text : Type 0
Text = List ℕ

-- A literal, where it is ASCII.
abbrev pub codes : String → Text
codes String.[] = []
codes (String.◌∷◌ c s) = code c ∷ codes s

unfoldable pub same_text : Text → Text → Bool
same_text [] [] = true
same_text (a ∷ s) (b ∷ t) = a == b && same_text s t
same_text _ _ = false

pub same_text_refl : (s : Text) → same_text s s ≡ true
unfolding same_text
same_text_refl [] = refl
same_text_refl (a ∷ s) = ground (arith, ==_refl a, same_text_refl s)

pub same_text-eq : (s t : Text) → same_text s t ≡ true → s ≡ t
unfolding same_text
same_text-eq [] [] h = refl
same_text-eq [] (b ∷ t) h = absurd (cc)
same_text-eq (a ∷ s) [] h = absurd (cc)
same_text-eq (a ∷ s) (b ∷ t) h = ground (arith, same_text-eq s t (ground arith))

-- A literal part of a pattern.
unfoldable pub strip_prefix : Text → Text → Option Text
strip_prefix [] s = some s
strip_prefix (p ∷ ps) [] = none
strip_prefix (p ∷ ps) (c ∷ s) = if p == c then strip_prefix ps s else none

pub strip_prefix-append : (p s : Text) → strip_prefix p (p ++ s) ≡ some s
unfolding strip_prefix
strip_prefix-append [] s = refl
strip_prefix-append (a ∷ p) s = ground (arith, ==_refl a, strip_prefix-append p s)

-- JavaScript's white space and line terminators: `\s`, and what `trim` cuts.
abbrev pub is_space : ℕ → Bool
is_space c =
    leb 9 c && leb c 13
    || c == 32
    || c == 160
    || c == 5760
    || leb 8192 c && leb c 8202
    || c == 8232
    || c == 8233
    || c == 8239
    || c == 8287
    || c == 12288
    || c == 65279

unfoldable pub skip_spaces : Text → Text
skip_spaces [] = []
skip_spaces (c ∷ s) = if is_space c then skip_spaces s else c ∷ s

-- s.trim() === ''
unfoldable pub is_blank : Text → Bool
is_blank [] = true
is_blank (c ∷ s) = is_space c && is_blank s

-- `[^,]+` up to a comma or the end: the field and the rest.
unfoldable pub cut_field : Text → Text × Text
cut_field [] = ([], [])
cut_field (c ∷ s) =
    let (field, rest) = cut_field s in if c == b',' then ([], c ∷ s) else (c ∷ field, rest)

abbrev pub is_empty : Text → Bool
is_empty [] = true
is_empty (c ∷ s) = false

pub cut_field-append :
    (s t : Text) → All (λ c. (c == b',') ≡ false) s → cut_field (s ++ b',' ∷ t) ≡ (s, b',' ∷ t)
unfolding cut_field
cut_field-append [] t h = refl
cut_field-append (c ∷ s) t h = let e = h.0 in rw (e, cut_field-append s t h.1) refl

pub cut_field-All : (s : Text) → All (λ c. (c == b',') ≡ false) s → cut_field s ≡ (s, [])
unfolding cut_field
cut_field-All [] h = refl
cut_field-All (c ∷ s) h = let e = h.0 in rw (e, cut_field-All s h.1) refl
