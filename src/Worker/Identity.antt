-- ===== src/Worker/Identity.antt =====
-- What the normalisers of worker-protocol-service.ts accept.
use factory_floor.Common.{
  arith, ◌≡◌, ◌⊎◌, ◌==◌, refl, ap, ◌∙◌, subst, true, false, not, Option, none, some, List, [], ◌∷◌,
  ok, Result-cases, inl, inr, any_row, all_rows, Bool-cases, ==_refl, ==_iff,
}
use factory_floor.Tables.{Name}
use factory_floor.Worker.Normalize.{
  Selector, blank, trimmed, is_blank, unique_names, normalize_selectors, choose_selectors,
  normalize_component_selectors,
}

-- No name comes up twice.
pub IsUnique : List Name → Type 0
IsUnique [] = Unit
IsUnique (n ∷ ns) = (any_row (λ m. m == n) ns ≡ false) × IsUnique ns

unique_names-fresh :
    (seen : List Name) (n : Name) (vs : List Selector)
    → any_row (λ m. m == n) seen ≡ true
    → any_row (λ m. m == n) (unique_names seen vs) ≡ false
unfolding unique_names any_row
unique_names-fresh seen n [] h = refl
unique_names-fresh seen n (blank ∷ vs) h = unique_names-fresh seen n vs h
unique_names-fresh seen n (trimmed k ∷ vs) h = elim (Bool-cases (any_row (λ m. m == k) seen)) [
  | inl e ↦ rw e (unique_names-fresh (k ∷ seen) n vs (ground arith))
  | inr e ↦ rw e (elim (Bool-cases (k == n)) [
    | inl t ↦ let q : k ≡ n = (==_iff k n).0 t in absurd (ground arith)
    | inr t ↦ ground (arith, unique_names-fresh (k ∷ seen) n vs (ground arith))
  ])
]

unique_names-IsUnique : (seen : List Name) (vs : List Selector) → IsUnique (unique_names seen vs)
unfolding unique_names any_row IsUnique
unique_names-IsUnique seen [] = tt
unique_names-IsUnique seen (blank ∷ vs) = unique_names-IsUnique seen vs
unique_names-IsUnique seen (trimmed k ∷ vs) = elim (Bool-cases (any_row (λ m. m == k) seen)) [
  | inl e ↦ rw e (unique_names-IsUnique (k ∷ seen) vs)
  | inr e ↦ rw e (
    unique_names-fresh (k ∷ seen) k vs (ground (arith, ==_refl k)),
    unique_names-IsUnique (k ∷ seen) vs,
  )
]

normalize_selectors-IsUnique :
    (vs : Option (List Selector)) (ns : List Name)
    → normalize_selectors vs ≡ ok (some ns)
    → IsUnique ns
unfolding normalize_selectors
normalize_selectors-IsUnique none ns e = absurd (ground arith)
normalize_selectors-IsUnique (some vs) ns e =
    elim (Bool-cases (all_rows (λ v. not (is_blank v)) vs)) [
      | inl h ↦
          let q : unique_names [] vs ≡ ns = ground arith in
          subst IsUnique q (unique_names-IsUnique [] vs)
      | inr h ↦ absurd (ground arith)
    ]

choose_selectors-ok :
    (a b : Option (List Name)) (ns : List Name)
    → choose_selectors a b ≡ ok ns
    → (a ≡ some ns) ⊎ ((a ≡ none) × (b ≡ some ns))
unfolding choose_selectors
choose_selectors-ok none none ns e = absurd (cc)
choose_selectors-ok none (some l) ns e = inr (refl, ground arith)
choose_selectors-ok (some c) none ns e = inl (ground arith)
choose_selectors-ok (some c) (some l) ns e = inl (ground arith)

-- The selectors with which a worker claims work name no component twice, whichever of the two
-- names of the protocol's versions it used.
pub normalize_component_selectors-IsUnique :
    (component_selectors capabilities : Option (List Selector)) (ns : List Name)
    → normalize_component_selectors component_selectors capabilities ≡ ok ns
    → IsUnique ns
unfolding normalize_component_selectors
normalize_component_selectors-IsUnique vs ws ns e = elim (Result-cases (normalize_selectors vs)) [
  | inr (x, h) ↦ absurd (ground arith)
  | inl (a, h) ↦ elim (Result-cases (normalize_selectors ws)) [
    | inr (x, k) ↦ absurd (ground arith)
    | inl (b, k) ↦ elim (choose_selectors-ok a b ns (ground arith)) [
      | inl p ↦ normalize_selectors-IsUnique vs ns (h ∙ ap ok p)
      | inr (p, q) ↦ normalize_selectors-IsUnique ws ns (k ∙ ap ok q)
    ]
  ]
]
