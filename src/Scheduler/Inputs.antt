-- ===== src/Scheduler/Inputs.antt =====
-- What tryCandidate of scheduler-service.ts selects: each input was waiting for the group's
-- component, and each port has as many as it expects.
use factory_floor.Common.{
  arith, ℕ, ◌≡◌, ◌≢◌, refl, ◌==◌, ◌&&◌, ◌++◌, Bool, true, false, not, Option, none, some, List, [],
  ◌∷◌, ltb, length, rows_where, order_by, All, All-append, All-order_by, All-rows_where-true,
  All-mono, Option-cases, Bool-cases, inl, inr, any_row, subst, sym, Perm, order_by-perm,
}
use factory_floor.Tables.{Delivery, PortDefinition, Name, Millis}
use factory_floor.Scheduler.Groups.{same_group, is_available}
use factory_floor.Scheduler.Select.{
  waiting, is_waiting_at, by_creation, by_port, select_required, select_optional, join_selected,
  select_inputs, is_required,
}

-- A delivery of the candidate's group that was available.
abbrev pub is_waiting : Delivery → Millis → Delivery → Bool
is_waiting candidate now d = is_available now d && same_group candidate d

waiting-All :
    (candidate : Delivery) (now : Millis) (port : Name) (ds : List Delivery)
    → All (λ d. is_waiting candidate now d ≡ true) (waiting candidate now port ds)
unfolding waiting
waiting-All candidate now port ds = All-order_by _ by_creation _ (
    All-mono _ _ (λ d h. ground arith) _
      (All-rows_where-true (is_waiting_at candidate now port) ds))

module _ (candidate : Delivery) (now : Millis) (expected : Name → ℕ) (ds : List Delivery) where
  select_required-All :
      (ps : List PortDefinition) (sel : List Delivery)
      → select_required candidate now expected ps ds ≡ some sel
      → All (λ d. is_waiting candidate now d ≡ true) sel
        × All (λ p. length (waiting candidate now p.name ds) ≡ expected p.name) ps
  unfolding select_required
  select_required-All [] sel e =
      let q : [] ≡ sel = ground arith in
      (subst (All (λ d. is_waiting candidate now d ≡ true)) q tt, tt)
  select_required-All (p ∷ ps) sel e =
      elim (Option-cases (select_required candidate now expected ps ds)) [
        | inl h ↦ absurd (ground arith)
        | inr (others, h) ↦
            let (a, b) = select_required-All ps others h in
            let q : waiting candidate now p.name ds ++ others ≡ sel = ground arith in
            (
              subst (All (λ d. is_waiting candidate now d ≡ true)) q
                  (All-append _ _ others (waiting-All candidate now p.name ds) a),
              (ground arith, b),
            )
      ]

  select_optional-All :
      (ps : List PortDefinition) (sel : List Delivery)
      → select_optional candidate now expected ps ds ≡ some sel
      → All (λ d. is_waiting candidate now d ≡ true) sel
        × All (λ p. ltb (expected p.name) (length (waiting candidate now p.name ds)) ≡ false) ps
  unfolding select_optional
  select_optional-All [] sel e =
      let q : [] ≡ sel = ground arith in
      (subst (All (λ d. is_waiting candidate now d ≡ true)) q tt, tt)
  select_optional-All (p ∷ ps) sel e =
      elim (Option-cases (select_optional candidate now expected ps ds)) [
        | inl h ↦ absurd (ground arith)
        | inr (others, h) ↦
            let (a, b) = select_optional-All ps others h in
            (
              elim (Bool-cases (length (waiting candidate now p.name ds) == expected p.name)) [
                | inl k ↦
                    let q : waiting candidate now p.name ds ++ others ≡ sel = ground arith in
                    subst (All (λ d. is_waiting candidate now d ≡ true)) q
                      (All-append _ _ others (waiting-All candidate now p.name ds) a)
                | inr k ↦
                    let q : others ≡ sel = ground arith in
                    subst (All (λ d. is_waiting candidate now d ≡ true)) q a
              ],
              (ground arith, b),
            )
      ]

  -- All that wait at the ports.
  pub all_waiting : List PortDefinition → List Delivery
  all_waiting [] = []
  all_waiting (p ∷ ps) = waiting candidate now p.name ds ++ all_waiting ps

  -- As many wait at the port as it expects.
  abbrev pub is_complete : PortDefinition → Bool
  is_complete p = length (waiting candidate now p.name ds) == expected p.name

  select_required-all_waiting :
      (ps : List PortDefinition) (sel : List Delivery)
      → select_required candidate now expected ps ds ≡ some sel
      → sel ≡ all_waiting ps
  unfolding select_required all_waiting
  select_required-all_waiting [] sel e = ground arith
  select_required-all_waiting (p ∷ ps) sel e =
      elim (Option-cases (select_required candidate now expected ps ds)) [
        | inl h ↦ absurd (ground arith)
        | inr (others, h) ↦ ground (arith, select_required-all_waiting ps others h)
      ]

  select_optional-all_waiting :
      (ps : List PortDefinition) (sel : List Delivery)
      → select_optional candidate now expected ps ds ≡ some sel
      → sel ≡ all_waiting (rows_where is_complete ps)
  unfolding select_optional all_waiting rows_where
  select_optional-all_waiting [] sel e = ground arith
  select_optional-all_waiting (p ∷ ps) sel e =
      elim (Option-cases (select_optional candidate now expected ps ds)) [
        | inl h ↦ absurd (ground arith)
        | inr (others, h) ↦
            let q = select_optional-all_waiting ps others h in
            elim (Bool-cases (length (waiting candidate now p.name ds) == expected p.name)) [
              | inl k ↦
                  let r : sel ≡ waiting candidate now p.name ds ++ others = ground arith in
                  rw (r, q, k) refl
              | inr k ↦ let r : sel ≡ others = ground arith in rw (r, q, k) refl
            ]
      ]

-- What holds of an execution's inputs: they were available deliveries of the candidate's group, at
-- least one; each required port had exactly as many as it expects, and no optional port more; they
-- are all that waited at the required ports and at the optional ports with as many as they expect.
pub record AreInputs (candidate : Delivery) (now : Millis) (expected : Name → ℕ)
    (ports : List PortDefinition) (ds sel : List Delivery) : Type 0 where
  pub waiting_ones : All (λ d. is_waiting candidate now d ≡ true) sel
  pub some_ones : sel ≢ []
  pub required_exact :
      All
        (λ p. length (waiting candidate now p.name ds) ≡ expected p.name)
        (rows_where is_required ports)
  pub optional_bounded :
      All
        (λ p. ltb (expected p.name) (length (waiting candidate now p.name ds)) ≡ false)
        (rows_where (λ p. not p.required) ports)
  pub all_of_them : Perm sel (
      all_waiting candidate now expected ds (rows_where is_required ports)
      ++ all_waiting candidate now expected ds (
          rows_where
            (is_complete candidate now expected ds)
            (rows_where (λ p. not p.required) ports)))

join_selected-some :
    (a b : Option (List Delivery)) (sel : List Delivery)
    → join_selected a b ≡ some sel
    → (xs : List Delivery) × (ys : List Delivery) × (a ≡ some xs)
      × (b ≡ some ys)
      × (order_by by_port (xs ++ ys) ≡ sel)
      × (sel ≢ [])
unfolding join_selected
join_selected-some none b sel e = absurd (cc)
join_selected-some (some xs) none sel e = absurd (cc)
join_selected-some (some xs) (some ys) sel e =
    (xs, ys, refl, refl, ground arith, (λ n. ground arith))

selected-perm :
    (xs ys cs bs sel : List Delivery)
    → xs ≡ cs
    → ys ≡ bs
    → order_by by_port (xs ++ ys) ≡ sel
    → Perm sel (cs ++ bs)
selected-perm xs ys cs bs sel p r q =
    subst (λ zs. Perm zs (cs ++ bs)) q (rw (sym p, sym r) (order_by-perm by_port (xs ++ ys)))

-- The deliveries that tryCandidate selects were available and of the candidate's group, and there is
-- at least one; each required port has exactly as many as it expects, no optional port more. They
-- are, up to their order, all that waited at the required ports, and all that waited at the optional
-- ports where as many waited as the port expects.
pub select_inputs-AreInputs :
    (candidate : Delivery) (now : Millis) (expected : Name → ℕ) (ports : List PortDefinition)
    (ds sel : List Delivery)
    → select_inputs candidate now expected ports ds ≡ some sel
    → AreInputs candidate now expected ports ds sel
unfolding select_inputs
select_inputs-AreInputs candidate now expected ports ds sel e =
    elim (Bool-cases (any_row (λ p. p.name == candidate.target_port_name) ports)) [
      | inr h ↦ absurd (ground arith)
      | inl h ↦
          let (xs, ys, a, b, q, n) = join_selected-some _ _ sel (ground arith) in
          let (wa, ra) = select_required-All candidate now expected ds _ xs a in
          let (wb, ob) = select_optional-All candidate now expected ds _ ys b in
          record {
            waiting_ones =
                subst (All (λ d. is_waiting candidate now d ≡ true)) q
                  (All-order_by _ by_port _ (All-append _ xs ys wa wb));
            some_ones = n;
            required_exact = ra;
            optional_bounded = ob;
            all_of_them =
                selected-perm xs ys _ _ sel
                  (select_required-all_waiting candidate now expected ds _ xs a)
                  (select_optional-all_waiting candidate now expected ds _ ys b) q;
          }
    ]
