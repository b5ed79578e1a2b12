-- ===== src/Routing/Sequences.antt =====
-- The sequence numbers that event-service.ts gives to the events of a stream.
use factory_floor.Common.{
  arith, ℕ, ◌+◌, ◌<◌, ◌≡◌, refl, ◌++◌, Bool, true, false, none, some, List, [], ◌∷◌, ok,
  first_where, set_where, All, All-mono, All-append, Option-cases, Bool-cases, inl, inr,
  if◌then◌else◌, subst, sym,
}
use factory_floor.Tables.{Db, Event, StreamSequence, Uuid, Millis}
use factory_floor.Tables.Kinds.{StreamKey, same_stream}
use factory_floor.Routing.Events.{EventInput, insert_event, allocate_sequence}

-- The number that the next event of a stream gets.
unfoldable pub next_number : StreamKey → List StreamSequence → ℕ
next_number key [] = 1
next_number key (s ∷ ss) =
    if same_stream s.stream_key key then s.next_sequence_number else next_number key ss

same_stream-eq : (a b : StreamKey) → same_stream a b ≡ true → a ≡ b
same_stream-eq a b h = ground arith

same_stream_refl : (a : StreamKey) → same_stream a a ≡ true
same_stream_refl a = ground arith

is_for : StreamKey → StreamSequence → Bool
is_for key s = same_stream s.stream_key key

next_number-none :
    (key : StreamKey) (rows : List StreamSequence)
    → first_where (λ s. same_stream s.stream_key key) rows ≡ none
    → next_number key rows ≡ 1
unfolding first_where next_number
next_number-none key [] h = refl
next_number-none key (s ∷ ss) h = elim (Bool-cases (same_stream s.stream_key key)) [
  | inl e ↦ absurd (ground arith)
  | inr e ↦ ground (arith, next_number-none key ss (ground arith))
]

next_number-some :
    (key : StreamKey) (rows : List StreamSequence) (s : StreamSequence)
    → first_where (λ s. same_stream s.stream_key key) rows ≡ some s
    → next_number key rows ≡ s.next_sequence_number
unfolding first_where next_number
next_number-some key [] s h = absurd (cc)
next_number-some key (r ∷ rs) s h = elim (Bool-cases (same_stream r.stream_key key)) [
  | inl e ↦ ground arith
  | inr e ↦ ground (arith, next_number-some key rs s (ground arith))
]

next_number-insert :
    (key key' : StreamKey) (rows : List StreamSequence)
    → first_where (λ s. same_stream s.stream_key key) rows ≡ none
    → next_number key' (rows ++ record { stream_key = key; next_sequence_number = 2 } ∷ [])
      ≡ (if same_stream key key' then 2 else next_number key' rows)
unfolding first_where next_number
next_number-insert key key' [] h = refl
next_number-insert key key' (s ∷ ss) h = elim (Bool-cases (same_stream s.stream_key key)) [
  | inl e ↦ absurd (ground arith)
  | inr e ↦ elim (Bool-cases (same_stream key key')) [
    | inl k ↦
        let q = same_stream-eq key key' k in
        ground (arith, next_number-insert key key' ss (ground arith))
    | inr k ↦ ground (arith, next_number-insert key key' ss (ground arith))
  ]
]

advance : StreamKey → List StreamSequence → List StreamSequence
advance key rows =
    set_where (λ s. same_stream s.stream_key key)
      (λ s. record s { next_sequence_number = s.next_sequence_number + 1 }) rows

next_number-advance-other :
    (key key' : StreamKey) (rows : List StreamSequence)
    → same_stream key key' ≡ false
    → next_number key' (advance key rows) ≡ next_number key' rows
unfolding advance set_where next_number
next_number-advance-other key key' [] h = refl
next_number-advance-other key key' (s ∷ ss) h = elim (Bool-cases (same_stream s.stream_key key)) [
  | inl e ↦
      let q = same_stream-eq s.stream_key key e in
      ground (arith, next_number-advance-other key key' ss h)
  | inr e ↦ ground (arith, next_number-advance-other key key' ss h)
]

next_number-advance-own :
    (key : StreamKey) (rows : List StreamSequence) (s : StreamSequence)
    → first_where (λ s. same_stream s.stream_key key) rows ≡ some s
    → next_number key (advance key rows) ≡ next_number key rows + 1
unfolding advance set_where next_number first_where
next_number-advance-own key [] s h = absurd (cc)
next_number-advance-own key (r ∷ rs) s h = elim (Bool-cases (same_stream r.stream_key key)) [
  | inl e ↦ ground arith
  | inr e ↦ ground (arith, next_number-advance-own key rs s (ground arith))
]

-- Allocation gives the next number of the stream, and moves that stream alone on by one.
pub allocate_sequence-next_number :
    (key key' : StreamKey) (rows : List StreamSequence)
    → ((allocate_sequence key rows).0 ≡ next_number key rows)
      × (next_number key' (allocate_sequence key rows).1
          ≡ (if same_stream key key' then next_number key rows + 1 else next_number key' rows))
unfolding allocate_sequence advance
allocate_sequence-next_number key key' rows =
    elim (Option-cases (first_where (λ s. same_stream s.stream_key key) rows)) [
      | inl h ↦
          let e = next_number-none key rows h in
          (ground arith, ground (arith, next_number-insert key key' rows h))
      | inr (s, h) ↦
          let e = next_number-some key rows s h in
          (
            ground arith,
            elim (Bool-cases (same_stream key key')) [
              | inl k ↦
                  let q = same_stream-eq key key' k in
                  ground (arith, next_number-advance-own key rows s h)
              | inr k ↦ ground (arith, next_number-advance-other key key' rows k)
            ],
          )
    ]

-- Every event has a number below the next one of its stream.
abbrev pub IsNumbered : Db → Type 0
IsNumbered db = All (λ e. e.sequence_number < next_number e.stream_key db.sequences) db.events

insert_event-ok :
    (now : Millis) (input : EventInput) (id : Uuid) (db db' : Db) (e : Event)
    → insert_event now input id db ≡ ok (e, db')
    → (db'.sequences ≡ (allocate_sequence input.stream_key db.sequences).1)
      × (db'.events ≡ db.events ++ e ∷ [])
      × (e.sequence_number ≡ (allocate_sequence input.stream_key db.sequences).0)
      × (e.stream_key ≡ input.stream_key)
unfolding insert_event
insert_event-ok now input id db db' e h = ground arith

-- Inserting an event keeps the events numbered, and gives it a number above those of all the
-- earlier events of its stream: no two events of a stream share a number, and their numbers follow
-- the order of insertion.
pub insert_event-IsNumbered :
    (now : Millis) (input : EventInput) (id : Uuid) (db db' : Db) (e : Event)
    → IsNumbered db
    → insert_event now input id db ≡ ok (e, db')
    → IsNumbered db'
      × All
          (λ x.
            same_stream x.stream_key e.stream_key ≡ true → x.sequence_number < e.sequence_number)
          db.events
insert_event-IsNumbered now input id db db' e n h =
    let (s', v', q, k) = insert_event-ok now input id db db' e h in
    let next = allocate_sequence-next_number input.stream_key in
    let old : All (λ x. x.sequence_number < next_number x.stream_key db'.sequences) db.events =
      All-mono _ _
        (λ x b.
          ground
            (arith, next x.stream_key db.sequences, same_stream-eq input.stream_key x.stream_key))
        db.events n in
    let new : e.sequence_number < next_number e.stream_key db'.sequences =
      ground (arith, next e.stream_key db.sequences, same_stream_refl input.stream_key) in
    (
      subst (All (λ x. x.sequence_number < next_number x.stream_key db'.sequences)) (sym v')
          (All-append _ db.events (e ∷ []) old (new, tt)),
      All-mono _ _
          (λ x b t.
            ground
              (arith, next e.stream_key db.sequences, same_stream-eq x.stream_key e.stream_key t))
          db.events n,
    )
