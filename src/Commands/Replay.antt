-- ===== src/Commands/Replay.antt =====
-- A command that is submitted again under its idempotency key.
use factory_floor.Common.{
  any_row-first, any_row-none, arith, ◌≡◌, ◌≢◌, refl, ◌==◌, ◌++◌, true, false, Option, some, List,
  [], ◌∷◌, Result, ok, err, first_where, first_where-true, first_where-append, first_where-insert,
  rows_where, order_by, Option-cases, Bool-cases, Result-cases, ok_subst, inl, inr, subst, sym,
}
use factory_floor.Tables.{Db, Command, Event, Region, Name, Digest, Millis}
use factory_floor.Commands.{
  SubmitCommandInput, SubmitCommandResult, CommandError, idempotency_conflict, Reading, Drawn,
  has_key,
}
use factory_floor.Commands.Submit.{
  submit, submit_in, insert_or_replay, insert_command, rejection_of, active_revision, event_before,
  replay, replay_result, with_db, key_of, expiry, region_of, command_request_digest, is_event_of,
  is_delivery_of, delivery_before, new_command,
}
use factory_floor.Commands.Listed.{IsAnsweredAs, listed_each}
use factory_floor.Commands.Published.{publish_command-IsReplayed}

module _ (reading : Reading) where
  -- The command that an input is kept as, under its key.
  abbrev IsStored : SubmitCommandInput → Name → SubmitCommandResult × Db → Type 0
  IsStored input k (r, db) =
      (g : Region) × (c : Command) × (region_of reading input db ≡ some g)
      × (first_where (has_key g.id k) db.commands ≡ some c)
      × (c.request_digest ≡ command_request_digest reading input)
      × ((s : SubmitCommandResult) × (replay c c.request_digest db ≡ ok s) × IsAnsweredAs r s)

  -- Under a key that is taken, an input is answered by the replay of the command that has it.
  submit-existing :
      (input : SubmitCommandInput) (drawn : Drawn) (expires_at : Option Millis)
      (seen added : List Command) (db : Db) (g : Region) (k : Name) (c : Command)
      → reading.is_blank input.command_type ≡ false
      → expiry reading input ≡ ok expires_at
      → region_of reading input db ≡ some g
      → key_of reading input ≡ some k
      → db.commands ≡ seen ++ added
      → first_where (has_key g.id k) db.commands ≡ some c
      → submit reading input drawn seen db
        ≡ with_db db (replay c (command_request_digest reading input) db)
  unfolding submit submit_in insert_or_replay insert_command
  submit-existing input drawn expires_at seen added db g k c blank ex region key table taken =
      elim (Option-cases (first_where (has_key g.id k) seen)) [
        | inl none_seen ↦
            let any =
              any_row-first (has_key g.id k) (has_key g.id k) db.commands c taken
                (first_where-true _ db.commands c taken) in
            ground arith
        | inr (c', found) ↦
            let same = first_where-append (has_key g.id k) seen added c' found in ground arith
      ]

  replay-ok :
      (c : Command) (digest : Digest) (db : Db) (s : SubmitCommandResult)
      → replay c digest db ≡ ok s
      → (c.request_digest ≡ digest) × IsAnsweredAs s s
  unfolding replay
  replay-ok c digest db s h = elim (Bool-cases (c.request_digest == digest)) [
    | inr e ↦ absurd (ground arith)
    | inl e ↦
        elim (Option-cases (
          first_where (λ (e : Event). true)
            (order_by event_before (rows_where (is_event_of c.id) db.events)))) [
              | inl f ↦ absurd (ground arith)
              | inr (event, f) ↦ (
                ground arith,
                ok_subst {E = CommandError} (λ r. IsAnsweredAs r r)
                    {a = replay_result c event
                      (order_by delivery_before (rows_where (is_delivery_of c.id) db.deliveries))}
                    {b = s} (ground arith)
                    (refl, refl, refl, refl, refl, refl, listed_each _, listed_each _),
              )
            ]
  ]

  with_db-ok :
      (x : Result CommandError SubmitCommandResult) (db db' : Db) (r : SubmitCommandResult)
      → with_db db x ≡ ok (r, db')
      → (x ≡ ok r) × (db' ≡ db)
  with_db-ok (err e) db db' r h = absurd (cc)
  with_db-ok (ok s) db db' r h = (ground arith, ground arith)

  -- A command that the answer replays is the one that is kept.
  replayed-IsStored :
      (input : SubmitCommandInput) (db db' : Db) (r : SubmitCommandResult) (k : Name) (g : Region)
      (c : Command)
      → region_of reading input db ≡ some g
      → first_where (has_key g.id k) db.commands ≡ some c
      → with_db db (replay c (command_request_digest reading input) db) ≡ ok (r, db')
      → IsStored input k (r, db')
  replayed-IsStored input db db' r k g c region found h =
      let (e, same) = with_db-ok (replay c (command_request_digest reading input) db) db db' r h in
      let (digest, again) = replay-ok c (command_request_digest reading input) db r e in
      subst (λ d. IsStored input k (r, d)) (sym same)
        (g, c, region, found, digest, (r, ground arith, again))

  submit-IsStored :
      (input : SubmitCommandInput) (drawn : Drawn) (expires_at : Option Millis)
      (seen added : List Command) (db db' : Db) (r : SubmitCommandResult) (k : Name)
      → key_of reading input ≡ some k
      → db.commands ≡ seen ++ added
      → rows_where (is_event_of drawn.command) db.events ≡ []
      → rows_where (is_delivery_of drawn.command) db.deliveries ≡ []
      → submit_in reading input drawn expires_at seen db ≡ ok (r, db')
      → IsStored input k (r, db')
  unfolding submit_in insert_or_replay insert_command
  submit-IsStored input drawn expires_at seen added db db' r k key table no_event none_yet h =
      elim (Option-cases (region_of reading input db)) [
        | inl e ↦ absurd (ground arith)
        | inr (g, region) ↦ elim (Option-cases (first_where (has_key g.id k) seen)) [
          | inr (c, found) ↦
              replayed-IsStored input db db' r k g c region
                (ground (arith, first_where-append (has_key g.id k) seen added c found))
                (ground arith)
          | inl none_seen ↦ elim (Option-cases (first_where (has_key g.id k) db.commands)) [
            | inr (c, found) ↦
                let any =
                  any_row-first (has_key g.id k) (has_key g.id k) db.commands c found
                    (first_where-true _ db.commands c found) in
                replayed-IsStored input db db' r k g c region found (ground arith)
            | inl free ↦
                let revision = active_revision g db in
                let c =
                  new_command reading input drawn g.id expires_at
                    (rejection_of expires_at drawn.now revision) in
                let db1 : Db = record db { commands = db.commands ++ c ∷ [] } in
                let taken = any_row-none (has_key g.id k) db.commands free in
                let (commands, regions, again) =
                  publish_command-IsReplayed reading input drawn c revision db1 db' r (ground arith)
                    no_event none_yet (ground arith) in
                (
                  g,
                  c,
                  ground arith,
                  ground (
                    arith,
                    first_where-insert (has_key g.id k) db.commands c free (ground arith),
                  ),
                  refl,
                  again,
                )
          ]
        ]
      ]

  submitted-IsStored :
      (input : SubmitCommandInput) (drawn : Drawn) (seen added : List Command) (db db' : Db)
      (r : SubmitCommandResult) (k : Name)
      → key_of reading input ≡ some k
      → db.commands ≡ seen ++ added
      → rows_where (is_event_of drawn.command) db.events ≡ []
      → rows_where (is_delivery_of drawn.command) db.deliveries ≡ []
      → submit reading input drawn seen db ≡ ok (r, db')
      → IsStored input k (r, db')
  unfolding submit
  submitted-IsStored input drawn seen added db db' r k key table no_event none_yet h =
      elim (Result-cases (expiry reading input)) [
        | inr (e, x) ↦ absurd (elim (Bool-cases (reading.is_blank input.command_type)) [
          | inl b ↦ ground arith
          | inr b ↦ ground arith
        ])
        | inl (expires_at, x) ↦ elim (Bool-cases (reading.is_blank input.command_type)) [
          | inl b ↦ absurd (ground arith)
          | inr b ↦
              submit-IsStored input drawn expires_at seen added db db' r k key table no_event
                none_yet (ground arith)
        ]
      ]

-- A command with an idempotency key that was accepted, rejected or replayed, and whose request is
-- submitted again to its region under its key, at any time, is answered by the same command, status,
-- event, correlation and rejection and by the same deliveries in some order, and the database stays
-- as it is; whether the first query of a key saw all commands or another transaction added some
-- before the insert. The ids that the first submission draws are new, and the second request is not
-- refused for its type or its expiry.
pub submit_twice :
    (reading : Reading) (input input' : SubmitCommandInput) (drawn drawn' : Drawn) (k : Name)
    (expires_at : Option Millis) (seen added seen' added' : List Command) (db db' : Db)
    (r : SubmitCommandResult)
    → key_of reading input ≡ some k
    → key_of reading input' ≡ some k
    → reading.without_slash input'.region ≡ reading.without_slash input.region
    → command_request_digest reading input' ≡ command_request_digest reading input
    → reading.is_blank input'.command_type ≡ false
    → expiry reading input' ≡ ok expires_at
    → rows_where (is_event_of drawn.command) db.events ≡ []
    → rows_where (is_delivery_of drawn.command) db.deliveries ≡ []
    → db.commands ≡ seen ++ added
    → db'.commands ≡ seen' ++ added'
    → submit reading input drawn seen db ≡ ok (r, db')
    → (s : SubmitCommandResult) × (submit reading input' drawn' seen' db' ≡ ok (s, db'))
      × IsAnsweredAs r s
submit_twice reading input input' drawn drawn' k expires_at seen added seen' added' db db' r key
      key' same_region same_request blank ex no_event none_yet table table' h =
    let (g, c, region, found, digest, (s, again, answered)) =
      submitted-IsStored reading input drawn seen added db db' r k key table no_event none_yet h in
    let e =
      submit-existing reading input' drawn' expires_at seen' added' db' g k c blank ex
        (ground arith) key' table' found in
    (s, rw e (rw (same_request, sym digest, again) refl), answered)

-- Under the key of a submitted command, another request to its region fails with
-- idempotency_conflict, on the same conditions.
pub submit_conflict :
    (reading : Reading) (input input' : SubmitCommandInput) (drawn drawn' : Drawn) (k : Name)
    (expires_at : Option Millis) (seen added seen' added' : List Command) (db db' : Db)
    (r : SubmitCommandResult)
    → key_of reading input ≡ some k
    → key_of reading input' ≡ some k
    → reading.without_slash input'.region ≡ reading.without_slash input.region
    → command_request_digest reading input' ≢ command_request_digest reading input
    → reading.is_blank input'.command_type ≡ false
    → expiry reading input' ≡ ok expires_at
    → rows_where (is_event_of drawn.command) db.events ≡ []
    → rows_where (is_delivery_of drawn.command) db.deliveries ≡ []
    → db.commands ≡ seen ++ added
    → db'.commands ≡ seen' ++ added'
    → submit reading input drawn seen db ≡ ok (r, db')
    → submit reading input' drawn' seen' db' ≡ err idempotency_conflict
unfolding replay
submit_conflict reading input input' drawn drawn' k expires_at seen added seen' added' db db' r key
      key' same_region other blank ex no_event none_yet table table' h =
    let (g, c, region, found, digest, again) =
      submitted-IsStored reading input drawn seen added db db' r k key table no_event none_yet h in
    let e =
      submit-existing reading input' drawn' expires_at seen' added' db' g k c blank ex
        (ground arith) key' table' found in
    rw e (ground arith)
