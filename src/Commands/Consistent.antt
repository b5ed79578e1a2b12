-- ===== src/Commands/Consistent.antt =====
-- What submit of command-service.ts keeps: one command for each key of a region, the constraint on
-- accepted and rejected commands, and no delivery of a rejected one.
use factory_floor.Common.{
  rows_where-nil, rows_where-none, any_row-snoc, any_row-weaker, length-rows_where-snoc, arith, ◌≤◌,
  and_true, ==_iff, ◌≡◌, refl, sym, subst, ◌∙◌, ◌==◌, ◌&&◌, ◌++◌, Bool, true, false, not, Option,
  none, some, List, [], ◌∷◌, Result, ok, err, length, rows_where, any_row, All, All-append,
  All-mono, All-zip, Option-cases, Bool-cases, Result-cases, ok_subst, is_some, holds, inl, inr,
}
use factory_floor.Tables.{Db, Command, Delivery, TopologyRevision, Uuid, Name, Millis}
use factory_floor.Tables.Kinds.{CommandStatus, is_rejected, Rejection}
use factory_floor.Routing.Events.{insert_event}
use factory_floor.Commands.{
  SubmitCommandInput, SubmitCommandResult, CommandError, Reading, Drawn, has_key,
}
use factory_floor.Commands.Submit.{
  submit, submit_in, insert_or_replay, insert_command, publish_command, route_unless_rejected,
  rejection_of, active_revision, replay, command_event, with_db, expiry, region_of,
  command_request_digest, existing_command, is_delivery_of, new_command,
}
use factory_floor.Commands.Routed.{IsDelivered}
use factory_floor.Commands.Published.{route_unless_rejected-IsRouted, command_event-inserted}

-- commands_accept_reject_consistency of migrations/003_delivery_scheduler.ts
unfoldable pub is_accepted_or_rejected : Command → Bool
is_accepted_or_rejected c = elim c.status [
  | CommandStatus.accepted ↦
      is_some c.accepted_at && (not (is_some c.rejected_at) && not (is_some c.rejection))
  | CommandStatus.rejected ↦
      is_some c.rejected_at && (is_some c.rejection && not (is_some c.accepted_at))
  | _ ↦ true
]

-- the command was rejected and the delivery is its
abbrev pub is_from_rejected : Delivery → Command → Bool
is_from_rejected d c = is_rejected c.status && is_delivery_of c.id d

pub record IsConsistent (db : Db) : Type 0 where
  pub settled : All (λ c. is_accepted_or_rejected c ≡ true) db.commands
  pub keyed : (region : Uuid) (k : Name) → length (rows_where (has_key region k) db.commands) ≤ 1
  pub undelivered : All (λ d. any_row (is_from_rejected d) db.commands ≡ false) db.deliveries

abbrev pub has_id : Uuid → Command → Bool
has_id id c = c.id == id

key_held : (o : Option Name) (k : Name) → holds o k ≡ true → o ≡ some k
key_held none k h = absurd (cc)
key_held (some j) k h = ground arith

own_id :
    (a : Command) (d : Delivery) (id : Uuid)
    → is_from_rejected d a ≡ true
    → is_delivery_of id d ≡ true
    → (a.id == id) ≡ true
own_id a d id h k = ground arith

-- An insertion leaves each key with one command.
insert_command-keyed :
    (c : Command) (rows rows' : List Command) (region : Uuid) (k : Name)
    → insert_command c rows ≡ some rows'
    → length (rows_where (has_key region k) rows) ≤ 1
    → (rows' ≡ rows ++ c ∷ []) × (length (rows_where (has_key region k) rows') ≤ 1)
unfolding insert_command
insert_command-keyed c rows rows' region k h l =
    let taken : (j : Name)
        → c.idempotency_key ≡ some j
        → any_row (has_key c.region_id j) rows ≡ false =
      λ j e. elim (Bool-cases (any_row (has_key c.region_id j) rows)) [
        | inl t ↦ absurd (ground arith)
        | inr t ↦ t
      ] in
    let longer : rows' ≡ rows ++ c ∷ [] = elim (Option-cases c.idempotency_key) [
      | inl e ↦ ground arith
      | inr (j, e) ↦ let t = taken j e in ground arith
    ] in
    (
      longer,
      rw (longer, length-rows_where-snoc (has_key region k) rows c)
          (elim (Bool-cases (has_key region k c)) [
            | inr e ↦ rw e (omega arith)
            | inl e ↦
                let (same, own) = and_true (c.region_id == region) (holds c.idempotency_key k) e in
                let q = (==_iff c.region_id region).0 same in
                let free : any_row (has_key region k) rows ≡ false =
                  subst (λ x. any_row (has_key x k) rows ≡ false) q
                    (taken k (key_held c.idempotency_key k own)) in
                rw (e, rows_where-none (has_key region k) rows free) (omega arith)
          ]),
    )

module _ (reading : Reading) where
  -- The rows that a published command leaves.
  publish_command-rows :
      (input : SubmitCommandInput) (drawn : Drawn) (c : Command)
      (revision : Option TopologyRevision) (db db' : Db) (r : SubmitCommandResult)
      → publish_command reading input drawn c revision db ≡ ok (r, db')
      → (ds : List Delivery) × (db'.commands ≡ db.commands)
        × IsDelivered c.id db.deliveries ds db'.deliveries
        × (is_some c.rejection ≡ true → ds ≡ [])
  unfolding publish_command route_unless_rejected
  publish_command-rows input drawn c revision db db' r h =
      elim (Result-cases
        (insert_event drawn.created_at (command_event reading input c) drawn.event db)) [
          | inr (x, k) ↦ absurd (ground arith)
          | inl ((e, db1), k) ↦
              elim (Result-cases (route_unless_rejected reading drawn c revision db1)) [
                | inr (x, l) ↦ absurd (ground arith)
                | inl ((ds, db2), l) ↦
                    let routed =
                      route_unless_rejected-IsRouted reading drawn c revision db1 db2 ds l in
                    let (source, events, deliveries, commands, regions) =
                      command_event-inserted reading input drawn c db db1 e k in
                    let same = routed.0 in
                    let q : db' ≡ db2 = ground arith in
                    (
                      ds,
                      ground arith,
                      subst (λ x. IsDelivered c.id db.deliveries ds x.deliveries) (sym q)
                          (subst (λ x. IsDelivered c.id x ds db2.deliveries) deliveries routed.1),
                      λ rejected. elim (Option-cases c.rejection) [
                        | inl n ↦ absurd (ground arith)
                        | inr (x, n) ↦ ground arith
                      ],
                    )
              ]
        ]

  new_command-settled :
      (input : SubmitCommandInput) (drawn : Drawn) (region : Uuid) (expires_at : Option Millis)
      (rejection : Option Rejection)
      → is_accepted_or_rejected (new_command reading input drawn region expires_at rejection) ≡ true
  unfolding is_accepted_or_rejected
  new_command-settled input drawn region expires_at none = refl
  new_command-settled input drawn region expires_at (some x) = refl

  inserted-IsConsistent :
      (input : SubmitCommandInput) (drawn : Drawn) (region : Uuid) (expires_at : Option Millis)
      (revision : Option TopologyRevision) (db db' : Db) (rows : List Command)
      (r : SubmitCommandResult)
      → let c =
          new_command reading input drawn region expires_at
            (rejection_of expires_at drawn.now revision) in
        IsConsistent db
        → any_row (has_id drawn.command) db.commands ≡ false
        → rows_where (is_delivery_of drawn.command) db.deliveries ≡ []
        → insert_command c db.commands ≡ some rows
        → publish_command reading input drawn c revision (record db { commands = rows })
          ≡ ok (r, db')
        → IsConsistent db'
  inserted-IsConsistent input drawn region expires_at revision db db' rows r h new_id none_yet
        inserted published =
      let rejection = rejection_of expires_at drawn.now revision in
      let c = new_command reading input drawn region expires_at rejection in
      let (ds, commands, delivered, empty) =
        publish_command-rows input drawn c revision (record db { commands = rows }) db' r
          published in
      let grown : db'.commands ≡ db.commands ++ c ∷ [] =
        commands ∙ (insert_command-keyed c db.commands rows 0 0 inserted (h.keyed 0 0)).0 in
      let Undelivered : Delivery → Type 0 =
        λ d. any_row (is_from_rejected d) db'.commands ≡ false in
      let old : All Undelivered db.deliveries =
        All-mono _ _
          (λ d k.
            subst (λ x. any_row (is_from_rejected d) x ≡ false) (sym grown)
              (any_row-snoc (is_from_rejected d) db.commands c k.0
                (let none_of = k.1 in ground arith)))
          db.deliveries
          (All-zip _ _ db.deliveries h.undelivered
            (rows_where-nil (is_delivery_of drawn.command) db.deliveries none_yet)) in
      let own : All Undelivered ds = elim (Option-cases rejection) [
        | inr (x, e) ↦ subst (All Undelivered) (sym (empty (rw e refl))) tt
        | inl e ↦
            All-mono _ _
              (λ d k.
                subst (λ x. any_row (is_from_rejected d) x ≡ false) (sym grown)
                  (any_row-snoc (is_from_rejected d) db.commands c
                    (any_row-weaker (has_id drawn.command) (is_from_rejected d) db.commands
                      (λ a l. own_id a d drawn.command l k) new_id)
                    (rw e refl)))
              ds delivered.3
      ] in
      record {
        settled = subst (All (λ x. is_accepted_or_rejected x ≡ true)) (sym grown) (
            All-append _ db.commands (c ∷ []) h.settled
              (new_command-settled input drawn region expires_at rejection, tt));
        keyed = λ g k.
            subst (λ x. length (rows_where (has_key g k) x) ≤ 1) (sym commands)
              (insert_command-keyed c db.commands rows g k inserted (h.keyed g k)).1;
        undelivered = delivered.2 Undelivered old own;
      }

  replayed-same :
      (x : Result CommandError SubmitCommandResult) (db db' : Db) (r : SubmitCommandResult)
      → with_db db x ≡ ok (r, db')
      → IsConsistent db
      → IsConsistent db'
  replayed-same (err e) db db' r h k = absurd (cc)
  replayed-same (ok s) db db' r h k =
      ok_subst {E = CommandError} {A = SubmitCommandResult × Db} (λ p. IsConsistent p.1)
        {a = (s, db)} {b = (r, db')} h k

  insert_or_replay-IsConsistent :
      (input : SubmitCommandInput) (drawn : Drawn) (region : Uuid) (expires_at : Option Millis)
      (revision : Option TopologyRevision) (db db' : Db) (r : SubmitCommandResult)
      → IsConsistent db
      → any_row (has_id drawn.command) db.commands ≡ false
      → rows_where (is_delivery_of drawn.command) db.deliveries ≡ []
      → insert_or_replay reading input drawn
          (new_command reading input drawn region expires_at
            (rejection_of expires_at drawn.now revision))
          revision
          db
        ≡ ok (r, db')
      → IsConsistent db'
  unfolding insert_or_replay
  insert_or_replay-IsConsistent input drawn region expires_at revision db db' r k new_id none_yet
        h =
      let c =
        new_command reading input drawn region expires_at
          (rejection_of expires_at drawn.now revision) in
      elim (Option-cases (insert_command c db.commands)) [
        | inr (rows, e) ↦
            inserted-IsConsistent input drawn region expires_at revision db db' rows r k new_id
              none_yet e (ground arith)
        | inl e ↦ elim (Option-cases (existing_command reading input region db.commands)) [
          | inl f ↦ absurd (ground arith)
          | inr (other, f) ↦
              replayed-same (replay other c.request_digest db) db db' r (ground arith) k
        ]
      ]

  submit_in-IsConsistent :
      (input : SubmitCommandInput) (drawn : Drawn) (expires_at : Option Millis)
      (seen : List Command) (db db' : Db) (r : SubmitCommandResult)
      → IsConsistent db
      → any_row (has_id drawn.command) db.commands ≡ false
      → rows_where (is_delivery_of drawn.command) db.deliveries ≡ []
      → submit_in reading input drawn expires_at seen db ≡ ok (r, db')
      → IsConsistent db'
  unfolding submit_in
  submit_in-IsConsistent input drawn expires_at seen db db' r k new_id none_yet h =
      elim (Option-cases (region_of reading input db)) [
        | inl e ↦ absurd (ground arith)
        | inr (g, e) ↦ elim (Option-cases (existing_command reading input g.id seen)) [
          | inr (other, f) ↦
              replayed-same (replay other (command_request_digest reading input) db) db db' r
                (ground arith) k
          | inl f ↦
              insert_or_replay-IsConsistent input drawn g.id expires_at (active_revision g db) db
                db' r k new_id none_yet (ground arith)
        ]
      ]

-- A submission, whatever it answers and whatever commands its first query saw, keeps the commands
-- consistent: a region has at most one command for each key, an accepted command has the time of
-- its acceptance alone and a rejected one that of its rejection and its reason, and no delivery
-- comes from a rejected command; if the id that it draws for a command is new.
pub submit-IsConsistent :
    (reading : Reading) (input : SubmitCommandInput) (drawn : Drawn) (seen : List Command)
    (db db' : Db) (r : SubmitCommandResult)
    → IsConsistent db
    → any_row (has_id drawn.command) db.commands ≡ false
    → rows_where (is_delivery_of drawn.command) db.deliveries ≡ []
    → submit reading input drawn seen db ≡ ok (r, db')
    → IsConsistent db'
unfolding submit
submit-IsConsistent reading input drawn seen db db' r k new_id none_yet h =
    elim (Bool-cases (reading.is_blank input.command_type)) [
      | inl b ↦ absurd (ground arith)
      | inr b ↦ elim (Result-cases (expiry reading input)) [
        | inr (e, x) ↦ absurd (ground arith)
        | inl (expires_at, x) ↦
            submit_in-IsConsistent reading input drawn expires_at seen db db' r k new_id none_yet
              (ground arith)
      ]
    ]
