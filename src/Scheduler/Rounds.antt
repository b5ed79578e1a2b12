-- ===== src/Scheduler/Rounds.antt =====
-- tryCandidate and leaseNextAttempt of scheduler-service.ts as a whole: what a lease rests on, and
-- what a round that leases nothing leaves as it was.
use factory_floor.Common.{
  arith, ◌≡◌, ◌==◌, Bool, true, Option, none, some, List, map, first_where, Option-cases,
  Bool-cases, inl, inr, ◌⊎◌, ok,
}
use factory_floor.Tables.{Db, Delivery, Region, ComponentInstance, TopologyRevision, Millis, Digest}
use factory_floor.Tables.Kinds.{is_running}
use factory_floor.Scheduler.Groups.{defer_group}
use factory_floor.Scheduler.Select.{fan_in_expected, input_ports, select_inputs}
use factory_floor.Scheduler.Inputs.{AreInputs, select_inputs-AreInputs}
use factory_floor.Scheduler.Executions.{
  LeaseNextAttemptOptions, Fresh, LeasedExecutionAttempt, InputIdentity, input_set_digest,
  identity_of,
}
use factory_floor.Scheduler.Candidate.{execute_inputs, try_candidate}
use factory_floor.Scheduler.Leases.{IsUnderLease}
use factory_floor.Scheduler.SameWork.{IsSameWork, IsNewExecution, IsSameWork-refl}
use factory_floor.Scheduler.Claims.{
  defer_group-IsSameWork, execute_inputs-none, execute_inputs-some,
}

-- The rows that stand behind a candidate whose inputs are complete.
pub record IsReadyGroup (c : Delivery) (now : Millis) (db : Db) (region : Region)
    (component : ComponentInstance) (revision : TopologyRevision) (sel : List Delivery)
    : Type 0 where
  pub region_found : first_where (λ r. r.id == c.region_id) db.regions ≡ some region
  pub region_running : is_running region.lifecycle_status ≡ true
  pub component_found :
      first_where (λ i. i.id == c.target_component_instance_id) db.instances ≡ some component
  pub revision_found :
      first_where (λ v. v.id == c.topology_revision_id) db.revisions ≡ some revision
  pub inputs :
      AreInputs c now
        (fan_in_expected revision.fan_in component.name)
        (input_ports component.component_definition_id db.ports)
        db.deliveries
        sel

module _ (options : LeaseNextAttemptOptions) (fresh : Fresh) (now : Millis)
    (digest : List InputIdentity → Digest) (acquired : Delivery → Bool) where
  try_candidate-cases :
      (c : Delivery) (db db' : Db) (l : Option LeasedExecutionAttempt)
      → try_candidate options fresh now digest acquired c db ≡ ok (l, db')
      → ((l ≡ none) × (db' ≡ db))
        ⊎ (((l ≡ none) × (db' ≡ defer_group c now db))
            ⊎ ((g : Region) × (i : ComponentInstance) × (v : TopologyRevision) × (sel : List
                  Delivery)
                × IsReadyGroup c now db g i v sel
                × (execute_inputs options fresh now c g.lifecycle_epoch
                      (input_set_digest digest (map identity_of sel))
                      sel
                      db
                    ≡ ok (l, db'))))
  unfolding try_candidate
  try_candidate-cases c db db' l e = elim (Bool-cases (acquired c)) [
    | inr h ↦ inl (ground arith, ground arith)
    | inl h ↦ elim (Option-cases (first_where (λ r. r.id == c.region_id) db.regions)) [
      | inl h1 ↦ absurd (ground arith)
      | inr (g, h1) ↦ elim (Bool-cases (is_running g.lifecycle_status)) [
        | inr h2 ↦ inr (inl (ground arith, ground arith))
        | inl h2 ↦
            elim (Option-cases
              (first_where (λ i. i.id == c.target_component_instance_id) db.instances)) [
                | inl h3 ↦ absurd (ground arith)
                | inr (i, h3) ↦
                    elim (Option-cases
                      (first_where (λ v. v.id == c.topology_revision_id) db.revisions)) [
                        | inl h4 ↦ absurd (ground arith)
                        | inr (v, h4) ↦
                            elim (Option-cases (
                              select_inputs c now (fan_in_expected v.fan_in i.name)
                                (input_ports i.component_definition_id db.ports) db.deliveries)) [
                                  | inl h5 ↦ inr (inl (ground arith, ground arith))
                                  | inr (sel, h5) ↦ inr (
                                      inr (
                                        g,
                                        i,
                                        v,
                                        sel,
                                        record {
                                          region_found = h1;
                                          region_running = h2;
                                          component_found = h3;
                                          revision_found = h4;
                                          inputs =
                                              select_inputs-AreInputs c now _ _ db.deliveries sel
                                                h5;
                                        },
                                        ground arith,
                                      ))
                                ]
                      ]
              ]
      ]
    ]
  ]

  -- A candidate that leads to no lease leaves the work as it was, if the id for a new execution is
  -- new.
  pub try_candidate-none :
      (c : Delivery) (db db' : Db)
      → IsNewExecution db fresh.execution
      → try_candidate options fresh now digest acquired c db ≡ ok (none, db')
      → IsSameWork db db'
  try_candidate-none c db db' n e = elim (try_candidate-cases c db db' none e) [
    | inl (p, q) ↦ rw q (IsSameWork-refl db)
    | inr (inl (p, q)) ↦ rw q (defer_group-IsSameWork options fresh now c db)
    | inr (inr (g, i, v, sel, r, k)) ↦
        execute_inputs-none options fresh now c g.lifecycle_epoch _ sel db db' n k
  ]

  -- A candidate that leads to a lease was in a running region, its inputs were complete, and they
  -- and the attempt are now leased to the worker under the fresh token, for the lease duration.
  pub try_candidate-some :
      (c : Delivery) (db db' : Db) (l : LeasedExecutionAttempt)
      → try_candidate options fresh now digest acquired c db ≡ ok (some l, db')
      → (g : Region) × (i : ComponentInstance) × (v : TopologyRevision) × (sel : List Delivery)
        × IsReadyGroup c now db g i v sel
        × IsUnderLease options fresh now l sel db'
  try_candidate-some c db db' l e = elim (try_candidate-cases c db db' (some l) e) [
    | inl (p, q) ↦ absurd (cc)
    | inr (inl (p, q)) ↦ absurd (cc)
    | inr (inr (g, i, v, sel, r, k)) ↦ (
      g,
      i,
      v,
      sel,
      r,
      execute_inputs-some options fresh now c g.lifecycle_epoch _ sel db db' l k,
    )
  ]
