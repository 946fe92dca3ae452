-- ===== src/Store/Pruning/Prune.antt =====
-- internal/storage/sqlite/pruning.go: `SoftPrune` on every branch.
use activity_relay_directory.Store.Pruning.Eligible.{
  Eligible, Pruned, PruneReason, not_valid, Unpruned, before, ineligible,
}
use activity_relay_directory.Store.Transaction.Ends.{Sane}
use activity_relay_directory.Prelude.{
  ℕ, ◌+◌, ◌≤◌, ◌≡◌, ◌≢◌, refl, false, Option, none, some, ◌∷◌, [], ◌++◌, arith, Bool-cases,
  Option-cases, inl, inr, Bytes, bytes_eq_refl, lookup, insert, lookup-insert, if◌then◌else◌,
}
use activity_relay_directory.Identity.Library.{Library}
use activity_relay_directory.Store.Schema.{
  LifecycleState, registered, unregistered, pruned, Relay, Database, relay_pruned,
}
use activity_relay_directory.Store.Transaction.{
  StoreError, transition_input, transition_time, relay_absent, relay_suspended,
  enrollment_is_closed, observation_time, storage_failure, done, Faults, read_relay,
  read_observation, read_rows_affected, write_event, bind, guarded,
}
use activity_relay_directory.Store.Transaction.Ends.{
  Ends, guarded-Ends, bind-Ends, Settled, refused, Promised, transact-Settled,
}
use activity_relay_directory.Store.Rows.{
  since_epoch, transition_unix, validate_identity_intent, require_monotonic_time, put_relay,
  insert_relay_event, latest, precedes,
}
use activity_relay_directory.Store.Rows.Consistent.{
  Consistent, put_relay-Ends, require_monotonic_time-row, require_monotonic_time-none,
  require_monotonic_time-late, require_monotonic_time-reason,
}
use activity_relay_directory.Store.Checks.{pruned_row-check}
use activity_relay_directory.Store.Lifecycle.Step.{lifecycle_logged, RowOk, insert-RelaysOk}
use activity_relay_directory.Store.Pruning.{
  PruneOutcome, prune_applied, already_pruned, not_eligible, dead_before, recently_seen,
  is_protected, pruned_row, prune_row, prune_in_order, prune_candidate, soft_prune_body, soft_prune,
}

module _ (lib : Library) (fails : Faults) (db : Database) (actor : Bytes) (observed : ℕ)
    (c : Consistent lib db) where
  abbrev Promise : Option Database × PruneOutcome → Type 0
  Promise = Promised (Pruned lib db actor observed) (Unpruned db actor observed)

  prune_row-Ends :
      (row : Relay)
      → Eligible db actor observed row
      → require_monotonic_time fails db actor observed ≡ none
      → Ends fails (PruneReason lib actor) Promise (prune_row fails db actor row observed)
  unfolding prune_row insert_relay_event
  prune_row-Ends row k ordered =
      bind-Ends fails (PruneReason lib actor) (λ d. d ≡ put) Promise
        (put_relay fails db actor (pruned_row row observed))
        (λ written. guarded fails read_rows_affected (
          bind (insert_relay_event fails written actor relay_pruned observed)
            (λ recorded. done (some recorded, prune_applied))))
        (put_relay-Ends fails (PruneReason lib actor) db actor (pruned_row row observed)
          own.constraints)
        (λ written e. guarded-Ends fails (PruneReason lib actor) Promise read_rows_affected _ (
          bind-Ends fails (PruneReason lib actor) (Pruned') Promise
            (insert_relay_event fails written actor relay_pruned observed)
            (λ recorded. done (some recorded, prune_applied))
            (guarded-Ends fails (PruneReason lib actor) Pruned' write_event _ (rw e finished))
            (λ recorded h. h)))
    where
      own : RowOk lib actor (pruned_row row observed)
      own =
          let (constraints, kept) = c.relays_ok actor row k.known in
          let (a, b) = require_monotonic_time-row fails db actor observed row ordered k.known in
          record {
            constraints = pruned_row-check actor row observed constraints k.listed a b;
            canonical = kept;
          }

      put : Database
      put = record db { relays = insert actor (pruned_row row observed) db.relays }

      Pruned' : Database → Type 0
      Pruned' next = Pruned lib db actor observed next prune_applied

      finished : Pruned' (record put {
        relay_events =
            put.relay_events
            ++ record { relay_actor = actor; event_kind = relay_pruned; recorded_at = observed }
              ∷ [];
      })
      finished = record {
        step = record {
          consistent = record {
            relays_ok =
                insert-RelaysOk lib db.relays actor (pruned_row row observed) c.relays_ok own;
            observations_ok = c.observations_ok;
          };
          in_order = k.in_order;
          logged = lifecycle_logged relay_pruned refl refl;
          others = λ other h.
              (ground (arith, lookup-insert actor other (pruned_row row observed) db.relays), refl);
          same_policy = refl;
          same_discoveries = refl;
        };
        row = row;
        eligible = k;
        found = ground (
          arith,
          lookup-insert actor actor (pruned_row row observed) db.relays,
          bytes_eq_refl actor,
        );
        only = refl;
        same_observations = refl;
        outcome_is = refl;
      }

  never :
      (wrong : StoreError)
      → Sane fails
      → require_monotonic_time fails db actor observed ≡ some wrong
      → wrong ≢ transition_time
      → PruneReason lib actor wrong
  never wrong sane e other =
      absurd (other (require_monotonic_time-reason fails db actor observed sane wrong e).0)

  prune_in_order-Ends :
      (row : Relay) (verdict : Option StoreError)
      → require_monotonic_time fails db actor observed ≡ verdict
      → (precedes observed (latest db actor) ≡ false → Eligible db actor observed row)
      → Ends fails
          (PruneReason lib actor)
          Promise
          (prune_in_order verdict (prune_row fails db actor row observed))
  prune_in_order-Ends row none e k =
      prune_row-Ends row (k (require_monotonic_time-none fails db actor observed e)) e
  prune_in_order-Ends row (some transition_time) e k = ineligible (λ r eligible.
      let late = require_monotonic_time-late fails db actor observed e in
      absurd (ground (arith, eligible.in_order)))
  prune_in_order-Ends row (some storage_failure) e k =
      λ sane. never storage_failure sane e (ground arith)
  prune_in_order-Ends row (some transition_input) e k =
      λ sane. never transition_input sane e (ground arith)
  prune_in_order-Ends row (some relay_absent) e k = λ sane. never relay_absent sane e (ground arith)
  prune_in_order-Ends row (some relay_suspended) e k =
      λ sane. never relay_suspended sane e (ground arith)
  prune_in_order-Ends row (some enrollment_is_closed) e k =
      λ sane. never enrollment_is_closed sane e (ground arith)
  prune_in_order-Ends row (some observation_time) e k =
      λ sane. never observation_time sane e (ground arith)

  prune_candidate-Ends :
      (row : Relay)
      → lookup actor db.relays ≡ some row
      → row.lifecycle_state ≡ registered
      → row.last_seen_at + dead_before ≤ observed
      → Ends fails (PruneReason lib actor) Promise (prune_candidate fails db actor row observed)
  unfolding prune_candidate
  prune_candidate-Ends row e listed idle =
      guarded-Ends fails (PruneReason lib actor) Promise read_observation _
        (elim (Bool-cases (is_protected (lookup actor db.observations) observed)) [
          | inl safe ↦
              rw safe (ineligible (λ r eligible. absurd (ground (arith, eligible.unprotected))))
          | inr exposed ↦ rw exposed (
              prune_in_order-Ends row (require_monotonic_time fails db actor observed) refl
                (λ order. record {
                  known = e;
                  listed = listed;
                  idle = idle;
                  unprotected = exposed;
                  in_order = order;
                }))
        ])

  -- No other row than the one that is read can be eligible.
  not_listed :
      (row : Relay) (state : LifecycleState)
      → lookup actor db.relays ≡ some row
      → row.lifecycle_state ≡ state
      → state ≢ registered
      → (r : Relay) → Eligible db actor observed r
      → ⊥
  not_listed row state e s other r eligible =
      let same : row ≡ r = ground (arith, eligible.known) in other (ground (arith, eligible.listed))

  found_row-Ends :
      (row : Relay) (state : LifecycleState)
      → lookup actor db.relays ≡ some row
      → row.lifecycle_state ≡ state
      → Ends fails (PruneReason lib actor) Promise (elim state [
        | pruned ↦ done (none, already_pruned)
        | unregistered ↦ done (none, not_eligible)
        | registered ↦
            if recently_seen row observed
            then done (none, not_eligible)
            else prune_candidate fails db actor row observed
      ])
  found_row-Ends row pruned e s = before row e s
  found_row-Ends row unregistered e s =
      ineligible (not_listed row unregistered e s (λ wrong. ground arith))
  found_row-Ends row registered e s = elim (Bool-cases (recently_seen row observed)) [
    | inl recent ↦ rw recent (
        ineligible (λ r eligible.
          let same : row ≡ r = ground (arith, eligible.known) in
          absurd (ground (arith, eligible.idle))))
    | inr idle ↦ rw idle (prune_candidate-Ends row e s (ground arith))
  ]

-- `SoftPrune` in a consistent database, whatever statements fail: it prunes exactly a relay that is
-- eligible, with one new event and no change to other relays or to what was observed; it answers
-- `already_pruned` for a pruned relay and `not_eligible` only where no row is eligible, and changes nothing
-- then; or it fails and changes nothing, and fails for an invalid actor alone unless some statement failed.
pub soft_prune-Pruned :
    (lib : Library) (fails : Faults) (db : Database) (actor : Bytes) (observed : ℕ)
    → Consistent lib db
    → Settled fails
        (PruneReason lib actor)
        (Pruned lib db actor observed)
        (Unpruned db actor observed)
        db
        (soft_prune lib fails db actor (since_epoch observed))
unfolding soft_prune soft_prune_body transition_unix
soft_prune-Pruned lib fails db actor observed c =
    elim (Bool-cases (validate_identity_intent lib actor)) [
      | inr bad ↦ rw bad (refused transition_input (λ sane. not_valid bad))
      | inl ok ↦ rw ok (
          transact-Settled fails (PruneReason lib actor) (Pruned lib db actor observed)
            (Unpruned db actor observed) db _
            (guarded-Ends fails (PruneReason lib actor)
              (Promised (Pruned lib db actor observed) (Unpruned db actor observed)) read_relay _
              (elim (Option-cases (lookup actor db.relays)) [
                | inl missing ↦
                    rw missing (ineligible (λ r eligible. absurd (ground (arith, eligible.known))))
                | inr (row, e) ↦
                    rw e
                      (found_row-Ends lib fails db actor observed c row row.lifecycle_state e refl)
              ])))
    ]
