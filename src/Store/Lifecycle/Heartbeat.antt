-- ===== src/Store/Lifecycle/Heartbeat.antt =====
-- internal/storage/sqlite/relay.go: `Heartbeat` on every branch.
use activity_relay_directory.Store.Transaction.{relay_absent}
use activity_relay_directory.Prelude.{false}
use activity_relay_directory.Store.Transaction.{StoreError}
use activity_relay_directory.Prelude.{
  ℕ, ◌≡◌, refl, true, Option, none, some, arith, Bool-cases, Option-cases, inl, inr, Bytes,
  bytes_eq_refl, lookup, lookup-insert,
}
use activity_relay_directory.Identity.Library.{Library}
use activity_relay_directory.Protocol.Vocabulary.{active, suspended, Outcome, recorded}
use activity_relay_directory.Store.Schema.{registered, Relay, heartbeat_recorded, Database}
use activity_relay_directory.Store.Transaction.{
  transition_input, transition_time, relay_suspended, observation_time, Attempt, done, failed,
  Faults, read_relay,
}
use activity_relay_directory.Store.Transaction.Ends.{
  Ends, guarded-Ends, checked-Ends, Settled, refused, Promised, transact-Settled,
}
use activity_relay_directory.Store.Rows.{
  since_epoch, transition_unix, validate_identity_intent, require_monotonic_time, latest, precedes,
}
use activity_relay_directory.Store.Rows.Consistent.{
  Consistent, require_monotonic_time-row, require_monotonic_time-none,
  require_monotonic_time-reason,
}
use activity_relay_directory.Store.Checks.{seen-check}
use activity_relay_directory.Store.Lifecycle.{
  is_registered, seen, write_transition, answered, heartbeat_admits, heartbeat_body, heartbeat,
}
use activity_relay_directory.Store.Lifecycle.Step.{
  Step, Newer, RowOk, Written, write_transition-Written, Written-Step,
}

pub record Beaten (lib : Library) (db : Database) (actor : Bytes) (accepted : ℕ) (next : Database)
    (outcome : Outcome) : Type 0 where
  pub step : Step lib db actor accepted next
  pub row : Relay
  pub known : lookup actor db.relays ≡ some row
  pub listed : row.lifecycle_state ≡ registered
  pub not_suspended : row.administrative_state ≡ active
  pub found : lookup actor next.relays ≡ some (seen row accepted)
  pub outcome_is : outcome ≡ recorded

-- Why `Heartbeat` refuses, while no statement fails.
pub data HeartbeatReason (lib : Library) (db : Database) (actor : Bytes) (accepted : ℕ)
    : StoreError → Type 0 where
  not_valid :
      validate_identity_intent lib actor ≡ false
      → HeartbeatReason lib db actor accepted transition_input
  not_known : lookup actor db.relays ≡ none → HeartbeatReason lib db actor accepted relay_absent
  not_listed :
      (row : Relay)
      → lookup actor db.relays ≡ some row
      → is_registered row.lifecycle_state ≡ false
      → HeartbeatReason lib db actor accepted relay_absent
  is_out :
      (row : Relay)
      → lookup actor db.relays ≡ some row
      → row.administrative_state ≡ suspended
      → HeartbeatReason lib db actor accepted relay_suspended
  late :
      precedes accepted (latest db actor) ≡ true
      → HeartbeatReason lib db actor accepted transition_time
  newer : Newer db actor accepted → HeartbeatReason lib db actor accepted observation_time

heartbeat_admits-reason :
    (lib : Library) (db : Database) (actor : Bytes) (accepted : ℕ) (row : Relay)
    → lookup actor db.relays ≡ some row
    → (e : StoreError) → heartbeat_admits (some row) ≡ some e
    → HeartbeatReason lib db actor accepted e
unfolding heartbeat_admits
heartbeat_admits-reason lib db actor accepted row known e h =
    elim (Bool-cases (is_registered row.lifecycle_state)) [
      | inr gone ↦
          let which : e ≡ relay_absent = ground arith in rw which (not_listed row known gone)
      | inl here ↦
          let which : e ≡ relay_suspended = ground arith in
          rw which (is_out row known (ground arith))
    ]

heartbeat_admits-none :
    (row : Relay)
    → heartbeat_admits (some row) ≡ none
    → (is_registered row.lifecycle_state ≡ true)
      × (row.lifecycle_state ≡ registered)
      × (row.administrative_state ≡ active)
unfolding heartbeat_admits
heartbeat_admits-none row h = ground arith

module _ (lib : Library) (fails : Faults) (db : Database) (actor : Bytes) (accepted : ℕ)
    (row : Relay) (c : Consistent lib db) (e : lookup actor db.relays ≡ some row)
    (admitted : heartbeat_admits (some row) ≡ none)
    (ordered : require_monotonic_time fails db actor accepted ≡ none) where
  seen-RowOk : RowOk lib actor (seen row accepted)
  seen-RowOk =
      let (constraints, kept) = c.relays_ok actor row e in
      let (a, b) = require_monotonic_time-row fails db actor accepted row ordered e in
      record {
        constraints =
            seen-check actor row accepted constraints (heartbeat_admits-none row admitted).0 a b;
        canonical = kept;
      }

  answered-Ends :
      (x : Attempt Database)
      → Ends fails
          (HeartbeatReason lib db actor accepted)
          (Written db actor (seen row accepted) heartbeat_recorded accepted)
          x
      → Ends fails
          (HeartbeatReason lib db actor accepted)
          (Promised (Beaten lib db actor accepted) (λ o. ⊥))
          (answered recorded x)
  answered-Ends (failed wrong) h = h
  answered-Ends (done next) h = record {
    step =
        Written-Step lib db next actor (seen row accepted) heartbeat_recorded accepted c seen-RowOk
          (require_monotonic_time-none fails db actor accepted ordered) h;
    row = row;
    known = e;
    listed = (heartbeat_admits-none row admitted).1;
    not_suspended = (heartbeat_admits-none row admitted).2;
    found = rw h.only (
        ground
          (arith, lookup-insert actor actor (seen row accepted) db.relays, bytes_eq_refl actor));
    outcome_is = refl;
  }

  heartbeat_write-Ends :
      Ends fails
        (HeartbeatReason lib db actor accepted)
        (Promised (Beaten lib db actor accepted) (λ o. ⊥))
        (answered recorded
          (write_transition fails db actor (seen row accepted) heartbeat_recorded accepted))
  heartbeat_write-Ends =
      answered-Ends
        (write_transition fails db actor (seen row accepted) heartbeat_recorded accepted)
        (write_transition-Written fails (HeartbeatReason lib db actor accepted) db actor
          (seen row accepted) heartbeat_recorded accepted newer c.observations_ok
          seen-RowOk.constraints)

-- `Heartbeat` in a consistent database, whatever statements fail: it commits the accepted time as the last
-- sight of a relay that was registered and not suspended, with one new event and no change to other relays;
-- or it fails, changes nothing and has one of its six reasons, unless some statement failed.
pub heartbeat-Beaten :
    (lib : Library) (fails : Faults) (db : Database) (actor : Bytes) (accepted : ℕ)
    → Consistent lib db
    → Settled fails
        (HeartbeatReason lib db actor accepted)
        (Beaten lib db actor accepted)
        (λ o. ⊥)
        db
        (heartbeat lib fails db actor (since_epoch accepted))
unfolding heartbeat heartbeat_body transition_unix
heartbeat-Beaten lib fails db actor accepted c =
    elim (Bool-cases (validate_identity_intent lib actor)) [
      | inr bad ↦ rw bad (refused transition_input (λ sane. not_valid bad))
      | inl ok ↦ rw ok (
          transact-Settled fails (HeartbeatReason lib db actor accepted)
            (Beaten lib db actor accepted) (λ o. ⊥) db _
            (guarded-Ends fails (HeartbeatReason lib db actor accepted) promise read_relay _
              (elim (Option-cases (lookup actor db.relays)) [
                | inl missing ↦ rw missing (λ sane. not_known missing)
                | inr (row, e) ↦ rw e (
                    checked-Ends fails (HeartbeatReason lib db actor accepted) promise
                      (heartbeat_admits (some row)) _
                      (λ sane. heartbeat_admits-reason lib db actor accepted row e)
                      (λ admitted.
                        checked-Ends fails (HeartbeatReason lib db actor accepted) promise
                          (require_monotonic_time fails db actor accepted) _
                          (λ sane wrong h.
                            let (which, early) =
                              require_monotonic_time-reason fails db actor accepted sane wrong h in
                            rw which (late early))
                          (heartbeat_write-Ends lib fails db actor accepted row c e admitted)))
              ])))
    ]
  where
    promise : Option Database × Outcome → Type 0
    promise = Promised (Beaten lib db actor accepted) (λ o. ⊥)
