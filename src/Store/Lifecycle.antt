-- ===== src/Store/Lifecycle.antt =====
-- internal/storage/sqlite/relay.go: `Register`, `Heartbeat` and `Unregister`.
pub mod Step
pub mod Terms
pub mod Register
pub mod Heartbeat
pub mod Departure
pub mod Unregister
use activity_relay_directory.Prelude.{
  ℕ, Bool, true, false, not, ◌&&◌, Option, none, some, if◌then◌else◌, Bytes, bytes_eq, lookup,
}
use activity_relay_directory.Identity.Library.{Library}
use activity_relay_directory.Protocol.Vocabulary.{
  AdministrativeState, active, suspended, Outcome, created, updated, unchanged, recorded, removed,
  absent,
}
use activity_relay_directory.Store.Schema.{
  LifecycleState, registered, unregistered, pruned, Relay, EventKind, register_created,
  register_updated, register_unchanged, heartbeat_recorded, unregister_removed, unregister_absent,
  Database,
}
use activity_relay_directory.Store.Transaction.{
  StoreError, transition_input, transition_time, relay_absent, relay_suspended,
  enrollment_is_closed, storage_failure, Attempt, done, failed, Faults, read_relay, read_enrollment,
  read_retained, guarded, checked, bind, transact,
}
use activity_relay_directory.Store.Rows.{
  RegisterIntent, ClockTime, transition_unix, validate_register_intent, validate_identity_intent,
  require_monotonic_time, put_relay, retained, record_rfc9421_verified, insert_relay_event,
}

abbrev pub is_registered : LifecycleState → Bool
is_registered registered = true
is_registered unregistered = false
is_registered pruned = false

abbrev pub is_suspended : AdministrativeState → Bool
is_suspended active = false
is_suspended suspended = true

-- What the `switch` of `Register` writes: the row, the outcome and the kind of the event.
pub record Registration : Type 0 where
  pub row : Relay
  pub outcome : Outcome
  pub event_kind : EventKind

abbrev pub new_relay : Bytes → ℕ → Relay
new_relay public_base_url accepted = record {
  public_base_url = public_base_url;
  lifecycle_state = registered;
  administrative_state = active;
  first_registered_at = accepted;
  updated_at = accepted;
  last_seen_at = accepted;
  last_heartbeat_at = some accepted;
  unregistered_at = none;
  pruned_at = none;
  suspended_at = none;
}

abbrev pub seen : Relay → ℕ → Relay
seen row accepted = record row {
  updated_at = accepted;
  last_seen_at = accepted;
  last_heartbeat_at = some accepted;
}

unfoldable pub classify_registration : Option Relay → RegisterIntent → ℕ → Option Registration
classify_registration none intent accepted = some (record {
  row = new_relay intent.public_base_url accepted;
  outcome = created;
  event_kind = register_created;
})
classify_registration (some row) intent accepted =
    if is_registered row.lifecycle_state && bytes_eq row.public_base_url intent.public_base_url
    then some
        (record { row = seen row accepted; outcome = unchanged; event_kind = register_unchanged })
    else if not (is_registered row.lifecycle_state)
    then some (record {
      row = record (seen row accepted) {
        public_base_url = intent.public_base_url;
        lifecycle_state = registered;
        unregistered_at = none;
        pruned_at = none;
      };
      outcome = updated;
      event_kind = register_updated;
    })
    else none

-- The tests of `Register` on the row that it reads and on the enrollment policy.
unfoldable pub admit_registration : Faults → Database → Option Relay → Option StoreError
admit_registration fails db (some row) =
    if is_suspended row.administrative_state then some relay_suspended else none
admit_registration fails db none =
    if fails read_enrollment
    then some storage_failure
    else if not db.enrollment_open
    then some enrollment_is_closed
    else none

-- The write, the evidence and the event that end a transition.
unfoldable pub write_transition :
    Faults → Database → Bytes → Relay → EventKind → ℕ → Attempt Database
write_transition fails db actor row kind accepted = bind (put_relay fails db actor row) (λ written.
    bind (record_rfc9421_verified fails written actor accepted)
      (λ verified. insert_relay_event fails verified actor kind accepted))

abbrev pub answered {ℓ} : {A : Type ℓ} → A → Attempt Database → Attempt (Option Database × A)
answered outcome (done db) = done (some db, outcome)
answered outcome (failed e) = failed e

unfoldable pub register_body :
    Faults → Database → RegisterIntent → ℕ → Attempt (Option Database × Outcome)
register_body fails db intent accepted =
    let row = lookup intent.relay_actor db.relays in
    guarded fails read_relay (
      checked (admit_registration fails db row) (
        checked (require_monotonic_time fails db intent.relay_actor accepted)
          (elim (classify_registration row intent accepted) [
            | none ↦ failed storage_failure
            | some r ↦
                answered r.outcome
                  (write_transition fails db intent.relay_actor r.row r.event_kind accepted)
          ])))

unfoldable pub register :
    Library → Faults → Database → RegisterIntent → ClockTime → Database × Attempt Outcome
register lib fails db intent accepted_at =
    if not (validate_register_intent lib intent)
    then (db, failed transition_input)
    else elim (transition_unix accepted_at) [
      | none ↦ (db, failed transition_time)
      | some accepted ↦ transact fails db (register_body fails db intent accepted)
    ]

unfoldable pub heartbeat_admits : Option Relay → Option StoreError
heartbeat_admits none = some relay_absent
heartbeat_admits (some row) =
    if not (is_registered row.lifecycle_state)
    then some relay_absent
    else if is_suspended row.administrative_state
    then some relay_suspended
    else none

unfoldable pub heartbeat_body : Faults → Database → Bytes → ℕ → Attempt (Option Database × Outcome)
heartbeat_body fails db actor accepted = guarded fails read_relay (elim (lookup actor db.relays) [
  | none ↦ failed relay_absent
  | some row ↦ checked (heartbeat_admits (some row)) (
      checked (require_monotonic_time fails db actor accepted) (
        answered recorded
          (write_transition fails db actor (seen row accepted) heartbeat_recorded accepted)))
])

unfoldable pub heartbeat :
    Library → Faults → Database → Bytes → ClockTime → Database × Attempt Outcome
heartbeat lib fails db actor accepted_at =
    if not (validate_identity_intent lib actor)
    then (db, failed transition_input)
    else elim (transition_unix accepted_at) [
      | none ↦ (db, failed transition_time)
      | some accepted ↦ transact fails db (heartbeat_body fails db actor accepted)
    ]

abbrev pub left : Relay → ℕ → Relay
left row accepted = record row {
  lifecycle_state = unregistered;
  updated_at = accepted;
  unregistered_at = some accepted;
}

-- The state change of `Unregister`, if the relay is registered.
unfoldable pub leave : Faults → Database → Bytes → Option Relay → ℕ → Attempt (Database × Outcome)
leave fails db actor none accepted = done (db, absent)
leave fails db actor (some row) accepted =
    if is_registered row.lifecycle_state
    then bind (put_relay fails db actor (left row accepted)) (λ db'. done (db', removed))
    else done (db, absent)

abbrev pub leave_event : Outcome → EventKind
leave_event outcome = elim outcome [
  | removed ↦ unregister_removed
  | created ↦ unregister_absent
  | updated ↦ unregister_absent
  | unchanged ↦ unregister_absent
  | recorded ↦ unregister_absent
  | absent ↦ unregister_absent
]

-- The evidence that an unregistration leaves, if an identity is retained.
unfoldable pub keep_evidence : Faults → Database → Bytes → ℕ → Attempt Database
keep_evidence fails db actor accepted =
    guarded fails read_retained
      (if retained db actor then record_rfc9421_verified fails db actor accepted else done db)

unfoldable pub unregister_body : Faults → Database → Bytes → ℕ → Attempt (Option Database × Outcome)
unregister_body fails db actor accepted =
    let row = lookup actor db.relays in
    guarded fails read_relay (
      checked (require_monotonic_time fails db actor accepted) (
        bind (leave fails db actor row accepted) (λ (db', outcome). answered outcome (
          bind (keep_evidence fails db' actor accepted)
            (λ kept. insert_relay_event fails kept actor (leave_event outcome) accepted)))))

unfoldable pub unregister :
    Library → Faults → Database → Bytes → ClockTime → Database × Attempt Outcome
unregister lib fails db actor accepted_at =
    if not (validate_identity_intent lib actor)
    then (db, failed transition_input)
    else elim (transition_unix accepted_at) [
      | none ↦ (db, failed transition_time)
      | some accepted ↦ transact fails db (unregister_body fails db actor accepted)
    ]
