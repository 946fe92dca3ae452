-- ===== src/Store/Lifecycle/Register.antt =====
-- internal/storage/sqlite/relay.go: `Register` on every branch.
use activity_relay_directory.Store.Lifecycle.Terms.{
  expected_outcome, Registered, RegisterReason, not_valid, is_out, not_enrolling, late, newer,
  IntentOk, validate_register_intent-IntentOk,
}
use activity_relay_directory.Prelude.{
  ℕ, ◌≡◌, refl, true, Option, none, some, arith, Bool-cases, inl, inr, bytes_eq, bytes_eq_iff,
  bytes_eq_refl, lookup, lookup-insert,
}
use activity_relay_directory.Identity.Library.{Library}
use activity_relay_directory.Identity.Normalize.Binding.{normalize_relay_identity_unique}
use activity_relay_directory.Protocol.Vocabulary.{active, Outcome, created, updated, unchanged}
use activity_relay_directory.Store.Checks.{new_relay-check, seen-check, joined-check}
use activity_relay_directory.Store.Schema.{
  registered, register_created, register_updated, register_unchanged, Relay, Database,
}
use activity_relay_directory.Store.Transaction.{
  transition_input, storage_failure, Attempt, done, failed, Faults, read_relay, read_enrollment,
  relay_suspended, enrollment_is_closed, StoreError,
}
use activity_relay_directory.Store.Transaction.Ends.{
  Sane, Ends, guarded-Ends, checked-Ends, Settled, refused, Promised, transact-Settled,
}
use activity_relay_directory.Store.Rows.{
  RegisterIntent, since_epoch, transition_unix, validate_register_intent, require_monotonic_time,
}
use activity_relay_directory.Store.Rows.Consistent.{
  Consistent, require_monotonic_time-row, require_monotonic_time-none,
  require_monotonic_time-reason,
}
use activity_relay_directory.Store.Lifecycle.{
  is_registered, Registration, new_relay, seen, classify_registration, admit_registration,
  write_transition, answered, register_body, register,
}
use activity_relay_directory.Store.Lifecycle.Step.{
  RowOk, Written, write_transition-Written, Written-Step,
}

-- What the `switch` chooses, when the tests before it pass.
record Chosen (lib : Library) (db : Database) (intent : RegisterIntent) (accepted : ℕ)
    (r : Registration) : Type 0 where
  row_ok : RowOk lib intent.relay_actor r.row
  url : r.row.public_base_url ≡ intent.public_base_url
  listed : r.row.lifecycle_state ≡ registered
  not_suspended : r.row.administrative_state ≡ active
  last_seen : r.row.last_seen_at ≡ accepted
  outcome_is : r.outcome ≡ expected_outcome (lookup intent.relay_actor db.relays)

admit_registration-reason :
    (lib : Library) (fails : Faults) (db : Database) (intent : RegisterIntent) (accepted : ℕ)
    (row : Option Relay)
    → lookup intent.relay_actor db.relays ≡ row
    → Sane fails
    → (e : StoreError) → admit_registration fails db row ≡ some e
    → RegisterReason lib db intent accepted e
unfolding admit_registration
admit_registration-reason lib fails db intent accepted none known sane e h =
    let which : e ≡ enrollment_is_closed = ground (arith, sane read_enrollment) in
    rw which (not_enrolling known (ground (arith, sane read_enrollment)))
admit_registration-reason lib fails db intent accepted (some row) known sane e h =
    let which : e ≡ relay_suspended = ground arith in rw which (is_out row known (ground arith))

admit_registration-active :
    (fails : Faults) (db : Database) {row : Option Relay} (before : Relay)
    → admit_registration fails db row ≡ none
    → row ≡ some before
    → before.administrative_state ≡ active
unfolding admit_registration
admit_registration-active fails db {row = none} before h e = ground arith
admit_registration-active fails db {row = some row} before h e = ground arith

admit_registration-enrolled :
    (fails : Faults) (db : Database) {row : Option Relay}
    → admit_registration fails db row ≡ none
    → row ≡ none
    → db.enrollment_open ≡ true
unfolding admit_registration
admit_registration-enrolled fails db {row = none} h e = ground arith
admit_registration-enrolled fails db {row = some row} h e = ground arith

module _ (lib : Library) (fails : Faults) (db : Database) (intent : RegisterIntent) (accepted : ℕ)
    (c : Consistent lib db) (i : IntentOk lib intent)
    (ordered : require_monotonic_time fails db intent.relay_actor accepted ≡ none) where
  -- The same actor has the same base URL, so a registered relay never differs from its intent.
  same_url :
      (row : Relay)
      → lookup intent.relay_actor db.relays ≡ some row
      → row.public_base_url ≡ intent.public_base_url
  same_url row e =
      let (_, kept) = c.relays_ok intent.relay_actor row e in
      let same =
        normalize_relay_identity_unique lib intent.relay_actor row.public_base_url
          intent.public_base_url _ _ kept i.canonical in
      ground arith

  classify_registration-Chosen :
      (row : Option Relay)
      → lookup intent.relay_actor db.relays ≡ row
      → admit_registration fails db row ≡ none
      → (r : Registration) × (classify_registration row intent accepted ≡ some r)
        × Chosen lib db intent accepted r
  unfolding classify_registration admit_registration
  classify_registration-Chosen none e admitted = (
    record {
      row = new_relay intent.public_base_url accepted;
      outcome = created;
      event_kind = register_created;
    },
    refl,
    record {
      row_ok = record {
        constraints =
            new_relay-check intent.relay_actor intent.public_base_url accepted i.actor_sized
              i.url_sized;
        canonical = i.canonical;
      };
      url = refl;
      listed = refl;
      not_suspended = refl;
      last_seen = refl;
      outcome_is = rw e refl;
    },
  )
  classify_registration-Chosen (some row) e admitted =
      let (constraints, kept) = c.relays_ok intent.relay_actor row e in
      let (a, b) = require_monotonic_time-row fails db intent.relay_actor accepted row ordered e in
      let url = same_url row e in
      let equal : bytes_eq row.public_base_url intent.public_base_url ≡ true =
        (bytes_eq_iff row.public_base_url intent.public_base_url).1 url in
      elim (Bool-cases (is_registered row.lifecycle_state)) [
        | inl here ↦ (
          record { row = seen row accepted; outcome = unchanged; event_kind = register_unchanged },
          rw (here, equal) refl,
          record {
            row_ok = record {
              constraints = seen-check intent.relay_actor row accepted constraints here a b;
              canonical = kept;
            };
            url = url;
            listed = ground arith;
            not_suspended = ground arith;
            last_seen = refl;
            outcome_is = rw (e, here) refl;
          },
        )
        | inr gone ↦ (
          record {
            row = record (seen row accepted) {
              public_base_url = intent.public_base_url;
              lifecycle_state = registered;
              unregistered_at = none;
              pruned_at = none;
            };
            outcome = updated;
            event_kind = register_updated;
          },
          rw gone refl,
          record {
            row_ok = record {
              constraints =
                  joined-check intent.relay_actor intent.public_base_url row accepted constraints
                    i.url_sized a b;
              canonical = i.canonical;
            };
            url = refl;
            listed = refl;
            not_suspended = ground arith;
            last_seen = refl;
            outcome_is = rw (e, gone) refl;
          },
        )
      ]

  -- The switch and the writes.
  registration-Ends :
      admit_registration fails db (lookup intent.relay_actor db.relays) ≡ none
      → Ends fails
          (RegisterReason lib db intent accepted)
          (Promised (Registered lib db intent accepted) (λ o. ⊥))
          (elim (classify_registration (lookup intent.relay_actor db.relays) intent accepted) [
            | none ↦ failed storage_failure
            | some r ↦
                answered r.outcome
                  (write_transition fails db intent.relay_actor r.row r.event_kind accepted)
          ])
  registration-Ends admitted =
      let (r, e, k) =
        classify_registration-Chosen (lookup intent.relay_actor db.relays) refl admitted in
      rw e (
        answered-Ends r k (write_transition fails db intent.relay_actor r.row r.event_kind accepted)
          (write_transition-Written fails (RegisterReason lib db intent accepted) db
            intent.relay_actor r.row r.event_kind accepted newer c.observations_ok
            k.row_ok.constraints))
    where
      answered-Ends :
          (r : Registration)
          → Chosen lib db intent accepted r
          → (x : Attempt Database)
          → Ends fails
              (RegisterReason lib db intent accepted)
              (Written db intent.relay_actor r.row r.event_kind accepted)
              x
          → Ends fails
              (RegisterReason lib db intent accepted)
              (Promised (Registered lib db intent accepted) (λ o. ⊥))
              (answered r.outcome x)
      answered-Ends r k (failed e) h = h
      answered-Ends r k (done next) h = record {
        step =
            Written-Step lib db next intent.relay_actor r.row r.event_kind accepted c k.row_ok
              (require_monotonic_time-none fails db intent.relay_actor accepted ordered) h;
        row = r.row;
        found = rw h.only (
            ground (
              arith,
              lookup-insert intent.relay_actor intent.relay_actor r.row db.relays,
              bytes_eq_refl intent.relay_actor,
            ));
        url = k.url;
        listed = k.listed;
        not_suspended = k.not_suspended;
        last_seen = k.last_seen;
        outcome_is = k.outcome_is;
        was_active = λ before e. admit_registration-active fails db before admitted e;
        enrolled = λ e. admit_registration-enrolled fails db admitted e;
      }

-- `Register` in a consistent database, whatever statements fail: it commits an active registration with
-- the intent's base URL, seen at the accepted time, with the outcome that the state before tells, one new
-- event and no change to other relays; or it fails, changes nothing and has one of its five reasons, unless
-- some statement failed. A new relay is registered only while enrollment is open.
pub register-Registered :
    (lib : Library) (fails : Faults) (db : Database) (intent : RegisterIntent) (accepted : ℕ)
    → Consistent lib db
    → Settled fails
        (RegisterReason lib db intent accepted)
        (Registered lib db intent accepted)
        (λ o. ⊥)
        db
        (register lib fails db intent (since_epoch accepted))
unfolding register register_body transition_unix
register-Registered lib fails db intent accepted c =
    elim (Bool-cases (validate_register_intent lib intent)) [
      | inr bad ↦ rw bad (refused transition_input (λ sane. not_valid bad))
      | inl ok ↦ rw ok (
          transact-Settled fails (RegisterReason lib db intent accepted)
            (Registered lib db intent accepted) (λ o. ⊥) db _
            (guarded-Ends fails (RegisterReason lib db intent accepted) promise read_relay _ (
              checked-Ends fails (RegisterReason lib db intent accepted) promise
                (admit_registration fails db row) _
                (admit_registration-reason lib fails db intent accepted row refl)
                (λ admitted.
                  checked-Ends fails (RegisterReason lib db intent accepted) promise
                    (require_monotonic_time fails db intent.relay_actor accepted) _
                    (λ sane e h.
                      let (which, early) =
                        require_monotonic_time-reason fails db intent.relay_actor accepted sane e
                          h in
                      rw which (late early))
                    (λ ordered.
                      registration-Ends lib fails db intent accepted c
                        (validate_register_intent-IntentOk lib intent ok) ordered admitted)))))
    ]
  where
    row : Option Relay
    row = lookup intent.relay_actor db.relays

    promise : Option Database × Outcome → Type 0
    promise = Promised (Registered lib db intent accepted) (λ o. ⊥)
