-- ===== src/Store/Lifecycle/Terms.antt =====
-- internal/storage/sqlite/relay.go: the terms of a registration, and why one is refused.
use activity_relay_directory.Prelude.{
  ℕ, ◌≡◌, true, Option, none, some, arith, Option-cases, inl, inr, bytes_eq_iff, lookup,
  if◌then◌else◌, false,
}
use activity_relay_directory.Identity.Library.{Library}
use activity_relay_directory.Identity.Normalize.{normalize_relay_identity}
use activity_relay_directory.Protocol.Vocabulary.{
  active, Outcome, created, updated, unchanged, suspended,
}
use activity_relay_directory.Store.Schema.{registered, Relay, Database, sized}
use activity_relay_directory.Store.Transaction.{
  transition_input, transition_time, relay_suspended, enrollment_is_closed, observation_time,
  StoreError,
}
use activity_relay_directory.Store.Rows.{RegisterIntent, validate_register_intent, latest, precedes}
use activity_relay_directory.Store.Lifecycle.{is_registered}
use activity_relay_directory.Store.Lifecycle.Step.{Step, Newer}

-- The outcome that the state before tells.
abbrev pub expected_outcome : Option Relay → Outcome
expected_outcome none = created
expected_outcome (some row) = if is_registered row.lifecycle_state then unchanged else updated

pub record Registered (lib : Library) (db : Database) (intent : RegisterIntent) (accepted : ℕ)
    (next : Database) (outcome : Outcome) : Type 0 where
  pub step : Step lib db intent.relay_actor accepted next
  pub row : Relay
  pub found : lookup intent.relay_actor next.relays ≡ some row
  pub url : row.public_base_url ≡ intent.public_base_url
  pub listed : row.lifecycle_state ≡ registered
  pub not_suspended : row.administrative_state ≡ active
  pub last_seen : row.last_seen_at ≡ accepted
  pub outcome_is : outcome ≡ expected_outcome (lookup intent.relay_actor db.relays)
  pub was_active :
      (before : Relay)
      → lookup intent.relay_actor db.relays ≡ some before
      → before.administrative_state ≡ active
  pub enrolled : lookup intent.relay_actor db.relays ≡ none → db.enrollment_open ≡ true

-- Why `Register` refuses, while no statement fails.
pub data RegisterReason (lib : Library) (db : Database) (intent : RegisterIntent) (accepted : ℕ)
    : StoreError → Type 0 where
  not_valid :
      validate_register_intent lib intent ≡ false
      → RegisterReason lib db intent accepted transition_input
  is_out :
      (row : Relay)
      → lookup intent.relay_actor db.relays ≡ some row
      → row.administrative_state ≡ suspended
      → RegisterReason lib db intent accepted relay_suspended
  not_enrolling :
      lookup intent.relay_actor db.relays ≡ none
      → db.enrollment_open ≡ false
      → RegisterReason lib db intent accepted enrollment_is_closed
  late :
      precedes accepted (latest db intent.relay_actor) ≡ true
      → RegisterReason lib db intent accepted transition_time
  newer :
      Newer db intent.relay_actor accepted → RegisterReason lib db intent accepted observation_time

-- The intent after its validation.
pub record IntentOk (lib : Library) (intent : RegisterIntent) : Type 0 where
  pub actor_sized : sized 4096 intent.relay_actor ≡ true
  pub url_sized : sized 2048 intent.public_base_url ≡ true
  pub canonical :
      normalize_relay_identity lib intent.relay_actor intent.public_base_url
      ≡ some (record { relay_actor = intent.relay_actor; public_base_url = intent.public_base_url })

pub validate_register_intent-IntentOk :
    (lib : Library) (intent : RegisterIntent)
    → validate_register_intent lib intent ≡ true
    → IntentOk lib intent
unfolding validate_register_intent sized
validate_register_intent-IntentOk lib intent h =
    elim (Option-cases (normalize_relay_identity lib intent.relay_actor intent.public_base_url)) [
      | inl bad ↦ absurd (ground arith)
      | inr (identity, e) ↦
          let a : identity.relay_actor ≡ intent.relay_actor =
            (bytes_eq_iff identity.relay_actor intent.relay_actor).0 (ground arith) in
          let b : identity.public_base_url ≡ intent.public_base_url =
            (bytes_eq_iff identity.public_base_url intent.public_base_url).0 (ground arith) in
          record { actor_sized = ground arith; url_sized = ground arith; canonical = ground arith }
    ]
