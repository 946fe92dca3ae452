-- ===== src/Store/Lifecycle/Departure.antt =====
-- internal/storage/sqlite/relay.go: the departure of a relay, and why one is refused.
use activity_relay_directory.Prelude.{
  ℕ, ◌≡◌, true, false, none, some, List, Bytes, bytes_eq, lookup, insert,
}
use activity_relay_directory.Identity.Library.{Library}
use activity_relay_directory.Protocol.Vocabulary.{Outcome, removed, absent}
use activity_relay_directory.Store.Schema.{Relay, Database}
use activity_relay_directory.Store.Transaction.{
  transition_input, transition_time, observation_time, StoreError,
}
use activity_relay_directory.Store.Rows.{validate_identity_intent, latest, precedes}
use activity_relay_directory.Store.Rows.Consistent.{RelaysOk}
use activity_relay_directory.Store.Lifecycle.{is_registered, left}
use activity_relay_directory.Store.Lifecycle.Step.{Step, Newer}

-- What becomes of the row: a registered relay leaves, anything else stays as it was.
pub data Departure (db : Database) (actor : Bytes) (accepted : ℕ) (relays : List (Bytes × Relay))
    : Outcome → Type 0 where
  departed :
      (row : Relay)
      → lookup actor db.relays ≡ some row
      → is_registered row.lifecycle_state ≡ true
      → relays ≡ insert actor (left row accepted) db.relays
      → Departure db actor accepted relays removed
  not_there :
      lookup actor db.relays ≡ none → relays ≡ db.relays → Departure db actor accepted relays absent
  gone_before :
      (row : Relay)
      → lookup actor db.relays ≡ some row
      → is_registered row.lifecycle_state ≡ false
      → relays ≡ db.relays
      → Departure db actor accepted relays absent

pub record Left (lib : Library) (db : Database) (actor : Bytes) (accepted : ℕ) (next : Database)
    (outcome : Outcome) : Type 0 where
  pub step : Step lib db actor accepted next
  pub departure : Departure db actor accepted next.relays outcome

-- Why `Unregister` refuses, while no statement fails.
pub data UnregisterReason (lib : Library) (db : Database) (actor : Bytes) (accepted : ℕ)
    : StoreError → Type 0 where
  not_valid :
      validate_identity_intent lib actor ≡ false
      → UnregisterReason lib db actor accepted transition_input
  late :
      precedes accepted (latest db actor) ≡ true
      → UnregisterReason lib db actor accepted transition_time
  newer : Newer db actor accepted → UnregisterReason lib db actor accepted observation_time

-- After the row, before the evidence and the event.
pub record Leaving (lib : Library) (db : Database) (actor : Bytes) (accepted : ℕ)
    (mid : Database × Outcome) : Type 0 where
  pub relays : List (Bytes × Relay)
  pub only : mid.0 ≡ record db { relays = relays }
  pub ok : RelaysOk lib relays
  pub others :
      (other : Bytes) → bytes_eq actor other ≡ false → lookup other relays ≡ lookup other db.relays
  pub departure : Departure db actor accepted relays mid.1
