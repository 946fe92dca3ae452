-- ===== src/Store/Pruning/Eligible.antt =====
-- internal/storage/sqlite/pruning.go: which relays `SoftPrune` prunes.
use activity_relay_directory.Prelude.{
  ℕ, ◌+◌, ◌≤◌, ◌≡◌, false, some, ◌++◌, ◌∷◌, [], Bytes, lookup, insert,
}
use activity_relay_directory.Identity.Library.{Library}
use activity_relay_directory.Store.Schema.{registered, pruned, relay_pruned, Relay, Database}
use activity_relay_directory.Store.Transaction.{StoreError, transition_input}
use activity_relay_directory.Store.Rows.{validate_identity_intent, latest, precedes}
use activity_relay_directory.Store.Lifecycle.Step.{Step}
use activity_relay_directory.Store.Pruning.{
  PruneOutcome, prune_applied, already_pruned, not_eligible, dead_before, is_protected, pruned_row,
}

-- A registered relay that was not seen for 30 days, without a recent success of its actor check, at a time
-- that no kept time of the relay is behind.
pub record Eligible (db : Database) (actor : Bytes) (observed : ℕ) (row : Relay) : Type 0 where
  pub known : lookup actor db.relays ≡ some row
  pub listed : row.lifecycle_state ≡ registered
  pub idle : row.last_seen_at + dead_before ≤ observed
  pub unprotected : is_protected (lookup actor db.observations) observed ≡ false
  pub in_order : precedes observed (latest db actor) ≡ false

pub record Pruned (lib : Library) (db : Database) (actor : Bytes) (observed : ℕ) (next : Database)
    (outcome : PruneOutcome) : Type 0 where
  pub step : Step lib db actor observed next
  pub row : Relay
  pub eligible : Eligible db actor observed row
  pub found : lookup actor next.relays ≡ some (pruned_row row observed)
  pub only : next ≡ record db {
    relays = insert actor (pruned_row row observed) db.relays;
    relay_events =
        db.relay_events
        ++ record { relay_actor = actor; event_kind = relay_pruned; recorded_at = observed } ∷ [];
  }
  pub same_observations : next.observations ≡ db.observations
  pub outcome_is : outcome ≡ prune_applied

-- Why `SoftPrune` refuses, while no statement fails.
pub data PruneReason (lib : Library) (actor : Bytes) : StoreError → Type 0 where
  not_valid : validate_identity_intent lib actor ≡ false → PruneReason lib actor transition_input

pub data Unpruned (db : Database) (actor : Bytes) (observed : ℕ) : PruneOutcome → Type 0 where
  before :
      (row : Relay)
      → lookup actor db.relays ≡ some row
      → row.lifecycle_state ≡ pruned
      → Unpruned db actor observed already_pruned
  ineligible :
      ((row : Relay) → Eligible db actor observed row → ⊥) → Unpruned db actor observed not_eligible
