-- ===== src/Store/Rows/Consistent.antt =====
-- internal/storage/sqlite: a consistent database, and what the shared statements do to it.
use activity_relay_directory.Prelude.{
  ℕ, ◌≤◌, ◌≡◌, refl, true, false, none, some, List, arith, Bool-cases, Option-cases, inl, inr,
  Bytes, lookup, insert,
}
use activity_relay_directory.Identity.Library.{Library}
use activity_relay_directory.Identity.Normalize.{normalize_relay_identity}
use activity_relay_directory.Store.Schema.{
  Relay, Observation, Database, relay_check, observation_check,
}
use activity_relay_directory.Store.Transaction.{
  StoreError, transition_time, Faults, write_relay, read_event_time, read_moderation_time,
}
use activity_relay_directory.Store.Transaction.Ends.{Sane, Ends}
use activity_relay_directory.Store.Rows.{
  latest, latest_event, latest_moderation, precedes, require_monotonic_time, put_relay,
  put_observation,
}

abbrev pub RelaysOk : Library → List (Bytes × Relay) → Type 0
RelaysOk lib relays =
    (actor : Bytes) (row : Relay)
    → lookup actor relays ≡ some row
    → (relay_check actor row ≡ true)
      × (normalize_relay_identity lib actor row.public_base_url
          ≡ some (record { relay_actor = actor; public_base_url = row.public_base_url }))

abbrev pub ObservationsOk : List (Bytes × Observation) → Type 0
ObservationsOk observations =
    (actor : Bytes) (row : Observation)
    → lookup actor observations ≡ some row
    → observation_check actor row ≡ true

-- Every row meets the constraints of its table, and every relay is kept under its canonical identity.
pub record Consistent (lib : Library) (db : Database) : Type 0 where
  pub relays_ok : RelaysOk lib db.relays
  pub observations_ok : ObservationsOk db.observations

-- A time that is accepted is no earlier than any that is kept.
pub require_monotonic_time-row :
    (fails : Faults) (db : Database) (actor : Bytes) (accepted : ℕ) (row : Relay)
    → require_monotonic_time fails db actor accepted ≡ none
    → lookup actor db.relays ≡ some row
    → (row.updated_at ≤ accepted) × (row.last_seen_at ≤ accepted)
unfolding require_monotonic_time latest
require_monotonic_time-row fails db actor accepted row h e =
    elim (Option-cases (latest_event actor db.relay_events)) [
      | inl a ↦ elim (Option-cases (latest_moderation actor db.moderation_events)) [
        | inl b ↦ ground arith
        | inr (m, b) ↦ ground arith
      ]
      | inr (n, a) ↦ elim (Option-cases (latest_moderation actor db.moderation_events)) [
        | inl b ↦ ground arith
        | inr (m, b) ↦ ground arith
      ]
    ]

pub require_monotonic_time-none :
    (fails : Faults) (db : Database) (actor : Bytes) (accepted : ℕ)
    → require_monotonic_time fails db actor accepted ≡ none
    → precedes accepted (latest db actor) ≡ false
unfolding require_monotonic_time
require_monotonic_time-none fails db actor accepted h =
    elim (Bool-cases (precedes accepted (latest db actor))) [
      | inl early ↦ ground arith
      | inr fine ↦ fine
    ]

pub require_monotonic_time-late :
    (fails : Faults) (db : Database) (actor : Bytes) (accepted : ℕ)
    → require_monotonic_time fails db actor accepted ≡ some transition_time
    → precedes accepted (latest db actor) ≡ true
unfolding require_monotonic_time
require_monotonic_time-late fails db actor accepted h =
    elim (Bool-cases (precedes accepted (latest db actor))) [
      | inl early ↦ early
      | inr fine ↦ ground arith
    ]

-- Its only reason to refuse, while no statement fails.
pub require_monotonic_time-reason :
    (fails : Faults) (db : Database) (actor : Bytes) (accepted : ℕ)
    → Sane fails
    → (e : StoreError) → require_monotonic_time fails db actor accepted ≡ some e
    → (e ≡ transition_time) × (precedes accepted (latest db actor) ≡ true)
unfolding require_monotonic_time
require_monotonic_time-reason fails db actor accepted sane e h =
    ground (arith, sane read_event_time, sane read_moderation_time)

module _ (fails : Faults) (F : StoreError → Type 0) (db : Database) (actor : Bytes) where
  pub put_relay-Ends :
      (row : Relay)
      → relay_check actor row ≡ true
      → Ends fails F
          (λ db'. db' ≡ record db { relays = insert actor row db.relays })
          (put_relay fails db actor row)
  unfolding put_relay
  put_relay-Ends row ok = elim (Bool-cases (fails write_relay)) [
    | inl broken ↦ rw broken (λ sane. absurd (ground (arith, sane write_relay)))
    | inr fine ↦ rw (fine, ok) refl
  ]

  pub put_observation-Ends :
      (row : Observation)
      → observation_check actor row ≡ true
      → Ends fails F
          (λ db'. db' ≡ record db { observations = insert actor row db.observations })
          (put_observation db actor row)
  unfolding put_observation
  put_observation-Ends row ok = rw ok refl
