-- ===== src/Store/Rows.antt =====
-- internal/storage/sqlite/relay.go: the checks and the statements that the transitions share, with those of
-- the observations in internal/storage/sqlite/discovery.go.
pub mod Consistent
pub mod Evidence
use activity_relay_directory.Prelude.{
  ℕ, ◌+◌, Bool, false, not, ◌&&◌, ◌||◌, Option, none, some, List, [], ◌∷◌, ◌++◌, ltb, ◌==◌, is_some,
  length, max, if◌then◌else◌, Bytes, bytes_eq, lookup, insert, has,
}
use activity_relay_directory.Identity.Library.{Library}
use activity_relay_directory.Identity.Normalize.{
  normalize_relay_identity, normalize_relay_actor_url,
}
use activity_relay_directory.Store.Schema.{
  Relay, EventKind, RelayEvent, ModerationEvent, Observation, unknown, not_checked, Database,
  relay_check, observation_check,
}
use activity_relay_directory.Store.Transaction.{
  StoreError, transition_time, observation_time, storage_failure, Attempt, done, failed, Faults,
  read_event_time, read_moderation_time, write_relay, read_observation, insert_observation,
  read_inserted_observation, write_observation, write_event, guarded, bind,
}

pub record RegisterIntent : Type 0 where
  pub relay_actor : Bytes
  pub public_base_url : Bytes

-- A clock reading in whole seconds: since 1970, or before it.
pub data ClockTime : Type 0 where
  since_epoch before_epoch : ℕ → ClockTime

unfoldable pub transition_unix : ClockTime → Option ℕ
transition_unix (since_epoch n) = some n
transition_unix (before_epoch n) = none

abbrev maximum_relay_actor_bytes : ℕ
maximum_relay_actor_bytes = 4096

abbrev maximum_public_base_bytes : ℕ
maximum_public_base_bytes = 2048

abbrev pub canonical_identity : Library → Bytes → Bytes → Bool
canonical_identity lib actor base = elim (normalize_relay_identity lib actor base) [
  | none ↦ false
  | some identity ↦ bytes_eq identity.relay_actor actor && bytes_eq identity.public_base_url base
]

abbrev pub canonical_actor : Library → Bytes → Bool
canonical_actor lib actor = elim (normalize_relay_actor_url lib actor) [
  | none ↦ false
  | some canonical ↦ bytes_eq canonical actor
]

-- `validateRegisterIntent` answers no error.
unfoldable pub validate_register_intent : Library → RegisterIntent → Bool
validate_register_intent lib intent =
    if length intent.relay_actor == 0
      || ltb maximum_relay_actor_bytes (length intent.relay_actor)
      || length intent.public_base_url == 0
      || ltb maximum_public_base_bytes (length intent.public_base_url)
    then false
    else canonical_identity lib intent.relay_actor intent.public_base_url

-- `validateIdentityIntent` answers no error. An `IdentityIntent` is its relay actor.
unfoldable pub validate_identity_intent : Library → Bytes → Bool
validate_identity_intent lib actor =
    if length actor == 0 || ltb maximum_relay_actor_bytes (length actor)
    then false
    else canonical_actor lib actor

-- The later of two times, of which one or both may be missing.
abbrev pub later : Option ℕ → Option ℕ → Option ℕ
later none t = t
later (some n) none = some n
later (some n) (some m) = some (max n m)

unfoldable pub latest_event : Bytes → List RelayEvent → Option ℕ
latest_event actor [] = none
latest_event actor (event ∷ events) =
    let rest = latest_event actor events in
    if bytes_eq event.relay_actor actor then later (some event.recorded_at) rest else rest

unfoldable pub latest_moderation : Bytes → List ModerationEvent → Option ℕ
latest_moderation actor [] = none
latest_moderation actor (event ∷ events) =
    let rest = latest_moderation actor events in
    if bytes_eq event.relay_actor actor then later (some event.recorded_at) rest else rest

abbrev pub relay_time : Option Relay → Option ℕ
relay_time none = none
relay_time (some row) = some (max row.updated_at row.last_seen_at)

abbrev pub precedes : ℕ → Option ℕ → Bool
precedes n none = false
precedes n (some m) = ltb n m

-- Every time that is kept of an actor; `none` stands for the -1 that the source starts from.
unfoldable pub latest : Database → Bytes → Option ℕ
latest db actor =
    later (later (relay_time (lookup actor db.relays)) (latest_event actor db.relay_events))
      (latest_moderation actor db.moderation_events)

unfoldable pub require_monotonic_time : Faults → Database → Bytes → ℕ → Option StoreError
require_monotonic_time fails db actor accepted =
    if fails read_event_time
    then some storage_failure
    else if fails read_moderation_time
    then some storage_failure
    else if precedes accepted (latest db actor)
    then some transition_time
    else none

-- `INSERT` or `UPDATE` of the row of an actor, under the constraints of the table.
unfoldable pub put_relay : Faults → Database → Bytes → Relay → Attempt Database
put_relay fails db actor row =
    if fails write_relay || not (relay_check actor row)
    then failed storage_failure
    else done (record db { relays = insert actor row db.relays })

unfoldable pub put_observation : Database → Bytes → Observation → Attempt Database
put_observation db actor row =
    if not (observation_check actor row)
    then failed storage_failure
    else done (record db { observations = insert actor row db.observations })

-- `retainedObservationIdentity`; the trigger on the observations tests the same.
unfoldable pub retained : Database → Bytes → Bool
retained db actor = is_some (lookup actor db.relays) || has actor db.discoveries

abbrev pub empty_observation : ℕ → Observation
empty_observation updated_unix = record {
  actor_state = unknown;
  actor_last_checked = none;
  actor_last_success = none;
  inbox_url = none;
  inbox_declared = none;
  inbox_probe_state = not_checked;
  inbox_last_checked = none;
  rfc9421_verified = none;
  updated_unix = updated_unix;
  revision = 1;
}

unfoldable pub insert_empty_observation : Faults → Database → Bytes → ℕ → Attempt Database
insert_empty_observation fails db actor updated_unix =
    if fails insert_observation || not (retained db actor)
    then failed storage_failure
    else put_observation db actor (empty_observation updated_unix)

unfoldable pub mark_verified : Faults → Database → Bytes → Observation → ℕ → Attempt Database
mark_verified fails db actor current verified =
    if precedes verified current.rfc9421_verified
    then failed observation_time
    else guarded fails write_observation (
        put_observation db actor (record current {
          rfc9421_verified = some verified;
          updated_unix = max current.updated_unix verified;
          revision = current.revision + 1;
        }))

-- The row that was inserted is read again.
unfoldable pub mark_inserted : Faults → Database → Bytes → ℕ → Attempt Database
mark_inserted fails db actor verified =
    guarded fails read_inserted_observation (elim (lookup actor db.observations) [
      | none ↦ failed storage_failure
      | some current ↦ mark_verified fails db actor current verified
    ])

-- `recordRFC9421VerifiedTx`
unfoldable pub record_rfc9421_verified : Faults → Database → Bytes → ℕ → Attempt Database
record_rfc9421_verified fails db actor verified =
    guarded fails read_observation (elim (lookup actor db.observations) [
      | some current ↦ mark_verified fails db actor current verified
      | none ↦
          bind (insert_empty_observation fails db actor verified)
            (λ filled. mark_inserted fails filled actor verified)
    ])

unfoldable pub insert_relay_event : Faults → Database → Bytes → EventKind → ℕ → Attempt Database
insert_relay_event fails db actor kind recorded_at = guarded fails write_event (
    done (record db {
      relay_events =
          db.relay_events
          ++ record { relay_actor = actor; event_kind = kind; recorded_at = recorded_at } ∷ [];
    }))
