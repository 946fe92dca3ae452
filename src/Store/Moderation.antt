-- ===== src/Store/Moderation.antt =====
-- internal/storage/sqlite/moderation.go: `Suspend` and `Restore`, with the tokens that
-- internal/storage/relay.go and moderation_read.go validate.
pub mod Change
pub mod Standing
use activity_relay_directory.Prelude.{
  ℕ, Bool, true, false, not, ◌&&◌, ◌||◌, Option, none, some, List, [], ◌∷◌, ◌++◌, ltb, leb, ◌==◌,
  length, if◌then◌else◌, Bytes, lookup, all,
}
use activity_relay_directory.Identity.Library.{Library}
use activity_relay_directory.Protocol.Vocabulary.{AdministrativeState, active, suspended}
use activity_relay_directory.Store.Schema.{
  Relay, ModerationAction, suspend_applied, suspend_unchanged, restore_applied, restore_unchanged,
  EnrollmentAction, enrollment_opened, enrollment_open_unchanged, enrollment_closed,
  enrollment_closed_unchanged, EnrollmentEvent, Database,
}
use activity_relay_directory.Store.Transaction.{
  StoreError, transition_input, transition_time, relay_absent, storage_failure, Attempt, done,
  failed, Faults, read_relay, read_enrollment, read_policy_time, read_enrollment_time, write_policy,
  write_enrollment_event, write_moderation_event, guarded, checked, bind, transact,
}
use activity_relay_directory.Store.Rows.{
  ClockTime, transition_unix, validate_identity_intent, require_monotonic_time, put_relay, later,
  precedes,
}

pub record ModerationIntent : Type 0 where
  pub relay_actor : Bytes
  pub moderator_id : Bytes
  pub reason_code : Bytes

abbrev between : ℕ → ℕ → ℕ → Bool
between low high c = leb low c && leb c high

abbrev alphanumeric : ℕ → Bool
alphanumeric c = between b'A' b'Z' c || between b'a' b'z' c || between b'0' b'9' c

abbrev operator_character : ℕ → Bool
operator_character c =
    alphanumeric c || c == b'@' || c == b'.' || c == b'_' || c == b':' || c == b'+' || c == b'-'

unfoldable pub valid_operator_id : Bytes → Bool
valid_operator_id [] = false
valid_operator_id (c ∷ s) =
    if ltb 128 (length (c ∷ s)) then false else alphanumeric c && all operator_character s

abbrev reason_character : ℕ → Bool
reason_character c = between b'a' b'z' c || between b'0' b'9' c || c == b'_' || c == b'-'

unfoldable pub valid_moderation_reason_code : Bytes → Bool
valid_moderation_reason_code [] = false
valid_moderation_reason_code (c ∷ s) =
    if ltb 64 (length (c ∷ s)) then false else between b'a' b'z' c && all reason_character s

unfoldable pub validate_moderation_intent : Library → ModerationIntent → Bool
validate_moderation_intent lib intent =
    validate_identity_intent lib intent.relay_actor
    && valid_operator_id intent.moderator_id
    && valid_moderation_reason_code intent.reason_code

pub data ModerationOutcome : Type 0 where
  now_suspended already_suspended now_restored already_active : ModerationOutcome

pub record Classified : Type 0 where
  pub outcome : ModerationOutcome
  pub action : ModerationAction
  pub changed : Bool

unfoldable pub classify_moderation : AdministrativeState → AdministrativeState → Classified
classify_moderation active suspended = record {
  outcome = now_suspended;
  action = suspend_applied;
  changed = true;
}
classify_moderation suspended suspended = record {
  outcome = already_suspended;
  action = suspend_unchanged;
  changed = false;
}
classify_moderation suspended active = record {
  outcome = now_restored;
  action = restore_applied;
  changed = true;
}
classify_moderation active active = record {
  outcome = already_active;
  action = restore_unchanged;
  changed = false;
}

abbrev suspended_time : AdministrativeState → ℕ → Option ℕ
suspended_time active accepted = none
suspended_time suspended accepted = some accepted

abbrev pub moderated : Relay → AdministrativeState → ℕ → Relay
moderated row target accepted = record row {
  administrative_state = target;
  suspended_at = suspended_time target accepted;
  updated_at = accepted;
}

unfoldable pub insert_moderation_event :
    Faults → Database → ModerationIntent → ModerationAction → ℕ → Attempt Database
insert_moderation_event fails db intent action recorded_at = guarded fails write_moderation_event (
    done (record db {
      moderation_events =
          db.moderation_events
          ++ record {
            relay_actor = intent.relay_actor;
            action = action;
            moderator_id = intent.moderator_id;
            reason_code = intent.reason_code;
            recorded_at = recorded_at;
          }
            ∷ [];
    }))

-- The state change, if there is one.
unfoldable pub change_standing :
    Faults → Database → Bytes → Relay → AdministrativeState → ℕ → Attempt Database
change_standing fails db actor row target accepted =
    if (classify_moderation row.administrative_state target).changed
    then put_relay fails db actor (moderated row target accepted)
    else done db

abbrev pub answered_moderation :
    ModerationOutcome → Attempt Database → Attempt (Option Database × ModerationOutcome)
answered_moderation outcome (done db) = done (some db, outcome)
answered_moderation outcome (failed e) = failed e

unfoldable pub moderate_body :
    Faults
    → Database
    → ModerationIntent
    → AdministrativeState
    → ℕ
    → Attempt (Option Database × ModerationOutcome)
moderate_body fails db intent target accepted =
    guarded fails read_relay (elim (lookup intent.relay_actor db.relays) [
      | none ↦ failed relay_absent
      | some row ↦
          let c = classify_moderation row.administrative_state target in
          checked (require_monotonic_time fails db intent.relay_actor accepted) (
            answered_moderation c.outcome (
              bind (change_standing fails db intent.relay_actor row target accepted)
                (λ db'. insert_moderation_event fails db' intent c.action accepted)))
    ])

unfoldable pub moderate :
    Library
    → Faults
    → Database
    → ModerationIntent
    → ClockTime
    → AdministrativeState
    → Database × Attempt ModerationOutcome
moderate lib fails db intent accepted_at target =
    if not (validate_moderation_intent lib intent)
    then (db, failed transition_input)
    else elim (transition_unix accepted_at) [
      | none ↦ (db, failed transition_time)
      | some accepted ↦ transact fails db (moderate_body fails db intent target accepted)
    ]

abbrev pub suspend :
    Library
    → Faults
    → Database
    → ModerationIntent
    → ClockTime
    → Database × Attempt ModerationOutcome
suspend lib fails db intent accepted_at = moderate lib fails db intent accepted_at suspended

abbrev pub restore :
    Library
    → Faults
    → Database
    → ModerationIntent
    → ClockTime
    → Database × Attempt ModerationOutcome
restore lib fails db intent accepted_at = moderate lib fails db intent accepted_at active
