-- ===== src/Store/Enrollment.antt =====
-- internal/storage/sqlite/enrollment.go: `SetEnrollment`.
pub mod Policy
use activity_relay_directory.Prelude.{
  ℕ, Bool, true, false, not, ◌&&◌, ◌||◌, Option, none, some, List, [], ◌∷◌, ◌++◌, ltb, leb, ◌==◌,
  length, if◌then◌else◌, Bytes, lookup, all,
}
use activity_relay_directory.Identity.Library.{Library}
use activity_relay_directory.Protocol.Vocabulary.{AdministrativeState, active, suspended}
use activity_relay_directory.Store.Schema.{
  Relay, ModerationAction, suspend_applied, suspend_unchanged, restore_applied, restore_unchanged,
  EnrollmentAction, enrollment_opened, enrollment_open_unchanged, enrollment_closed,
  enrollment_closed_unchanged, EnrollmentEvent, Database,
}
use activity_relay_directory.Store.Transaction.{
  StoreError, transition_input, transition_time, relay_absent, storage_failure, Attempt, done,
  failed, Faults, read_relay, read_enrollment, read_policy_time, read_enrollment_time, write_policy,
  write_enrollment_event, write_moderation_event, guarded, checked, bind, transact,
}
use activity_relay_directory.Store.Rows.{
  ClockTime, transition_unix, validate_identity_intent, require_monotonic_time, put_relay, later,
  precedes,
}
use activity_relay_directory.Store.Moderation.{valid_operator_id}

pub data EnrollmentOutcome : Type 0 where
  opened already_open closed already_closed : EnrollmentOutcome

unfoldable pub classify_enrollment : Bool → Bool → EnrollmentOutcome × EnrollmentAction
classify_enrollment false true = (opened, enrollment_opened)
classify_enrollment true true = (already_open, enrollment_open_unchanged)
classify_enrollment true false = (closed, enrollment_closed)
classify_enrollment false false = (already_closed, enrollment_closed_unchanged)

unfoldable pub latest_enrollment : List EnrollmentEvent → Option ℕ
latest_enrollment [] = none
latest_enrollment (event ∷ events) = later (some event.recorded_at) (latest_enrollment events)

unfoldable pub require_enrollment_time : Faults → Database → ℕ → Option StoreError
require_enrollment_time fails db accepted =
    if fails read_policy_time
    then some storage_failure
    else if fails read_enrollment_time
    then some storage_failure
    else if precedes accepted
        (later (some db.policy_updated_at) (latest_enrollment db.enrollment_events))
    then some transition_time
    else none

abbrev pub differs : Bool → Bool → Bool
differs true target = not target
differs false target = target

unfoldable pub put_policy : Faults → Database → Bool → ℕ → Attempt Database
put_policy fails db target accepted =
    if differs db.enrollment_open target
    then guarded fails write_policy
        (done (record db { enrollment_open = target; policy_updated_at = accepted }))
    else done db

abbrev pub answered_enrollment :
    EnrollmentOutcome → Attempt Database → Attempt (Option Database × EnrollmentOutcome)
answered_enrollment outcome (done db) = done (some db, outcome)
answered_enrollment outcome (failed e) = failed e

unfoldable pub insert_enrollment_event :
    Faults → Database → EnrollmentAction → Bytes → ℕ → Attempt Database
insert_enrollment_event fails db action operator_id recorded_at =
    guarded fails write_enrollment_event (
      done (record db {
        enrollment_events =
            db.enrollment_events
            ++ record { action = action; operator_id = operator_id; recorded_at = recorded_at }
              ∷ [];
      }))

unfoldable pub set_enrollment_body :
    Faults → Database → Bool → Bytes → ℕ → Attempt (Option Database × EnrollmentOutcome)
set_enrollment_body fails db target operator_id accepted =
    let (outcome, action) = classify_enrollment db.enrollment_open target in
    guarded fails read_enrollment (
      checked (require_enrollment_time fails db accepted) (
        answered_enrollment outcome (
          bind (put_policy fails db target accepted)
            (λ db'. insert_enrollment_event fails db' action operator_id accepted))))

-- `SetEnrollment`. An `EnrollmentIntent` is its operator id.
unfoldable pub set_enrollment :
    Faults → Database → Bool → Bytes → ClockTime → Database × Attempt EnrollmentOutcome
set_enrollment fails db target operator_id accepted_at =
    if not (valid_operator_id operator_id)
    then (db, failed transition_input)
    else elim (transition_unix accepted_at) [
      | none ↦ (db, failed transition_time)
      | some accepted ↦ transact fails db (set_enrollment_body fails db target operator_id accepted)
    ]
