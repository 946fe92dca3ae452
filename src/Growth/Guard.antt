-- ===== src/Growth/Guard.antt =====
-- internal/storage/sqlite/growth.go: the guard. Its mutex is held through each of these calls, and from an
-- admitted write to its release, so calls run one after another. Mail is sent outside it, so what `due`
-- finds and what `delivered` changes are two calls.
pub mod Kept
pub mod Start
pub mod Alerts
pub mod Admission
pub mod Opening
use activity_relay_directory.Prelude.{
  ℕ, Bool, true, false, not, ◌&&◌, ◌||◌, Option, none, some, List, [], ◌∷◌, ltb, leb, ◌==◌,
  if◌then◌else◌,
}
use activity_relay_directory.Store.Rows.{ClockTime, since_epoch, before_epoch}
use activity_relay_directory.Growth.State.{GrowthState, AlertKind, critical_percent, is_hard}
use activity_relay_directory.Growth.Limits.{
  Pragmas, PageLimits, maximum_database_bytes, page_limits, verify_connection_policy,
}
use activity_relay_directory.Growth.Sample.{
  configuration_error, sample_error, write_admission_hard, canceled, Outcome, ok, err, Readings,
  Policy, Sample, sample_growth,
}
use activity_relay_directory.Growth.Row.{
  Row, row_check, names, same_state, note_transition, first_alert_due, reminder_due, schedule_if,
  note_sent, note_failure,
}

-- `stored` is the row of the database; `last` is `none` for the zero sample.
pub record Guard : Type 0 where
  pub policy : Policy
  pub email_enabled : Bool
  pub reminder : ℕ
  pub last : Option Sample
  pub loaded : Row
  pub stored : Row
  pub sample_healthy : Bool
  pub wake : Bool

abbrev pub last_observed : Option Sample → ℕ
last_observed none = 0
last_observed (some sample) = sample.observed

abbrev pub last_family : Option Sample → ℕ
last_family none = 0
last_family (some sample) = sample.family_bytes

-- The size that the growth is counted from.
unfoldable pub previous_bytes : Guard → Option ℕ
previous_bytes guard =
    if not (last_observed guard.last == 0)
    then some (last_family guard.last)
    else if not (guard.loaded.sampled_at == 0)
    then some guard.loaded.physical_bytes
    else none

abbrev pub unhealthy : Guard → Guard
unhealthy guard = record guard { sample_healthy = false }

-- `writeGrowthPersistentState`; the last argument tells whether the statement fails for its own reasons.
unfoldable pub write_row : Guard → Bool → Option Guard
write_row guard fails =
    if ltb 3 guard.loaded.retry_attempt || not (row_check guard.loaded) || fails
    then none
    else some (record guard { stored = guard.loaded })

-- The row after a sample, and whether an alert was scheduled.
unfoldable pub scheduled : Bool → ℕ → GrowthState → ℕ → Row → Row × Bool
scheduled email_enabled reminder reached now row =
    let moved = note_transition email_enabled reached now row in
    let first = first_alert_due email_enabled reached moved in
    let alerted = schedule_if first reached now moved in
    let again = reminder_due email_enabled reminder reached now alerted in
    (
      schedule_if again reached now alerted,
      not (same_state reached row.growth_state) || first || again,
    )

-- What the guard holds after a sample, before it is written.
unfoldable pub kept_sample : Guard → ℕ → Sample → Guard
kept_sample guard now sample =
    let row =
      (scheduled guard.email_enabled guard.reminder sample.growth_state now guard.loaded).0 in
    record guard {
      loaded = record row { sampled_at = now; physical_bytes = sample.family_bytes };
      last = some sample;
    }

abbrev pub alerts_changed : Guard → ℕ → Sample → Bool
alerts_changed guard now sample =
    (scheduled guard.email_enabled guard.reminder sample.growth_state now guard.loaded).1

unfoldable pub write_if : Bool → Guard → Bool → Option Guard
write_if write guard fails = if write then write_row guard fails else some guard

abbrev pub finish_sample : Guard → Sample → Bool → Option Guard → Guard × Outcome (Sample × Bool)
finish_sample kept sample transitioned none = (unhealthy kept, err sample_error)
finish_sample kept sample transitioned (some written) =
    (record written { sample_healthy = true }, ok (sample, transitioned))

-- `sampleLocked` from the sample on.
unfoldable pub record_sample : Guard → ℕ → Sample → Bool → Bool → Guard × Outcome (Sample × Bool)
record_sample guard now sample persist_periodic fails =
    finish_sample (kept_sample guard now sample) sample
      (not (same_state sample.growth_state guard.loaded.growth_state))
      (write_if (alerts_changed guard now sample || persist_periodic) (kept_sample guard now sample)
        fails)

-- The sample that was taken, or the error that marks the guard.
unfoldable pub keep_sample :
    Guard → ℕ → Bool → Bool → Outcome Sample → Guard × Outcome (Sample × Bool)
keep_sample guard now persist_periodic fails (err e) = (unhealthy guard, err e)
keep_sample guard now persist_periodic fails (ok sample) =
    record_sample guard now sample persist_periodic fails

unfoldable pub sample_locked :
    Guard → ClockTime → Readings → Bool → Bool → Guard × Outcome (Sample × Bool)
sample_locked guard (before_epoch n) readings persist_periodic fails =
    (unhealthy guard, err sample_error)
sample_locked guard (since_epoch now) readings persist_periodic fails =
    keep_sample guard now persist_periodic fails
      (sample_growth guard.policy readings now (previous_bytes guard) guard.loaded.growth_state)

abbrev pub signal_if : Bool → Guard → Guard
signal_if transitioned guard = if transitioned then record guard { wake = true } else guard

unfoldable pub admit_sample : Guard × Outcome (Sample × Bool) → Guard × Outcome (Unit {0})
admit_sample (sampled, err e) = (sampled, err e)
admit_sample (sampled, ok (sample, transitioned)) = (
  signal_if transitioned sampled,
  if is_hard sample.growth_state then err write_admission_hard else ok tt,
)

-- `AcquireWrite`; `ok` is a lease.
unfoldable pub acquire_write :
    Guard → Bool → ClockTime → Readings → Bool → Guard × Outcome (Unit {0})
acquire_write guard is_canceled now readings fails =
    if is_canceled
    then (guard, err canceled)
    else admit_sample (sample_locked guard now readings false fails)

unfoldable pub ready : Guard → Outcome (Unit {0})
ready guard = if not guard.sample_healthy then err sample_error else elim guard.last [
  | none ↦ ok tt
  | some sample ↦ if is_hard sample.growth_state then err write_admission_hard else ok tt
]

unfoldable pub end_tick : Guard × Outcome (Sample × Bool) → Guard
end_tick (sampled, err e) = sampled
end_tick (sampled, ok (sample, transitioned)) = signal_if transitioned sampled

-- The part of `tick` under the mutex. A failing checkpoint is logged only.
unfoldable pub tick : Guard → Bool → ClockTime → Readings → Bool → Guard
tick guard is_canceled now readings fails =
    if is_canceled then guard else end_tick (sample_locked guard now readings true fails)

abbrev pub or_zero : Option ℕ → ℕ
or_zero none = 0
or_zero (some n) = n

abbrev pub reached_by : Option ℕ → ℕ → Bool
reached_by none now = false
reached_by (some due) now = leb due now

-- The first half of `processPending`: the alert to send, and since when it is pending.
unfoldable pub due : Guard → Bool → ClockTime → Option (AlertKind × ℕ)
due guard is_canceled (before_epoch n) = none
due guard is_canceled (since_epoch now) =
    if not guard.email_enabled || is_canceled || not (reached_by guard.loaded.retry_after now)
    then none
    else elim guard.loaded.pending_kind [
      | none ↦ none
      | some kind ↦ some (kind, or_zero guard.loaded.pending_since)
    ]

abbrev pub since_is : Option ℕ → ℕ → Bool
since_is none since = false
since_is (some other) since = other == since

abbrev pub write_or_mark : Guard → Bool → Guard
write_or_mark guard fails = elim (write_row guard fails) [
  | none ↦ unhealthy guard
  | some written ↦ written
]

-- The second half, after the mail was sent or not.
unfoldable pub delivered : Guard → AlertKind → ℕ → Bool → ClockTime → Bool → Guard
delivered guard kind since sent (before_epoch n) fails = guard
delivered guard kind since sent (since_epoch now) fails =
    if not (names guard.loaded.pending_kind kind && since_is guard.loaded.pending_since since)
    then guard
    else if sent
    then write_or_mark (record guard { loaded = note_sent kind now guard.loaded }) fails
    else write_or_mark (record guard { loaded = note_failure now guard.loaded }) fails

pub data Call : Type 0 where
  acquire_call : Bool → ClockTime → Readings → Bool → Call
  tick_call : Bool → ClockTime → Readings → Bool → Call
  delivery_call : AlertKind → ℕ → Bool → ClockTime → Bool → Call

unfoldable pub step : Guard → Call → Guard
step guard (acquire_call is_canceled now readings fails) =
    (acquire_write guard is_canceled now readings fails).0
step guard (tick_call is_canceled now readings fails) = tick guard is_canceled now readings fails
step guard (delivery_call kind since sent now fails) = delivered guard kind since sent now fails

unfoldable pub run : Guard → List Call → Guard
run guard [] = guard
run guard (call ∷ calls) = run (step guard call) calls
