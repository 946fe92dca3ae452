-- ===== src/Growth/Examples.antt =====
-- The properties of the growth guard at concrete inputs: a budget of 1 GiB, pages of 4096 bytes, and files
-- that fill a twentieth of it, with a row in the hard state before.
use activity_relay_directory.Prelude.{
  ℕ, ◌+◌, ◌≤◌, ◌<◌, ◌≡◌, refl, true, false, ◌&&◌, ◌||◌, none, some, List, [], ◌∷◌, arith, leb,
  if◌then◌else◌,
}
use activity_relay_directory.Store.Rows.{since_epoch}
use activity_relay_directory.Growth.Percent.{
  maximum_int64, at_least_percent, bounded_percent, checked_multiply, checked_add, round_up,
}
use activity_relay_directory.Growth.State.{
  hard, hard_limit, growth_rank, is_hard, classify_growth_state, apply_growth_hysteresis,
  alert_kind_for_state, alert_kind_for_transition,
}
use activity_relay_directory.Growth.Limits.{
  Pragmas, PageLimits, planned_headroom, limits_of_headroom, page_limits, verify_connection_policy,
}
use activity_relay_directory.Growth.Limits.Budget.{Budget, page_limits-Budget}
use activity_relay_directory.Growth.Sample.{
  Outcome, ok, err, write_admission_hard, Readings, Sample, Sizes, measure, pressure, base_state,
  next_state, sample_of, sample_growth,
}
use activity_relay_directory.Growth.Sample.Boundary.{PolicyOk, threshold, next_state_iff}
use activity_relay_directory.Growth.Row.{
  Row, row_check, schedule, note_transition, first_alert_due, reminder_due, retry_delay,
  note_failure,
}
use activity_relay_directory.Growth.Guard.{
  Guard, previous_bytes, write_row, scheduled, kept_sample, write_if, record_sample, keep_sample,
  sample_locked, admit_sample, acquire_write, due, delivered, Call, acquire_call, tick_call,
  delivery_call, end_tick, tick, step, run,
}
use activity_relay_directory.Growth.Guard.Opening.{Options, guard_of, new_guard}
use activity_relay_directory.Growth.Guard.Kept.{Kept, run-Kept}
use activity_relay_directory.Growth.Guard.Admission.{Admitted, acquire_write-measured}
use activity_relay_directory.Growth.Guard.Alerts.{Noted, sample_locked-Noted, due-delivered}
use activity_relay_directory.Growth.Guard.Start.{Budgeted, run-new_guard-Admitted}

abbrev pragmas : Pragmas
pragmas = record {
  page_size = some 4096;
  page_count = some 12_800;
  freelist_count = some 100;
  max_page_count = some 229_376;
  cache_spill = some 0;
}

abbrev limits : PageLimits
limits = record { desired_pages = 229_376; effective_pages = 229_376; main_limit = 939_524_096 }

limits_found : page_limits pragmas 1_073_741_824 ≡ some limits
unfolding page_limits planned_headroom round_up maximum_int64 limits_of_headroom
limits_found = refl

page_limits-Budget_example :
    (1_073_741_824 ≤ 1_099_511_627_776)
    × (page_size : ℕ) × (page_count : ℕ) × (pragmas.page_size ≡ some page_size)
    × (pragmas.page_count ≡ some page_count)
    × Budget 1_073_741_824 page_size page_count limits
page_limits-Budget_example = page_limits-Budget pragmas 1_073_741_824 limits limits_found

abbrev readings : Readings
readings = record {
  pragmas = pragmas;
  main_size = some 52_428_800;
  wal_size = some 4096;
  shm_size = some 0;
}

abbrev sizes : Sizes
sizes = record {
  page_size = 4096;
  page_count = 12_800;
  free_pages = 100;
  max_pages = 229_376;
  main_bytes = 52_428_800;
  wal_bytes = 4096;
  shm_bytes = 0;
  used_bytes = 52_019_200;
  allocated_bytes = 52_428_800;
  family_bytes = 52_432_896;
}

sizes_measured : measure readings ≡ some sizes
unfolding measure checked_multiply checked_add maximum_int64
sizes_measured = refl

abbrev options : Options
options = record {
  max_bytes = 1_073_741_824;
  warning_percent = 75;
  retention_days = 0;
  email_enabled = true;
  has_mailer = true;
  reminder_interval = 0;
}

abbrev row : Row
row = record {
  growth_state = hard;
  sampled_at = 500;
  physical_bytes = 1_073_741_824;
  transition_at = 500;
  last_email_kind = none;
  last_email_at = none;
  pending_kind = some hard_limit;
  pending_since = some 500;
  retry_after = some 500;
  retry_attempt = 0;
}

row_ok : row_check row ≡ true
unfolding row_check
row_ok = refl

abbrev initial : Guard
initial = guard_of options limits row

initial-PolicyOk : PolicyOk initial.policy
initial-PolicyOk = record {
  budget_pos = omega arith;
  limit_pos = omega arith;
  warning_pos = omega arith;
  warning_low = omega arith;
}

initial-Kept : Kept initial.policy initial
initial-Kept = record { policy_is = refl; loaded_ok = row_ok; stored_ok = row_ok }

next_state_iff_example :
    leb (growth_rank hard) (growth_rank (next_state initial.policy sizes hard)) ≡ (
      leb (threshold 75 hard) (pressure initial.policy sizes)
      || leb (growth_rank hard) (growth_rank hard)
        && leb (threshold 75 hard) (pressure initial.policy sizes + 5))
next_state_iff_example = next_state_iff initial.policy sizes hard hard initial-PolicyOk

acquire_write-measured_example :
    (acquire_write initial false (since_epoch 1000) readings false).1
    ≡ (if is_hard (next_state initial.policy sizes hard) then err write_admission_hard else ok tt)
acquire_write-measured_example =
    acquire_write-measured initial 1000 readings sizes initial-PolicyOk (omega arith) row_ok
      sizes_measured

abbrev calls : List Call
calls =
    acquire_call false (since_epoch 1010) readings false
    ∷ delivery_call hard_limit 500 false (since_epoch 1020) true
    ∷ tick_call false (since_epoch 1300) readings false
    ∷ []

run-Kept_example : Kept initial.policy (run initial calls)
run-Kept_example = run-Kept initial.policy initial calls initial-Kept

due-delivered_example :
    (700 < 1000 + 300
      → due
          (delivered initial hard_limit 500 false (since_epoch 1000) false)
          false
          (since_epoch 700)
        ≡ none)
    × (1000 + 86_400 ≤ 700
        → due
            (delivered initial hard_limit 500 false (since_epoch 1000) false)
            false
            (since_epoch 700)
          ≡ some (hard_limit, 500))
due-delivered_example = due-delivered initial hard_limit 500 1000 700 false refl refl refl

abbrev sample : Sample
sample = sample_of initial.policy sizes 1000 (previous_bytes initial) hard

sample_taken : (sample_locked initial (since_epoch 1000) readings false false).1 ≡ ok (sample, true)
unfolding sample_locked sample_growth keep_sample record_sample write_if write_row kept_sample
    scheduled note_transition first_alert_due reminder_due schedule row_check measure
    checked_multiply checked_add maximum_int64 sample_of next_state base_state pressure
    classify_growth_state apply_growth_hysteresis at_least_percent bounded_percent previous_bytes
    alert_kind_for_state alert_kind_for_transition
sample_taken = refl

sample_locked-Noted_example :
    Noted initial 1000 sample true (sample_locked initial (since_epoch 1000) readings false false).0
sample_locked-Noted_example =
    sample_locked-Noted initial 1000 readings false false sample true sample_taken

abbrev or_initial : Outcome Guard → Guard
or_initial (ok guard) = guard
or_initial (err e) = initial

abbrev first_guard : Guard
first_guard = or_initial (new_guard options pragmas (some row) (since_epoch 1000) readings false)

guard_started :
    new_guard options pragmas (some row) (since_epoch 1000) readings false ≡ ok first_guard
unfolding new_guard page_limits planned_headroom round_up limits_of_headroom
    verify_connection_policy sample_locked sample_growth keep_sample record_sample write_if
    write_row kept_sample scheduled note_transition first_alert_due reminder_due schedule row_check
    measure checked_multiply checked_add maximum_int64 sample_of next_state base_state pressure
    classify_growth_state apply_growth_hysteresis at_least_percent bounded_percent previous_bytes
    alert_kind_for_state alert_kind_for_transition
guard_started = refl

later_admitted :
    (acquire_write (run first_guard calls) false (since_epoch 1400) readings false).1 ≡ ok tt
unfolding run step acquire_write admit_sample tick end_tick delivered note_failure retry_delay
    new_guard page_limits planned_headroom round_up limits_of_headroom verify_connection_policy
    sample_locked sample_growth keep_sample record_sample write_if write_row kept_sample scheduled
    note_transition first_alert_due reminder_due schedule row_check measure checked_multiply
    checked_add maximum_int64 sample_of next_state base_state pressure classify_growth_state
    apply_growth_hysteresis at_least_percent bounded_percent previous_bytes alert_kind_for_state
    alert_kind_for_transition
later_admitted = refl

run-new_guard-Admitted_example :
    Admitted (run first_guard calls) readings
    × Budgeted options pragmas (run first_guard calls).policy
run-new_guard-Admitted_example =
    run-new_guard-Admitted options pragmas row (since_epoch 1000) readings false first_guard calls
      false (since_epoch 1400) readings false row_ok guard_started later_admitted
