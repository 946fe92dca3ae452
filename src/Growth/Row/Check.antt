-- ===== src/Growth/Row/Check.antt =====
-- internal/storage/sqlite/growth.go: the changes of the row against its CHECK constraints.
use activity_relay_directory.Prelude.{ℕ, ◌≤◌, ◌≡◌, Bool, true, false, arith}
use activity_relay_directory.Growth.State.{GrowthState, AlertKind, alert_kind_for_transition}
use activity_relay_directory.Growth.Row.{
  Row, row_check, names, note_transition, schedule, schedule_if, clear_pending, note_sent,
  note_failure,
}

pub row_check-attempt : (row : Row) → row_check row ≡ true → row.retry_attempt ≤ 3
unfolding row_check
row_check-attempt row h = ground arith

pub clear_pending-row_check :
    (row : Row) → row_check row ≡ true → row_check (clear_pending row) ≡ true
unfolding row_check clear_pending
clear_pending-row_check row h = ground arith

pub schedule-row_check :
    (kind : AlertKind) (now : ℕ) (row : Row)
    → row_check row ≡ true
    → row_check (schedule kind now row) ≡ true
unfolding row_check schedule
schedule-row_check kind now row h = ground arith

pub schedule_if-row_check :
    (due : Bool) (reached : GrowthState) (now : ℕ) (row : Row)
    → row_check row ≡ true
    → row_check (schedule_if due reached now row) ≡ true
schedule_if-row_check true reached now row h = schedule-row_check _ now row h
schedule_if-row_check false reached now row h = h

moved-row_check :
    (reached : GrowthState) (now : ℕ) (row : Row)
    → row_check row ≡ true
    → row_check (record row { growth_state = reached; transition_at = now }) ≡ true
unfolding row_check
moved-row_check reached now row h = h

pub note_transition-row_check :
    (email_enabled : Bool) (reached : GrowthState) (now : ℕ) (row : Row)
    → row_check row ≡ true
    → row_check (note_transition email_enabled reached now row) ≡ true
unfolding note_transition
note_transition-row_check email_enabled reached now row h = ground (
  arith,
  schedule-row_check (alert_kind_for_transition row.growth_state reached) now
      (record row { growth_state = reached; transition_at = now }),
  clear_pending-row_check (record row { growth_state = reached; transition_at = now }),
  moved-row_check reached now row h,
)

pub note_sent-row_check :
    (kind : AlertKind) (now : ℕ) (row : Row)
    → row_check row ≡ true
    → row_check (note_sent kind now row) ≡ true
unfolding row_check note_sent clear_pending
note_sent-row_check kind now row h = ground arith

pub note_failure-row_check :
    (kind : AlertKind) (now : ℕ) (row : Row)
    → names row.pending_kind kind ≡ true
    → row_check row ≡ true
    → row_check (note_failure now row) ≡ true
unfolding row_check note_failure
note_failure-row_check kind now row pending h = ground arith

pub sampled-row_check :
    (now bytes : ℕ) (row : Row)
    → row_check row ≡ true
    → row_check (record row { sampled_at = now; physical_bytes = bytes }) ≡ true
unfolding row_check
sampled-row_check now bytes row h = h
