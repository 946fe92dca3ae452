-- ===== src/Growth/Row.antt =====
-- The singleton row of storage_growth_state (internal/storage/sqlite/migrations/0007_database_growth_guard.sql)
-- and the changes that internal/storage/sqlite/growth.go makes to it.
pub mod Check
use activity_relay_directory.Prelude.{
  ℕ, ◌+◌, ◌*◌, Bool, true, false, not, ◌&&◌, ◌||◌, Option, none, some, ltb, leb, ◌==◌, is_some,
  if◌then◌else◌,
}
use activity_relay_directory.Growth.State.{
  GrowthState, AlertKind, warning_alert, critical_alert, hard_limit, recovered, is_normal,
  growth_rank, alert_kind_for_state, alert_kind_for_transition,
}

-- `growthPersistentState`
pub record Row : Type 0 where
  pub growth_state : GrowthState
  pub sampled_at : ℕ
  pub physical_bytes : ℕ
  pub transition_at : ℕ
  pub last_email_kind : Option AlertKind
  pub last_email_at : Option ℕ
  pub pending_kind : Option AlertKind
  pub pending_since : Option ℕ
  pub retry_after : Option ℕ
  pub retry_attempt : ℕ

abbrev pub both_or_neither : Bool → Bool → Bool
both_or_neither true b = b
both_or_neither false b = not b

-- The CHECK constraints. No text and no negative number stands in a row by its type.
unfoldable pub row_check : Row → Bool
row_check row =
    leb row.retry_attempt 3
    && both_or_neither (is_some row.last_email_kind) (is_some row.last_email_at)
    && both_or_neither (is_some row.pending_kind) (is_some row.pending_since)
    && both_or_neither (is_some row.pending_kind) (is_some row.retry_after)
    && (is_some row.pending_kind || row.retry_attempt == 0)

abbrev pub alert_code : AlertKind → ℕ
alert_code warning_alert = 0
alert_code critical_alert = 1
alert_code hard_limit = 2
alert_code recovered = 3

abbrev pub names : Option AlertKind → AlertKind → Bool
names none kind = false
names (some other) kind = alert_code other == alert_code kind

abbrev pub same_state : GrowthState → GrowthState → Bool
same_state a b = growth_rank a == growth_rank b

unfoldable pub clear_pending : Row → Row
clear_pending row = record row {
  pending_kind = none;
  pending_since = none;
  retry_after = none;
  retry_attempt = 0;
}

-- The four assignments that schedule an alert.
unfoldable pub schedule : AlertKind → ℕ → Row → Row
schedule kind now row = record row {
  pending_kind = some kind;
  pending_since = some now;
  retry_after = some now;
  retry_attempt = 0;
}

-- The block under `if transitioned`.
unfoldable pub note_transition : Bool → GrowthState → ℕ → Row → Row
note_transition email_enabled reached now row =
    let moved = record row { growth_state = reached; transition_at = now } in
    if same_state reached row.growth_state
    then row
    else if email_enabled
    then schedule (alert_kind_for_transition row.growth_state reached) now moved
    else clear_pending moved

-- An alert that was never mailed for this state.
unfoldable pub first_alert_due : Bool → GrowthState → Row → Bool
first_alert_due email_enabled reached row =
    email_enabled
    && not (is_normal reached)
    && not (is_some row.pending_kind)
    && not (names row.last_email_kind (alert_kind_for_state reached))

abbrev pub elapsed : Option ℕ → ℕ → ℕ → Bool
elapsed none interval now = false
elapsed (some since) interval now = leb (since + interval) now

unfoldable pub reminder_due : Bool → ℕ → GrowthState → ℕ → Row → Bool
reminder_due email_enabled reminder reached now row =
    email_enabled
    && not (is_normal reached)
    && not (is_some row.pending_kind)
    && elapsed row.last_email_at reminder now

abbrev pub schedule_if : Bool → GrowthState → ℕ → Row → Row
schedule_if due reached now row =
    if due then schedule (alert_kind_for_state reached) now row else row

-- In seconds.
unfoldable pub retry_delay : ℕ → ℕ
retry_delay attempt =
    if attempt == 0
    then 5 * 60
    else if attempt == 1
    then 15 * 60
    else if attempt == 2
    then 60 * 60
    else 24 * 3600

unfoldable pub note_sent : AlertKind → ℕ → Row → Row
note_sent kind now row =
    clear_pending (record row { last_email_kind = some kind; last_email_at = some now })

unfoldable pub note_failure : ℕ → Row → Row
note_failure now row = record row {
  retry_attempt = if ltb 3 (row.retry_attempt + 1) then 3 else row.retry_attempt + 1;
  retry_after = some (now + retry_delay row.retry_attempt);
}
