-- ===== src/Growth/Guard/Opening.antt =====
-- internal/storage/sqlite/growth.go: `NewDatabaseGrowthGuard` and `InspectDatabaseGrowth`.
use activity_relay_directory.Prelude.{
  ℕ, Bool, true, false, not, ◌||◌, Option, none, some, ltb, leb, ◌==◌, if◌then◌else◌,
}
use activity_relay_directory.Store.Rows.{ClockTime}
use activity_relay_directory.Growth.State.{critical_percent}
use activity_relay_directory.Growth.Limits.{
  Pragmas, PageLimits, maximum_database_bytes, page_limits, verify_connection_policy,
}
use activity_relay_directory.Growth.Sample.{
  configuration_error, sample_error, Outcome, ok, err, Readings, Policy, Sample, sample_growth,
}
use activity_relay_directory.Growth.Row.{Row}
use activity_relay_directory.Growth.Guard.{Guard, sample_locked}

pub record Options : Type 0 where
  pub max_bytes : ℕ
  pub warning_percent : ℕ
  pub retention_days : ℕ
  pub email_enabled : Bool
  pub has_mailer : Bool
  pub reminder_interval : ℕ

abbrev pub options_refused : Options → Bool
options_refused options =
    options.max_bytes == 0
    || ltb maximum_database_bytes options.max_bytes
    || options.warning_percent == 0
    || leb critical_percent options.warning_percent
    || not (if options.email_enabled then options.has_mailer else not options.has_mailer)

-- In seconds.
abbrev pub default_reminder : ℕ
default_reminder = 86_400

abbrev pub guard_of : Options → PageLimits → Row → Guard
guard_of options limits row = record {
  policy = record {
    max_bytes = options.max_bytes;
    warning_percent = options.warning_percent;
    retention_days = options.retention_days;
    desired_pages = limits.desired_pages;
    main_limit = limits.main_limit;
  };
  email_enabled = options.email_enabled;
  reminder = if options.reminder_interval == 0 then default_reminder else options.reminder_interval;
  last = none;
  loaded = row;
  stored = row;
  sample_healthy = false;
  wake = false;
}

abbrev pub start_guard : Guard × Outcome (Sample × Bool) → Outcome Guard
start_guard (sampled, err e) = err e
start_guard (sampled, ok result) = ok (record sampled { wake = true })

-- `NewDatabaseGrowthGuard`; the row is `none` where it is not read.
unfoldable pub new_guard :
    Options → Pragmas → Option Row → ClockTime → Readings → Bool → Outcome Guard
new_guard options pragmas row now readings fails =
    if options_refused options
    then err configuration_error
    else elim (page_limits pragmas options.max_bytes) [
      | none ↦ err configuration_error
      | some limits ↦
          if not (
            verify_connection_policy pragmas options.max_bytes limits.desired_pages
              limits.main_limit false)
          then err configuration_error
          else elim row [
            | none ↦ err sample_error
            | some persisted ↦
                start_guard
                  (sample_locked (guard_of options limits persisted) now readings true fails)
          ]
    ]

-- `InspectDatabaseGrowth`: a sample against the kept row, which changes nothing.
unfoldable pub inspect : ℕ → ℕ → ℕ → Readings → Option Row → Outcome Sample
inspect max_bytes warning_percent retention_days readings row =
    elim (page_limits readings.pragmas max_bytes) [
      | none ↦ err configuration_error
      | some limits ↦ elim row [
        | none ↦ err sample_error
        | some persisted ↦
            let policy : Policy = record {
              max_bytes = max_bytes;
              warning_percent = warning_percent;
              retention_days = retention_days;
              desired_pages = limits.desired_pages;
              main_limit = limits.main_limit;
            } in
            let previous : Option ℕ =
              if persisted.sampled_at == 0 then none else some persisted.physical_bytes in
            elim (sample_growth policy readings 0 previous persisted.growth_state) [
              | err e ↦ err e
              | ok sample ↦ ok (record sample { max_page_count = limits.effective_pages })
            ]
      ]
    ]
