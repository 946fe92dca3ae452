-- ===== src/Growth/Percent.antt =====
-- internal/storage/sqlite/growth.go: the arithmetic on sizes. A size is not negative; products of a size
-- that the configuration bounds by 2^40 and a percentage are below 2^63, so only the sums and products of
-- what SQLite and the file system report are checked for overflow.
pub mod Agreement
use activity_relay_directory.Prelude.{
  ℕ, ◌+◌, ◌-◌, ◌*◌, ◌/◌, ◌%◌, ◌^◌, Bool, true, false, not, ◌&&◌, ◌||◌, Option, none, some, ltb, leb,
  ◌==◌, if◌then◌else◌,
}

-- `1<<63 - 1`
unfoldable pub maximum_int64 : ℕ
maximum_int64 = 2 ^ 63 - 1

unfoldable pub at_least_percent : ℕ → ℕ → ℕ → Bool
at_least_percent value maximum percent =
    if maximum == 0 || percent == 0
    then false
    else if leb maximum value
    then true
    else leb ((maximum * percent + 99) / 100) value

abbrev pub maximum_percent_report : ℕ
maximum_percent_report = 999

unfoldable pub bounded_percent : ℕ → ℕ → ℕ
bounded_percent value maximum =
    if maximum == 0 || value == 0
    then 0
    else if leb (maximum * maximum_percent_report / 100) value
    then maximum_percent_report
    else value * 100 / maximum

unfoldable pub checked_multiply : ℕ → ℕ → Option ℕ
checked_multiply a b = if not (a == 0) && ltb (maximum_int64 / a) b then none else some (a * b)

unfoldable pub checked_add : ℕ → ℕ → Option ℕ
checked_add total value = if ltb (maximum_int64 - value) total then none else some (total + value)

-- `none` where the source answers 0.
unfoldable pub round_up : ℕ → ℕ → Option ℕ
round_up value unit =
    if value == 0 || unit == 0
    then none
    else if value % unit == 0
    then some value
    else if ltb (maximum_int64 - (unit - value % unit)) value
    then none
    else some (value + (unit - value % unit))
