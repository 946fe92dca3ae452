-- ===== src/Growth/Percent/Agreement.antt =====
-- internal/storage/sqlite/growth.go: the two ways in which a size is compared with a percentage.
use native.Mathlib.Nat.{le-div_iff_mul-le}
use activity_relay_directory.Prelude.{ℕ, ◌+◌, ◌*◌, ◌/◌, ◌≤◌, ◌<◌, ◌≡◌, arith, leb}
use activity_relay_directory.Growth.Percent.{at_least_percent, bounded_percent}

reaches :
    (value maximum percent : ℕ)
    → 0 < maximum
    → leb percent (value * 100 / maximum) ≡ leb (maximum * percent) (value * 100)
reaches value maximum percent m =
    ground (arith, le-div_iff_mul-le {k = maximum} {x = percent} {y = value * 100} m)

-- A whole percentage of the maximum, rounded up.
rounded_up :
    (value maximum percent : ℕ)
    → leb ((maximum * percent + 99) / 100) value ≡ leb (maximum * percent) (value * 100)
rounded_up value maximum percent = ground arith

full_le :
    (value maximum percent : ℕ) → maximum ≤ value → percent ≤ 100 → maximum * percent ≤ value * 100
full_le value maximum percent h k = grind arith

-- A size reaches a percentage of the maximum exactly where the reported percentage does.
pub at_least_percent-bounded_percent :
    (value maximum percent : ℕ)
    → 0 < maximum
    → 0 < percent
    → percent ≤ 100
    → at_least_percent value maximum percent ≡ leb percent (bounded_percent value maximum)
unfolding at_least_percent bounded_percent
at_least_percent-bounded_percent value maximum percent m p h = ground (
  arith,
  reaches value maximum percent m,
  rounded_up value maximum percent,
  full_le value maximum percent,
)
