-- ===== src/Growth/Limits/Budget.antt =====
-- internal/storage/sqlite/growth.go: the page limits within the budget.
use native.Mathlib.Nat.{div-mul-le_self, lt-div-mul-add}
use activity_relay_directory.Prelude.{
  ℕ, ◌+◌, ◌-◌, ◌*◌, ◌/◌, ◌≤◌, ◌<◌, ◌≡◌, some, ltb, arith, if◌then◌else◌, >>=-eq-some,
  require-eq-some,
}
use activity_relay_directory.Growth.Percent.{round_up}
use activity_relay_directory.Growth.Limits.{
  Pragmas, PageLimits, maximum_database_bytes, planned_headroom, limits_of_headroom, page_limits,
}

round_up_bounds :
    (value unit rounded : ℕ)
    → round_up value unit ≡ some rounded
    → (value ≤ rounded) × (rounded < value + unit) × (0 < unit)
unfolding round_up
round_up_bounds value unit rounded e = ground arith

-- What a budget gives: whole pages that leave room for the other files.
pub record Budget (max_bytes page_size page_count : ℕ) (limits : PageLimits) : Type 0 where
  pub pages : 0 < limits.desired_pages
  pub limit_pos : 0 < limits.main_limit
  pub whole : limits.main_limit ≡ limits.desired_pages * page_size
  pub ceiling :
      limits.effective_pages
      ≡ (if ltb limits.desired_pages page_count then page_count else limits.desired_pages)
  pub four_pages : limits.main_limit + 4 * page_size ≤ max_bytes
  pub share :
      limits.main_limit + (if ltb (max_bytes / 8) 134_217_728 then max_bytes / 8 else 134_217_728)
      ≤ max_bytes
  pub used_up : max_bytes < limits.main_limit + planned_headroom max_bytes page_size + 2 * page_size

product_pos : (a b : ℕ) → 0 < a → 0 < b → 0 < a * b
product_pos a b h k = grind arith

limits_of_headroom-Budget :
    (max_bytes page_size page_count headroom : ℕ) (limits : PageLimits)
    → 0 < page_size
    → planned_headroom max_bytes page_size ≤ headroom
    → headroom < planned_headroom max_bytes page_size + page_size
    → limits_of_headroom max_bytes page_size page_count headroom ≡ some limits
    → Budget max_bytes page_size page_count limits
unfolding limits_of_headroom planned_headroom
limits_of_headroom-Budget max_bytes page_size page_count headroom limits p low high e = ground (
  arith,
  product_pos limits.desired_pages page_size,
  div-mul-le_self (max_bytes - headroom) page_size,
  lt-div-mul-add {a = max_bytes - headroom} {b = page_size} p,
)

-- An accepted budget is at most 2^40 bytes and gives at least one page. Its whole pages leave room for an
-- eighth of the budget, at most 128 MiB, and for four pages, and less than two pages beyond that headroom
-- go unused. The limit that SQLite is given is lowered no further than the pages that exist.
pub page_limits-Budget :
    (pragmas : Pragmas) (max_bytes : ℕ) (limits : PageLimits)
    → page_limits pragmas max_bytes ≡ some limits
    → (max_bytes ≤ maximum_database_bytes)
      × (page_size : ℕ) × (page_count : ℕ) × (pragmas.page_size ≡ some page_size)
      × (pragmas.page_count ≡ some page_count)
      × Budget max_bytes page_size page_count limits
unfolding page_limits
page_limits-Budget pragmas max_bytes limits e =
    let (page_size, sized, rest) = >>=-eq-some _ _ e in
    let (fits, size_is) = require-eq-some _ pragmas.page_size sized in
    let (page_count, counted, rest') = >>=-eq-some _ _ rest in
    let (positive, count_is) = require-eq-some _ pragmas.page_count counted in
    let (headroom, rounded, limited) = >>=-eq-some _ _ rest' in
    let (low, high, unit_pos) =
      round_up_bounds (planned_headroom max_bytes page_size) page_size headroom rounded in
    (
      ground arith,
      page_size,
      page_count,
      size_is,
      count_is,
      limits_of_headroom-Budget max_bytes page_size page_count headroom limits unit_pos low high
          limited,
    )
