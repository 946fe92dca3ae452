-- ===== src/Growth/Limits.antt =====
-- internal/storage/sqlite/growth.go: the page limits that a budget gives. What a PRAGMA reads is a number,
-- or `none` where the reading fails or is negative, which the source refuses alike.
pub mod Budget
use activity_relay_directory.Prelude.{
  ℕ, ◌-◌, ◌*◌, ◌/◌, ◌^◌, Bool, false, not, ◌&&◌, ◌||◌, Option, none, some, ltb, leb, ◌==◌,
  if◌then◌else◌, ◌>>=◌, require,
}
use activity_relay_directory.Growth.Percent.{round_up}

pub record Pragmas : Type 0 where
  pub page_size : Option ℕ
  pub page_count : Option ℕ
  pub freelist_count : Option ℕ
  pub max_page_count : Option ℕ
  pub cache_spill : Option ℕ

abbrev pub maximum_database_bytes : ℕ
maximum_database_bytes = 2 ^ 40

abbrev pub maximum_headroom : ℕ
maximum_headroom = 128 * 2 ^ 20

pub record PageLimits : Type 0 where
  pub desired_pages : ℕ
  pub effective_pages : ℕ
  pub main_limit : ℕ

-- What is kept back before it is rounded up to whole pages.
unfoldable pub planned_headroom : ℕ → ℕ → ℕ
planned_headroom max_bytes page_size =
    let share = if ltb maximum_headroom (max_bytes / 8) then maximum_headroom else max_bytes / 8 in
    if ltb share (page_size * 4) then page_size * 4 else share

unfoldable pub limits_of_headroom : ℕ → ℕ → ℕ → ℕ → Option PageLimits
limits_of_headroom max_bytes page_size page_count headroom =
    if headroom == 0 || leb max_bytes headroom
    then none
    else let desired = (max_bytes - headroom) / page_size in
      if desired == 0
      then none
      else some (record {
        desired_pages = desired;
        effective_pages = if ltb desired page_count then page_count else desired;
        main_limit = desired * page_size;
      })

-- `none` is `ErrGrowthConfiguration`.
unfoldable pub page_limits : Pragmas → ℕ → Option PageLimits
page_limits pragmas max_bytes = do
  page_size ←
      require (not (max_bytes == 0 || ltb maximum_database_bytes max_bytes)) pragmas.page_size
  page_count ← require (not (page_size == 0)) pragmas.page_count
  headroom ← round_up (planned_headroom max_bytes page_size) page_size
  limits_of_headroom max_bytes page_size page_count headroom

abbrev pub reads : Option ℕ → ℕ → Bool
reads none expected = false
reads (some value) expected = value == expected

abbrev pub spill_agrees : Option ℕ → Bool → Bool
spill_agrees none enabled = false
spill_agrees (some spill) enabled = if enabled then not (spill == 0) else spill == 0

-- `verifyDatabaseGrowthConnectionPolicy`; false is an error.
unfoldable pub verify_connection_policy : Pragmas → ℕ → ℕ → ℕ → Bool → Bool
verify_connection_policy pragmas max_bytes desired_pages main_limit cache_spill_enabled =
    elim (page_limits pragmas max_bytes) [
      | none ↦ false
      | some limits ↦
          (limits.desired_pages == desired_pages)
          && (limits.main_limit == main_limit)
          && reads pragmas.max_page_count limits.effective_pages
          && spill_agrees pragmas.cache_spill cache_spill_enabled
    ]

-- `ConfigureDatabaseGrowthLimit`, with what SQLite answers to the new limit.
unfoldable pub configure_growth_limit : Pragmas → ℕ → Option ℕ → Option (ℕ × ℕ)
configure_growth_limit pragmas max_bytes effective = elim (page_limits pragmas max_bytes) [
  | none ↦ none
  | some limits ↦
      if not (reads effective 0) && reads effective limits.effective_pages
      then some (limits.desired_pages, limits.main_limit)
      else none
]
