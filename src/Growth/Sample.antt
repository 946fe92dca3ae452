-- ===== src/Growth/Sample.antt =====
-- internal/storage/sqlite/growth.go: one observation of the database files.
pub mod Boundary
use activity_relay_directory.Prelude.{
  ℕ, ◌-◌, Bool, not, ◌||◌, Option, none, some, ltb, leb, ◌==◌, if◌then◌else◌, ◌>>=◌, require,
}
use activity_relay_directory.Growth.Percent.{bounded_percent, checked_multiply, checked_add}
use activity_relay_directory.Growth.State.{
  GrowthState, normal, critical_percent, is_hard, classify_growth_state, apply_growth_hysteresis,
}
use activity_relay_directory.Growth.Limits.{Pragmas}

pub data GrowthError : Type 0 where
  configuration_error sample_error write_admission_hard canceled : GrowthError

pub data Outcome (A : Type 0) : Type 0 where
  ok : A → Outcome A
  err : GrowthError → Outcome A

-- A difference of sizes; `negsuc n` is -(n + 1).
pub data ℤ : Type 0 where
  pos negsuc : ℕ → ℤ

abbrev pub sub_ℕ : ℕ → ℕ → ℤ
sub_ℕ a b = if leb b a then pos (a - b) else negsuc (b - a - 1)

-- What SQLite and the file system report. A size is `none` where the file is refused; a side file that does
-- not exist has the size 0.
pub record Readings : Type 0 where
  pub pragmas : Pragmas
  pub main_size : Option ℕ
  pub wal_size : Option ℕ
  pub shm_size : Option ℕ

pub record Policy : Type 0 where
  pub max_bytes : ℕ
  pub warning_percent : ℕ
  pub retention_days : ℕ
  pub desired_pages : ℕ
  pub main_limit : ℕ

pub record Sample : Type 0 where
  pub observed : ℕ
  pub growth_state : GrowthState
  pub pressure_percent : ℕ
  pub page_size : ℕ
  pub page_count : ℕ
  pub used_pages : ℕ
  pub reusable_pages : ℕ
  pub max_page_count : ℕ
  pub used_bytes : ℕ
  pub allocated_bytes : ℕ
  pub main_limit_bytes : ℕ
  pub main_bytes : ℕ
  pub wal_bytes : ℕ
  pub shm_bytes : ℕ
  pub family_bytes : ℕ
  pub growth_bytes : Option ℤ
  pub budget_bytes : ℕ
  pub warning_at : ℕ
  pub retention_days : ℕ
  pub write_allowed : Bool

-- The readings that pass the tests, with the sizes that they give.
pub record Sizes : Type 0 where
  pub page_size : ℕ
  pub page_count : ℕ
  pub free_pages : ℕ
  pub max_pages : ℕ
  pub main_bytes : ℕ
  pub wal_bytes : ℕ
  pub shm_bytes : ℕ
  pub used_bytes : ℕ
  pub allocated_bytes : ℕ
  pub family_bytes : ℕ

-- Every refusal is `ErrGrowthSample`.
unfoldable pub measure : Readings → Option Sizes
measure readings = do
  page_size ← readings.pragmas.page_size
  page_count ← require (not (page_size == 0)) readings.pragmas.page_count
  free_pages ← readings.pragmas.freelist_count
  max_pages ← require (leb free_pages page_count) readings.pragmas.max_page_count
  main_bytes ← require (not (max_pages == 0)) readings.main_size
  wal_bytes ← readings.wal_size
  shm_bytes ← readings.shm_size
  used_bytes ← checked_multiply (page_count - free_pages) page_size
  allocated_bytes ← checked_multiply page_count page_size
  with_wal ← checked_add main_bytes wal_bytes
  family_bytes ← checked_add with_wal shm_bytes
  some (record {
    page_size = page_size;
    page_count = page_count;
    free_pages = free_pages;
    max_pages = max_pages;
    main_bytes = main_bytes;
    wal_bytes = wal_bytes;
    shm_bytes = shm_bytes;
    used_bytes = used_bytes;
    allocated_bytes = allocated_bytes;
    family_bytes = family_bytes;
  })

unfoldable pub pressure : Policy → Sizes → ℕ
pressure policy sizes =
    let logical = bounded_percent sizes.used_bytes policy.main_limit in
    let physical = bounded_percent sizes.family_bytes policy.max_bytes in
    if ltb logical physical then physical else logical

unfoldable pub base_state : Policy → Sizes → GrowthState
base_state policy sizes =
    classify_growth_state sizes.used_bytes policy.main_limit sizes.family_bytes policy.max_bytes
      policy.warning_percent

unfoldable pub next_state : Policy → Sizes → GrowthState → GrowthState
next_state policy sizes previous =
    apply_growth_hysteresis (base_state policy sizes) (pressure policy sizes) previous
      policy.warning_percent

abbrev pub growth_since : Option ℕ → ℕ → Option ℤ
growth_since none family = none
growth_since (some previous) family = some (sub_ℕ family previous)

-- The caller of the source writes the time of the observation.
unfoldable pub sample_of : Policy → Sizes → ℕ → Option ℕ → GrowthState → Sample
sample_of policy sizes observed previous_bytes previous =
    let reached = next_state policy sizes previous in
    record {
      observed = observed;
      growth_state = reached;
      pressure_percent = pressure policy sizes;
      page_size = sizes.page_size;
      page_count = sizes.page_count;
      used_pages = sizes.page_count - sizes.free_pages;
      reusable_pages = sizes.free_pages;
      max_page_count = sizes.max_pages;
      used_bytes = sizes.used_bytes;
      allocated_bytes = sizes.allocated_bytes;
      main_limit_bytes = policy.main_limit;
      main_bytes = sizes.main_bytes;
      wal_bytes = sizes.wal_bytes;
      shm_bytes = sizes.shm_bytes;
      family_bytes = sizes.family_bytes;
      growth_bytes = growth_since previous_bytes sizes.family_bytes;
      budget_bytes = policy.max_bytes;
      warning_at = policy.warning_percent;
      retention_days = policy.retention_days;
      write_allowed = not (is_hard reached);
    }

abbrev pub policy_refused : Policy → Bool
policy_refused policy =
    policy.max_bytes == 0
    || policy.warning_percent == 0
    || leb critical_percent policy.warning_percent
    || policy.desired_pages == 0
    || policy.main_limit == 0

-- `sampleDatabaseGrowth`; the previous sample gives its size only.
unfoldable pub sample_growth : Policy → Readings → ℕ → Option ℕ → GrowthState → Outcome Sample
sample_growth policy readings observed previous_bytes previous =
    if policy_refused policy then err configuration_error else elim (measure readings) [
      | none ↦ err sample_error
      | some sizes ↦ ok (sample_of policy sizes observed previous_bytes previous)
    ]

-- `CheckMigrationGrowthAdmission`; `ok` admits the migration.
unfoldable pub check_migration : Policy → Readings → Outcome (Unit {0})
check_migration policy readings = elim (sample_growth policy readings 0 none normal) [
  | err e ↦ err e
  | ok sample ↦ if is_hard sample.growth_state then err write_admission_hard else ok tt
]
