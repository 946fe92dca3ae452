-- ===== src/Admission/Config.antt =====
-- internal/admission/limiter.go: the rates, the configuration and its validation. Durations are
-- counted in nanoseconds. Every field is a natural number; each test that refuses a field below its
-- minimum refuses 0 as it refuses a negative value.
pub mod Valid
use activity_relay_directory.Prelude.{
  ℕ, ◌+◌, ◌*◌, ◌/◌, ◌≤◌, ◌≡◌, Bool, true, false, ◌&&◌, ◌||◌, not, ltb, leb, if◌then◌else◌,
}

abbrev pub second : ℕ
second = 1_000_000_000

abbrev pub minute : ℕ
minute = 60 * second

abbrev pub hour : ℕ
hour = 60 * minute

abbrev pub maximum_entries : ℕ
maximum_entries = 1_000_000

abbrev pub maximum_burst : ℕ
maximum_burst = 100_000

abbrev pub maximum_concurrent : ℕ
maximum_concurrent = 100_000

abbrev pub maximum_cleanup_limit : ℕ
maximum_cleanup_limit = 4096

abbrev pub maximum_interval : ℕ
maximum_interval = 24 * hour

abbrev pub maximum_idle_ttl : ℕ
maximum_idle_ttl = 30 * (24 * hour)

abbrev pub maximum_retry_after : ℕ
maximum_retry_after = 5 * minute

pub record Rate : Type 0 where
  pub burst : ℕ
  pub refill_interval : ℕ

pub record Config : Type 0 where
  pub source : Rate
  pub actor : Rate
  pub max_sources : ℕ
  pub max_actors : ℕ
  pub max_concurrent : ℕ
  pub idle_ttl : ℕ
  pub cleanup_limit : ℕ
  pub overload_retry_after : ℕ

unfoldable pub valid_rate : Rate → Bool
valid_rate rate =
    leb 1 rate.burst
    && leb rate.burst maximum_burst
    && ltb 0 rate.refill_interval
    && leb rate.refill_interval maximum_interval

unfoldable pub minimum_full_refill : Rate → ℕ
minimum_full_refill rate =
    if not (valid_rate rate) || ltb (maximum_idle_ttl / rate.refill_interval) rate.burst
    then maximum_idle_ttl + 1
    else rate.burst * rate.refill_interval

-- `true` when the source returns `nil`, `false` when it returns `ErrConfiguration`.
unfoldable pub validate_config : Config → Bool
validate_config c = not (
    not (valid_rate c.source)
    || not (valid_rate c.actor)
    || ltb c.max_sources 1
    || ltb maximum_entries c.max_sources
    || ltb c.max_actors 1
    || ltb maximum_entries c.max_actors
    || ltb c.max_concurrent 1
    || ltb maximum_concurrent c.max_concurrent
    || ltb c.cleanup_limit 1
    || ltb maximum_cleanup_limit c.cleanup_limit
    || ltb c.idle_ttl (minimum_full_refill c.source)
    || ltb c.idle_ttl (minimum_full_refill c.actor)
    || ltb maximum_idle_ttl c.idle_ttl
    || leb c.overload_retry_after 0
    || ltb maximum_retry_after c.overload_retry_after)
