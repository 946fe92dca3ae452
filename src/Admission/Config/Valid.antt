-- ===== src/Admission/Config/Valid.antt =====
-- internal/admission/limiter.go: the contract of a configuration.
use native.Mathlib.Nat.{le-div_iff_mul-le}
use activity_relay_directory.Prelude.{ℕ, ◌*◌, ◌/◌, ◌≤◌, ◌<◌, ◌≡◌, ◌↔◌, true, false, arith, ltb}
use activity_relay_directory.Admission.Config.{
  Rate, Config, valid_rate, minimum_full_refill, validate_config, maximum_entries, maximum_burst,
  maximum_concurrent, maximum_cleanup_limit, maximum_interval, maximum_idle_ttl,
  maximum_retry_after,
}

pub record RateContract (rate : Rate) (idle_ttl : ℕ) : Type 0 where
  pub burst_pos : 1 ≤ rate.burst
  pub burst_le : rate.burst ≤ maximum_burst
  pub interval_pos : 0 < rate.refill_interval
  pub interval_le : rate.refill_interval ≤ maximum_interval
  pub refills : rate.burst * rate.refill_interval ≤ idle_ttl

pub record ConfigContract (c : Config) : Type 0 where
  pub source : RateContract c.source c.idle_ttl
  pub actor : RateContract c.actor c.idle_ttl
  pub sources_pos : 1 ≤ c.max_sources
  pub sources_le : c.max_sources ≤ maximum_entries
  pub actors_pos : 1 ≤ c.max_actors
  pub actors_le : c.max_actors ≤ maximum_entries
  pub concurrent_pos : 1 ≤ c.max_concurrent
  pub concurrent_le : c.max_concurrent ≤ maximum_concurrent
  pub cleanup_pos : 1 ≤ c.cleanup_limit
  pub cleanup_le : c.cleanup_limit ≤ maximum_cleanup_limit
  pub idle_le : c.idle_ttl ≤ maximum_idle_ttl
  pub overload_pos : 0 < c.overload_retry_after
  pub overload_le : c.overload_retry_after ≤ maximum_retry_after

-- The tests on a rate and on its full refill, together, are the contract on the rate.
rate_tests_sound :
    (rate : Rate) (idle_ttl : ℕ)
    → idle_ttl ≤ maximum_idle_ttl
    → valid_rate rate ≡ true
    → ltb idle_ttl (minimum_full_refill rate) ≡ false
    → RateContract rate idle_ttl
unfolding valid_rate minimum_full_refill
rate_tests_sound rate idle_ttl h v m = ground arith

rate-valid : (rate : Rate) (idle_ttl : ℕ) → RateContract rate idle_ttl → valid_rate rate ≡ true
unfolding valid_rate
rate-valid rate idle_ttl c = ground arith

full_refill-le :
    (rate : Rate) (idle_ttl : ℕ)
    → idle_ttl ≤ maximum_idle_ttl
    → RateContract rate idle_ttl
    → minimum_full_refill rate ≡ rate.burst * rate.refill_interval
unfolding minimum_full_refill
full_refill-le rate idle_ttl h c =
    let fits : rate.burst ≤ maximum_idle_ttl / rate.refill_interval =
      (le-div_iff_mul-le {y = maximum_idle_ttl} c.interval_pos).1 (omega arith) in
    ground (arith, rate-valid rate idle_ttl c)

config_tests_sound : (c : Config) → validate_config c ≡ true → ConfigContract c
unfolding validate_config
config_tests_sound c e =
    ground (arith, rate_tests_sound c.source c.idle_ttl, rate_tests_sound c.actor c.idle_ttl)

config_tests_complete : (c : Config) → ConfigContract c → validate_config c ≡ true
unfolding validate_config
config_tests_complete c k = ground (
  arith,
  rate-valid c.source c.idle_ttl k.source,
  rate-valid c.actor c.idle_ttl k.actor,
  full_refill-le c.source c.idle_ttl k.idle_le k.source,
  full_refill-le c.actor c.idle_ttl k.idle_le k.actor,
)

-- The validation accepts exactly the configurations that meet the contract: every bound, and for both
-- rates a full refill that fits the idle time.
pub validate_config_iff : (c : Config) → (validate_config c ≡ true) ↔ ConfigContract c
validate_config_iff c = (config_tests_sound c, config_tests_complete c)
