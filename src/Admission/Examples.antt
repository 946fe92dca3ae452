-- ===== src/Admission/Examples.antt =====
-- The properties of internal/admission/limiter.go at concrete inputs: a rate of two tokens with a
-- refill each second.
use activity_relay_directory.Prelude.{
  ℕ, ◌-◌, ◌*◌, ◌/◌, ◌+◌, ◌≤◌, ◌<◌, ◌≡◌, ◌↔◌, refl, true, false, some, List, [], ◌∷◌, arith, Bytes,
  codes, lookup,
}
use activity_relay_directory.Admission.Config.{
  Rate, Config, second, minute, validate_config, valid_rate, minimum_full_refill,
}
use activity_relay_directory.Admission.Config.Valid.{ConfigContract, validate_config_iff}
use activity_relay_directory.Admission.Bucket.{Bucket, refill, retry_after}
use activity_relay_directory.Admission.Bucket.Refill.{RateFits}
use activity_relay_directory.Admission.Bucket.Wait.{refill-retry_after}
use activity_relay_directory.Admission.Pool.{Pool, Terms, new_bucket_pool, admit}
use activity_relay_directory.Admission.Pool.Invariant.{InStep, new_bucket_pool-InStep}
use activity_relay_directory.Admission.Pool.Requests.{admit-InStep}
use activity_relay_directory.Admission.Pool.Worth.{TermsFit, AllSound}
use activity_relay_directory.Admission.Pool.Schedule.{granted, granted-le}
use activity_relay_directory.Admission.Limiter.{Context, Limiter, source_terms, new_limiter}
use activity_relay_directory.Admission.Limiter.Keys.{bucket_key_injective}
use activity_relay_directory.Admission.Limiter.Run.{
  Call, source_call, actor_call, release_call, run,
}
use activity_relay_directory.Admission.Limiter.Concurrency.{Inv}
use activity_relay_directory.Admission.Limiter.Slots.{run-new_limiter-Inv}
use activity_relay_directory.Admission.Source.{Addr, addr_4}
use activity_relay_directory.Identity.Examples.{example_library}

abbrev rate : Rate
rate = record { burst = 2; refill_interval = second }

abbrev config : Config
config = record {
  source = rate;
  actor = rate;
  max_sources = 3;
  max_actors = 3;
  max_concurrent = 2;
  idle_ttl = minute;
  cleanup_limit = 4;
  overload_retry_after = second;
}

abbrev terms : Terms
terms = source_terms config

abbrev pool : Pool
pool = new_bucket_pool 3

abbrev key : Bytes
key = codes "8:register192.0.2.1"

rate_fits : RateFits rate minute
rate_fits = omega arith

terms_fit : TermsFit terms
terms_fit = record { fits = rate_fits; refuses = λ e. ground arith }

validate_config_iff_example : (validate_config config ≡ true) ↔ ConfigContract config
validate_config_iff_example = validate_config_iff config

abbrev empty_bucket : Bucket
empty_bucket = record { key = key; tokens = 0; last_refill = 5 * second; last_seen = 5 * second }

refill-retry_after_example :
    let wait = retry_after empty_bucket (5 * second + 1) second in
    (0 < wait) × (wait ≤ second) × (0 < (refill empty_bucket (5 * second + 1 + wait) rate).tokens)
refill-retry_after_example =
    refill-retry_after rate minute (5 * second + 1) empty_bucket rate_fits refl (omega arith)
      (omega arith)

admit-InStep_example : InStep (admit pool key (5 * second) terms).0
admit-InStep_example = admit-InStep pool key (5 * second) terms (new_bucket_pool-InStep 3)

abbrev requests : List (Bytes × ℕ)
requests = (key, 5 * second) ∷ (key, 5 * second) ∷ (key, 5 * second) ∷ (key, 6 * second) ∷ []

new_pool-AllSound : AllSound rate (5 * second) pool
unfolding new_bucket_pool lookup
new_pool-AllSound k entry e = ground arith

granted-le_example : granted terms key pool requests ≤ 2 + (6 * second - 5 * second) / second
granted-le_example =
    granted-le terms key (5 * second) (6 * second) pool requests terms_fit
      (new_bucket_pool-InStep 3) new_pool-AllSound (omega arith)

bucket_key_injective_example : (codes "register" ≡ codes "register") × (codes "a" ≡ codes "a")
bucket_key_injective_example =
    bucket_key_injective (codes "register") (codes "register") (codes "a") (codes "a") refl

abbrev here : Context
here = record { canceled_at_entry = false; canceled_at_lock = false }

abbrev addr_text : Addr → Bytes
addr_text addr = codes "192.0.2.1"

abbrev calls : List Call
calls =
    source_call (some here) (codes "register") (addr_4 3221225985) (5 * second)
    ∷ actor_call 0 (some here) (codes "register") (codes "https://relay.example/actor") (6 * second)
    ∷ release_call 0
    ∷ release_call 0
    ∷ []

abbrev limiter : Limiter
limiter = record {
  config = config;
  sources = new_bucket_pool 3;
  actors = new_bucket_pool 3;
  in_flight = 0;
  last_now = 0;
}

new_limiter_example : new_limiter config ≡ some limiter
unfolding new_limiter validate_config valid_rate minimum_full_refill
new_limiter_example = refl

run-new_limiter-Inv_example :
    let w = run example_library addr_text (record { limiter = limiter; permits = [] }) calls in
    Inv w.limiter w.permits
run-new_limiter-Inv_example =
    run-new_limiter-Inv example_library addr_text config limiter calls new_limiter_example
