-- ===== src/Admission/Limiter.antt =====
-- internal/admission/limiter.go: the limiter and its permits. The clock's reading is an argument of
-- each call that reads it. The mutex makes each call one step.
pub mod Run
pub mod Concurrency
pub mod Slots
pub mod Keys
use activity_relay_directory.Prelude.{
  ℕ, suc, ◌+◌, ◌-◌, ◌≡◌, Bool, true, false, not, ◌||◌, ◌&&◌, Option, none, some, [], ◌∷◌, ◌++◌, ltb,
  leb, if◌then◌else◌, length, Bytes, bytes_eq, decimal,
}
use activity_relay_directory.Admission.Bucket.{before}
use activity_relay_directory.Admission.Config.{Config, validate_config}
use activity_relay_directory.Admission.Pool.{
  Pool, Decision, Result, Terms, source_rate_limited, actor_rate_limited, concurrency_limited,
  canceled, invalid, is_allowed, new_bucket_pool, admit,
}
use activity_relay_directory.Admission.Source.{Addr, unmap, valid_source_address}
use activity_relay_directory.Identity.Library.{Library}
use activity_relay_directory.Identity.Normalize.{normalize_relay_actor_url}
use activity_relay_directory.Protocol.Vocabulary.{Operation, operation_valid}

-- `ctx.Err() != nil` where it is read: before the lock and under it. A nil context is `none`.
pub record Context : Type 0 where
  pub canceled_at_entry : Bool
  pub canceled_at_lock : Bool

pub record Limiter : Type 0 where
  pub config : Config
  pub sources : Pool
  pub actors : Pool
  pub in_flight : ℕ
  pub last_now : ℕ

pub record Permit : Type 0 where
  pub operation : Operation
  pub active : Bool
  pub actor_checked : Bool

-- `none` is `ErrConfiguration`.
unfoldable pub new_limiter : Config → Option Limiter
new_limiter config =
    if not (validate_config config)
    then none
    else some (record {
      config = config;
      sources = new_bucket_pool config.max_sources;
      actors = new_bucket_pool config.max_actors;
      in_flight = 0;
      last_now = 0;
    })

abbrev pub verdict : Decision → Result
verdict decision = record { decision = decision; retry_after = 0 }

unfoldable pub bucket_key : Operation → Bytes → Bytes
bucket_key operation identity = decimal (length operation) ++ (b':' ∷ (operation ++ identity))

-- `currentTimeLocked`: the time that the limiter goes by, and becomes its last one.
unfoldable pub current_time : Limiter → ℕ → ℕ
current_time limiter reading = if before reading limiter.last_now then limiter.last_now else reading

abbrev pub source_terms : Config → Terms
source_terms config = record {
  rate = config.source;
  idle_ttl = config.idle_ttl;
  cleanup_limit = config.cleanup_limit;
  rate_decision = source_rate_limited;
  overload_retry_after = config.overload_retry_after;
}

abbrev pub actor_terms : Config → Terms
actor_terms config = record {
  rate = config.actor;
  idle_ttl = config.idle_ttl;
  cleanup_limit = config.cleanup_limit;
  rate_decision = actor_rate_limited;
  overload_retry_after = config.overload_retry_after;
}

-- `AdmitSource` from the bucket on: the state, the permit of a request that may go on, the result.
unfoldable pub charge_source : Limiter → Operation → Bytes → ℕ → Limiter × Option Permit × Result
charge_source limiter operation source reading =
    let now = current_time limiter reading in
    let (pool, result) =
      admit limiter.sources (bucket_key operation source) now (source_terms limiter.config) in
    let charged : Limiter = record limiter { sources = pool; last_now = now } in
    if not (is_allowed result) then (charged, none, result) else (
      record charged { in_flight = limiter.in_flight + 1 },
      some (record { operation = operation; active = true; actor_checked = false }),
      result,
    )

-- `AdmitSource`. The text of an address, `netip.Addr.String`, is a parameter.
unfoldable pub admit_source :
    (Addr → Bytes)
    → Limiter
    → Option Context
    → Operation
    → Addr
    → ℕ
    → Limiter × Option Permit × Result
admit_source addr_text limiter none operation source reading = (limiter, none, verdict invalid)
admit_source addr_text limiter (some ctx) operation source reading =
    if not (operation_valid operation)
    then (limiter, none, verdict invalid)
    else if ctx.canceled_at_entry
    then (limiter, none, verdict canceled)
    else if not (valid_source_address (unmap source))
    then (limiter, none, verdict invalid)
    else if ctx.canceled_at_lock
    then (limiter, none, verdict canceled)
    else if leb limiter.config.max_concurrent limiter.in_flight
    then (
      limiter,
      none,
      record { decision = concurrency_limited; retry_after = limiter.config.overload_retry_after },
    )
    else charge_source limiter operation (addr_text (unmap source)) reading

-- `AdmitActor` from the bucket on.
unfoldable pub charge_actor : Limiter → Permit → Operation → Bytes → ℕ → Limiter × Permit × Result
charge_actor limiter permit operation actor reading =
    let now = current_time limiter reading in
    let (pool, result) =
      admit limiter.actors (bucket_key operation actor) now (actor_terms limiter.config) in
    (
      record limiter { actors = pool; last_now = now },
      record permit { actor_checked = true },
      result,
    )

abbrev is_canonical : Library → Bytes → Bool
is_canonical lib actor = elim (normalize_relay_actor_url lib actor) [
  | none ↦ false
  | some canonical ↦ bytes_eq canonical actor
]

unfoldable pub admit_actor :
    Library → Limiter → Permit → Option Context → Operation → Bytes → ℕ → Limiter × Permit × Result
admit_actor lib limiter permit none operation actor reading = (limiter, permit, verdict invalid)
admit_actor lib limiter permit (some ctx) operation actor reading =
    if not (operation_valid operation)
    then (limiter, permit, verdict invalid)
    else if ctx.canceled_at_entry
    then (limiter, permit, verdict canceled)
    else if not (is_canonical lib actor)
    then (limiter, permit, verdict invalid)
    else if not permit.active || not (bytes_eq permit.operation operation) || permit.actor_checked
    then (limiter, permit, verdict invalid)
    else if ctx.canceled_at_lock
    then (limiter, permit, verdict canceled)
    else charge_actor limiter permit operation actor reading

unfoldable pub release : Limiter → Permit → Limiter × Permit
release limiter permit =
    if permit.active
    then (
      record limiter {
        in_flight = if ltb 0 limiter.in_flight then limiter.in_flight - 1 else limiter.in_flight;
      },
      record permit { active = false },
    )
    else (limiter, permit)
