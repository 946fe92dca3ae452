-- ===== src/Store/Health.antt =====
-- internal/storage/health.go: the health of a relay by the time that has passed since it was seen. Times are
-- seconds since 1970; the source refuses a negative one like a sight in the future.
pub mod Boundary
use activity_relay_directory.Prelude.{
  ℕ, ◌-◌, ◌*◌, ◌+◌, Bool, true, false, Option, none, some, ltb, leb, if◌then◌else◌,
}
use activity_relay_directory.Protocol.Vocabulary.{HealthState, healthy, stale, dead, prune}
use activity_relay_directory.Store.Pruning.{dead_before}

abbrev pub healthy_through : ℕ
healthy_through = 36 * 3600

abbrev pub stale_before : ℕ
stale_before = 7 * 24 * 3600

-- `none` is `ErrHealthTime`.
unfoldable pub classify_health : ℕ → ℕ → Option HealthState
classify_health last_seen observed =
    if ltb observed last_seen
    then none
    else let age = observed - last_seen in
      if leb age healthy_through
      then some healthy
      else if ltb age stale_before
      then some stale
      else if ltb age dead_before
      then some dead
      else some prune

-- `PublicEligible`
unfoldable pub public_eligible : HealthState → Bool
public_eligible healthy = true
public_eligible stale = true
public_eligible dead = true
public_eligible prune = false
