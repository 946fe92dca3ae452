-- ===== src/Store/Health/Boundary.antt =====
-- internal/storage/health.go: the boundaries of the health states beside that of soft pruning.
use activity_relay_directory.Prelude.{ℕ, ◌≤◌, ◌≡◌, some, arith}
use activity_relay_directory.Protocol.Vocabulary.{HealthState, healthy, stale, dead, prune}
use activity_relay_directory.Store.Schema.{Relay}
use activity_relay_directory.Store.Pruning.{recently_seen}
use activity_relay_directory.Store.Health.{classify_health, public_eligible}

-- How bad a state is.
abbrev pub severity : HealthState → ℕ
severity healthy = 0
severity stale = 1
severity dead = 2
severity prune = 3

-- Health never improves without a new sight: a relay observed later is in the same state or a worse one.
pub classify_health_monotone :
    (last_seen observed later : ℕ) (before after : HealthState)
    → observed ≤ later
    → classify_health last_seen observed ≡ some before
    → classify_health last_seen later ≡ some after
    → severity before ≤ severity after
unfolding classify_health
classify_health_monotone last_seen observed later before after h e k = ground arith

-- A relay leaves the public listing exactly when soft pruning stops regarding it as recently seen.
pub public_eligible-recently_seen :
    (row : Relay) (observed : ℕ) (observed_state : HealthState)
    → classify_health row.last_seen_at observed ≡ some observed_state
    → public_eligible observed_state ≡ recently_seen row observed
unfolding classify_health public_eligible
public_eligible-recently_seen row observed observed_state e = ground arith
