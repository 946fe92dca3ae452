-- ===== src/Store/Pruning.antt =====
-- internal/storage/sqlite/pruning.go: `SoftPrune`, with the boundaries of internal/storage/health.go and
-- reachability.go.
pub mod Eligible
pub mod Prune
pub mod Progress
pub mod Page
use activity_relay_directory.Prelude.{
  ℕ, ◌+◌, ◌*◌, Bool, true, false, not, ◌&&◌, Option, none, some, ltb, leb, if◌then◌else◌, Bytes,
  lookup,
}
use activity_relay_directory.Identity.Library.{Library}
use activity_relay_directory.Store.Schema.{
  registered, unregistered, pruned, Relay, relay_pruned, ReachabilityState, unknown, reachable,
  unreachable, Observation, Database,
}
use activity_relay_directory.Store.Transaction.{
  StoreError, transition_input, transition_time, relay_absent, relay_suspended,
  enrollment_is_closed, observation_time, storage_failure, Attempt, done, failed, Faults,
  read_relay, read_observation, read_rows_affected, guarded, bind, transact,
}
use activity_relay_directory.Store.Rows.{
  ClockTime, transition_unix, validate_identity_intent, require_monotonic_time, put_relay,
  insert_relay_event,
}

pub data PruneOutcome : Type 0 where
  prune_applied already_pruned not_eligible : PruneOutcome

-- In seconds, as the source divides them.
abbrev pub dead_before : ℕ
dead_before = 30 * 24 * 3600

abbrev pub reachability_freshness : ℕ
reachability_freshness = 6 * 3600

-- `lastSeenUnix > cutoffUnix`: the cutoff may lie before 1970, so the boundary is added to the other side.
abbrev pub recently_seen : Relay → ℕ → Bool
recently_seen row observed = ltb observed (row.last_seen_at + dead_before)

abbrev pub is_reachable : ReachabilityState → Bool
is_reachable unknown = false
is_reachable reachable = true
is_reachable unreachable = false

abbrev pub fresh_success : Option ℕ → ℕ → Bool
fresh_success none observed = false
fresh_success (some success) observed = leb observed (success + reachability_freshness)

-- A recent success of the actor check, which keeps a relay from being pruned.
unfoldable pub is_protected : Option Observation → ℕ → Bool
is_protected none observed = false
is_protected (some observation) observed =
    is_reachable observation.actor_state && fresh_success observation.actor_last_success observed

abbrev pub pruned_row : Relay → ℕ → Relay
pruned_row row observed = record row {
  lifecycle_state = pruned;
  updated_at = observed;
  pruned_at = some observed;
}

unfoldable pub prune_row :
    Faults → Database → Bytes → Relay → ℕ → Attempt (Option Database × PruneOutcome)
prune_row fails db actor row observed =
    bind (put_relay fails db actor (pruned_row row observed)) (λ written.
      guarded fails read_rows_affected (
        bind (insert_relay_event fails written actor relay_pruned observed)
          (λ recorded. done (some recorded, prune_applied))))

-- `requireMonotonicTime` and what follows it. A regressing time is no error here.
abbrev pub prune_in_order :
    Option StoreError
    → Attempt (Option Database × PruneOutcome)
    → Attempt (Option Database × PruneOutcome)
prune_in_order none rest = rest
prune_in_order (some e) rest = elim e [
  | transition_time ↦ done (none, not_eligible)
  | transition_input ↦ failed transition_input
  | relay_absent ↦ failed relay_absent
  | relay_suspended ↦ failed relay_suspended
  | enrollment_is_closed ↦ failed enrollment_is_closed
  | observation_time ↦ failed observation_time
  | storage_failure ↦ failed storage_failure
]

-- `SoftPrune` for a relay that is registered and was not seen since the cutoff. The `WHERE` of the update
-- repeats both tests on the same row, so it finds the row.
unfoldable pub prune_candidate :
    Faults → Database → Bytes → Relay → ℕ → Attempt (Option Database × PruneOutcome)
prune_candidate fails db actor row observed = guarded fails read_observation (
    if is_protected (lookup actor db.observations) observed
    then done (none, not_eligible)
    else prune_in_order (require_monotonic_time fails db actor observed)
        (prune_row fails db actor row observed))

unfoldable pub soft_prune_body :
    Faults → Database → Bytes → ℕ → Attempt (Option Database × PruneOutcome)
soft_prune_body fails db actor observed = guarded fails read_relay (elim (lookup actor db.relays) [
  | none ↦ done (none, not_eligible)
  | some row ↦ elim row.lifecycle_state [
    | pruned ↦ done (none, already_pruned)
    | unregistered ↦ done (none, not_eligible)
    | registered ↦
        if recently_seen row observed
        then done (none, not_eligible)
        else prune_candidate fails db actor row observed
  ]
])

unfoldable pub soft_prune :
    Library → Faults → Database → Bytes → ClockTime → Database × Attempt PruneOutcome
soft_prune lib fails db actor observed_at =
    if not (validate_identity_intent lib actor)
    then (db, failed transition_input)
    else elim (transition_unix observed_at) [
      | none ↦ (db, failed transition_time)
      | some observed ↦ transact fails db (soft_prune_body fails db actor observed)
    ]
