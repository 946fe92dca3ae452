-- ===== src/Store/Examples.antt =====
-- The properties of internal/storage/sqlite at concrete inputs.
use activity_relay_directory.Prelude.{
  ◌≤◌, List, bytes_eq_refl, ◌≡◌, refl, true, false, some, [], ◌∷◌, arith, Bytes, codes, bytes_eq,
  bytes_eq_iff, Bool-cases, inl, inr, lookup,
}
use activity_relay_directory.Identity.Examples.{example_library}
use activity_relay_directory.Protocol.Vocabulary.{suspended}
use activity_relay_directory.Store.Schema.{
  Relay, Database, relay_check, relay_state_check, relay_time_check, administrative_check,
  null_or_from, null_or_to, sized,
}
use activity_relay_directory.Store.Transaction.{Faults}
use activity_relay_directory.Store.Transaction.Ends.{Settled}
use activity_relay_directory.Store.Rows.{since_epoch}
use activity_relay_directory.Store.Lifecycle.{register, heartbeat, unregister}
use activity_relay_directory.Store.Lifecycle.Terms.{Registered, RegisterReason}
use activity_relay_directory.Store.Lifecycle.Register.{register-Registered}
use activity_relay_directory.Store.Lifecycle.Heartbeat.{Beaten, HeartbeatReason, heartbeat-Beaten}
use activity_relay_directory.Store.Lifecycle.Departure.{Left, UnregisterReason}
use activity_relay_directory.Store.Lifecycle.Unregister.{unregister-Left}
use activity_relay_directory.Store.Moderation.{ModerationIntent, moderate}
use activity_relay_directory.Store.Moderation.Change.{Moderated, ModerationReason}
use activity_relay_directory.Store.Moderation.Standing.{moderate-Moderated}
use activity_relay_directory.Store.Enrollment.{set_enrollment}
use activity_relay_directory.Store.Enrollment.Policy.{
  Enrolled, EnrollmentReason, set_enrollment-Enrolled,
}
use activity_relay_directory.Store.History.{
  Request, register_request, heartbeat_request, prune_request, serve_all,
}
use activity_relay_directory.Store.History.Chronology.{Sound, serve_all-Sound}
use activity_relay_directory.Store.History.Suspension.{Suspended, serve_all-Suspended}
use activity_relay_directory.Store.Pruning.{soft_prune, recently_seen}
use activity_relay_directory.Store.Health.{classify_health, public_eligible}
use activity_relay_directory.Store.Health.Boundary.{
  severity, classify_health_monotone, public_eligible-recently_seen,
}
use activity_relay_directory.Protocol.Vocabulary.{stale, prune}
use activity_relay_directory.Store.Pruning.Eligible.{Pruned, Unpruned, PruneReason}
use activity_relay_directory.Store.Pruning.Prune.{soft_prune-Pruned}
use activity_relay_directory.Store.Fixture.{
  actor, intent, relay, empty_database, database, no_faults, empty-Consistent, relay_canonical,
  database-Consistent, database-Sound,
}

register-Registered_example :
    Settled no_faults
      (RegisterReason example_library empty_database intent 200)
      (Registered example_library empty_database intent 200)
      (λ o. ⊥)
      empty_database
      (register example_library no_faults empty_database intent (since_epoch 200))
register-Registered_example =
    register-Registered example_library no_faults empty_database intent 200 empty-Consistent

heartbeat-Beaten_example :
    Settled no_faults
      (HeartbeatReason example_library database actor 200)
      (Beaten example_library database actor 200)
      (λ o. ⊥)
      database
      (heartbeat example_library no_faults database actor (since_epoch 200))
heartbeat-Beaten_example =
    heartbeat-Beaten example_library no_faults database actor 200 database-Consistent

unregister-Left_example :
    Settled no_faults
      (UnregisterReason example_library database actor 200)
      (Left example_library database actor 200)
      (λ o. ⊥)
      database
      (unregister example_library no_faults database actor (since_epoch 200))
unregister-Left_example =
    unregister-Left example_library no_faults database actor 200 database-Consistent

abbrev decision : ModerationIntent
decision = record {
  relay_actor = actor;
  moderator_id = codes "operator";
  reason_code = codes "spam";
}

moderate-Moderated_example :
    Settled no_faults
      (ModerationReason example_library database decision 200)
      (Moderated example_library database decision suspended 200)
      (λ o. ⊥)
      database
      (moderate example_library no_faults database decision (since_epoch 200) suspended)
moderate-Moderated_example =
    moderate-Moderated example_library no_faults database decision 200 suspended database-Consistent

soft_prune-Pruned_example :
    Settled no_faults
      (PruneReason example_library actor)
      (Pruned example_library database actor 3000000)
      (Unpruned database actor 3000000)
      database
      (soft_prune example_library no_faults database actor (since_epoch 3000000))
soft_prune-Pruned_example =
    soft_prune-Pruned example_library no_faults database actor 3000000 database-Consistent

set_enrollment-Enrolled_example :
    Settled no_faults
      (EnrollmentReason database (codes "operator") 200)
      (Enrolled database false (codes "operator") 200)
      (λ o. ⊥)
      database
      (set_enrollment no_faults database false (codes "operator") (since_epoch 200))
set_enrollment-Enrolled_example =
    set_enrollment-Enrolled no_faults database false (codes "operator") 200

abbrev requests : List (Faults × Request)
requests =
    (no_faults, heartbeat_request actor (since_epoch 200))
    ∷ (no_faults, prune_request actor (since_epoch 4000000))
    ∷ (no_faults, register_request intent (since_epoch 4000001))
    ∷ []

serve_all-Sound_example : Sound example_library (serve_all example_library database requests)
serve_all-Sound_example = serve_all-Sound example_library database requests database-Sound

-- The same relay, suspended.
abbrev out_relay : Relay
out_relay = record relay { administrative_state = suspended; suspended_at = some 90 }

abbrev out_database : Database
out_database = record empty_database { relays = (actor, out_relay) ∷ [] }

out_relay_ok : relay_check actor out_relay ≡ true
unfolding relay_check relay_state_check relay_time_check administrative_check null_or_from
    null_or_to sized
out_relay_ok = refl

out_relay_found :
    (a : Bytes) (row : Relay)
    → lookup a out_database.relays ≡ some row
    → (actor ≡ a) × (out_relay ≡ row)
unfolding lookup
out_relay_found a row e = elim (Bool-cases (bytes_eq actor a)) [
  | inl same ↦ ((bytes_eq_iff actor a).0 same, ground arith)
  | inr other ↦ absurd (ground arith)
]

out_database-Sound : Sound example_library out_database
unfolding lookup
out_database-Sound = record {
  consistent = record {
    relays_ok = λ a row e.
        let (same, it) = out_relay_found a row e in
        rw (← same, ← it) (out_relay_ok, relay_canonical);
    observations_ok = λ a row e. absurd (ground arith);
  };
  relay_log = λ a. tt;
  moderation_log = λ a. tt;
}

actor-Suspended : Suspended out_database actor
unfolding lookup
actor-Suspended = record {
  row = out_relay;
  found = ground (arith, bytes_eq_refl actor);
  out = refl;
}

serve_all-Suspended_example : Suspended (serve_all example_library out_database requests) actor
serve_all-Suspended_example =
    serve_all-Suspended example_library out_database actor requests out_database-Sound tt
      actor-Suspended

classify_health_monotone_example : severity stale ≤ severity prune
unfolding classify_health
classify_health_monotone_example =
    classify_health_monotone 100 200000 3000000 stale prune (omega arith) stale_then prune_later
  where
    stale_then : classify_health 100 200000 ≡ some stale
    stale_then = refl

    prune_later : classify_health 100 3000000 ≡ some prune
    prune_later = refl

public_eligible-recently_seen_example : public_eligible stale ≡ recently_seen relay 200000
unfolding classify_health
public_eligible-recently_seen_example = public_eligible-recently_seen relay 200000 stale relay_stale
  where
    relay_stale : classify_health relay.last_seen_at 200000 ≡ some stale
    relay_stale = refl
