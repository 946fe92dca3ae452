-- ===== src/Store/History/Suspension.antt =====
-- Suspended relays of internal/storage/sqlite over many requests.
use activity_relay_directory.Prelude.{
  ℕ, ◌≡◌, Bool, true, false, some, List, [], ◌∷◌, arith, Bool-cases, inl, inr, ◌∙◌, Bytes, bytes_eq,
  bytes_eq_iff, bytes_eq_refl, lookup, lookup-insert,
}
use activity_relay_directory.Identity.Library.{Library}
use activity_relay_directory.Protocol.Vocabulary.{active, suspended, Outcome}
use activity_relay_directory.Store.Schema.{Database, Relay}
use activity_relay_directory.Store.Transaction.{StoreError, Attempt, Faults}
use activity_relay_directory.Store.Transaction.Ends.{Settled, committed, unwritten, refused}
use activity_relay_directory.Store.Rows.{since_epoch, before_epoch}
use activity_relay_directory.Store.Rows.Consistent.{Consistent}
use activity_relay_directory.Store.Lifecycle.{left}
use activity_relay_directory.Store.Lifecycle.Step.{Step}
use activity_relay_directory.Store.Lifecycle.Terms.{Registered}
use activity_relay_directory.Store.Lifecycle.Register.{register-Registered}
use activity_relay_directory.Store.Lifecycle.Heartbeat.{Beaten, heartbeat-Beaten}
use activity_relay_directory.Store.Lifecycle.Departure.{
  Left, Departure, departed, not_there, gone_before,
}
use activity_relay_directory.Store.Lifecycle.Unregister.{unregister-Left}
use activity_relay_directory.Store.Moderation.Change.{Moderated}
use activity_relay_directory.Store.Moderation.Standing.{moderate-Moderated}
use activity_relay_directory.Store.Pruning.{pruned_row}
use activity_relay_directory.Store.Pruning.Eligible.{Pruned}
use activity_relay_directory.Store.Pruning.Prune.{soft_prune-Pruned}
use activity_relay_directory.Store.History.{
  Request, register_request, heartbeat_request, unregister_request, prune_request, suspend_request,
  restore_request, enrollment_request, serve, serve_all,
}
use activity_relay_directory.Store.History.Moved.{
  register-before, heartbeat-before, unregister-before, soft_prune-before, moderate-before,
  set_enrollment-before,
}
use activity_relay_directory.Store.History.Chronology.{Sound, serve_all-Sound}
use activity_relay_directory.Store.Enrollment.{EnrollmentOutcome}
use activity_relay_directory.Store.Enrollment.Policy.{Enrolled, set_enrollment-Enrolled}

pub record Suspended (db : Database) (actor : Bytes) : Type 0 where
  pub row : Relay
  pub found : lookup actor db.relays ≡ some row
  pub out : row.administrative_state ≡ suspended

-- No request lifts the suspension of the actor.
abbrev pub NoRestore : Bytes → List (Faults × Request) → Type 0
NoRestore actor [] = Unit {0}
NoRestore actor ((fails, register_request intent at) ∷ requests) = NoRestore actor requests
NoRestore actor ((fails, heartbeat_request other at) ∷ requests) = NoRestore actor requests
NoRestore actor ((fails, unregister_request other at) ∷ requests) = NoRestore actor requests
NoRestore actor ((fails, prune_request other at) ∷ requests) = NoRestore actor requests
NoRestore actor ((fails, suspend_request intent at) ∷ requests) = NoRestore actor requests
NoRestore actor ((fails, restore_request intent at) ∷ requests) =
    (bytes_eq intent.relay_actor actor ≡ false) × NoRestore actor requests
NoRestore actor ((fails, enrollment_request target operator_id at) ∷ requests) =
    NoRestore actor requests

-- A settled transition of `other`, whose own suspension lasts where it commits.
Settled-Suspended :
    {A : Type 0} {lib : Library} {fails : Faults} {F : StoreError → Type 0}
    {P : Database → A → Type 0} {Q : A → Type 0} (db : Database) (actor other : Bytes) (n : ℕ)
    → Suspended db actor
    → ((next : Database) (a : A) → P next a → Step lib db other n next)
    → (bytes_eq other actor ≡ true → (next : Database) (a : A) → P next a → Suspended next actor)
    → {result : Database × Attempt A} → Settled fails F P Q db result
    → Suspended result.0 actor
Settled-Suspended db actor other n v step own (unwritten a q) = v
Settled-Suspended db actor other n v step own (refused e r) = v
Settled-Suspended db actor other n v step own (committed next a p) =
    elim (Bool-cases (bytes_eq other actor)) [
      | inl same ↦ own same next a p
      | inr apart ↦ record {
        row = v.row;
        found = ((step next a p).others actor apart).0 ∙ v.found;
        out = v.out;
      }
    ]

-- A step of the actor itself, by kind.
module _ (lib : Library) (db next : Database) (actor : Bytes) (n : ℕ) (v : Suspended db actor) where
  Pruned-Suspended : {o : _} → Pruned lib db actor n next o → Suspended next actor
  Pruned-Suspended p = record {
    row = pruned_row p.row n;
    found = p.found;
    out = let same : p.row ≡ v.row = ground (arith, p.eligible.known, v.found) in rw same v.out;
  }

  Departure-Suspended :
      {relays : List (Bytes × Relay)} {o : Outcome}
      → Departure db actor n relays o
      → (row : Relay) × (lookup actor relays ≡ some row) × (row.administrative_state ≡ suspended)
  Departure-Suspended (departed row known here e) = (
    left row n,
    rw e (ground (arith, lookup-insert actor actor (left row n) db.relays, bytes_eq_refl actor)),
    let same : row ≡ v.row = ground (arith, v.found) in rw same v.out,
  )
  Departure-Suspended (not_there missing e) = absurd (ground (arith, v.found))
  Departure-Suspended (gone_before row known gone e) = (v.row, rw e v.found, v.out)

  Left-Suspended : {o : Outcome} → Left lib db actor n next o → Suspended next actor
  Left-Suspended p =
      let (row, found, out) = Departure-Suspended p.departure in
      record { row = row; found = found; out = out }

-- The rest of the cases, for the actor itself.
own-Suspended :
    (db : Database) {A : Type 0} {P : Database → A → Type 0} (actor other : Bytes)
    → ((next : Database) (a : A) → P next a → other ≡ actor → Suspended next actor)
    → bytes_eq other actor ≡ true
    → (next : Database) (a : A) → P next a
    → Suspended next actor
own-Suspended db actor other k same next a p = k next a p ((bytes_eq_iff other actor).0 same)

Enrolled-Suspended :
    {fails : Faults} {F : StoreError → Type 0} {target : Bool} {operator_id : Bytes} {n : ℕ}
    (db : Database) (actor : Bytes)
    → Suspended db actor
    → {result : Database × Attempt EnrollmentOutcome}
    → Settled fails F (Enrolled db target operator_id n) (λ o. ⊥) db result
    → Suspended result.0 actor
Enrolled-Suspended db actor v (committed next a p) =
    rw p.only (record { row = v.row; found = v.found; out = v.out })
Enrolled-Suspended db actor v (unwritten a q) = v
Enrolled-Suspended db actor v (refused e r) = v

serve-Suspended :
    (lib : Library) (db : Database) (actor : Bytes) (request : Faults × Request)
    → Consistent lib db
    → NoRestore actor (request ∷ [])
    → Suspended db actor
    → Suspended (serve lib db request) actor
unfolding serve
serve-Suspended lib db actor (fails, register_request intent (since_epoch n)) c h v =
    Settled-Suspended {P = Registered lib db intent n} db actor intent.relay_actor n v
      (λ next a p. p.step)
      (own-Suspended db actor intent.relay_actor (λ next a p same.
        let live = p.was_active v.row (rw same v.found) in absurd (ground (arith, v.out))))
      (register-Registered lib fails db intent n c)
serve-Suspended lib db actor (fails, heartbeat_request other (since_epoch n)) c h v =
    Settled-Suspended {P = Beaten lib db other n} db actor other n v (λ next a p. p.step)
      (own-Suspended db actor other (λ next a p same.
        let one : p.row ≡ v.row = ground (arith, p.known, v.found) in
        absurd (ground (arith, p.not_suspended, v.out))))
      (heartbeat-Beaten lib fails db other n c)
serve-Suspended lib db actor (fails, unregister_request other (since_epoch n)) c h v =
    Settled-Suspended {P = Left lib db other n} db actor other n v (λ next a p. p.step)
      (own-Suspended db actor other
        (λ next a p same. rw (← same) (Left-Suspended lib db next other n (rw (← same) at v) p)))
      (unregister-Left lib fails db other n c)
serve-Suspended lib db actor (fails, prune_request other (since_epoch n)) c h v =
    Settled-Suspended {P = Pruned lib db other n} db actor other n v (λ next a p. p.step)
      (own-Suspended db actor other
        (λ next a p same. rw (← same) (Pruned-Suspended lib db next other n (rw (← same) at v) p)))
      (soft_prune-Pruned lib fails db other n c)
serve-Suspended lib db actor (fails, suspend_request intent (since_epoch n)) c h v =
    Settled-Suspended {P = Moderated lib db intent suspended n} db actor intent.relay_actor n v
      (λ next a p. p.step)
      (own-Suspended db actor intent.relay_actor
        (λ next a p same. record { row = p.after; found = rw (← same) p.found; out = p.now }))
      (moderate-Moderated lib fails db intent n suspended c)
serve-Suspended lib db actor (fails, restore_request intent (since_epoch n)) c h v =
    Settled-Suspended {P = Moderated lib db intent active n} db actor intent.relay_actor n v
      (λ next a p. p.step) (λ same. absurd (ground (arith, h.0)))
      (moderate-Moderated lib fails db intent n active c)
serve-Suspended lib db actor (fails, enrollment_request target operator_id (since_epoch n)) c h v =
    Enrolled-Suspended db actor v (set_enrollment-Enrolled fails db target operator_id n)
serve-Suspended lib db actor (fails, register_request intent (before_epoch n)) c h v =
    rw (register-before lib fails db intent n) v
serve-Suspended lib db actor (fails, heartbeat_request other (before_epoch n)) c h v =
    rw (heartbeat-before lib fails db other n) v
serve-Suspended lib db actor (fails, unregister_request other (before_epoch n)) c h v =
    rw (unregister-before lib fails db other n) v
serve-Suspended lib db actor (fails, prune_request other (before_epoch n)) c h v =
    rw (soft_prune-before lib fails db other n) v
serve-Suspended lib db actor (fails, suspend_request intent (before_epoch n)) c h v =
    rw (moderate-before lib fails db intent n suspended) v
serve-Suspended lib db actor (fails, restore_request intent (before_epoch n)) c h v =
    rw (moderate-before lib fails db intent n active) v
serve-Suspended lib db actor (fails, enrollment_request target operator_id (before_epoch n)) c h v =
    rw (set_enrollment-before fails db target operator_id n) v

NoRestore-split :
    (actor : Bytes) (request : Faults × Request) (requests : List (Faults × Request))
    → NoRestore actor (request ∷ requests)
    → NoRestore actor (request ∷ []) × NoRestore actor requests
NoRestore-split actor (fails, register_request intent at) requests h = (tt, h)
NoRestore-split actor (fails, heartbeat_request other at) requests h = (tt, h)
NoRestore-split actor (fails, unregister_request other at) requests h = (tt, h)
NoRestore-split actor (fails, prune_request other at) requests h = (tt, h)
NoRestore-split actor (fails, suspend_request intent at) requests h = (tt, h)
NoRestore-split actor (fails, restore_request intent at) requests h = ((h.0, tt), h.1)
NoRestore-split actor (fails, enrollment_request target operator_id at) requests h = (tt, h)

-- A suspended relay stays retained and suspended through any requests, whichever statements fail in each,
-- unless one of them asks to restore it.
pub serve_all-Suspended :
    (lib : Library) (db : Database) (actor : Bytes) (requests : List (Faults × Request))
    → Sound lib db
    → NoRestore actor requests
    → Suspended db actor
    → Suspended (serve_all lib db requests) actor
unfolding serve_all
serve_all-Suspended lib db actor [] sound h v = v
serve_all-Suspended lib db actor (request ∷ requests) sound h v =
    let (one, rest) = NoRestore-split actor request requests h in
    serve_all-Suspended lib (serve lib db request) actor requests
      (serve_all-Sound lib db (request ∷ []) sound) rest
      (serve-Suspended lib db actor request sound.consistent one v)
