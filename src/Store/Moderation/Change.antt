-- ===== src/Store/Moderation/Change.antt =====
-- internal/storage/sqlite/moderation.go: the change of a standing, and why one is refused.
use activity_relay_directory.Prelude.{
  ℕ, List, ◌≡◌, ◌≢◌, refl, true, false, none, some, arith, Bytes, bytes_eq, lookup,
}
use activity_relay_directory.Identity.Library.{Library}
use activity_relay_directory.Protocol.Vocabulary.{AdministrativeState, active, suspended}
use activity_relay_directory.Store.Schema.{Relay, Database}
use activity_relay_directory.Store.Transaction.{
  transition_input, transition_time, relay_absent, StoreError,
}
use activity_relay_directory.Store.Rows.{latest, precedes}
use activity_relay_directory.Store.Rows.Consistent.{RelaysOk}
use activity_relay_directory.Store.Lifecycle.Step.{Step}
use activity_relay_directory.Store.Moderation.{
  ModerationIntent, ModerationOutcome, now_suspended, already_suspended, now_restored,
  already_active, classify_moderation, moderated, validate_moderation_intent,
}

-- The outcome tells the state before and the state that was asked for.
abbrev pub Tells : ModerationOutcome → AdministrativeState → AdministrativeState → Type 0
Tells now_suspended before target = (before ≡ active) × (target ≡ suspended)
Tells already_suspended before target = (before ≡ suspended) × (target ≡ suspended)
Tells now_restored before target = (before ≡ suspended) × (target ≡ active)
Tells already_active before target = (before ≡ active) × (target ≡ active)

-- A row that is moderated: the state alone, with its time and the time of the change, or nothing.
pub data Change (row : Relay) (target : AdministrativeState) (accepted : ℕ) (next : Relay)
    : Type 0 where
  changed :
      row.administrative_state ≢ target
      → next ≡ moderated row target accepted
      → Change row target accepted next
  kept : row.administrative_state ≡ target → next ≡ row → Change row target accepted next

pub record Moderated (lib : Library) (db : Database) (intent : ModerationIntent)
    (target : AdministrativeState) (accepted : ℕ) (next : Database) (outcome : ModerationOutcome)
    : Type 0 where
  pub step : Step lib db intent.relay_actor accepted next
  pub before : Relay
  pub known : lookup intent.relay_actor db.relays ≡ some before
  pub after : Relay
  pub found : lookup intent.relay_actor next.relays ≡ some after
  pub change : Change before target accepted after
  pub now : after.administrative_state ≡ target
  pub same_lifecycle : after.lifecycle_state ≡ before.lifecycle_state
  pub tells : Tells outcome before.administrative_state target
  pub same_observations : next.observations ≡ db.observations

pub classify_moderation-Tells :
    (before target : AdministrativeState)
    → Tells (classify_moderation before target).outcome before target
unfolding classify_moderation
classify_moderation-Tells active suspended = (refl, refl)
classify_moderation-Tells suspended suspended = (refl, refl)
classify_moderation-Tells suspended active = (refl, refl)
classify_moderation-Tells active active = (refl, refl)

-- The change is written exactly where the state differs.
pub data Whether (before target : AdministrativeState) : Type 0 where
  differs :
      (classify_moderation before target).changed ≡ true → before ≢ target → Whether before target
  agrees :
      (classify_moderation before target).changed ≡ false → before ≡ target → Whether before target

pub whether : (before target : AdministrativeState) → Whether before target
unfolding classify_moderation
whether active suspended = differs refl (λ e. ground arith)
whether suspended suspended = agrees refl refl
whether suspended active = differs refl (λ e. ground arith)
whether active active = agrees refl refl

-- Why `Suspend` and `Restore` refuse, while no statement fails.
pub data ModerationReason (lib : Library) (db : Database) (intent : ModerationIntent) (accepted : ℕ)
    : StoreError → Type 0 where
  not_valid :
      validate_moderation_intent lib intent ≡ false
      → ModerationReason lib db intent accepted transition_input
  not_known :
      lookup intent.relay_actor db.relays ≡ none
      → ModerationReason lib db intent accepted relay_absent
  late :
      precedes accepted (latest db intent.relay_actor) ≡ true
      → ModerationReason lib db intent accepted transition_time

-- After the row, before the event.
pub record Standing (lib : Library) (db : Database) (actor : Bytes) (row : Relay)
    (target : AdministrativeState) (accepted : ℕ) (mid : Database) : Type 0 where
  pub relays : List (Bytes × Relay)
  pub only : mid ≡ record db { relays = relays }
  pub ok : RelaysOk lib relays
  pub others :
      (other : Bytes) → bytes_eq actor other ≡ false → lookup other relays ≡ lookup other db.relays
  pub after : Relay
  pub found : lookup actor relays ≡ some after
  pub change : Change row target accepted after
  pub now : after.administrative_state ≡ target
  pub same_lifecycle : after.lifecycle_state ≡ row.lifecycle_state
