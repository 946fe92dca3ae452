-- ===== src/Store/History/Moved.antt =====
-- internal/storage/sqlite: what one request does to a consistent database.
use activity_relay_directory.Prelude.{ℕ, ◌≡◌, refl, Bool, List, Bool-cases, inl, inr, Bytes}
use activity_relay_directory.Identity.Library.{Library}
use activity_relay_directory.Protocol.Vocabulary.{active, suspended, AdministrativeState}
use activity_relay_directory.Store.Schema.{Database, EnrollmentEvent}
use activity_relay_directory.Store.Transaction.{StoreError, Attempt, Faults}
use activity_relay_directory.Store.Transaction.Ends.{Settled, committed, unwritten, refused}
use activity_relay_directory.Store.Rows.{
  RegisterIntent, since_epoch, before_epoch, transition_unix, validate_register_intent,
  validate_identity_intent,
}
use activity_relay_directory.Store.Rows.Consistent.{Consistent}
use activity_relay_directory.Store.Lifecycle.{register, heartbeat, unregister}
use activity_relay_directory.Store.Lifecycle.Step.{Step}
use activity_relay_directory.Store.Lifecycle.Register.{register-Registered}
use activity_relay_directory.Store.Lifecycle.Heartbeat.{Beaten, heartbeat-Beaten}
use activity_relay_directory.Store.Lifecycle.Departure.{Left}
use activity_relay_directory.Store.Lifecycle.Unregister.{unregister-Left}
use activity_relay_directory.Store.Moderation.{
  ModerationIntent, moderate, validate_moderation_intent, valid_operator_id,
}
use activity_relay_directory.Store.Enrollment.{EnrollmentOutcome}
use activity_relay_directory.Store.Enrollment.{set_enrollment}
use activity_relay_directory.Store.Moderation.Change.{Moderated}
use activity_relay_directory.Store.Moderation.Standing.{moderate-Moderated}
use activity_relay_directory.Store.Enrollment.Policy.{Enrolled, set_enrollment-Enrolled}
use activity_relay_directory.Store.Pruning.{soft_prune}
use activity_relay_directory.Store.Pruning.Eligible.{Pruned}
use activity_relay_directory.Store.Pruning.Prune.{soft_prune-Pruned}
use activity_relay_directory.Store.History.{
  Request, register_request, heartbeat_request, unregister_request, prune_request, suspend_request,
  restore_request, enrollment_request, serve,
}

-- Nothing, or one transition of one actor, or the enrollment policy alone.
pub data Moved (lib : Library) (db : Database) (next : Database) : Type 0 where
  stayed : next ≡ db → Moved lib db next
  stepped : (actor : Bytes) (accepted : ℕ) → Step lib db actor accepted next → Moved lib db next
  policy :
      (enrollment_open : Bool) (updated : ℕ) (events : List EnrollmentEvent)
      → next ≡ record db {
        enrollment_open = enrollment_open;
        policy_updated_at = updated;
        enrollment_events = events;
      }
      → Moved lib db next

Settled-Moved :
    {A : Type 0} (lib : Library) (fails : Faults) (F : StoreError → Type 0)
    (P : Database → A → Type 0) (Q : A → Type 0) (db : Database) (actor : Bytes) (accepted : ℕ)
    → ((next : Database) (a : A) → P next a → Step lib db actor accepted next)
    → {result : Database × Attempt A} → Settled fails F P Q db result
    → Moved lib db result.0
Settled-Moved lib fails F P Q db actor accepted k (committed next a p) =
    stepped actor accepted (k next a p)
Settled-Moved lib fails F P Q db actor accepted k (unwritten a q) = stayed refl
Settled-Moved lib fails F P Q db actor accepted k (refused e r) = stayed refl

-- A reading before 1970 changes nothing.
pub register-before :
    (lib : Library) (fails : Faults) (db : Database) (intent : RegisterIntent) (n : ℕ)
    → (register lib fails db intent (before_epoch n)).0 ≡ db
unfolding register transition_unix
register-before lib fails db intent n = elim (Bool-cases (validate_register_intent lib intent)) [
  | inl ok ↦ rw ok refl
  | inr bad ↦ rw bad refl
]

pub heartbeat-before :
    (lib : Library) (fails : Faults) (db : Database) (actor : Bytes) (n : ℕ)
    → (heartbeat lib fails db actor (before_epoch n)).0 ≡ db
unfolding heartbeat transition_unix
heartbeat-before lib fails db actor n = elim (Bool-cases (validate_identity_intent lib actor)) [
  | inl ok ↦ rw ok refl
  | inr bad ↦ rw bad refl
]

pub unregister-before :
    (lib : Library) (fails : Faults) (db : Database) (actor : Bytes) (n : ℕ)
    → (unregister lib fails db actor (before_epoch n)).0 ≡ db
unfolding unregister transition_unix
unregister-before lib fails db actor n = elim (Bool-cases (validate_identity_intent lib actor)) [
  | inl ok ↦ rw ok refl
  | inr bad ↦ rw bad refl
]

pub soft_prune-before :
    (lib : Library) (fails : Faults) (db : Database) (actor : Bytes) (n : ℕ)
    → (soft_prune lib fails db actor (before_epoch n)).0 ≡ db
unfolding soft_prune transition_unix
soft_prune-before lib fails db actor n = elim (Bool-cases (validate_identity_intent lib actor)) [
  | inl ok ↦ rw ok refl
  | inr bad ↦ rw bad refl
]

pub moderate-before :
    (lib : Library) (fails : Faults) (db : Database) (intent : ModerationIntent) (n : ℕ)
    (target : AdministrativeState)
    → (moderate lib fails db intent (before_epoch n) target).0 ≡ db
unfolding moderate transition_unix
moderate-before lib fails db intent n target =
    elim (Bool-cases (validate_moderation_intent lib intent)) [
      | inl ok ↦ rw ok refl
      | inr bad ↦ rw bad refl
    ]

pub set_enrollment-before :
    (fails : Faults) (db : Database) (target : Bool) (operator_id : Bytes) (n : ℕ)
    → (set_enrollment fails db target operator_id (before_epoch n)).0 ≡ db
unfolding set_enrollment transition_unix
set_enrollment-before fails db target operator_id n =
    elim (Bool-cases (valid_operator_id operator_id)) [
      | inl ok ↦ rw ok refl
      | inr bad ↦ rw bad refl
    ]

Enrolled-Moved :
    (lib : Library) (fails : Faults) (F : StoreError → Type 0) (db : Database) (target : Bool)
    (operator_id : Bytes) (accepted : ℕ)
    → {result : Database × Attempt EnrollmentOutcome}
    → Settled fails F (Enrolled db target operator_id accepted) (λ o. ⊥) db result
    → Moved lib db result.0
Enrolled-Moved lib fails F db target operator_id accepted (committed next a p) = policy _ _ _ p.only
Enrolled-Moved lib fails F db target operator_id accepted (unwritten a q) = stayed refl
Enrolled-Moved lib fails F db target operator_id accepted (refused e r) = stayed refl

-- One request leaves a consistent database unchanged, or makes one step of one actor, or changes the policy.
pub serve-Moved :
    (lib : Library) (db : Database) (request : Faults × Request)
    → Consistent lib db
    → Moved lib db (serve lib db request)
unfolding serve
serve-Moved lib db (fails, register_request intent (before_epoch n)) c =
    stayed (register-before lib fails db intent n)
serve-Moved lib db (fails, register_request intent (since_epoch n)) c =
    Settled-Moved lib fails _ _ _ db intent.relay_actor n (λ next a p. p.step)
      (register-Registered lib fails db intent n c)
serve-Moved lib db (fails, heartbeat_request actor (before_epoch n)) c =
    stayed (heartbeat-before lib fails db actor n)
serve-Moved lib db (fails, heartbeat_request actor (since_epoch n)) c =
    Settled-Moved lib fails _ (Beaten lib db actor n) _ db actor n (λ next a p. p.step)
      (heartbeat-Beaten lib fails db actor n c)
serve-Moved lib db (fails, unregister_request actor (before_epoch n)) c =
    stayed (unregister-before lib fails db actor n)
serve-Moved lib db (fails, unregister_request actor (since_epoch n)) c =
    Settled-Moved lib fails _ (Left lib db actor n) _ db actor n (λ next a p. p.step)
      (unregister-Left lib fails db actor n c)
serve-Moved lib db (fails, prune_request actor (before_epoch n)) c =
    stayed (soft_prune-before lib fails db actor n)
serve-Moved lib db (fails, prune_request actor (since_epoch n)) c =
    Settled-Moved lib fails _ (Pruned lib db actor n) _ db actor n (λ next a p. p.step)
      (soft_prune-Pruned lib fails db actor n c)
serve-Moved lib db (fails, suspend_request intent (before_epoch n)) c =
    stayed (moderate-before lib fails db intent n suspended)
serve-Moved lib db (fails, suspend_request intent (since_epoch n)) c =
    Settled-Moved lib fails _ (Moderated lib db intent suspended n) _ db intent.relay_actor n
      (λ next a p. p.step) (moderate-Moderated lib fails db intent n suspended c)
serve-Moved lib db (fails, restore_request intent (before_epoch n)) c =
    stayed (moderate-before lib fails db intent n active)
serve-Moved lib db (fails, restore_request intent (since_epoch n)) c =
    Settled-Moved lib fails _ (Moderated lib db intent active n) _ db intent.relay_actor n
      (λ next a p. p.step) (moderate-Moderated lib fails db intent n active c)
serve-Moved lib db (fails, enrollment_request target operator_id (before_epoch n)) c =
    stayed (set_enrollment-before fails db target operator_id n)
serve-Moved lib db (fails, enrollment_request target operator_id (since_epoch n)) c =
    Enrolled-Moved lib fails _ db target operator_id n
      (set_enrollment-Enrolled fails db target operator_id n)
