-- ===== src/Store/Schema.antt =====
-- The tables that the relay repository writes, as internal/storage/sqlite/migrations leaves them, each
-- with its CHECK constraints as a test. A table with a primary key is a list of keyed rows; a table of
-- events is a list, oldest first. Times are seconds since 1970, which every column bounds by 0.
use activity_relay_directory.Prelude.{
  ℕ, Bool, true, false, not, ◌&&◌, Option, none, some, List, leb, is_some, length, Bytes,
}
use activity_relay_directory.Protocol.Vocabulary.{AdministrativeState, active, suspended}

pub data LifecycleState : Type 0 where
  registered unregistered pruned : LifecycleState

pub record Relay : Type 0 where
  pub public_base_url : Bytes
  pub lifecycle_state : LifecycleState
  pub administrative_state : AdministrativeState
  pub first_registered_at : ℕ
  pub updated_at : ℕ
  pub last_seen_at : ℕ
  pub last_heartbeat_at : Option ℕ
  pub unregistered_at : Option ℕ
  pub pruned_at : Option ℕ
  pub suspended_at : Option ℕ

pub data EventKind : Type 0 where
  register_created register_updated register_unchanged heartbeat_recorded : EventKind
  unregister_removed unregister_absent relay_pruned : EventKind

pub record RelayEvent : Type 0 where
  pub relay_actor : Bytes
  pub event_kind : EventKind
  pub recorded_at : ℕ

pub data ModerationAction : Type 0 where
  suspend_applied suspend_unchanged restore_applied restore_unchanged : ModerationAction

pub record ModerationEvent : Type 0 where
  pub relay_actor : Bytes
  pub action : ModerationAction
  pub moderator_id : Bytes
  pub reason_code : Bytes
  pub recorded_at : ℕ

pub data EnrollmentAction : Type 0 where
  enrollment_opened enrollment_open_unchanged : EnrollmentAction
  enrollment_closed enrollment_closed_unchanged : EnrollmentAction

pub record EnrollmentEvent : Type 0 where
  pub action : EnrollmentAction
  pub operator_id : Bytes
  pub recorded_at : ℕ

pub data ReachabilityState : Type 0 where
  unknown reachable unreachable : ReachabilityState

pub data InboxProbeState : Type 0 where
  not_checked responsive method_rejected inbox_unreachable : InboxProbeState

pub record Observation : Type 0 where
  pub actor_state : ReachabilityState
  pub actor_last_checked : Option ℕ
  pub actor_last_success : Option ℕ
  pub inbox_url : Option Bytes
  pub inbox_declared : Option ℕ
  pub inbox_probe_state : InboxProbeState
  pub inbox_last_checked : Option ℕ
  pub rfc9421_verified : Option ℕ
  pub updated_unix : ℕ
  pub revision : ℕ

-- `relay_discoveries` is read for its keys alone; of `directory_policy` there is one row.
pub record Database : Type 0 where
  pub relays : List (Bytes × Relay)
  pub relay_events : List RelayEvent
  pub moderation_events : List ModerationEvent
  pub discoveries : List Bytes
  pub observations : List (Bytes × Observation)
  pub enrollment_open : Bool
  pub policy_updated_at : ℕ
  pub enrollment_events : List EnrollmentEvent

-- `column IS NULL OR column >= least`
unfoldable pub null_or_from : Option ℕ → ℕ → Bool
null_or_from none least = true
null_or_from (some n) least = leb least n

-- `column IS NULL OR greatest >= column`
unfoldable pub null_or_to : Option ℕ → ℕ → Bool
null_or_to none greatest = true
null_or_to (some n) greatest = leb n greatest

unfoldable pub sized : ℕ → Bytes → Bool
sized greatest text = leb 1 (length text) && leb (length text) greatest

unfoldable pub relay_state_check : Relay → Bool
relay_state_check row = elim row.lifecycle_state [
  | registered ↦ not (is_some row.unregistered_at) && not (is_some row.pruned_at)
  | unregistered ↦ is_some row.unregistered_at && not (is_some row.pruned_at)
  | pruned ↦ not (is_some row.unregistered_at) && is_some row.pruned_at
]

unfoldable pub administrative_check : Relay → Bool
administrative_check row = elim row.administrative_state [
  | active ↦ not (is_some row.suspended_at)
  | suspended ↦ is_some row.suspended_at
]

-- The constraints between the times of a row.
unfoldable pub relay_time_check : Relay → Bool
relay_time_check row =
    leb row.first_registered_at row.updated_at
    && leb row.first_registered_at row.last_seen_at
    && null_or_from row.last_heartbeat_at row.first_registered_at
    && null_or_from row.unregistered_at row.first_registered_at
    && null_or_from row.pruned_at row.first_registered_at
    && null_or_from row.suspended_at row.first_registered_at
    && null_or_to row.last_heartbeat_at row.updated_at
    && null_or_to row.last_heartbeat_at row.last_seen_at
    && null_or_to row.unregistered_at row.updated_at
    && null_or_to row.pruned_at row.updated_at
    && null_or_from row.pruned_at row.last_seen_at
    && null_or_to row.suspended_at row.updated_at

unfoldable pub relay_check : Bytes → Relay → Bool
relay_check actor row =
    sized 4096 actor
    && sized 2048 row.public_base_url
    && relay_state_check row
    && administrative_check row
    && relay_time_check row

-- A comparison with NULL is no violation, as long as nothing else is false.
abbrev success_at : Option ℕ → Option ℕ → Bool
success_at success none = false
success_at none (some checked) = true
success_at (some success) (some checked) = leb success checked && leb checked success

abbrev success_to : Option ℕ → Option ℕ → Bool
success_to success none = false
success_to success (some checked) = null_or_to success checked

unfoldable pub actor_state_check : Observation → Bool
actor_state_check row = elim row.actor_state [
  | unknown ↦ not (is_some row.actor_last_checked) && not (is_some row.actor_last_success)
  | reachable ↦ success_at row.actor_last_success row.actor_last_checked
  | unreachable ↦ success_to row.actor_last_success row.actor_last_checked
]

unfoldable pub url_check : Option Bytes → Option ℕ → Bool
url_check none declared = not (is_some declared)
url_check (some url) declared = sized 4096 url && is_some declared

unfoldable pub inbox_state_check : Observation → Bool
inbox_state_check row = elim row.inbox_probe_state [
  | not_checked ↦ not (is_some row.inbox_last_checked)
  | responsive ↦ is_some row.inbox_last_checked
  | method_rejected ↦ is_some row.inbox_last_checked
  | inbox_unreachable ↦ is_some row.inbox_last_checked
]

unfoldable pub observation_check : Bytes → Observation → Bool
observation_check actor row =
    sized 4096 actor
    && leb 1 row.revision
    && actor_state_check row
    && url_check row.inbox_url row.inbox_declared
    && inbox_state_check row
    && null_or_to row.actor_last_checked row.updated_unix
    && null_or_to row.actor_last_success row.updated_unix
    && null_or_to row.inbox_declared row.updated_unix
    && null_or_to row.inbox_last_checked row.updated_unix
    && null_or_to row.rfc9421_verified row.updated_unix
