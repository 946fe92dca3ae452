-- ===== src/Store/History.antt =====
-- The transitions of the store one after another, as SQLite runs them: each request with the statements that
-- fail in its transaction.
pub mod Moved
pub mod Chronology
pub mod Suspension
use activity_relay_directory.Prelude.{Bool, List, [], ◌∷◌, Bytes}
use activity_relay_directory.Identity.Library.{Library}
use activity_relay_directory.Store.Schema.{Database}
use activity_relay_directory.Store.Transaction.{Faults}
use activity_relay_directory.Store.Rows.{RegisterIntent, ClockTime}
use activity_relay_directory.Store.Lifecycle.{register, heartbeat, unregister}
use activity_relay_directory.Store.Moderation.{ModerationIntent, suspend, restore}
use activity_relay_directory.Store.Enrollment.{set_enrollment}
use activity_relay_directory.Store.Pruning.{soft_prune}

pub data Request : Type 0 where
  register_request : RegisterIntent → ClockTime → Request
  heartbeat_request unregister_request prune_request : Bytes → ClockTime → Request
  suspend_request restore_request : ModerationIntent → ClockTime → Request
  enrollment_request : Bool → Bytes → ClockTime → Request

module _ (lib : Library) where
  unfoldable pub serve : Database → Faults × Request → Database
  serve db (fails, register_request intent at) = (register lib fails db intent at).0
  serve db (fails, heartbeat_request actor at) = (heartbeat lib fails db actor at).0
  serve db (fails, unregister_request actor at) = (unregister lib fails db actor at).0
  serve db (fails, prune_request actor at) = (soft_prune lib fails db actor at).0
  serve db (fails, suspend_request intent at) = (suspend lib fails db intent at).0
  serve db (fails, restore_request intent at) = (restore lib fails db intent at).0
  serve db (fails, enrollment_request target operator_id at) =
      (set_enrollment fails db target operator_id at).0

  unfoldable pub serve_all : Database → List (Faults × Request) → Database
  serve_all db [] = db
  serve_all db (request ∷ requests) = serve_all (serve db request) requests
