-- ===== src/Replay/Table.antt =====
-- internal/storage/sqlite/replay.go: the durable store. A row is kept under its key, a digest of 32 bytes
-- by its type. The limit of a cleanup counts the rows that it may still delete.
pub mod Reserve
pub mod Answer
use activity_relay_directory.Prelude.{
  ℕ, zero, suc, ◌+◌, Bool, true, false, not, ◌&&◌, ◌||◌, Option, none, some, List, [], ◌∷◌, ltb,
  leb, ◌==◌, is_some, if◌then◌else◌, Bytes, bytes_lt, lookup, insert, delete,
}
use activity_relay_directory.Store.Rows.{ClockTime, since_epoch, before_epoch}

pub record Reservation : Type 0 where
  pub reserved_at : ℕ
  pub expires_at : ℕ

abbrev pub Rows : Type 0
Rows = List (Bytes × Reservation)

pub data ReplayStatement : Type 0 where
  admit_write begin_transaction delete_key delete_expired insert_row count_rows commit :
      ReplayStatement

abbrev pub ReplayFaults : Type 0
ReplayFaults = ReplayStatement → Bool

-- In seconds.
abbrev pub replay_ttl : ℕ
replay_ttl = 600

abbrev pub maximum_cleanup_batch : ℕ
maximum_cleanup_batch = 4096

-- `validate`: the two readings in whole seconds; `none` is the error of the store.
unfoldable pub validate : Bool → ClockTime → ClockTime → Option (ℕ × ℕ)
validate canceled (since_epoch now) (since_epoch expires) =
    if canceled
    then none
    else if not (ltb now expires) || ltb (now + replay_ttl) expires
    then none
    else some (now, expires)
validate canceled (since_epoch now) (before_epoch n) = none
validate canceled (before_epoch n) expires = none

-- `DELETE ... WHERE replay_key = ? AND expires_at_unix <= ?`
unfoldable pub drop_expired : Bytes → ℕ → Rows → Rows
drop_expired key now rows = elim (lookup key rows) [
  | none ↦ rows
  | some row ↦ if leb row.expires_at now then delete key rows else rows
]

-- Which of two rows stands first in `ORDER BY expires_at_unix, replay_key`.
unfoldable pub sooner : Bytes × ℕ → Bytes × ℕ → Bool
sooner (key, expires) (key', expires') =
    ltb expires expires' || (expires == expires') && bytes_lt key key'

abbrev pub first_of : Bytes × ℕ → Option (Bytes × ℕ) → Bytes × ℕ
first_of row none = row
first_of row (some other) = if sooner other row then other else row

-- The first expired row in that order.
unfoldable pub first_expired : ℕ → Rows → Option (Bytes × ℕ)
first_expired now [] = none
first_expired now ((key, row) ∷ rows) =
    let rest = first_expired now rows in
    if leb row.expires_at now then some (first_of (key, row.expires_at) rest) else rest

-- `cleanupExpiredRFC9421Replay`: the rows that are left, and how many were deleted.
unfoldable pub cleanup_expired : ℕ → ℕ → Rows → Rows × ℕ
cleanup_expired zero now rows = (rows, 0)
cleanup_expired (suc maximum) now rows = elim (first_expired now rows) [
  | none ↦ (rows, 0)
  | some (key, expires) ↦
      let (left, deleted) = cleanup_expired maximum now (delete key rows) in (left, deleted + 1)
]

-- `INSERT ... ON CONFLICT(replay_key) DO NOTHING`, with whether a row was affected.
unfoldable pub insert_reservation : Bytes → ℕ → ℕ → Rows → Rows × Bool
insert_reservation key now expires rows = elim (lookup key rows) [
  | some row ↦ (rows, false)
  | none ↦ (insert key (record { reserved_at = now; expires_at = expires }) rows, true)
]

-- The two deletions and the insertion of a reservation.
unfoldable pub reserve_rows : ℕ → Bytes → ℕ → ℕ → Rows → Rows × Bool
reserve_rows batch key now expires rows =
    insert_reservation key now expires (cleanup_expired batch now (drop_expired key now rows)).0

abbrev pub broken : ReplayFaults → Bool
broken fails =
    fails admit_write
    || fails begin_transaction
    || fails delete_key
    || fails delete_expired
    || fails insert_row
    || fails count_rows
    || fails commit

-- `ReserveRFC9421Replay`: every statement runs on every path, so one that fails rolls all of them back.
unfoldable pub reserve :
    ℕ → ReplayFaults → Rows → Bool → Bytes → ClockTime → ClockTime → Rows × Option Bool
reserve batch fails rows canceled key now expires_at = elim (validate canceled now expires_at) [
  | none ↦ (rows, none)
  | some (seconds, expires) ↦ if broken fails then (rows, none) else (
    (reserve_rows batch key seconds expires rows).0,
    some (reserve_rows batch key seconds expires rows).1,
  )
]

abbrev pub broken_cleanup : ReplayFaults → Bool
broken_cleanup fails =
    fails admit_write
    || fails begin_transaction
    || fails delete_expired
    || fails count_rows
    || fails commit

-- `CleanupExpiredRFC9421Replay`
unfoldable pub cleanup_store : ReplayFaults → Rows → Bool → ℕ → ClockTime → Rows × Option ℕ
cleanup_store fails rows canceled maximum (before_epoch n) = (rows, none)
cleanup_store fails rows canceled maximum (since_epoch now) =
    if maximum == 0 || ltb maximum_cleanup_batch maximum || canceled || broken_cleanup fails
    then (rows, none)
    else ((cleanup_expired maximum now rows).0, some (cleanup_expired maximum now rows).1)
