-- ===== src/Replay/Memory.antt =====
-- internal/protocol/v1/replay.go: the bounded store in memory. Times are seconds; a key maps to its expiry.
pub mod Reserve
use activity_relay_directory.Prelude.{
  ℕ, Bool, not, ◌&&◌, Option, none, some, List, [], ◌∷◌, ltb, leb, ◌==◌, length, if◌then◌else◌,
  Bytes, lookup, insert, delete,
}

abbrev pub Entries : Type 0
Entries = List (Bytes × ℕ)

pub record MemoryStore : Type 0 where
  pub entries : Entries
  pub capacity : ℕ

abbrev pub default_capacity : ℕ
default_capacity = 10_000

-- `newMemoryRFC9421ReplayStore` for a capacity that is not negative.
unfoldable pub new_memory_store : ℕ → MemoryStore
new_memory_store capacity = record {
  entries = [];
  capacity = if capacity == 0 then default_capacity else capacity;
}

pub data MemoryAnswer : Type 0 where
  granted replayed store_failed store_full : MemoryAnswer

-- The loop over the map that deletes what has expired.
unfoldable pub sweep : ℕ → Entries → Entries
sweep now [] = []
sweep now ((key, expires) ∷ entries) =
    let rest = sweep now entries in if leb expires now then rest else (key, expires) ∷ rest

abbrev pub make_room : ℕ → ℕ → Entries → Entries
make_room capacity now entries =
    if leb capacity (length entries) then sweep now entries else entries

-- From the capacity on.
unfoldable pub store_key : MemoryStore → Entries → Bytes → ℕ → ℕ → MemoryStore × MemoryAnswer
store_key store entries key now expires =
    let left = make_room store.capacity now entries in
    if leb store.capacity (length left)
    then (record store { entries = left }, store_full)
    else (record store { entries = insert key expires left }, granted)

-- `ReserveRFC9421Replay`; the context is read before and under the lock.
unfoldable pub reserve_memory :
    MemoryStore → Bool → Bool → Bytes → ℕ → ℕ → MemoryStore × MemoryAnswer
reserve_memory store canceled canceled_at_lock key now expires =
    if canceled
    then (store, store_failed)
    else if canceled_at_lock
    then (store, store_failed)
    else if not (ltb now expires)
    then (store, store_failed)
    else elim (lookup key store.entries) [
      | none ↦ store_key store store.entries key now expires
      | some existing ↦
          if ltb now existing
          then (store, replayed)
          else store_key store (delete key store.entries) key now expires
    ]
