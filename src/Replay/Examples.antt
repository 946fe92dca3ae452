-- ===== src/Replay/Examples.antt =====
-- The properties of the stores of reservations at concrete inputs.
use activity_relay_directory.Prelude.{
  ◌≡◌, refl, true, false, some, List, [], ◌∷◌, arith, Bytes, codes, lookup, insert, has, Bool-cases,
  inl, inr, bytes_eq,
}
use activity_relay_directory.Replay.Table.{
  ReplayFaults, reserve, validate, reserve_rows, insert_reservation, cleanup_expired, drop_expired,
  first_expired,
}
use activity_relay_directory.Replay.History.{
  Call, reserve_call, cleanup_call, granted_before, reserve-granted_once,
}
use activity_relay_directory.Replay.Memory.{MemoryStore, reserve_memory, store_key, sweep}
use activity_relay_directory.Replay.Memory.Reserve.{MemoryEnd, Bounded, reserve_memory-End}
use activity_relay_directory.Replay.Live.{AgreeFrom}
use activity_relay_directory.Replay.Table.Reserve as Durable
use activity_relay_directory.Replay.Memory.Reserve as Local
use activity_relay_directory.Replay.Agreement.{told, Beside, reserve_memory-reserve}
use activity_relay_directory.Store.Rows.{since_epoch}

abbrev no_faults : ReplayFaults
no_faults = λ statement. false

abbrev key : Bytes
key = codes "nonce"

abbrev calls : List Call
calls =
    reserve_call no_faults false key 1100 (since_epoch 1600)
    ∷ cleanup_call no_faults false 10 1200
    ∷ reserve_call no_faults false key 1300 (since_epoch 1800)
    ∷ []

first_granted :
    (reserve 256 no_faults [] false key (since_epoch 1000) (since_epoch 1500)).1 ≡ some true
unfolding reserve validate reserve_rows insert_reservation cleanup_expired drop_expired
    first_expired lookup insert
first_granted = refl

reserve-granted_once_example :
    granted_before 256 key 1500
      (reserve 256 no_faults [] false key (since_epoch 1000) (since_epoch 1500)).0
      calls
    ≡ 0
reserve-granted_once_example =
    reserve-granted_once 256 no_faults [] false key 1000 1500 calls tt first_granted
      (omega arith, (omega arith, (omega arith, tt)))

abbrev store : MemoryStore
store = record { entries = (codes "old", 900) ∷ []; capacity = 1 }

store-Bounded : Bounded store
unfolding has
store-Bounded = record { distinct = (refl, tt); size = omega arith }

reserve_memory-End_example :
    MemoryEnd store key 1000 1500 (reserve_memory store false false key 1000 1500)
reserve_memory-End_example = reserve_memory-End store false false key 1000 1500 store-Bounded

store-AgreeFrom : AgreeFrom 1000 (Durable.view []) (Local.view store.entries)
unfolding lookup
store-AgreeFrom other time h = elim (Bool-cases (bytes_eq (codes "old") other)) [
  | inl same ↦ rw same (ground arith)
  | inr apart ↦ rw apart refl
]

memory_granted : (reserve_memory store false false key 1000 1500).1 ≡ told true
unfolding reserve_memory store_key sweep lookup insert bytes_eq
memory_granted = refl

reserve_memory-reserve_example :
    Beside no_faults false 1000 1500 []
      (Local.view (reserve_memory store false false key 1000 1500).0.entries)
      true
      (reserve 256 no_faults [] false key (since_epoch 1000) (since_epoch 1500))
reserve_memory-reserve_example =
    reserve_memory-reserve 256 no_faults [] store false false false key 1000 1500 true tt
      store-Bounded store-AgreeFrom memory_granted
