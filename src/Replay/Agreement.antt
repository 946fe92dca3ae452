-- ===== src/Replay/Agreement.antt =====
-- The store in memory (internal/protocol/v1/replay.go) against the durable one
-- (internal/storage/sqlite/replay.go).
use activity_relay_directory.Prelude.{
  ℕ, ◌+◌, ◌≤◌, ◌||◌, Option, none, some, Bool-cases, inl, inr, ◌≡◌, ◌∙◌, refl, ap, sym, Bool, true,
  false, not, ◌&&◌, arith, ltb, keys, Distinct, if◌then◌else◌, Bytes, bytes_eq,
}
use activity_relay_directory.Store.Rows.{since_epoch}
use activity_relay_directory.Replay.Live.{beyond, View, AgreeFrom, Answered}
use activity_relay_directory.Replay.Table.{
  Rows, ReplayFaults, broken, validate, reserve_rows, reserve,
}
use activity_relay_directory.Replay.Table.Reserve as Durable
use activity_relay_directory.Replay.Table.Answer.{reserve_rows-Answered}
use activity_relay_directory.Replay.Memory.{
  MemoryStore, MemoryAnswer, granted, replayed, store_failed, reserve_memory,
}
use activity_relay_directory.Replay.Memory.Reserve.{
  Bounded, MemoryEnd, failing, replaying, filling, granting, reserve_memory-End,
}
use activity_relay_directory.Replay.Memory.Reserve as Local

abbrev pub told : Bool → MemoryAnswer
told true = granted
told false = replayed

-- Two stores that agree from a time on answer a reservation at that time alike, and agree afterwards.
Answered-AgreeFrom :
    (table table' memory memory' : View) (key : Bytes) (now expires : ℕ) (answer answer' : Bool)
    → AgreeFrom now table memory
    → Answered table table' key now expires answer
    → Answered memory memory' key now expires answer'
    → (answer ≡ answer') × AgreeFrom now table' memory'
Answered-AgreeFrom table table' memory memory' key now expires answer answer' same a b =
    let one : answer ≡ answer' =
      a.granted_is ∙ ap not (sym (same key now (omega arith))) ∙ sym b.granted_is in
    (
      one,
      λ other time h.
          b.later other time h
          ∙ ap (λ live. if answer' && bytes_eq key other then ltb time expires else live)
              (same other time h)
          ∙ ap
              (λ w. if w && bytes_eq key other then ltb time expires else beyond (table other) time)
              (sym one)
          ∙ sym (a.later other time h),
    )

MemoryEnd-Answered :
    (store : MemoryStore) (key : Bytes) (now expires : ℕ) (end : MemoryStore × MemoryAnswer)
    (answer : Bool)
    → MemoryEnd store key now expires end
    → end.1 ≡ told answer
    → Answered (Local.view store.entries) (Local.view end.0.entries) key now expires answer
MemoryEnd-Answered store key now expires _ true failing e = ground arith
MemoryEnd-Answered store key now expires _ false failing e = ground arith
MemoryEnd-Answered store key now expires _ true (replaying live) e = ground arith
MemoryEnd-Answered store key now expires _ false (replaying live) e = record {
  granted_is = rw live refl;
  later = λ other time h. refl;
}
MemoryEnd-Answered store key now expires _ true (filling left d s b f) e = ground arith
MemoryEnd-Answered store key now expires _ false (filling left d s b f) e = ground arith
MemoryEnd-Answered store key now expires _ true (granting next h a b) e = a
MemoryEnd-Answered store key now expires _ false (granting next h a b) e = ground arith

-- How the durable store answers beside the store in memory: it fails and keeps its rows, with a reason of its
-- own, or none of these reasons holds, it answers the same, and both hold the same live reservations.
pub data Beside (fails : ReplayFaults) (canceled : Bool) (now expires : ℕ) (rows : Rows)
    (after : View) (answer : Bool) : Rows × Option Bool → Type 0 where
  refusing :
      (canceled || ltb (now + 600) expires || broken fails) ≡ true
      → Beside fails canceled now expires rows after answer (rows, none)
  alike :
      (left : Rows)
      → canceled ≡ false
      → expires ≤ now + 600
      → broken fails ≡ false
      → AgreeFrom now (Durable.view left) after
      → Beside fails canceled now expires rows after answer (left, some answer)

answered-before :
    (store : MemoryStore) (canceled canceled_at_lock : Bool) (key : Bytes) (now expires : ℕ)
    (answer : Bool)
    → (reserve_memory store canceled canceled_at_lock key now expires).1 ≡ told answer
    → ltb now expires ≡ true
unfolding reserve_memory
answered-before store true lock key now expires true e = ground arith
answered-before store true lock key now expires false e = ground arith
answered-before store false true key now expires true e = ground arith
answered-before store false true key now expires false e = ground arith
answered-before store false false key now expires answer e = elim (Bool-cases (ltb now expires)) [
  | inl early ↦ early
  | inr late ↦ absurd (not_told answer (rw late at e))
]
  where
    not_told : (answer : Bool) → store_failed ≡ told answer → ⊥
    not_told true h = ground arith
    not_told false h = ground arith

alike_rows :
    (batch : ℕ) (rows : Rows) (store : MemoryStore) (canceled canceled_at_lock : Bool) (key : Bytes)
    (now expires : ℕ) (answer : Bool)
    → Distinct (keys rows)
    → Bounded store
    → AgreeFrom now (Durable.view rows) (Local.view store.entries)
    → (reserve_memory store canceled canceled_at_lock key now expires).1 ≡ told answer
    → ((reserve_rows batch key now expires rows).1 ≡ answer)
      × AgreeFrom now
          (Durable.view (reserve_rows batch key now expires rows).0)
          (Local.view (reserve_memory store canceled canceled_at_lock key now expires).0.entries)
alike_rows batch rows store canceled canceled_at_lock key now expires answer d bounded same e =
    let early = answered-before store canceled canceled_at_lock key now expires answer e in
    Answered-AgreeFrom _ _ _ _ key now expires _ answer same
      (reserve_rows-Answered batch key now expires rows (ground arith) d).0
      (MemoryEnd-Answered store key now expires _ answer
        (reserve_memory-End store canceled canceled_at_lock key now expires bounded) e)

module _ (batch : ℕ) (fails : ReplayFaults) (rows : Rows) (canceled : Bool) (key : Bytes)
    (now expires : ℕ) where
  validate-refuses :
      (canceled || ltb (now + 600) expires) ≡ true
      → validate canceled (since_epoch now) (since_epoch expires) ≡ none
  unfolding validate
  validate-refuses h = ground arith

  validate-accepts :
      ltb now expires ≡ true
      → (canceled || ltb (now + 600) expires) ≡ false
      → validate canceled (since_epoch now) (since_epoch expires) ≡ some (now, expires)
  unfolding validate
  validate-accepts early h = ground arith

  reserve-refuses :
      (canceled || ltb (now + 600) expires) ≡ true
      → reserve batch fails rows canceled key (since_epoch now) (since_epoch expires) ≡ (rows, none)
  unfolding reserve
  reserve-refuses h = rw (reserve, validate-refuses h) refl

  reserve-accepts :
      ltb now expires ≡ true
      → (canceled || ltb (now + 600) expires) ≡ false
      → reserve batch fails rows canceled key (since_epoch now) (since_epoch expires) ≡ (
          if broken fails then (rows, none) else (
            (reserve_rows batch key now expires rows).0,
            some (reserve_rows batch key now expires rows).1,
          ))
  unfolding reserve
  reserve-accepts early h = rw (reserve, validate-accepts early h) refl

-- Where the store in memory grants a key or answers that it is replayed, `ReserveRFC9421Replay` of the durable
-- store, at the same reading and from a state that holds the same live reservations, answers the same and both
-- hold the same ones afterwards, whatever was swept in either; or it fails and keeps its rows, exactly if its
-- context is canceled, the expiry is more than 600 seconds ahead, or a statement fails. The store in memory
-- may fail or be full in place of answering.
pub reserve_memory-reserve :
    (batch : ℕ) (fails : ReplayFaults) (rows : Rows) (store : MemoryStore)
    (canceled canceled_at_lock durable_canceled : Bool) (key : Bytes) (now expires : ℕ)
    (answer : Bool)
    → Distinct (keys rows)
    → Bounded store
    → AgreeFrom now (Durable.view rows) (Local.view store.entries)
    → (reserve_memory store canceled canceled_at_lock key now expires).1 ≡ told answer
    → Beside fails durable_canceled now expires rows
        (Local.view (reserve_memory store canceled canceled_at_lock key now expires).0.entries)
        answer
        (reserve batch fails rows durable_canceled key (since_epoch now) (since_epoch expires))
reserve_memory-reserve batch fails rows store canceled canceled_at_lock durable_canceled key now
      expires answer d bounded same e =
    let early = answered-before store canceled canceled_at_lock key now expires answer e in
    elim (Bool-cases (durable_canceled || ltb (now + 600) expires)) [
      | inl refused ↦
          rw (reserve-refuses batch fails rows durable_canceled key now expires refused)
            (refusing (ground arith))
      | inr accepted ↦
          rw (reserve-accepts batch fails rows durable_canceled key now expires early accepted)
            (elim (Bool-cases (broken fails)) [
              | inl fault ↦ rw fault (refusing (ground arith))
              | inr fine ↦
                  let (answered, agree) =
                    alike_rows batch rows store canceled canceled_at_lock key now expires answer d
                      bounded same e in
                  rw (fine, answered)
                    (alike (reserve_rows batch key now expires rows).0 (ground arith) (ground arith)
                      fine agree)
            ])
    ]
