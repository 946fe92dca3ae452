-- ===== src/Replay/Memory/Reserve.antt =====
-- internal/protocol/v1/replay.go: how a reservation in memory ends.
use activity_relay_directory.Prelude.{
  Distinct, Distinct-delete, Distinct-insert, keys, has, has-keys, length-insert, length-delete,
  length, ℕ, ◌≤◌, ◌<◌, ◌≡◌, ◌∙◌, refl, Bool, true, false, none, [], ◌∷◌, arith, Bool-cases,
  Option-cases, inl, inr, ltb, leb, Bytes, bytes_eq, bytes_eq_iff, lookup, insert, delete,
  lookup-insert, lookup-delete,
}
use activity_relay_directory.Replay.Live.{beyond, View, AgreeFrom, Answered}
use activity_relay_directory.Replay.Memory.{
  Entries, MemoryStore, MemoryAnswer, granted, replayed, store_failed, store_full, sweep, make_room,
  store_key, reserve_memory,
}

abbrev pub view : Entries → View
view entries key = lookup key entries

-- What a well-kept store is.
pub record Bounded (store : MemoryStore) : Type 0 where
  pub distinct : Distinct (keys store.entries)
  pub size : length store.entries ≤ store.capacity

record Swept (now : ℕ) (entries left : Entries) : Type 0 where
  agree : AgreeFrom now (view entries) (view left)
  distinct : Distinct (keys left)
  smaller : length left ≤ length entries

has-sweep :
    (now : ℕ) (entries : Entries) (key : Bytes)
    → has key (keys entries) ≡ false
    → has key (keys (sweep now entries)) ≡ false
unfolding sweep has
has-sweep now [] key h = refl
has-sweep now ((first, expires) ∷ entries) key h = ground (arith, has-sweep now entries key)

lookup-absent :
    (key : Bytes) (entries : Entries) → has key (keys entries) ≡ false → lookup key entries ≡ none
lookup-absent key entries h = ground (arith, has-keys key entries)

sweep-Swept :
    (now : ℕ) (entries : Entries) → Distinct (keys entries) → Swept now entries (sweep now entries)
unfolding sweep lookup
sweep-Swept now [] d = record { agree = λ other time h. refl; distinct = tt; smaller = omega arith }
sweep-Swept now ((first, expires) ∷ entries) d =
    let rest = sweep-Swept now entries d.1 in
    elim (Bool-cases (leb expires now)) [
      | inr live ↦ rw live (record {
        agree = λ other time h. elim (Bool-cases (bytes_eq first other)) [
          | inl same ↦ rw same refl
          | inr apart ↦ rw apart (rest.agree other time h)
        ];
        distinct = (has-sweep now entries first d.0, rest.distinct);
        smaller = omega (arith, rest.smaller);
      })
      | inl old ↦ rw old (record {
        agree = λ other time h. elim (Bool-cases (bytes_eq first other)) [
          | inr apart ↦ rw apart (rest.agree other time h)
          | inl same ↦
              let k : first ≡ other = (bytes_eq_iff first other).0 same in
              let missing : lookup other (sweep now entries) ≡ none =
                lookup-absent other (sweep now entries)
                  (has-sweep now entries other (rw (← k) d.0)) in
              rw (same, missing) (ground arith)
        ];
        distinct = rest.distinct;
        smaller = omega (arith, rest.smaller);
      })
    ]

-- How a reservation in memory ends.
pub data MemoryEnd (store : MemoryStore) (key : Bytes) (now expires : ℕ)
    : MemoryStore × MemoryAnswer → Type 0 where
  failing : MemoryEnd store key now expires (store, store_failed)
  replaying :
      beyond (view store.entries key) now ≡ true → MemoryEnd store key now expires (store, replayed)
  filling :
      (left : Entries)
      → beyond (view store.entries key) now ≡ false
      → AgreeFrom now (view store.entries) (view left)
      → Bounded (record store { entries = left })
      → store.capacity ≤ length left
      → MemoryEnd store key now expires (record store { entries = left }, store_full)
  granting :
      (next : Entries)
      → now < expires
      → Answered (view store.entries) (view next) key now expires true
      → Bounded (record store { entries = next })
      → MemoryEnd store key now expires (record store { entries = next }, granted)

make_room-Swept :
    (capacity now : ℕ) (entries : Entries)
    → Distinct (keys entries)
    → Swept now entries (make_room capacity now entries)
make_room-Swept capacity now entries d = elim (Bool-cases (leb capacity (length entries))) [
  | inl crowded ↦ rw crowded (sweep-Swept now entries d)
  | inr roomy ↦
      rw roomy (record { agree = λ other time h. refl; distinct = d; smaller = omega arith })
]

insert-Answered :
    (entries left : Entries) (key : Bytes) (now expires : ℕ)
    → AgreeFrom now (view entries) (view left)
    → beyond (view entries key) now ≡ false
    → Answered (view entries) (view (insert key expires left)) key now expires true
insert-Answered entries left key now expires agree free = record {
  granted_is = rw free refl;
  later = λ other time h.
      rw (lookup-insert key other expires left) (elim (Bool-cases (bytes_eq key other)) [
        | inl same ↦ rw same refl
        | inr apart ↦ rw apart (agree other time h)
      ]);
}

store_key-End :
    (store : MemoryStore) (entries : Entries) (key : Bytes) (now expires : ℕ)
    → now < expires
    → beyond (view store.entries key) now ≡ false
    → AgreeFrom now (view store.entries) (view entries)
    → Distinct (keys entries)
    → length entries ≤ store.capacity
    → MemoryEnd store key now expires (store_key store entries key now expires)
unfolding store_key
store_key-End store entries key now expires h free agree d size =
    elim (Bool-cases (leb store.capacity (length left))) [
      | inl full ↦ rw full (
          filling left free both
            (record { distinct = room.distinct; size = omega (arith, room.smaller) })
            (ground arith))
      | inr space ↦ rw space (
          granting (insert key expires left) h
            (insert-Answered store.entries left key now expires both free)
            (record {
              distinct = Distinct-insert key expires left room.distinct;
              size = ground (arith, length-insert key expires left);
            }))
    ]
  where
    left : Entries
    left = make_room store.capacity now entries

    room : Swept now entries left
    room = make_room-Swept store.capacity now entries d

    both : AgreeFrom now (view store.entries) (view left)
    both = λ other time k. room.agree other time k ∙ agree other time k

delete-agree :
    (entries : Entries) (key : Bytes) (now : ℕ)
    → beyond (view entries key) now ≡ false
    → AgreeFrom now (view entries) (view (delete key entries))
delete-agree entries key now old other time h =
    rw (lookup-delete key other entries) (elim (Bool-cases (bytes_eq key other)) [
      | inr apart ↦ rw apart refl
      | inl same ↦
          rw (same, ← (bytes_eq_iff key other).0 same)
            (elim (Option-cases (lookup key entries)) [
              | inl missing ↦ rw missing refl
              | inr (expires, e) ↦ rw e (ground arith)
            ])
    ])

-- A reservation in memory fails without a change, or answers `replayed` for a key that is live, or grants a
-- key that was not live and holds it until its expiry, or finds the store full; none of these takes a live
-- reservation away, and the entries stay within the capacity, each key once.
pub reserve_memory-End :
    (store : MemoryStore) (canceled canceled_at_lock : Bool) (key : Bytes) (now expires : ℕ)
    → Bounded store
    → MemoryEnd store key now expires
        (reserve_memory store canceled canceled_at_lock key now expires)
unfolding reserve_memory
reserve_memory-End store canceled canceled_at_lock key now expires v = elim (Bool-cases canceled) [
  | inl gone ↦ rw gone failing
  | inr here ↦ elim (Bool-cases canceled_at_lock) [
    | inl gone ↦ rw (here, gone) failing
    | inr still ↦ elim (Bool-cases (ltb now expires)) [
      | inr late ↦ rw (here, still, late) failing
      | inl early ↦
          rw (here, still, early)
            (elim (Option-cases (lookup key store.entries)) [
              | inl missing ↦ rw missing (
                  store_key-End store store.entries key now expires (ground arith) (rw missing refl)
                    (λ other time h. refl) v.distinct v.size)
              | inr (existing, e) ↦ rw e (elim (Bool-cases (ltb now existing)) [
                | inl live ↦ rw live (replaying (rw e live))
                | inr old ↦ rw old (
                    store_key-End store (delete key store.entries) key now expires (ground arith)
                      (rw e old) (delete-agree store.entries key now (rw e old))
                      (Distinct-delete key store.entries v.distinct)
                      (ground (arith, v.size, length-delete key store.entries v.distinct)))
              ])
            ])
    ]
  ]
]
