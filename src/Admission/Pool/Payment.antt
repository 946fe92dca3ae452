-- ===== src/Admission/Pool/Payment.antt =====
-- internal/admission/limiter.go: what a request costs its key and leaves of the other keys.
use activity_relay_directory.Prelude.{
  ℕ, ◌+◌, ◌-◌, ◌*◌, ◌≤◌, ◌≡◌, true, ◌&&◌, none, some, [], ◌∷◌, ◌++◌, arith, Option-cases,
  Bool-cases, inl, inr, ltb, leb, if◌then◌else◌, length, Bytes, bytes_eq, bytes_eq_iff,
  bytes_eq_refl, lookup, insert, remove_element, lookup-insert,
}
use activity_relay_directory.Admission.Bucket.{Bucket, refill, retry_after, monotonic_maximum}
use activity_relay_directory.Admission.Bucket.Refill.{refill-last_seen}
use activity_relay_directory.Admission.Bucket.Credit.{
  credit, IsSound, refill-settled, credit-refill, credit-take, credit-le-burst,
}
use activity_relay_directory.Admission.Pool.{
  Pool, Result, Terms, is_allowed, cleanup, take_token, create, touch, admit,
}
use activity_relay_directory.Admission.Pool.Invariant.{InStep}
use activity_relay_directory.Admission.Pool.Worth.{
  TermsFit, AllSound, worth, Cleaned, cleanup-Cleaned, cost, refusal,
}

module _ (terms : Terms) (t : TermsFit terms) (k key : Bytes) (now : ℕ) where
  open terms use {rate}

  paid :
      (pool : Pool) (entry : Bucket)
      → lookup key pool.entries ≡ some entry
      → credit rate (some (record entry { tokens = entry.tokens - 1 })) now + rate.refill_interval
        ≤ credit rate (some entry) now
      → credit rate
            (lookup k (insert key (record entry { tokens = entry.tokens - 1 }) pool.entries))
            now
          + (if bytes_eq key k && true then rate.refill_interval else 0)
        ≤ worth rate pool k now
  paid pool entry found h =
      rw (lookup-insert key k (record entry { tokens = entry.tokens - 1 }) pool.entries)
        (elim (Bool-cases (bytes_eq key k)) [
          | inl same ↦ rw (same, ← (bytes_eq_iff key k).0 same, found) h
          | inr other ↦ rw other (omega arith)
        ])

  take_token-worth :
      (pool : Pool) (entry : Bucket)
      → lookup key pool.entries ≡ some entry
      → entry.tokens * rate.refill_interval + (now - entry.last_refill)
        ≤ rate.burst * rate.refill_interval
      → let taken = take_token pool key entry now rate terms.rate_decision in
        worth rate taken.0 k now + cost rate key k taken.1 ≤ worth rate pool k now
  unfolding take_token is_allowed
  take_token-worth pool entry found settled = elim (Bool-cases (ltb entry.tokens 1)) [
    | inl empty ↦ rw empty (
        grind (
          arith,
          refusal terms.rate_decision (retry_after entry now rate.refill_interval) t.refuses,
        ))
    | inr has_token ↦
        rw has_token (paid pool entry found (credit-take rate entry now settled (ground arith)))
  ]

  take_token-AllSound :
      (pool : Pool) (entry : Bucket)
      → lookup key pool.entries ≡ some entry
      → AllSound rate now pool
      → AllSound rate now (take_token pool key entry now rate terms.rate_decision).0
  unfolding take_token
  take_token-AllSound pool entry found sound = elim (Bool-cases (ltb entry.tokens 1)) [
    | inl empty ↦ rw empty sound
    | inr has_token ↦ rw has_token (λ j e h.
        let old = sound key entry found in
        elim (Bool-cases (bytes_eq key j)) [
          | inl same ↦
              let e' : record entry { tokens = entry.tokens - 1 } ≡ e = ground (
                arith,
                lookup-insert key j (record entry { tokens = entry.tokens - 1 }) pool.entries,
              ) in
              rw (← e') (omega arith)
          | inr other ↦ sound j e (
              ground (
                arith,
                lookup-insert key j (record entry { tokens = entry.tokens - 1 }) pool.entries,
              ))
        ])
  ]

  -- What holds after a request at the time `now`, against the worth of `k` before.
  pub record Paid (before : ℕ) (after : Pool × Result) : Type 0 where
    pub sound : AllSound rate now after.0
    pub worth_le : worth rate after.0 k now + cost rate key k after.1 ≤ before

  take_token-Paid :
      (pool : Pool) (entry : Bucket) (before : ℕ)
      → lookup key pool.entries ≡ some entry
      → entry.tokens * rate.refill_interval + (now - entry.last_refill)
        ≤ rate.burst * rate.refill_interval
      → AllSound rate now pool
      → worth rate pool k now ≤ before
      → Paid before (take_token pool key entry now rate terms.rate_decision)
  take_token-Paid pool entry before found settled sound h = record {
    sound = take_token-AllSound pool entry found sound;
    worth_le = omega (arith, take_token-worth pool entry found settled);
  }

  insert-AllSound :
      (pool : Pool) (entry : Bucket)
      → AllSound rate now pool
      → IsSound rate now entry
      → (j : Bytes) (e : Bucket) → lookup j (insert key entry pool.entries) ≡ some e
      → IsSound rate now e
  insert-AllSound pool entry sound own j e h = elim (Bool-cases (bytes_eq key j)) [
    | inl same ↦
        let e' : entry ≡ e = ground (arith, lookup-insert key j entry pool.entries) in rw (← e') own
    | inr other ↦ sound j e (ground (arith, lookup-insert key j entry pool.entries))
  ]

  insert-worth :
      (pool : Pool) (entry : Bucket)
      → credit rate (some entry) now ≤ credit rate (lookup key pool.entries) now
      → credit rate (lookup k (insert key entry pool.entries)) now ≤ worth rate pool k now
  insert-worth pool entry h =
      rw (lookup-insert key k entry pool.entries) (elim (Bool-cases (bytes_eq key k)) [
        | inl same ↦ rw (same, ← (bytes_eq_iff key k).0 same) h
        | inr other ↦ rw other (omega arith)
      ])

  lookup-insert_self :
      (pool : Pool) (entry : Bucket) → lookup key (insert key entry pool.entries) ≡ some entry
  lookup-insert_self pool entry =
      ground (arith, lookup-insert key key entry pool.entries, bytes_eq_refl key)

  create-Paid :
      (pool : Pool)
      → lookup key pool.entries ≡ none
      → AllSound rate now pool
      → Paid (worth rate pool k now) (create pool key now terms)
  unfolding create is_allowed
  create-Paid pool absent sound = elim (Bool-cases (leb pool.maximum (length pool.entries))) [
    | inl full ↦ rw full (record { sound = sound; worth_le = grind arith })
    | inr room ↦ rw room (
        take_token-Paid
          (record pool { entries = insert key entry pool.entries; order = pool.order ++ key ∷ [] })
          entry (worth rate pool k now) (lookup-insert_self pool entry) (omega arith)
          (insert-AllSound pool entry sound (omega arith))
          (insert-worth pool entry (rw absent (credit-le-burst rate (some entry) now))))
  ]
    where
      entry : Bucket
      entry = record { key = key; tokens = rate.burst; last_refill = now; last_seen = now }

  touch-Paid :
      (pool : Pool) (found : Bucket)
      → lookup key pool.entries ≡ some found
      → AllSound rate now pool
      → Paid (worth rate pool k now) (touch pool key found now terms)
  unfolding touch monotonic_maximum
  touch-Paid pool found h sound =
      take_token-Paid
        (record pool {
          entries = insert key entry pool.entries;
          order = remove_element key pool.order ++ key ∷ [];
        })
        entry (worth rate pool k now) (lookup-insert_self pool entry) settled.2
        (insert-AllSound pool entry sound (record {
          tokens_le = settled.0;
          refill_le = ground (arith, settled.1);
          seen_le = ground (arith, old.seen_le, refill-last_seen found now rate);
        }))
        (insert-worth pool entry (
          rw h (
            credit-refill rate terms.idle_ttl t.fits now found old.tokens_le
              (omega (arith, old.refill_le, old.seen_le)))))
    where
      old : IsSound rate now found
      old = sound key found h

      refilled : Bucket
      refilled = refill found now rate

      entry : Bucket
      entry = record refilled { last_seen = monotonic_maximum refilled.last_seen now }

      settled :
          (refilled.tokens ≤ rate.burst)
          × (refilled.last_refill ≤ now)
          × (refilled.tokens * rate.refill_interval + (now - refilled.last_refill)
              ≤ rate.burst * rate.refill_interval)
      settled =
          refill-settled rate terms.idle_ttl t.fits now found old.tokens_le
            (omega (arith, old.refill_le, old.seen_le))

  -- A request pays for what it is granted out of the worth of its key, and changes no other key's.
  pub admit-Paid :
      (pool : Pool)
      → InStep pool
      → AllSound rate now pool
      → Paid (worth rate pool k now) (admit pool key now terms)
  unfolding admit
  admit-Paid pool v sound = elim (Option-cases (lookup key cleaned.entries)) [
    | inl absent ↦ rw (absent, admit) (weaken (create-Paid cleaned absent kept.sound))
    | inr (entry, found) ↦ rw (found, admit) (weaken (touch-Paid cleaned entry found kept.sound))
  ]
    where
      cleaned : Pool
      cleaned = cleanup pool now terms.idle_ttl terms.cleanup_limit

      kept : Cleaned rate k now (worth rate pool k now) cleaned
      kept =
          cleanup-Cleaned terms pool k now (worth rate pool k now) t
            (record { in_step = v; sound = sound; worth_le = omega arith })

      weaken :
          {after : Pool × Result}
          → Paid (worth rate cleaned k now) after
          → Paid (worth rate pool k now) after
      weaken p = record { sound = p.sound; worth_le = omega (arith, p.worth_le, kept.worth_le) }
