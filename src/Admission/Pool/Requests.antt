-- ===== src/Admission/Pool/Requests.antt =====
-- internal/admission/limiter.go: what a request keeps of a pool.
use activity_relay_directory.Prelude.{
  ℕ, ◌-◌, ◌≡◌, refl, none, some, [], ◌∷◌, ◌++◌, arith, Option-cases, true, Bytes, bytes_eq_iff,
  length, length-append, lookup, lookup-insert, length-insert, has, has-append, has-remove_element,
  Distinct-insert, Distinct-push, Distinct-remove_element, length-remove_element, remove_element,
  inl, inr, Bool-cases, ltb, leb, bytes_eq_refl, ◌∙◌,
}
use activity_relay_directory.Admission.Config.{Rate}
use activity_relay_directory.Admission.Bucket.{Bucket, refill, monotonic_maximum}
use activity_relay_directory.Admission.Bucket.Refill.{refill-key}
use activity_relay_directory.Admission.Pool.{
  Pool, Decision, Terms, cleanup, take_token, create, touch, admit,
}
use activity_relay_directory.Admission.Pool.Invariant.{
  InStep, rewrite-InStep, cleanup_keeps, cleanup-InStep,
}

take_token-InStep :
    (pool : Pool) (key : Bytes) (entry : Bucket) (now : ℕ) (rate : Rate) (d : Decision)
    → InStep pool
    → lookup key pool.entries ≡ some entry
    → InStep (take_token pool key entry now rate d).0
unfolding take_token
take_token-InStep pool key entry now rate d v found = elim (Bool-cases (ltb entry.tokens 1)) [
  | inl empty ↦ rw empty v
  | inr has_token ↦ rw has_token (
      rewrite-InStep pool key (record entry { tokens = entry.tokens - 1 }) pool.order v (rw found)
        (v.keyed key entry found) v.distinct_order (λ j. refl) refl)
]

create-InStep :
    (pool : Pool) (key : Bytes) (now : ℕ) (terms : Terms)
    → InStep pool
    → lookup key pool.entries ≡ none
    → InStep (create pool key now terms).0
unfolding create has
create-InStep pool key now terms v absent =
    elim (Bool-cases (leb pool.maximum (length pool.entries))) [
      | inl full ↦ rw full v
      | inr room ↦ rw room (
          take_token-InStep _ key entry now terms.rate terms.rate_decision
            (record {
              distinct_entries = Distinct-insert key entry pool.entries v.distinct_entries;
              distinct_order =
                  Distinct-push key pool.order v.distinct_order (ground (arith, v.same key));
              same = λ j. ground (
                arith,
                v.same j,
                has-append j pool.order (key ∷ []),
                lookup-insert key j entry pool.entries,
              );
              size = ground (
                arith,
                v.size,
                length-append pool.order (key ∷ []),
                length-insert key entry pool.entries,
              );
              bounded = ground (arith, length-insert key entry pool.entries);
              keyed = λ j e h.
                  ground (
                    arith,
                    v.keyed j e,
                    lookup-insert key j entry pool.entries,
                    bytes_eq_iff key j,
                  );
            })
            (ground (arith, lookup-insert key key entry pool.entries, bytes_eq_refl key)))
    ]
  where
    entry : Bucket
    entry = record { key = key; tokens = terms.rate.burst; last_refill = now; last_seen = now }

touch-InStep :
    (pool : Pool) (key : Bytes) (found : Bucket) (now : ℕ) (terms : Terms)
    → InStep pool
    → lookup key pool.entries ≡ some found
    → InStep (touch pool key found now terms).0
unfolding touch has
touch-InStep pool key found now terms v e =
    let there : has key pool.order ≡ true = ground (arith, v.same key) in
    take_token-InStep _ key entry now terms.rate terms.rate_decision
      (rewrite-InStep pool key entry (remove_element key pool.order ++ key ∷ []) v (rw e)
        (refill-key found now terms.rate ∙ v.keyed key found e)
        (Distinct-push key (remove_element key pool.order)
          (Distinct-remove_element key pool.order v.distinct_order)
          (ground
            (arith, has-remove_element key key pool.order v.distinct_order, bytes_eq_refl key)))
        (λ j. ground (
          arith,
          there,
          has-append j (remove_element key pool.order) (key ∷ []),
          has-remove_element key j pool.order v.distinct_order,
          bytes_eq_iff key j,
        ))
        (omega (
          arith,
          length-append (remove_element key pool.order) (key ∷ []),
          length-remove_element key pool.order there,
        )))
      (ground (arith, lookup-insert key key entry pool.entries, bytes_eq_refl key))
  where
    refilled : Bucket
    refilled = refill found now terms.rate

    entry : Bucket
    entry = record refilled { last_seen = monotonic_maximum refilled.last_seen now }

-- `admit` keeps the map and the list in step and the number of buckets within the maximum.
pub admit-InStep :
    (pool : Pool) (key : Bytes) (now : ℕ) (terms : Terms)
    → InStep pool
    → InStep (admit pool key now terms).0
unfolding admit
admit-InStep pool key now terms v = elim (Option-cases (lookup key cleaned.entries)) [
  | inl absent ↦ rw (absent, admit) (create-InStep cleaned key now terms kept absent)
  | inr (entry, found) ↦ rw (found, admit) (touch-InStep cleaned key entry now terms kept found)
]
  where
    cleaned : Pool
    cleaned = cleanup pool now terms.idle_ttl terms.cleanup_limit

    kept : InStep cleaned
    kept = cleanup-InStep pool now terms.idle_ttl terms.cleanup_limit v

cleanup-maximum :
    (pool : Pool) (now idle_ttl limit : ℕ)
    → (cleanup pool now idle_ttl limit).maximum ≡ pool.maximum
cleanup-maximum pool now idle_ttl limit =
    cleanup_keeps (λ p. p.maximum ≡ pool.maximum) now idle_ttl (λ p q h c. ground (arith, c.shrunk))
      limit pool refl

-- The maximum of a pool never changes.
pub admit-maximum :
    (pool : Pool) (key : Bytes) (now : ℕ) (terms : Terms)
    → (admit pool key now terms).0.maximum ≡ pool.maximum
unfolding admit create touch take_token
admit-maximum pool key now terms =
    ground (arith, cleanup-maximum pool now terms.idle_ttl terms.cleanup_limit)
