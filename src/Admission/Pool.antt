-- ===== src/Admission/Pool.antt =====
-- internal/admission/limiter.go: the pool of buckets. The map and the list share the buckets: a bucket
-- is found in `entries`, and an element of `order` holds the bucket's key in place of the pointer.
pub mod Invariant
pub mod Requests
pub mod Worth
pub mod Payment
pub mod Schedule
use activity_relay_directory.Prelude.{
  ℕ, zero, suc, ◌-◌, ◌≡◌, Bool, ◌||◌, Option, none, some, List, [], ◌∷◌, ◌++◌, ltb, leb,
  if◌then◌else◌, Bytes, length, lookup, insert, delete, remove_element,
}
use activity_relay_directory.Admission.Config.{Rate}
use activity_relay_directory.Admission.Bucket.{
  Bucket, before, time_sub, refill, retry_after, monotonic_maximum,
}

pub data Decision : Type 0 where
  allowed source_rate_limited actor_rate_limited concurrency_limited capacity_limited : Decision
  canceled invalid : Decision

pub record Result : Type 0 where
  pub decision : Decision
  pub retry_after : ℕ

unfoldable pub is_allowed : Result → Bool
is_allowed result = elim result.decision [ allowed ↦ Bool.true | _ ↦ Bool.false ]

pub record Pool : Type 0 where
  pub entries : List (Bytes × Bucket)
  pub order : List Bytes
  pub maximum : ℕ

unfoldable pub new_bucket_pool : ℕ → Pool
new_bucket_pool maximum = record { entries = []; order = []; maximum = maximum }

-- One round of `cleanup`: `none` where the source returns. An element always finds its bucket.
unfoldable pub evict_oldest : Pool → ℕ → ℕ → Option Pool
evict_oldest pool now idle_ttl = elim pool.order [
  | [] ↦ none
  | oldest ∷ rest ↦ elim (lookup oldest pool.entries) [
    | none ↦ none
    | some entry ↦
        if before now entry.last_seen || ltb (time_sub now entry.last_seen) idle_ttl
        then none
        else some (record pool { entries = delete entry.key pool.entries; order = rest })
  ]
]

-- The last argument counts the rounds that are left of `limit`.
unfoldable pub cleanup : Pool → ℕ → ℕ → ℕ → Pool
unfolding evict_oldest
cleanup pool now idle_ttl zero = pool
cleanup pool now idle_ttl (suc limit) = elim (evict_oldest pool now idle_ttl) [
  | none ↦ pool
  | some smaller ↦ cleanup smaller now idle_ttl limit
]

-- The end of `admit`: the bucket that was found or made gives a token away or refuses.
unfoldable pub take_token : Pool → Bytes → Bucket → ℕ → Rate → Decision → Pool × Result
take_token pool key entry now rate rate_decision =
    if ltb entry.tokens 1
    then (
      pool,
      record { decision = rate_decision; retry_after = retry_after entry now rate.refill_interval },
    )
    else (
      record pool {
        entries = insert key (record entry { tokens = entry.tokens - 1 }) pool.entries;
      },
      record { decision = allowed; retry_after = 0 },
    )

-- What `admit` is told of the configuration.
pub record Terms : Type 0 where
  pub rate : Rate
  pub idle_ttl : ℕ
  pub cleanup_limit : ℕ
  pub rate_decision : Decision
  pub overload_retry_after : ℕ

unfoldable pub create : Pool → Bytes → ℕ → Terms → Pool × Result
unfolding take_token
create pool key now terms =
    if leb pool.maximum (length pool.entries)
    then (pool, record { decision = capacity_limited; retry_after = terms.overload_retry_after })
    else let entry : Bucket = record {
      key = key;
      tokens = terms.rate.burst;
      last_refill = now;
      last_seen = now;
    } in
      take_token
        (record pool { entries = insert key entry pool.entries; order = pool.order ++ key ∷ [] })
        key entry now terms.rate terms.rate_decision

-- `refill`, the newest sight and `MoveToBack`.
unfoldable pub touch : Pool → Bytes → Bucket → ℕ → Terms → Pool × Result
unfolding take_token
touch pool key found now terms =
    let refilled = refill found now terms.rate in
    let entry : Bucket = record refilled { last_seen = monotonic_maximum refilled.last_seen now } in
    take_token
      (record pool {
        entries = insert key entry pool.entries;
        order = remove_element key pool.order ++ key ∷ [];
      })
      key entry now terms.rate terms.rate_decision

unfoldable pub admit : Pool → Bytes → ℕ → Terms → Pool × Result
unfolding create touch
admit pool key now terms =
    let cleaned = cleanup pool now terms.idle_ttl terms.cleanup_limit in
    elim (lookup key cleaned.entries) [
      | none ↦ create cleaned key now terms
      | some entry ↦ touch cleaned key entry now terms
    ]
