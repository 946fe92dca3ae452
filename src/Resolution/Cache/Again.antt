-- ===== src/Resolution/Cache/Again.antt =====
-- internal/actorresolver/cache.go: a key that was resolved answers again, and a failure leaves the cache as it was.
use activity_relay_directory.Prelude.{
  ℕ, ◌≤◌, ◌<◌, ◌≡◌, refl, subst, ◌∙◌, Bool, true, false, Option, none, some, arith, Bool-cases, inl,
  inr, ltb, Bytes, bytes_eq_iff, lookup, lookup-insert,
}
use activity_relay_directory.Resolution.Cache.{
  ResolvedKey, Entry, Cache, current_time_locked, move_to_back, look, looked, added, push_entry,
  evict_front, keep_resolved, ResolveError, hit, begun, begin_at, begin, Fetched, fetch_failed,
  fetched, resolved_to, finished, finish_at, finish, validate_cache_result,
}
use activity_relay_directory.Resolution.Cache.Steps.{evict_front-config}
use activity_relay_directory.Resolution.Cache.Fresh.{looked-hit}
use activity_relay_directory.Resolution.Cache.Backed.{looked-Fewer, current_time_locked-Fewer}

-- The cache holds the answer for the key, and it has not expired.
record Holds (cache : Cache) (k : Bytes) (answer : ResolvedKey) : Type 0 where
  entry : Entry
  found : lookup k cache.entries ≡ some entry
  same : entry.resolved ≡ answer
  early : cache.last_now < entry.expires

move_to_back-looked :
    (cache : Cache) (entry : Entry)
    → cache.last_now < entry.expires
    → (looked cache (some entry)).0 ≡ move_to_back cache entry.key_id
unfolding looked
move_to_back-looked cache entry h = ground arith

keep_resolved-Holds :
    (k : Bytes) (resolved : ResolvedKey) (taken : Cache × Option ResolvedKey)
    → ((answer : ResolvedKey) → taken.1 ≡ some answer → Holds taken.0 k answer)
    → 1 ≤ taken.0.config.ttl
    → Holds (keep_resolved k resolved taken).0 k (keep_resolved k resolved taken).1
unfolding keep_resolved push_entry
keep_resolved-Holds k resolved (cache, some cached) h t = h cached refl
keep_resolved-Holds k resolved (cache, none) h t = record {
  entry = added (evict_front cache) k resolved;
  found = ground (
    arith,
    bytes_eq_iff k k,
    lookup-insert k k (added (evict_front cache) k resolved) (evict_front cache).entries,
  );
  same = refl;
  early = ground (arith, evict_front-config cache);
}

look-Holds :
    (cache : Cache) (k : Bytes) (answer : ResolvedKey)
    → (look cache k).1 ≡ some answer
    → Holds (look cache k).0 k answer
unfolding look move_to_back
look-Holds cache k answer h =
    let (entry, found, same, early) = looked-hit cache (lookup k cache.entries) answer h in
    rw (found, move_to_back-looked cache entry early)
      (record { entry = entry; found = found; same = same; early = early })

current_time_locked-again :
    (cache : Cache) (now : ℕ) → now ≤ cache.last_now → current_time_locked cache now ≡ cache
unfolding current_time_locked
current_time_locked-again cache now h = elim (Bool-cases (ltb now cache.last_now)) [
  | inl past ↦ rw past refl
  | inr later ↦ let same : now ≡ cache.last_now = ground arith in rw (later, same) refl
]

Holds-hit :
    (cache : Cache) (k url : Bytes) (answer : ResolvedKey)
    → Holds cache k answer
    → (begun url (look cache k)).1 ≡ hit answer
unfolding look looked
Holds-hit cache k url answer h =
    let early : ltb cache.last_now h.entry.expires ≡ true = ground (arith, h.early) in
    rw (h.found, early, h.same) refl

look-config :
    (cache : Cache) (k : Bytes) (now : ℕ)
    → (look (current_time_locked cache now) k).0.config ≡ cache.config
unfolding look
look-config cache k now =
    (looked-Fewer (current_time_locked cache now)
      (lookup k (current_time_locked cache now).entries)).same
    ∙ (current_time_locked-Fewer cache now).same

finished-Holds :
    (k : Bytes) (kept : Cache × ResolvedKey) (resolved : ResolvedKey)
    → Holds kept.0 k kept.1
    → (finished kept).1 ≡ resolved_to resolved
    → Holds (finished kept).0 k resolved
finished-Holds k (cache, answer) resolved h e =
    let same : answer ≡ resolved = ground arith in subst (λ r. Holds cache k r) same h

finish_at-Holds :
    (cache : Cache) (k : Bytes) (answer : ResolvedKey) (now : ℕ) (verdict : Option ResolveError)
    (resolved : ResolvedKey)
    → 1 ≤ cache.config.ttl
    → (finish_at cache k answer now verdict).1 ≡ resolved_to resolved
    → Holds (finish_at cache k answer now verdict).0 k resolved
unfolding finish_at
finish_at-Holds cache k answer now (some e) resolved t h = absurd (ground arith)
finish_at-Holds cache k answer now none resolved t h =
    finished-Holds k (keep_resolved k answer (look (current_time_locked cache now) k)) resolved
      (keep_resolved-Holds k answer (look (current_time_locked cache now) k)
        (λ cached e. look-Holds (current_time_locked cache now) k cached e)
        (ground (arith, look-config cache k now)))
      h

finish-Holds :
    (cache : Cache) (k url : Bytes) (answer : Fetched) (is_canceled : Bool) (now : ℕ)
    (resolved : ResolvedKey)
    → 1 ≤ cache.config.ttl
    → (finish cache k url answer is_canceled now).1 ≡ resolved_to resolved
    → Holds (finish cache k url answer is_canceled now).0 k resolved
unfolding finish
finish-Holds cache k url (fetch_failed e) c now resolved t h = absurd (ground arith)
finish-Holds cache k url (fetched key) true now resolved t h = absurd (ground arith)
finish-Holds cache k url (fetched key) false now resolved t h =
    finish_at-Holds cache k key now (validate_cache_result key k url) resolved t h

Holds-begin :
    (actor_url : Bytes → Option Bytes) (cache : Cache) (k url : Bytes) (again : ℕ)
    (resolved : ResolvedKey)
    → actor_url k ≡ some url
    → again ≤ cache.last_now
    → Holds cache k resolved
    → (begin actor_url cache false k again).1 ≡ hit resolved
unfolding begin begin_at
Holds-begin actor_url cache k url again resolved u a h =
    rw (u, begin_at, current_time_locked-again cache again a) (Holds-hit cache k url resolved h)

-- Where the lifetime is positive and a call resolved a key without an error, the same key ID is answered the
-- same from the cache, until its clock moves on.
pub finish-begin :
    (actor_url : Bytes → Option Bytes) (cache : Cache) (k url : Bytes) (answer : Fetched)
    (is_canceled : Bool) (now again : ℕ) (resolved : ResolvedKey)
    → 1 ≤ cache.config.ttl
    → actor_url k ≡ some url
    → (finish cache k url answer is_canceled now).1 ≡ resolved_to resolved
    → again ≤ (finish cache k url answer is_canceled now).0.last_now
    → (begin actor_url (finish cache k url answer is_canceled now).0 false k again).1 ≡ hit resolved
finish-begin actor_url cache k url answer is_canceled now again resolved t u h a =
    Holds-begin actor_url (finish cache k url answer is_canceled now).0 k url again resolved u a
      (finish-Holds cache k url answer is_canceled now resolved t h)
