-- ===== src/Resolution/Cache/Fresh.antt =====
-- internal/actorresolver/cache.go: where a cached answer comes from.
use activity_relay_directory.Prelude.{
  ℕ, ◌+◌, ◌<◌, ◌≡◌, refl, subst, Bool, true, false, Option, none, some, List, [], ◌∷◌, ◌++◌, arith,
  Bytes, lookup,
}
use activity_relay_directory.Resolution.Cache.{
  ResolvedKey, Entry, CacheConfig, Cache, new_cached_resolver, current_time_locked, look, looked,
  validate_cache_result, evict_front, keep_resolved, hit, begun, begin_at, finish_at, ResolveError,
  begin, fetch_failed, fetched, finish, Step, begins, finishes, step,
}
use activity_relay_directory.Resolution.Cache.Steps.{begun-state}
use activity_relay_directory.Resolution.Cache.Backed.{
  Fetch, note_kept, note_finish, note_step, History, serve_all, served, Noted, Backed, Fewer-Backed,
  current_time_locked-Fewer, looked-Fewer, evict_front-Fewer, evict_front-time, push_entry-Backed,
}

keep_resolved-Backed :
    (ttl : ℕ) (cache : Cache) (k : Bytes) (resolved : ResolvedKey) (found : Option ResolvedKey)
    (fetches : List Fetch)
    → Backed ttl cache fetches
    → Backed ttl
        (keep_resolved k resolved (cache, found)).0
        (note_kept k resolved (cache, found) ++ fetches)
unfolding keep_resolved
keep_resolved-Backed ttl cache k resolved (some cached) fetches b = b
keep_resolved-Backed ttl cache k resolved none fetches b =
    push_entry-Backed ttl (evict_front cache) k resolved cache.last_now fetches
      (evict_front-time cache)
      (Fewer-Backed ttl cache (evict_front cache) fetches (evict_front-Fewer cache) b)

look-Backed :
    (ttl : ℕ) (cache : Cache) (k : Bytes) (now : ℕ) (fetches : List Fetch)
    → Backed ttl cache fetches
    → Backed ttl (look (current_time_locked cache now) k).0 fetches
unfolding look
look-Backed ttl cache k now fetches b =
    Fewer-Backed ttl (current_time_locked cache now) _ fetches
      (looked-Fewer (current_time_locked cache now) _)
      (Fewer-Backed ttl cache (current_time_locked cache now) fetches
        (current_time_locked-Fewer cache now) b)

begin_at-Backed :
    (ttl : ℕ) (cache : Cache) (k : Bytes) (now : ℕ) (url : Option Bytes) (fetches : List Fetch)
    → Backed ttl cache fetches
    → Backed ttl (begin_at cache k now url).0 fetches
unfolding begin_at
begin_at-Backed ttl cache k now none fetches b = b
begin_at-Backed ttl cache k now (some url) fetches b =
    rw (begun-state url (look (current_time_locked cache now) k))
      (look-Backed ttl cache k now fetches b)

finish_at-Backed :
    (ttl : ℕ) (cache : Cache) (k : Bytes) (resolved : ResolvedKey) (now : ℕ)
    (verdict : Option ResolveError) (fetches : List Fetch)
    → Backed ttl cache fetches
    → Backed ttl
        (finish_at cache k resolved now verdict).0
        (note_finish cache k resolved now verdict ++ fetches)
unfolding finish_at
finish_at-Backed ttl cache k resolved now (some e) fetches b = b
finish_at-Backed ttl cache k resolved now none fetches b =
    keep_resolved-Backed ttl (look (current_time_locked cache now) k).0 k resolved
      (look (current_time_locked cache now) k).1 fetches (look-Backed ttl cache k now fetches b)

step-Backed :
    (actor_url : Bytes → Option Bytes) (ttl : ℕ) (cache : Cache) (s : Step) (fetches : List Fetch)
    → Backed ttl cache fetches
    → Backed ttl (step actor_url cache s) (note_step cache s ++ fetches)
unfolding step begin finish
step-Backed actor_url ttl cache (begins true k now) fetches b = b
step-Backed actor_url ttl cache (begins false k now) fetches b =
    begin_at-Backed ttl cache k now (actor_url k) fetches b
step-Backed actor_url ttl cache (finishes k url (fetch_failed e) c now) fetches b = b
step-Backed actor_url ttl cache (finishes k url (fetched resolved) true now) fetches b = b
step-Backed actor_url ttl cache (finishes k url (fetched resolved) false now) fetches b =
    finish_at-Backed ttl cache k resolved now (validate_cache_result resolved k url) fetches b

serve_all-Backed :
    (actor_url : Bytes → Option Bytes) (ttl : ℕ) (history : History) (steps : List Step)
    → Backed ttl history.cache history.fetches
    → Backed ttl
        (serve_all actor_url history steps).cache
        (serve_all actor_url history steps).fetches
unfolding serve_all
serve_all-Backed actor_url ttl history [] b = b
serve_all-Backed actor_url ttl history (s ∷ steps) b =
    serve_all-Backed actor_url ttl
      (record {
        cache = step actor_url history.cache s;
        fetches = note_step history.cache s ++ history.fetches;
      })
      steps (step-Backed actor_url ttl history.cache s history.fetches b)

new_cached_resolver-Backed :
    (config : CacheConfig) (cache : Cache)
    → new_cached_resolver config ≡ some cache
    → Backed config.ttl cache []
unfolding new_cached_resolver lookup
new_cached_resolver-Backed config cache e =
    rw (← fresh) (record { same_ttl = refl; backed = λ k entry h. cc })
  where
    fresh : record { config = config; entries = []; order = []; last_now = 0 } ≡ cache
    fresh = ground arith

pub looked-hit :
    (cache : Cache) (found : Option Entry) (answer : ResolvedKey)
    → (looked cache found).1 ≡ some answer
    → (entry : Entry) × (found ≡ some entry)
      × (entry.resolved ≡ answer)
      × (cache.last_now < entry.expires)
unfolding looked
looked-hit cache none answer h = absurd (ground arith)
looked-hit cache (some entry) answer h = (entry, refl, ground arith, ground arith)

begun-hit :
    (url : Bytes) (taken : Cache × Option ResolvedKey) (answer : ResolvedKey)
    → (begun url taken).1 ≡ hit answer
    → taken.1 ≡ some answer
begun-hit url (cache, none) answer h = absurd (ground arith)
begun-hit url (cache, some cached) answer h = ground arith

begin_at-hit :
    (ttl : ℕ) (cache : Cache) (k : Bytes) (now : ℕ) (url : Option Bytes) (answer : ResolvedKey)
    (fetches : List Fetch)
    → Backed ttl cache fetches
    → (begin_at cache k now url).1 ≡ hit answer
    → (at : ℕ) × Noted (record { key_id = k; resolved = answer; at = at }) fetches
      × ((current_time_locked cache now).last_now < at + ttl)
unfolding begin_at look
begin_at-hit ttl cache k now none answer fetches b h = absurd (ground arith)
begin_at-hit ttl cache k now (some url) answer fetches b h =
    let (entry, found, same, early) =
      looked-hit (current_time_locked cache now) (lookup k (current_time_locked cache now).entries)
        answer (begun-hit url (look (current_time_locked cache now) k) answer h) in
    let (at, noted, ends) =
      (Fewer-Backed ttl cache (current_time_locked cache now) fetches
          (current_time_locked-Fewer cache now) b).backed
        k entry found in
    (
      at,
      subst (λ r. Noted (record { key_id = k; resolved = r; at = at }) fetches) same noted,
      rw (← ends) early,
    )

-- A call that is answered from the cache, after any steps of any calls from a new cache, gets a key that was put
-- in the cache for the same key ID, less than the lifetime before by the time of the cache.
pub begin-fresh :
    (actor_url : Bytes → Option Bytes) (config : CacheConfig) (cache : Cache) (steps : List Step)
    (k : Bytes) (is_canceled : Bool) (now : ℕ) (answer : ResolvedKey)
    → new_cached_resolver config ≡ some cache
    → (begin actor_url (served actor_url cache steps).cache is_canceled k now).1 ≡ hit answer
    → (at : ℕ) × Noted
        (record { key_id = k; resolved = answer; at = at })
        (served actor_url cache steps).fetches
      × ((current_time_locked (served actor_url cache steps).cache now).last_now < at + config.ttl)
unfolding begin
begin-fresh actor_url config cache steps k true now answer e h = absurd (ground arith)
begin-fresh actor_url config cache steps k false now answer e h =
    begin_at-hit config.ttl (served actor_url cache steps).cache k now (actor_url k) answer
      (served actor_url cache steps).fetches
      (serve_all-Backed actor_url config.ttl (record { cache = cache; fetches = [] }) steps
        (new_cached_resolver-Backed config cache e))
      h
