-- ===== src/Resolution/Cache/Steps.antt =====
-- internal/actorresolver/cache.go: the invariant of the cache over the steps of many calls.
use activity_relay_directory.Prelude.{
  ℕ, ◌≡◌, refl, sym, subst, true, false, Option, none, some, List, [], ◌∷◌, arith, Bytes,
  bytes_eq_iff, lookup,
}
use activity_relay_directory.Resolution.Cache.{
  ResolvedKey, CacheConfig, Cache, new_cached_resolver, current_time_locked, remove_locked, look,
  validate_cache_result, evict_front, keep_resolved, begun, begin_at, finish_at, ResolveError,
  begin, fetch_failed, fetched, finish, Step, begins, finishes, step, run,
}
use activity_relay_directory.Resolution.Cache.Kept.{
  Kept, new_cached_resolver-Kept, current_time_locked-Kept, looked-Kept, looked-absent,
  evict_front-Kept, push_entry-Kept,
}

pub evict_front-config : (cache : Cache) → (evict_front cache).config ≡ cache.config
unfolding evict_front remove_locked
evict_front-config cache = ground arith

keep_resolved-Kept :
    (cache : Cache) (k : Bytes) (resolved : ResolvedKey) (found : Option ResolvedKey)
    → Kept cache
    → (found ≡ none → lookup k cache.entries ≡ none)
    → validate_cache_result resolved k resolved.owner ≡ none
    → Kept (keep_resolved k resolved (cache, found)).0
unfolding keep_resolved
keep_resolved-Kept cache k resolved (some cached) v absent ok = v
keep_resolved-Kept cache k resolved none v absent ok =
    let (kept, room, still) = evict_front-Kept cache k v (absent refl) in
    push_entry-Kept (evict_front cache) k resolved kept
      (ground (arith, room, evict_front-config cache)) still ok

pub begun-state : (url : Bytes) (taken : Cache × Option ResolvedKey) → (begun url taken).0 ≡ taken.0
begun-state url (cache, none) = refl
begun-state url (cache, some cached) = refl

validated-owner :
    (resolved : ResolvedKey) (k url : Bytes)
    → validate_cache_result resolved k url ≡ none
    → validate_cache_result resolved k resolved.owner ≡ none
unfolding validate_cache_result
validated-owner resolved k url h =
    let same : resolved.owner ≡ url = ground (arith, bytes_eq_iff resolved.owner url) in
    subst (λ u. validate_cache_result resolved k u ≡ none) (sym same) h

begin_at-Kept :
    (cache : Cache) (k : Bytes) (now : ℕ) (url : Option Bytes)
    → Kept cache
    → Kept (begin_at cache k now url).0
unfolding begin_at look
begin_at-Kept cache k now none v = v
begin_at-Kept cache k now (some url) v =
    rw (begun-state url (look (current_time_locked cache now) k))
      (looked-Kept (current_time_locked cache now) k _ refl (current_time_locked-Kept cache now v))

finish_at-Kept :
    (cache : Cache) (k : Bytes) (resolved : ResolvedKey) (now : ℕ) (verdict : Option ResolveError)
    → Kept cache
    → (verdict ≡ none → validate_cache_result resolved k resolved.owner ≡ none)
    → Kept (finish_at cache k resolved now verdict).0
unfolding finish_at look
finish_at-Kept cache k resolved now (some e) v ok = v
finish_at-Kept cache k resolved now none v ok =
    keep_resolved-Kept (look (current_time_locked cache now) k).0 k resolved
      (look (current_time_locked cache now) k).1
      (looked-Kept (current_time_locked cache now) k _ refl (current_time_locked-Kept cache now v))
      (looked-absent (current_time_locked cache now) k _ refl
        (current_time_locked-Kept cache now v))
      (ok refl)

-- Any step keeps the invariant.
pub step-Kept :
    (actor_url : Bytes → Option Bytes) (cache : Cache) (s : Step)
    → Kept cache
    → Kept (step actor_url cache s)
unfolding step begin finish
step-Kept actor_url cache (begins true k now) v = v
step-Kept actor_url cache (begins false k now) v = begin_at-Kept cache k now (actor_url k) v
step-Kept actor_url cache (finishes k url (fetch_failed e) c now) v = v
step-Kept actor_url cache (finishes k url (fetched resolved) true now) v = v
step-Kept actor_url cache (finishes k url (fetched resolved) false now) v =
    finish_at-Kept cache k resolved now (validate_cache_result resolved k url) v
      (validated-owner resolved k url)

run-Kept :
    (actor_url : Bytes → Option Bytes) (cache : Cache) (steps : List Step)
    → Kept cache
    → Kept (run actor_url cache steps)
unfolding run
run-Kept actor_url cache [] v = v
run-Kept actor_url cache (s ∷ steps) v =
    run-Kept actor_url (step actor_url cache s) steps (step-Kept actor_url cache s v)

-- From a new cache, after any steps of any calls, however they are interleaved and whatever was fetched: the
-- map and the list hold the same keys, each once, and no more than the configuration allows; an entry is a
-- validated key of its key ID, and expires at most the lifetime after the last time.
pub run-new_cached_resolver-Kept :
    (actor_url : Bytes → Option Bytes) (config : CacheConfig) (cache : Cache) (steps : List Step)
    → new_cached_resolver config ≡ some cache
    → Kept (run actor_url cache steps)
run-new_cached_resolver-Kept actor_url config cache steps e =
    run-Kept actor_url cache steps (new_cached_resolver-Kept config cache e)
