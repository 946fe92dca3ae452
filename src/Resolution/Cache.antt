-- ===== src/Resolution/Cache.antt =====
-- internal/actorresolver/cache.go: the cache of resolved keys. A call takes the mutex twice, so it is two steps,
-- with the fetch of the key between them. The map and the list share the entries: an element of `order` holds
-- the key ID of its entry in place of the pointer.
pub mod Kept
pub mod Steps
pub mod Backed
pub mod Fresh
pub mod Again
use activity_relay_directory.Prelude.{
  ℕ, ◌+◌, ◌*◌, ◌^◌, ◌%◌, Bool, true, false, not, ◌&&◌, ◌||◌, Option, none, some, List, [], ◌∷◌,
  ◌++◌, ltb, leb, ◌==◌, if◌then◌else◌, Bytes, bytes_eq, length, lookup, insert, delete,
  remove_element,
}

pub record PublicKey : Type 0 where
  pub modulus : Option ℕ
  pub exponent : ℕ

pub record ResolvedKey : Type 0 where
  pub key_id : Bytes
  pub owner : Bytes
  pub actor_id : Bytes
  pub public_key : Option PublicKey

pub record CacheConfig : Type 0 where
  pub max_entries : ℕ
  pub ttl : ℕ

pub record Entry : Type 0 where
  pub key_id : Bytes
  pub resolved : ResolvedKey
  pub expires : ℕ

pub record Cache : Type 0 where
  pub config : CacheConfig
  pub entries : List (Bytes × Entry)
  pub order : List Bytes
  pub last_now : ℕ

pub data ResolveError : Type 0 where
  key_id_error actor_fetch actor_document public_key_error : ResolveError

abbrev pub maximum_cache_entries : ℕ
maximum_cache_entries = 100000

-- Five minutes in nanoseconds.
abbrev pub maximum_cache_ttl : ℕ
maximum_cache_ttl = 5 * 60 * 10 ^ 9

-- `newCachedResolver` with a resolver and a clock.
unfoldable pub new_cached_resolver : CacheConfig → Option Cache
new_cached_resolver config =
    if ltb config.max_entries 1
      || ltb maximum_cache_entries config.max_entries
      || config.ttl == 0
      || ltb maximum_cache_ttl config.ttl
    then none
    else some (record { config = config; entries = []; order = []; last_now = 0 })

-- The clock reads `now`. Time never runs back.
unfoldable pub current_time_locked : Cache → ℕ → Cache
current_time_locked cache now =
    if ltb now cache.last_now then cache else record cache { last_now = now }

unfoldable pub remove_locked : Cache → Bytes → Cache
remove_locked cache key_id = record cache {
  entries = delete key_id cache.entries;
  order = remove_element key_id cache.order;
}

unfoldable pub move_to_back : Cache → Bytes → Cache
move_to_back cache key_id = record cache {
  order = remove_element key_id cache.order ++ key_id ∷ [];
}

unfoldable pub looked : Cache → Option Entry → Cache × Option ResolvedKey
looked cache none = (cache, none)
looked cache (some entry) =
    if ltb cache.last_now entry.expires
    then (move_to_back cache entry.key_id, some entry.resolved)
    else (remove_locked cache entry.key_id, none)

-- Under the mutex: the entry of a key that is not expired. A copy of a value is the value.
unfoldable pub look : Cache → Bytes → Cache × Option ResolvedKey
look cache key_id = looked cache (lookup key_id cache.entries)

-- The bounds on `BitLen`, as bounds on the number.
abbrev pub valid_modulus : Option ℕ → Bool
valid_modulus none = false
valid_modulus (some n) = leb (2 ^ 2047) n && ltb n (2 ^ 8192)

abbrev pub valid_public_key : Option PublicKey → Bool
valid_public_key none = false
valid_public_key (some key) =
    valid_modulus key.modulus && not (ltb key.exponent 3) && not (key.exponent % 2 == 0)

-- `none` for no error.
unfoldable pub validate_cache_result : ResolvedKey → Bytes → Bytes → Option ResolveError
validate_cache_result resolved key_id actor_url =
    if not (bytes_eq resolved.key_id key_id)
      || not (bytes_eq resolved.owner actor_url)
      || not (bytes_eq resolved.actor_id actor_url)
    then some actor_document
    else if not (valid_public_key resolved.public_key)
    then some public_key_error
    else none

abbrev pub without_oldest : Cache → List Bytes → Cache
without_oldest cache [] = cache
without_oldest cache (oldest ∷ rest) = remove_locked cache oldest

unfoldable pub evict_front : Cache → Cache
evict_front cache =
    if ltb (length cache.entries) cache.config.max_entries
    then cache
    else without_oldest cache cache.order

abbrev pub added : Cache → Bytes → ResolvedKey → Entry
added cache key_id resolved = record {
  key_id = key_id;
  resolved = resolved;
  expires = cache.last_now + cache.config.ttl;
}

unfoldable pub push_entry : Cache → Bytes → ResolvedKey → Cache
push_entry cache key_id resolved = record cache {
  entries = insert key_id (added cache key_id resolved) cache.entries;
  order = cache.order ++ key_id ∷ [];
}

-- Under the mutex again: an entry that is there by now answers in place of the fetched key.
unfoldable pub keep_resolved :
    Bytes → ResolvedKey → Cache × Option ResolvedKey → Cache × ResolvedKey
keep_resolved key_id resolved (cache, some cached) = (cache, cached)
keep_resolved key_id resolved (cache, none) =
    (push_entry (evict_front cache) key_id resolved, resolved)

-- The first step of `ResolveRFC9421Key`.
pub data Begun : Type 0 where
  refused : ResolveError → Begun
  hit : ResolvedKey → Begun
  fetching : Bytes → Begun

-- The answer of the resolver that is wrapped.
pub data Fetched : Type 0 where
  fetch_failed : ResolveError → Fetched
  fetched : ResolvedKey → Fetched

pub data Finished : Type 0 where
  failed : ResolveError → Finished
  resolved_to : ResolvedKey → Finished

abbrev pub begun : Bytes → Cache × Option ResolvedKey → Cache × Begun
begun url (cache, some cached) = (cache, hit cached)
begun url (cache, none) = (cache, fetching url)

abbrev pub finished : Cache × ResolvedKey → Cache × Finished
finished (cache, resolved) = (cache, resolved_to resolved)

unfoldable pub begin_at : Cache → Bytes → ℕ → Option Bytes → Cache × Begun
begin_at cache key_id now none = (cache, refused key_id_error)
begin_at cache key_id now (some url) = begun url (look (current_time_locked cache now) key_id)

-- The argument is `actorURLFromKeyID`, the test of the resolver.
unfoldable pub begin : (Bytes → Option Bytes) → Cache → Bool → Bytes → ℕ → Cache × Begun
begin actor_url cache is_canceled key_id now =
    if is_canceled
    then (cache, refused actor_fetch)
    else begin_at cache key_id now (actor_url key_id)

unfoldable pub finish_at : Cache → Bytes → ResolvedKey → ℕ → Option ResolveError → Cache × Finished
finish_at cache key_id resolved now (some e) = (cache, failed e)
finish_at cache key_id resolved now none =
    finished (keep_resolved key_id resolved (look (current_time_locked cache now) key_id))

-- The step after the fetch.
unfoldable pub finish : Cache → Bytes → Bytes → Fetched → Bool → ℕ → Cache × Finished
finish cache key_id url (fetch_failed e) is_canceled now = (cache, failed e)
finish cache key_id url (fetched resolved) is_canceled now =
    if is_canceled
    then (cache, failed actor_fetch)
    else finish_at cache key_id resolved now (validate_cache_result resolved key_id url)

-- A step of some call, of the many that may be under way.
pub data Step : Type 0 where
  begins : Bool → Bytes → ℕ → Step
  finishes : Bytes → Bytes → Fetched → Bool → ℕ → Step

unfoldable pub step : (Bytes → Option Bytes) → Cache → Step → Cache
step actor_url cache (begins is_canceled key_id now) =
    (begin actor_url cache is_canceled key_id now).0
step actor_url cache (finishes key_id url answer is_canceled now) =
    (finish cache key_id url answer is_canceled now).0

unfoldable pub run : (Bytes → Option Bytes) → Cache → List Step → Cache
run actor_url cache [] = cache
run actor_url cache (s ∷ steps) = run actor_url (step actor_url cache s) steps
