-- ===== src/Resolution/Examples.antt =====
-- The properties of internal/actorresolver/cache.go at concrete inputs: a cache of one entry.
use activity_relay_directory.Resolution.Cache.{begin_at}
use activity_relay_directory.Resolution.Cache.{look}
use activity_relay_directory.Resolution.Cache.{looked}
use activity_relay_directory.Resolution.Cache.{current_time_locked}
use activity_relay_directory.Resolution.Cache.Backed.{serve_all}
use activity_relay_directory.Resolution.Cache.{step}
use activity_relay_directory.Resolution.Cache.{finish_at}
use activity_relay_directory.Resolution.Cache.{keep_resolved}
use activity_relay_directory.Resolution.Cache.{push_entry}
use activity_relay_directory.Resolution.Cache.{evict_front}
use activity_relay_directory.Resolution.Cache.{remove_locked}
use activity_relay_directory.Resolution.Cache.{move_to_back}
use activity_relay_directory.Resolution.Cache.{validate_cache_result}
use activity_relay_directory.Prelude.{delete}
use activity_relay_directory.Prelude.{remove_element}
use activity_relay_directory.Prelude.{
  ℕ, ◌+◌, ◌^◌, ◌≤◌, ◌<◌, ◌≡◌, refl, false, some, List, [], ◌∷◌, ◌++◌, arith, Bytes, Option, codes,
  lookup, insert, bytes_eq,
}
use activity_relay_directory.Resolution.Cache.{
  ResolvedKey, CacheConfig, Cache, new_cached_resolver, fetched, resolved_to, hit, begin, finish,
  Step, begins, finishes, run,
}
use activity_relay_directory.Resolution.Cache.Kept.{Kept}
use activity_relay_directory.Resolution.Cache.Steps.{run-new_cached_resolver-Kept}
use activity_relay_directory.Resolution.Cache.Fresh.{begin-fresh}
use activity_relay_directory.Resolution.Cache.Backed.{Noted, served}
use activity_relay_directory.Resolution.Cache.Again.{finish-begin}

abbrev url : Bytes
url = codes "https://relay.example/actor"

abbrev key_id : Bytes
key_id = url ++ codes "#main-key"

abbrev actor_url : Bytes → Option Bytes
actor_url k = some url

abbrev key : ResolvedKey
key = record {
  key_id = key_id;
  owner = url;
  actor_id = url;
  public_key = some (record { modulus = some (2 ^ 2047 + 1); exponent = 65537 });
}

abbrev config : CacheConfig
config = record { max_entries = 1; ttl = 1000 }

abbrev cache : Cache
cache = record { config = config; entries = []; order = []; last_now = 0 }

cache_made : new_cached_resolver config ≡ some cache
unfolding new_cached_resolver
cache_made = refl

abbrev steps : List Step
steps =
    begins false key_id 100
    ∷ finishes key_id url (fetched key) false 200
    ∷ begins false key_id 150
    ∷ []

run-new_cached_resolver-Kept_example : Kept (run actor_url cache steps)
run-new_cached_resolver-Kept_example =
    run-new_cached_resolver-Kept actor_url config cache steps cache_made

key_hit : (begin actor_url (served actor_url cache steps).cache false key_id 900).1 ≡ hit key
unfolding begin begin_at look looked current_time_locked serve_all step finish finish_at
    keep_resolved push_entry evict_front remove_locked move_to_back validate_cache_result lookup
    insert delete remove_element bytes_eq
key_hit = refl

begin-fresh_example :
    (at : ℕ) × Noted
      (record { key_id = key_id; resolved = key; at = at })
      (served actor_url cache steps).fetches
    × ((current_time_locked (served actor_url cache steps).cache 900).last_now < at + 1000)
begin-fresh_example =
    begin-fresh actor_url config cache steps key_id false 900 key cache_made key_hit

key_resolved : (finish cache key_id url (fetched key) false 200).1 ≡ resolved_to key
unfolding look looked current_time_locked finish finish_at keep_resolved push_entry evict_front
    remove_locked move_to_back validate_cache_result lookup insert delete remove_element bytes_eq
key_resolved = refl

not_later : 200 ≤ (finish cache key_id url (fetched key) false 200).0.last_now
unfolding look looked current_time_locked finish finish_at keep_resolved push_entry evict_front
    remove_locked move_to_back validate_cache_result lookup insert delete remove_element bytes_eq
not_later = omega arith

finish-begin_example :
    (begin actor_url (finish cache key_id url (fetched key) false 200).0 false key_id 200).1
    ≡ hit key
finish-begin_example =
    finish-begin actor_url cache key_id url (fetched key) false 200 200 key (omega arith) refl
      key_resolved not_later
