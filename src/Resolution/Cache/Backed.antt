-- ===== src/Resolution/Cache/Backed.antt =====
-- internal/actorresolver/cache.go: where a cached answer comes from, by a history of what was put in the cache.
use activity_relay_directory.Prelude.{
  ℕ, ◌+◌, ◌≡◌, ◌⊎◌, refl, ap, ◌∙◌, length, true, false, Option, none, some, List, [], ◌∷◌, ◌++◌,
  arith, Bool-cases, inl, inr, ltb, Bytes, bytes_eq, bytes_eq_iff, lookup, lookup-insert,
  lookup-delete,
}
use activity_relay_directory.Resolution.Cache.{
  ResolvedKey, Entry, Cache, current_time_locked, remove_locked, move_to_back, look, looked, added,
  without_oldest, validate_cache_result, evict_front, push_entry, ResolveError, fetch_failed,
  fetched, Step, begins, finishes, step,
}

-- A validated key that was put in the cache, and the time of the cache then.
pub record Fetch : Type 0 where
  pub key_id : Bytes
  pub resolved : ResolvedKey
  pub at : ℕ

abbrev pub note_kept : Bytes → ResolvedKey → Cache × Option ResolvedKey → List Fetch
note_kept key_id resolved (cache, some cached) = []
note_kept key_id resolved (cache, none) =
    record { key_id = key_id; resolved = resolved; at = cache.last_now } ∷ []

abbrev pub note_finish : Cache → Bytes → ResolvedKey → ℕ → Option ResolveError → List Fetch
note_finish cache key_id resolved now (some e) = []
note_finish cache key_id resolved now none =
    note_kept key_id resolved (look (current_time_locked cache now) key_id)

-- What a step puts in the cache.
abbrev pub note_step : Cache → Step → List Fetch
note_step cache (begins c key_id now) = []
note_step cache (finishes key_id url (fetch_failed e) c now) = []
note_step cache (finishes key_id url (fetched resolved) true now) = []
note_step cache (finishes key_id url (fetched resolved) false now) =
    note_finish cache key_id resolved now (validate_cache_result resolved key_id url)

pub record History : Type 0 where
  pub cache : Cache
  pub fetches : List Fetch

unfoldable pub serve_all : (Bytes → Option Bytes) → History → List Step → History
serve_all actor_url history [] = history
serve_all actor_url history (s ∷ steps) =
    serve_all actor_url
      (record {
        cache = step actor_url history.cache s;
        fetches = note_step history.cache s ++ history.fetches;
      })
      steps

-- What steps make of a cache with an empty history.
abbrev pub served : (Bytes → Option Bytes) → Cache → List Step → History
served actor_url cache steps = serve_all actor_url (record { cache = cache; fetches = [] }) steps

abbrev pub Noted : Fetch → List Fetch → Type 0
Noted fetch [] = ⊥
Noted fetch (first ∷ fetches) = (first ≡ fetch) ⊎ Noted fetch fetches

Noted-append : (fetch : Fetch) (new old : List Fetch) → Noted fetch old → Noted fetch (new ++ old)
Noted-append fetch [] old h = h
Noted-append fetch (first ∷ new) old h = inr (Noted-append fetch new old h)

-- Every entry was put in the cache, and expires the lifetime after that.
pub record Backed (ttl : ℕ) (cache : Cache) (fetches : List Fetch) : Type 0 where
  pub same_ttl : cache.config.ttl ≡ ttl
  pub backed :
      (k : Bytes) (entry : Entry)
      → lookup k cache.entries ≡ some entry
      → (at : ℕ) × Noted (record { key_id = k; resolved = entry.resolved; at = at }) fetches
        × (entry.expires ≡ at + ttl)

-- A cache that lost entries at most.
pub record Fewer (cache smaller : Cache) : Type 0 where
  pub same : smaller.config ≡ cache.config
  pub still :
      (k : Bytes) (entry : Entry)
      → lookup k smaller.entries ≡ some entry
      → lookup k cache.entries ≡ some entry

pub Fewer-Backed :
    (ttl : ℕ) (cache smaller : Cache) (fetches : List Fetch)
    → Fewer cache smaller
    → Backed ttl cache fetches
    → Backed ttl smaller fetches
Fewer-Backed ttl cache smaller fetches f b = record {
  same_ttl = ap (λ c. c.ttl) f.same ∙ b.same_ttl;
  backed = λ k entry h. b.backed k entry (f.still k entry h);
}

pub current_time_locked-Fewer :
    (cache : Cache) (now : ℕ) → Fewer cache (current_time_locked cache now)
unfolding current_time_locked
current_time_locked-Fewer cache now = record {
  same = ground arith;
  still = λ k entry h. ground arith;
}

remove_locked-Fewer : (cache : Cache) (j : Bytes) → Fewer cache (remove_locked cache j)
unfolding remove_locked
remove_locked-Fewer cache j = record {
  same = refl;
  still = λ k entry h. ground (arith, lookup-delete j k cache.entries);
}

pub looked-Fewer : (cache : Cache) (found : Option Entry) → Fewer cache (looked cache found).0
unfolding looked move_to_back
looked-Fewer cache none = record { same = refl; still = λ k entry h. h }
looked-Fewer cache (some entry) = elim (Bool-cases (ltb cache.last_now entry.expires)) [
  | inl fresh ↦ rw fresh (record { same = refl; still = λ k e h. h })
  | inr stale ↦ rw stale (remove_locked-Fewer cache entry.key_id)
]

without_oldest-Fewer :
    (cache : Cache) (order : List Bytes) → Fewer cache (without_oldest cache order)
without_oldest-Fewer cache [] = record { same = refl; still = λ k e h. h }
without_oldest-Fewer cache (oldest ∷ rest) = remove_locked-Fewer cache oldest

pub evict_front-Fewer : (cache : Cache) → Fewer cache (evict_front cache)
unfolding evict_front
evict_front-Fewer cache = elim (Bool-cases (ltb (length cache.entries) cache.config.max_entries)) [
  | inl room ↦ rw room (record { same = refl; still = λ k e h. h })
  | inr full ↦ rw full (without_oldest-Fewer cache cache.order)
]

pub evict_front-time : (cache : Cache) → (evict_front cache).last_now ≡ cache.last_now
unfolding evict_front remove_locked
evict_front-time cache = elim (Bool-cases (ltb (length cache.entries) cache.config.max_entries)) [
  | inl room ↦ rw room refl
  | inr full ↦ rw full (of_order cache.order)
]
  where
    of_order : (order : List Bytes) → (without_oldest cache order).last_now ≡ cache.last_now
    of_order [] = refl
    of_order (oldest ∷ rest) = refl

pub push_entry-Backed :
    (ttl : ℕ) (cache : Cache) (k : Bytes) (resolved : ResolvedKey) (at : ℕ) (fetches : List Fetch)
    → cache.last_now ≡ at
    → Backed ttl cache fetches
    → Backed ttl
        (push_entry cache k resolved)
        (record { key_id = k; resolved = resolved; at = at } ∷ fetches)
unfolding push_entry
push_entry-Backed ttl cache k resolved at fetches e b = record {
  same_ttl = b.same_ttl;
  backed = λ j entry h. elim (Bool-cases (bytes_eq k j)) [
    | inr apart ↦
        let (t, noted, ends) =
          b.backed j entry
            (ground (arith, lookup-insert k j (added cache k resolved) cache.entries)) in
        (t, inr noted, ends)
    | inl mine ↦
        let key : k ≡ j = (bytes_eq_iff k j).0 mine in
        let it : added cache k resolved ≡ entry =
          ground (arith, lookup-insert k j (added cache k resolved) cache.entries) in
        rw (← it, ← key) (at, inl refl, rw (e, b.same_ttl) refl)
  ];
}
