-- ===== src/Resolution/Cache/Kept.antt =====
-- internal/actorresolver/cache.go: the invariant of the cache.
use activity_relay_directory.Prelude.{
  ℕ, suc, ◌+◌, ◌≤◌, ◌≡◌, refl, true, false, Option, none, some, is_some, List, [], ◌∷◌, arith,
  Bool-cases, inl, inr, ltb, Bytes, bytes_eq, bytes_eq_iff, length, lookup, lookup-insert,
  lookup-delete, length-insert, length-delete, keys, has, has-append, has-remove_element, Distinct,
  Distinct-insert, Distinct-delete, Distinct-push, Distinct-remove_element, remove_element,
}
use activity_relay_directory.Resolution.Cache.{
  ResolvedKey, Entry, CacheConfig, Cache, new_cached_resolver, current_time_locked, remove_locked,
  move_to_back, looked, added, without_oldest, validate_cache_result, evict_front, push_entry,
}

-- The map and the list hold the same keys, each once, and no more than the configuration allows; an entry is a
-- validated key of its key ID, and expires at most the lifetime after the last time.
pub record Kept (cache : Cache) : Type 0 where
  pub once : Distinct (keys cache.entries)
  pub once_listed : Distinct cache.order
  pub same : (k : Bytes) → has k cache.order ≡ is_some (lookup k cache.entries)
  pub bounded : length cache.entries ≤ cache.config.max_entries
  pub some_room : 1 ≤ cache.config.max_entries
  pub keyed : (k : Bytes) (entry : Entry) → lookup k cache.entries ≡ some entry → entry.key_id ≡ k
  pub valid :
      (k : Bytes) (entry : Entry)
      → lookup k cache.entries ≡ some entry
      → validate_cache_result entry.resolved k entry.resolved.owner ≡ none
  pub expiring :
      (k : Bytes) (entry : Entry)
      → lookup k cache.entries ≡ some entry
      → entry.expires ≤ cache.last_now + cache.config.ttl

pub new_cached_resolver-Kept :
    (config : CacheConfig) (cache : Cache) → new_cached_resolver config ≡ some cache → Kept cache
unfolding new_cached_resolver has lookup
new_cached_resolver-Kept config cache e =
    let (size, it) = accepted in
    rw (← it) (record {
      once = tt;
      once_listed = tt;
      same = λ k. refl;
      bounded = omega arith;
      some_room = size;
      keyed = λ k entry h. cc;
      valid = λ k entry h. cc;
      expiring = λ k entry h. cc;
    })
  where
    accepted :
        (1 ≤ config.max_entries)
        × (record { config = config; entries = []; order = []; last_now = 0 } ≡ cache)
    accepted = ground arith

pub current_time_locked-Kept :
    (cache : Cache) (now : ℕ) → Kept cache → Kept (current_time_locked cache now)
unfolding current_time_locked
current_time_locked-Kept cache now v = elim (Bool-cases (ltb now cache.last_now)) [
  | inl past ↦ rw past v
  | inr later ↦ rw later (record {
    once = v.once;
    once_listed = v.once_listed;
    same = v.same;
    bounded = v.bounded;
    some_room = v.some_room;
    keyed = v.keyed;
    valid = v.valid;
    expiring = λ k entry h. ground (arith, v.expiring k entry h);
  })
]

remove_locked-Kept : (cache : Cache) (k : Bytes) → Kept cache → Kept (remove_locked cache k)
unfolding remove_locked
remove_locked-Kept cache k v = record {
  once = Distinct-delete k cache.entries v.once;
  once_listed = Distinct-remove_element k cache.order v.once_listed;
  same = λ j. ground (
    arith,
    v.same j,
    has-remove_element k j cache.order v.once_listed,
    lookup-delete k j cache.entries,
  );
  bounded = ground (arith, v.bounded, length-delete k cache.entries v.once);
  some_room = v.some_room;
  keyed = λ j entry h. ground (arith, v.keyed j entry, lookup-delete k j cache.entries);
  valid = λ j entry h. ground (arith, v.valid j entry, lookup-delete k j cache.entries);
  expiring = λ j entry h. ground (arith, v.expiring j entry, lookup-delete k j cache.entries);
}

move_to_back-Kept :
    (cache : Cache) (k : Bytes)
    → is_some (lookup k cache.entries) ≡ true
    → Kept cache
    → Kept (move_to_back cache k)
unfolding move_to_back has
move_to_back-Kept cache k there v = record {
  once = v.once;
  once_listed =
      Distinct-push k (remove_element k cache.order)
        (Distinct-remove_element k cache.order v.once_listed)
        (ground (arith, has-remove_element k k cache.order v.once_listed, bytes_eq_iff k k));
  same = λ j. ground (
    arith,
    v.same j,
    has-append j (remove_element k cache.order) (k ∷ []),
    has-remove_element k j cache.order v.once_listed,
    bytes_eq_iff k j,
  );
  bounded = v.bounded;
  some_room = v.some_room;
  keyed = v.keyed;
  valid = v.valid;
  expiring = v.expiring;
}

pub looked-Kept :
    (cache : Cache) (k : Bytes) (found : Option Entry)
    → lookup k cache.entries ≡ found
    → Kept cache
    → Kept (looked cache found).0
unfolding looked
looked-Kept cache k none e v = v
looked-Kept cache k (some entry) e v = elim (Bool-cases (ltb cache.last_now entry.expires)) [
  | inl fresh ↦
      rw fresh (move_to_back-Kept cache entry.key_id (ground (arith, v.keyed k entry e)) v)
  | inr stale ↦ rw stale (remove_locked-Kept cache entry.key_id v)
]

-- After a look that found nothing, the map has no entry of the key.
pub looked-absent :
    (cache : Cache) (k : Bytes) (found : Option Entry)
    → lookup k cache.entries ≡ found
    → Kept cache
    → (looked cache found).1 ≡ none
    → lookup k (looked cache found).0.entries ≡ none
unfolding looked remove_locked
looked-absent cache k none e v h = e
looked-absent cache k (some entry) e v h = elim (Bool-cases (ltb cache.last_now entry.expires)) [
  | inl fresh ↦ absurd (ground arith)
  | inr stale ↦ rw stale (
      ground
        (arith, v.keyed k entry e, lookup-delete entry.key_id k cache.entries, bytes_eq_iff k k))
]

empty_entries :
    (entries : List (Bytes × Entry))
    → ((k : Bytes) → is_some (lookup k entries) ≡ false)
    → length entries ≡ 0
unfolding lookup
empty_entries [] h = refl
empty_entries ((k, entry) ∷ entries) h = absurd (ground (arith, h k, bytes_eq_iff k k))

without_oldest-Kept :
    (cache : Cache) (k : Bytes) (order : List Bytes)
    → cache.order ≡ order
    → Kept cache
    → lookup k cache.entries ≡ none
    → cache.config.max_entries ≤ length cache.entries
    → Kept (without_oldest cache order)
      × (suc (length (without_oldest cache order).entries) ≤ cache.config.max_entries)
      × (lookup k (without_oldest cache order).entries ≡ none)
unfolding remove_locked has
without_oldest-Kept cache k [] e v h full =
    let no_entries = empty_entries cache.entries (λ j. ground (arith, v.same j)) in
    absurd (omega (arith, v.some_room))
without_oldest-Kept cache k (oldest ∷ rest) e v h full = (
  remove_locked-Kept cache oldest v,
  (let there : is_some (lookup oldest cache.entries) ≡ true =
        ground (arith, v.same oldest, bytes_eq_iff oldest oldest) in
      ground (arith, v.bounded, length-delete oldest cache.entries v.once)),
  ground (arith, lookup-delete oldest k cache.entries),
)

pub evict_front-Kept :
    (cache : Cache) (k : Bytes)
    → Kept cache
    → lookup k cache.entries ≡ none
    → Kept (evict_front cache)
      × (suc (length (evict_front cache).entries) ≤ cache.config.max_entries)
      × (lookup k (evict_front cache).entries ≡ none)
unfolding evict_front remove_locked has
evict_front-Kept cache k v h =
    elim (Bool-cases (ltb (length cache.entries) cache.config.max_entries)) [
      | inl room ↦ rw room (v, ground arith, h)
      | inr full ↦ rw full (without_oldest-Kept cache k cache.order refl v h (ground arith))
    ]

pub push_entry-Kept :
    (cache : Cache) (k : Bytes) (resolved : ResolvedKey)
    → Kept cache
    → suc (length cache.entries) ≤ cache.config.max_entries
    → lookup k cache.entries ≡ none
    → validate_cache_result resolved k resolved.owner ≡ none
    → Kept (push_entry cache k resolved)
unfolding push_entry has
push_entry-Kept cache k resolved v room absent ok = record {
  once = Distinct-insert k _ cache.entries v.once;
  once_listed = Distinct-push k cache.order v.once_listed (ground (arith, v.same k));
  same = λ j. ground (
    arith,
    v.same j,
    has-append j cache.order (k ∷ []),
    lookup-insert k j (added cache k resolved) cache.entries,
  );
  bounded = ground (arith, length-insert k (added cache k resolved) cache.entries);
  some_room = v.some_room;
  keyed = λ j entry h. ground (
    arith,
    v.keyed j entry,
    bytes_eq_iff k j,
    lookup-insert k j (added cache k resolved) cache.entries,
  );
  valid = λ j entry h. elim (Bool-cases (bytes_eq k j)) [
    | inr apart ↦
        v.valid j entry (ground (arith, lookup-insert k j (added cache k resolved) cache.entries))
    | inl mine ↦
        let e : k ≡ j = (bytes_eq_iff k j).0 mine in
        let it : added cache k resolved ≡ entry =
          ground (arith, lookup-insert k j (added cache k resolved) cache.entries) in
        rw (← it, ← e) ok
  ];
  expiring = λ j entry h.
      ground (arith, v.expiring j entry, lookup-insert k j (added cache k resolved) cache.entries);
}
