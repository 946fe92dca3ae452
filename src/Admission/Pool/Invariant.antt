-- ===== src/Admission/Pool/Invariant.antt =====
-- internal/admission/limiter.go: the map and the list of a pool in step, and what an eviction keeps of them.
use activity_relay_directory.Prelude.{
  ℕ, zero, suc, ◌-◌, ◌≤◌, ◌≡◌, refl, subst, some, List, [], ◌∷◌, arith, Option-cases, is_some, true,
  Bytes, bytes_eq_iff, length, lookup, insert, delete, lookup-insert, lookup-delete, length-insert,
  length-delete, keys, has, Distinct, Distinct-insert, Distinct-delete, inl, inr,
}
use activity_relay_directory.Admission.Bucket.{Bucket}
use activity_relay_directory.Admission.Pool.{Pool, new_bucket_pool, evict_oldest, cleanup}

pub record InStep (pool : Pool) : Type 0 where
  pub distinct_entries : Distinct (keys pool.entries)
  pub distinct_order : Distinct pool.order
  pub same : (k : Bytes) → has k pool.order ≡ is_some (lookup k pool.entries)
  pub size : length pool.order ≡ length pool.entries
  pub bounded : length pool.entries ≤ pool.maximum
  pub keyed : (k : Bytes) (entry : Bucket) → lookup k pool.entries ≡ some entry → entry.key ≡ k

pub new_bucket_pool-InStep : (maximum : ℕ) → InStep (new_bucket_pool maximum)
unfolding new_bucket_pool has lookup
new_bucket_pool-InStep maximum = record {
  distinct_entries = tt;
  distinct_order = tt;
  same = λ k. refl;
  size = refl;
  bounded = omega arith;
  keyed = λ k entry h. cc;
}

-- A write to a bucket that is there, with the list as it was or reordered.
pub rewrite-InStep :
    (pool : Pool) (k : Bytes) (entry : Bucket) (order : List Bytes)
    → InStep pool
    → is_some (lookup k pool.entries) ≡ true
    → entry.key ≡ k
    → Distinct order
    → ((j : Bytes) → has j order ≡ has j pool.order)
    → length order ≡ length pool.order
    → InStep (record pool { entries = insert k entry pool.entries; order = order })
rewrite-InStep pool k entry order v there own d same size = record {
  distinct_entries = Distinct-insert k entry pool.entries v.distinct_entries;
  distinct_order = d;
  same =
      λ j. ground (arith, same j, v.same j, lookup-insert k j entry pool.entries, bytes_eq_iff k j);
  size = ground (arith, v.size, length-insert k entry pool.entries);
  bounded = ground (arith, v.bounded, length-insert k entry pool.entries);
  keyed =
      λ j e h. ground (arith, v.keyed j e, lookup-insert k j entry pool.entries, bytes_eq_iff k j);
}

-- What an eviction took: the first bucket of the list, which was not seen for the idle time.
pub record Evicted (pool : Pool) (now idle_ttl : ℕ) (smaller : Pool) : Type 0 where
  pub oldest : Bytes
  pub rest : List Bytes
  pub entry : Bucket
  pub first : pool.order ≡ oldest ∷ rest
  pub found : lookup oldest pool.entries ≡ some entry
  pub seen_le : entry.last_seen ≤ now
  pub idle : idle_ttl ≤ now - entry.last_seen
  pub shrunk : smaller ≡ record pool { entries = delete entry.key pool.entries; order = rest }

from_front :
    (pool : Pool) (now idle_ttl : ℕ) (smaller : Pool) (order : List Bytes)
    → pool.order ≡ order
    → evict_oldest pool now idle_ttl ≡ some smaller
    → Evicted pool now idle_ttl smaller
unfolding evict_oldest
from_front pool now idle_ttl smaller [] o e = ground arith
from_front pool now idle_ttl smaller (oldest ∷ rest) o e =
    elim (Option-cases (lookup oldest pool.entries)) [
      | inl missing ↦ ground arith
      | inr (entry, found) ↦ record {
        oldest = oldest;
        rest = rest;
        entry = entry;
        first = o;
        found = found;
        seen_le = ground arith;
        idle = ground arith;
        shrunk = ground arith;
      }
    ]

pub evict_oldest-Evicted :
    (pool : Pool) (now idle_ttl : ℕ) (smaller : Pool)
    → evict_oldest pool now idle_ttl ≡ some smaller
    → Evicted pool now idle_ttl smaller
evict_oldest-Evicted pool now idle_ttl smaller e =
    from_front pool now idle_ttl smaller pool.order refl e

pub Evicted-InStep :
    (pool smaller : Pool) (now idle_ttl : ℕ)
    → InStep pool
    → Evicted pool now idle_ttl smaller
    → InStep smaller
unfolding has
Evicted-InStep pool smaller now idle_ttl v c =
    let own : c.entry.key ≡ c.oldest = v.keyed c.oldest c.entry c.found in
    let d : Distinct (c.oldest ∷ c.rest) = subst Distinct c.first v.distinct_order in
    rw c.shrunk (record {
      distinct_entries = Distinct-delete c.entry.key pool.entries v.distinct_entries;
      distinct_order = d.1;
      same = λ k. ground (
        arith,
        v.same k,
        c.first,
        d.0,
        own,
        lookup-delete c.entry.key k pool.entries,
        bytes_eq_iff c.oldest k,
      );
      size = ground (
        arith,
        v.size,
        c.first,
        own,
        c.found,
        length-delete c.entry.key pool.entries v.distinct_entries,
      );
      bounded = ground (
        arith,
        v.bounded,
        own,
        c.found,
        length-delete c.entry.key pool.entries v.distinct_entries,
      );
      keyed = λ k e h. ground (arith, v.keyed k e, lookup-delete c.entry.key k pool.entries, h);
    })

-- What every eviction keeps, `cleanup` keeps.
pub cleanup_keeps {ℓ} :
    (P : Pool → Type ℓ) (now idle_ttl : ℕ)
    → ((p q : Pool) → P p → Evicted p now idle_ttl q → P q)
    → (limit : ℕ) (pool : Pool) → P pool
    → P (cleanup pool now idle_ttl limit)
unfolding cleanup
cleanup_keeps P now idle_ttl keep zero pool h = h
cleanup_keeps P now idle_ttl keep (suc limit) pool h =
    elim (Option-cases (evict_oldest pool now idle_ttl)) [
      | inl done ↦ rw (done, cleanup) h
      | inr (smaller, e) ↦
          rw (e, cleanup)
            (cleanup_keeps P now idle_ttl keep limit smaller
              (keep pool smaller h (evict_oldest-Evicted pool now idle_ttl smaller e)))
    ]

pub cleanup-InStep :
    (pool : Pool) (now idle_ttl limit : ℕ) → InStep pool → InStep (cleanup pool now idle_ttl limit)
cleanup-InStep pool now idle_ttl limit v =
    cleanup_keeps InStep now idle_ttl (λ p q h c. Evicted-InStep p q now idle_ttl h c) limit pool v
