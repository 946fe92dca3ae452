-- ===== src/Admission/Pool/Worth.antt =====
-- internal/admission/limiter.go: the worth of the buckets of a pool, eviction included.
use activity_relay_directory.Prelude.{
  ℕ, ◌≤◌, ◌≡◌, ◌≢◌, false, ◌&&◌, some, arith, Bool-cases, inl, inr, if◌then◌else◌, Bytes, bytes_eq,
  bytes_eq_iff, lookup, lookup-delete,
}
use activity_relay_directory.Admission.Config.{Rate}
use activity_relay_directory.Admission.Bucket.{Bucket}
use activity_relay_directory.Admission.Bucket.Refill.{RateFits}
use activity_relay_directory.Admission.Bucket.Credit.{credit, IsSound, credit-idle}
use activity_relay_directory.Admission.Pool.{
  Pool, Decision, Result, Terms, allowed, is_allowed, cleanup,
}
use activity_relay_directory.Admission.Pool.Invariant.{
  InStep, Evicted, Evicted-InStep, cleanup_keeps,
}

pub record TermsFit (terms : Terms) : Type 0 where
  pub fits : RateFits terms.rate terms.idle_ttl
  pub refuses : terms.rate_decision ≢ allowed

abbrev pub AllSound : Rate → ℕ → Pool → Type 0
AllSound rate now pool =
    (k : Bytes) (entry : Bucket) → lookup k pool.entries ≡ some entry → IsSound rate now entry

abbrev pub worth : Rate → Pool → Bytes → ℕ → ℕ
worth rate pool k now = credit rate (lookup k pool.entries) now

-- An eviction takes buckets only that are worth a full one.
Evicted-worth :
    (rate : Rate) (pool smaller : Pool) (now idle_ttl : ℕ) (k : Bytes)
    → RateFits rate idle_ttl
    → InStep pool
    → AllSound rate now pool
    → Evicted pool now idle_ttl smaller
    → worth rate smaller k now ≤ worth rate pool k now
Evicted-worth rate pool smaller now idle_ttl k fits v sound c =
    let own : c.entry.key ≡ c.oldest = v.keyed c.oldest c.entry c.found in
    let full =
      credit-idle rate idle_ttl now c.entry fits (sound c.oldest c.entry c.found).refill_le
        c.idle in
    rw (c.shrunk, lookup-delete c.entry.key k pool.entries, own)
      (elim (Bool-cases (bytes_eq c.oldest k)) [
        | inl same ↦ rw (same, ← (bytes_eq_iff c.oldest k).0 same, c.found, full) (omega arith)
        | inr other ↦ rw other (omega arith)
      ])

Evicted-AllSound :
    (rate : Rate) (pool smaller : Pool) (now idle_ttl : ℕ)
    → AllSound rate now pool
    → Evicted pool now idle_ttl smaller
    → AllSound rate now smaller
Evicted-AllSound rate pool smaller now idle_ttl sound c k entry h =
    sound k entry (ground (arith, lookup-delete c.entry.key k pool.entries, c.shrunk))

pub record Cleaned (rate : Rate) (k : Bytes) (now bound : ℕ) (pool : Pool) : Type 0 where
  pub in_step : InStep pool
  pub sound : AllSound rate now pool
  pub worth_le : worth rate pool k now ≤ bound

pub cleanup-Cleaned :
    (terms : Terms) (pool : Pool) (k : Bytes) (now bound : ℕ)
    → TermsFit terms
    → Cleaned terms.rate k now bound pool
    → Cleaned terms.rate k now bound (cleanup pool now terms.idle_ttl terms.cleanup_limit)
cleanup-Cleaned terms pool k now bound t =
    cleanup_keeps (Cleaned terms.rate k now bound) now terms.idle_ttl
      (λ p q h c. record {
        in_step = Evicted-InStep p q now terms.idle_ttl h.in_step c;
        sound = Evicted-AllSound terms.rate p q now terms.idle_ttl h.sound c;
        worth_le = omega (
          arith,
          h.worth_le,
          Evicted-worth terms.rate p q now terms.idle_ttl k t.fits h.in_step h.sound c,
        );
      })
      terms.cleanup_limit pool

-- What a decision costs the key `k`.
abbrev pub cost : Rate → Bytes → Bytes → Result → ℕ
cost rate key k result = if bytes_eq key k && is_allowed result then rate.refill_interval else 0

pub refusal :
    (d : Decision) (wait : ℕ)
    → d ≢ allowed
    → is_allowed (record { decision = d; retry_after = wait }) ≡ false
unfolding is_allowed
refusal d wait h = ground arith
