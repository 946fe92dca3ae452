-- ===== src/Admission/Bucket/Wait.antt =====
-- internal/admission/limiter.go: the wait that a refused bucket answers.
use native.Mathlib.Nat.{mul-le-mul_right, le-div_iff_mul-le}
use activity_relay_directory.Prelude.{ℕ, ◌+◌, ◌-◌, ◌≤◌, ◌<◌, ◌≡◌, arith, ◌/◌}
use activity_relay_directory.Admission.Config.{Rate}
use activity_relay_directory.Admission.Bucket.{Bucket, time_sub, refill, retry_after}
use activity_relay_directory.Admission.Bucket.Refill.{
  RateFits, early, brimming, pending, filled, stepped, refill-case,
}

interval-le-ttl : (rate : Rate) (ttl : ℕ) → RateFits rate ttl → rate.refill_interval ≤ ttl
interval-le-ttl rate ttl fits = omega (arith, mul-le-mul_right rate.refill_interval fits.nonempty)

-- What a refused bucket answers: the time that is left of the interval under way.
retry_after-left :
    (rate : Rate) (ttl now : ℕ) (entry : Bucket)
    → RateFits rate ttl
    → entry.last_refill ≤ now
    → now - entry.last_refill < rate.refill_interval
    → (now + retry_after entry now rate.refill_interval ≡ entry.last_refill + rate.refill_interval)
      × (0 < retry_after entry now rate.refill_interval)
unfolding retry_after
retry_after-left rate ttl now entry fits k m = ground (arith, interval-le-ttl rate ttl fits)

steps_at_interval :
    (rate : Rate) (ttl later : ℕ) (entry : Bucket)
    → RateFits rate ttl
    → later ≡ entry.last_refill + rate.refill_interval
    → 1 ≤ time_sub later entry.last_refill / rate.refill_interval
steps_at_interval rate ttl later entry fits e =
    let whole : time_sub later entry.last_refill ≡ rate.refill_interval =
      ground (arith, interval-le-ttl rate ttl fits) in
    (le-div_iff_mul-le {y = time_sub later entry.last_refill} fits.positive).1 (omega arith)

-- The wait that a refusal names is positive, at most one interval, and enough for a token.
pub refill-retry_after :
    (rate : Rate) (ttl now : ℕ) (entry : Bucket)
    → RateFits rate ttl
    → entry.tokens ≡ 0
    → entry.last_refill ≤ now
    → now - entry.last_refill < rate.refill_interval
    → let wait = retry_after entry now rate.refill_interval in
      (0 < wait) × (wait ≤ rate.refill_interval) × (0 < (refill entry (now + wait) rate).tokens)
refill-retry_after rate ttl now entry fits h k m =
    let wait = retry_after entry now rate.refill_interval in
    let (e, positive) = retry_after-left rate ttl now entry fits k m in
    let enough = steps_at_interval rate ttl (now + wait) entry fits e in
    (
      positive,
      omega arith,
      elim (refill-case rate (now + wait) entry) [
        | early a r ↦ absurd (omega (arith, fits.positive))
        | brimming a b r ↦ absurd (omega (arith, fits.nonempty))
        | pending a b c r ↦ absurd (omega arith)
        | filled a b c r ↦ rw r fits.nonempty
        | stepped a s f c r ↦ rw r (omega arith)
      ],
    )
