-- ===== src/Admission/Bucket/Credit.antt =====
-- internal/admission/limiter.go: what a bucket is worth, that is the tokens that it holds and those that
-- the time passed since its last refill has earned it, in nanoseconds of refill and held at a full bucket.
use native.Mathlib.Nat.{mul-le-mul_right}
use activity_relay_directory.Prelude.{
  ℕ, zero, suc, ◌+◌, ◌-◌, ◌*◌, ◌≤◌, ◌<◌, ◌≡◌, Option, none, some, arith, ltb, if◌then◌else◌,
}
use activity_relay_directory.Admission.Config.{Rate}
use activity_relay_directory.Admission.Bucket.{Bucket, time_sub, refill}
use activity_relay_directory.Admission.Bucket.Refill.{
  early, brimming, pending, filled, stepped, RateFits, refill-case, step_fits, steps_exact,
  filled_earned,
}

abbrev pub cap : ℕ → ℕ → ℕ
cap limit n = if ltb limit n then limit else n

-- An absent bucket would be created full.
abbrev pub credit : Rate → Option Bucket → ℕ → ℕ
credit rate none now = rate.burst * rate.refill_interval
credit rate (some entry) now =
    cap (rate.burst * rate.refill_interval)
      (entry.tokens * rate.refill_interval + (now - entry.last_refill))

pub record IsSound (rate : Rate) (now : ℕ) (entry : Bucket) : Type 0 where
  pub tokens_le : entry.tokens ≤ rate.burst
  pub refill_le : entry.last_refill ≤ entry.last_seen
  pub seen_le : entry.last_seen ≤ now

module _ (rate : Rate) (ttl : ℕ) (fits : RateFits rate ttl) (now : ℕ) where
  pub refill-settled :
      (entry : Bucket)
      → entry.tokens ≤ rate.burst
      → entry.last_refill ≤ now
      → ((refill entry now rate).tokens ≤ rate.burst)
        × ((refill entry now rate).last_refill ≤ now)
        × ((refill entry now rate).tokens * rate.refill_interval
              + (now - (refill entry now rate).last_refill)
            ≤ rate.burst * rate.refill_interval)
  refill-settled entry h k = elim (refill-case rate now entry) [
    | early e r ↦ rw r (grind arith)
    | brimming a b r ↦ rw r (grind arith)
    | pending a b c r ↦ rw r (grind arith)
    | filled a b c r ↦ rw r (grind arith)
    | stepped a s e c r ↦ rw r (
        omega (
          arith,
          steps_exact rate ttl now entry s fits e c,
          step_fits entry.tokens s rate.burst rate.refill_interval c,
        ))
  ]

  pub credit-refill :
      (entry : Bucket)
      → entry.tokens ≤ rate.burst
      → entry.last_refill ≤ now
      → credit rate (some (refill entry now rate)) now ≤ credit rate (some entry) now
  credit-refill entry h k = elim (refill-case rate now entry) [
    | early e r ↦ rw r (omega arith)
    | brimming a b r ↦ rw r (grind (arith, mul-le-mul_right rate.refill_interval b))
    | pending a b c r ↦ rw r (omega arith)
    | filled a b c r ↦ rw r (
        ground (
          arith,
          filled_earned entry.tokens rate.burst rate.refill_interval
              (time_sub now entry.last_refill) fits.positive b c,
        ))
    | stepped a s e c r ↦ rw r (ground (arith, steps_exact rate ttl now entry s fits e c))
  ]

-- Time alone earns no more than the time that passes.
pub credit-later :
    (rate : Rate) (entry : Option Bucket) (now later : ℕ)
    → now ≤ later
    → credit rate entry later ≤ credit rate entry now + (later - now)
credit-later rate none now later h = omega arith
credit-later rate (some entry) now later h = ground arith

pred-mul : (n k : ℕ) → 0 < n → (n - 1) * k + k ≡ n * k
pred-mul zero k h = elim h [ ]
pred-mul (suc n) k h = let e : suc n - 1 ≡ n = omega arith in rw e (omega arith)

-- A token that a settled bucket gives away costs it one interval.
pub credit-take :
    (rate : Rate) (entry : Bucket) (now : ℕ)
    → entry.tokens * rate.refill_interval + (now - entry.last_refill)
      ≤ rate.burst * rate.refill_interval
    → 0 < entry.tokens
    → credit rate (some (record entry { tokens = entry.tokens - 1 })) now + rate.refill_interval
      ≤ credit rate (some entry) now
credit-take rate entry now settled h = ground (arith, pred-mul entry.tokens rate.refill_interval h)

-- A bucket left alone for the time of a full refill is worth a full bucket.
pub credit-idle :
    (rate : Rate) (ttl now : ℕ) (entry : Bucket)
    → RateFits rate ttl
    → entry.last_refill ≤ entry.last_seen
    → ttl ≤ now - entry.last_seen
    → credit rate (some entry) now ≡ rate.burst * rate.refill_interval
credit-idle rate ttl now entry fits h k = ground arith

pub credit-le-burst :
    (rate : Rate) (entry : Option Bucket) (now : ℕ)
    → credit rate entry now ≤ rate.burst * rate.refill_interval
credit-le-burst rate none now = omega arith
credit-le-burst rate (some entry) now = ground arith
