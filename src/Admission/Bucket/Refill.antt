-- ===== src/Admission/Bucket/Refill.antt =====
-- internal/admission/limiter.go: the ways through `refill`, and the steps that it takes.
use native.Mathlib.Nat.{mul-le-mul_right, le-div_iff_mul-le}
use activity_relay_directory.Prelude.{
  ℕ, ◌+◌, ◌-◌, ◌*◌, ◌≤◌, ◌<◌, ◌≡◌, arith, ltb, leb, Bool-cases, ◌/◌, inl, inr, refl,
}
use activity_relay_directory.Admission.Config.{Rate}
use activity_relay_directory.Admission.Bucket.{Bucket, maximum_duration, time_sub, after, refill}

pub record RateFits (rate : Rate) (idle_ttl : ℕ) : Type 0 where
  pub positive : 0 < rate.refill_interval
  pub nonempty : 0 < rate.burst
  pub refills : rate.burst * rate.refill_interval ≤ idle_ttl
  pub bounded : idle_ttl ≤ maximum_duration

-- The five ways through `refill`, with the tests that lead there.
pub data RefillCase (rate : Rate) (now : ℕ) (entry : Bucket) : Type 0 where
  early : now ≤ entry.last_refill → refill entry now rate ≡ entry → RefillCase rate now entry
  brimming :
      entry.last_refill < now
      → rate.burst ≤ entry.tokens
      → refill entry now rate ≡ record entry { last_refill = now }
      → RefillCase rate now entry
  pending :
      entry.last_refill < now
      → entry.tokens < rate.burst
      → time_sub now entry.last_refill / rate.refill_interval < 1
      → refill entry now rate ≡ entry
      → RefillCase rate now entry
  filled :
      entry.last_refill < now
      → entry.tokens < rate.burst
      → rate.burst - entry.tokens ≤ time_sub now entry.last_refill / rate.refill_interval
      → refill entry now rate ≡ record entry { tokens = rate.burst; last_refill = now }
      → RefillCase rate now entry
  stepped :
      entry.last_refill < now
      → (steps : ℕ) → steps ≡ time_sub now entry.last_refill / rate.refill_interval
      → entry.tokens + steps < rate.burst
      → refill entry now rate ≡ record entry {
        tokens = entry.tokens + steps;
        last_refill = entry.last_refill + steps * rate.refill_interval;
      }
      → RefillCase rate now entry

pub refill-case : (rate : Rate) (now : ℕ) (entry : Bucket) → RefillCase rate now entry
unfolding refill
refill-case rate now entry = elim (Bool-cases (after now entry.last_refill)) [
  | inr on_time ↦ elim (Bool-cases (leb rate.burst entry.tokens)) [
    | inl full ↦ early (ground arith) (rw (on_time, full))
    | inr room ↦ early (ground arith) (rw (on_time, room))
  ]
  | inl late ↦ elim (Bool-cases (leb rate.burst entry.tokens)) [
    | inl full ↦ brimming (ground arith) (ground arith) (rw (late, full))
    | inr room ↦ elim (Bool-cases (ltb steps 1)) [
      | inl few ↦ pending (ground arith) (ground arith) (ground arith) (rw (late, room, few))
      | inr some_steps ↦ elim (Bool-cases (leb (rate.burst - entry.tokens) steps)) [
        | inl enough ↦
            filled (ground arith) (ground arith) (ground arith)
              (rw (late, room, some_steps, enough))
        | inr short ↦
            stepped (ground arith) steps refl (ground arith) (rw (late, room, some_steps, short))
      ]
    ]
  ]
]
  where
    steps : ℕ
    steps = time_sub now entry.last_refill / rate.refill_interval

-- Below a full bucket one more step of refill still fits.
pub step_fits :
    (tokens steps burst interval : ℕ)
    → tokens + steps < burst
    → tokens * interval + steps * interval + interval ≤ burst * interval
step_fits tokens steps burst interval h = omega (arith, mul-le-mul_right interval h)

-- A held time is read only above the time of a full refill, so the steps taken are exact.
pub steps_exact :
    (rate : Rate) (ttl now : ℕ) (entry : Bucket) (steps : ℕ)
    → RateFits rate ttl
    → steps ≡ time_sub now entry.last_refill / rate.refill_interval
    → entry.tokens + steps < rate.burst
    → (steps * rate.refill_interval ≤ now - entry.last_refill)
      × (now - entry.last_refill < steps * rate.refill_interval + rate.refill_interval)
steps_exact rate ttl now entry steps fits e room =
    elim (Bool-cases (ltb maximum_duration (now - entry.last_refill))) [
      | inr exact ↦
          let e' : steps ≡ (now - entry.last_refill) / rate.refill_interval = rw exact at e in
          rw e' (ground arith)
      | inl held ↦
          let e' : steps ≡ maximum_duration / rate.refill_interval = rw held at e in
          let fit : rate.burst * rate.refill_interval ≤ maximum_duration = omega arith in
          absurd (omega (arith, (le-div_iff_mul-le {y = maximum_duration} fits.positive).1 fit))
    ]

-- Steps enough for the tokens that are missing are paid by the time that passed.
pub filled_earned :
    (tokens burst interval elapsed : ℕ)
    → 0 < interval
    → tokens < burst
    → burst - tokens ≤ elapsed / interval
    → burst * interval ≤ tokens * interval + elapsed
filled_earned tokens burst interval elapsed positive room enough =
    let missing = burst - tokens in
    let paid : missing * interval ≤ elapsed = (le-div_iff_mul-le {y = elapsed} positive).0 enough in
    let split : burst ≡ tokens + missing = omega arith in rw split (omega arith)

pub refill-key : (entry : Bucket) (now : ℕ) (rate : Rate) → (refill entry now rate).key ≡ entry.key
refill-key entry now rate = elim (refill-case rate now entry) [
  | early a r ↦ rw r
  | brimming a b r ↦ rw r
  | pending a b c r ↦ rw r
  | filled a b c r ↦ rw r
  | stepped a s f c r ↦ rw r
]

pub refill-last_seen :
    (entry : Bucket) (now : ℕ) (rate : Rate) → (refill entry now rate).last_seen ≡ entry.last_seen
refill-last_seen entry now rate = elim (refill-case rate now entry) [
  | early a r ↦ rw r
  | brimming a b r ↦ rw r
  | pending a b c r ↦ rw r
  | filled a b c r ↦ rw r
  | stepped a s f c r ↦ rw r
]
