-- ===== src/Admission/Pool/Schedule.antt =====
-- internal/admission/limiter.go: the grants of a schedule of requests.
use native.Mathlib.Nat.{le-div_iff_mul-le}
use activity_relay_directory.Prelude.{
  ℕ, ◌+◌, ◌-◌, ◌*◌, ◌/◌, ◌≤◌, ◌<◌, ◌≡◌, ◌&&◌, List, [], ◌∷◌, arith, Bool-cases, inl, inr, leb,
  if◌then◌else◌, Bytes, bytes_eq, lookup,
}
use activity_relay_directory.Admission.Config.{Rate}
use activity_relay_directory.Admission.Bucket.Credit.{credit-later, credit-le-burst}
use activity_relay_directory.Admission.Pool.{Pool, Terms, is_allowed, admit}
use activity_relay_directory.Admission.Pool.Invariant.{InStep}
use activity_relay_directory.Admission.Pool.Requests.{admit-InStep}
use activity_relay_directory.Admission.Pool.Worth.{TermsFit, AllSound, worth}
use activity_relay_directory.Admission.Pool.Payment.{admit-Paid}

-- A schedule of requests, each a key and a time, whose times rise from `start` to `finish`.
abbrev pub Timed : ℕ → ℕ → List (Bytes × ℕ) → Type 0
Timed start finish [] = start ≤ finish
Timed start finish ((key, now) ∷ requests) = (start ≤ now) × Timed now finish requests

-- How many requests of a schedule are granted to the key `k`.
unfoldable pub granted : Terms → Bytes → Pool → List (Bytes × ℕ) → ℕ
granted terms k pool [] = 0
granted terms k pool ((key, now) ∷ requests) =
    let (next, result) = admit pool key now terms in
    (if bytes_eq key k && is_allowed result then 1 else 0) + granted terms k next requests

later-AllSound :
    (rate : Rate) (pool : Pool) (now later : ℕ)
    → now ≤ later
    → AllSound rate now pool
    → AllSound rate later pool
later-AllSound rate pool now later h sound j entry e = omega (arith, sound j entry e)

Timed-le :
    (start finish : ℕ) (requests : List (Bytes × ℕ)) → Timed start finish requests → start ≤ finish
Timed-le start finish [] h = h
Timed-le start finish ((key, now) ∷ requests) h = omega (arith, Timed-le now finish requests h.1)

within :
    (count burst interval time : ℕ)
    → 0 < interval
    → count * interval ≤ burst * interval + time
    → count ≤ burst + time / interval
within count burst interval time positive h = elim (Bool-cases (leb count burst)) [
  | inl small ↦ ground arith
  | inr large ↦
      let extra = count - burst in
      let split : count ≡ burst + extra = ground arith in
      let paid : (burst + extra) * interval ≤ burst * interval + time = rw (← split) h in
      omega
        (arith, split, (le-div_iff_mul-le {x = extra} {y = time} positive).1 (omega (arith, paid)))
]

granted-worth :
    (terms : Terms) (t : TermsFit terms) (k : Bytes) (start finish : ℕ) (pool : Pool)
    (requests : List (Bytes × ℕ))
    → InStep pool
    → AllSound terms.rate start pool
    → Timed start finish requests
    → granted terms k pool requests * terms.rate.refill_interval
      ≤ worth terms.rate pool k start + (finish - start)
unfolding granted
granted-worth terms t k start finish pool [] v sound h = omega arith
granted-worth terms t k start finish pool ((key, now) ∷ requests) v sound h =
    let later = later-AllSound terms.rate pool start now h.0 sound in
    let paid = admit-Paid terms t k key now pool v later in
    let next = admit pool key now terms in
    let rest =
      granted-worth terms t k now finish next.0 requests (admit-InStep pool key now terms v)
        paid.sound h.1 in
    let grown = credit-later terms.rate (lookup k pool.entries) start now h.0 in
    let end : now ≤ finish = Timed-le now finish requests h.1 in
    elim (Bool-cases (bytes_eq key k && is_allowed next.1)) [
      | inl e ↦ rw e (omega (arith, rest, grown, rw e at paid.worth_le))
      | inr e ↦ rw e (omega (arith, rest, grown, rw e at paid.worth_le))
    ]

-- Over any schedule of requests, whatever keys it mixes and whatever `cleanup` evicts between them,
-- one key is granted at most a full bucket and what the refill interval yields in the time that
-- passes. The pool may start in any state that earlier requests left.
pub granted-le :
    (terms : Terms) (k : Bytes) (start finish : ℕ) (pool : Pool) (requests : List (Bytes × ℕ))
    → TermsFit terms
    → InStep pool
    → AllSound terms.rate start pool
    → Timed start finish requests
    → granted terms k pool requests
      ≤ terms.rate.burst + (finish - start) / terms.rate.refill_interval
granted-le terms k start finish pool requests t v sound h =
    let total = granted-worth terms t k start finish pool requests v sound h in
    let full = credit-le-burst terms.rate (lookup k pool.entries) start in
    within (granted terms k pool requests) terms.rate.burst terms.rate.refill_interval
      (finish - start) t.fits.positive (omega (arith, total, full))
