-- ===== src/Admission/Bucket.antt =====
-- internal/admission/limiter.go: one token bucket. A time is the number of nanoseconds since the zero
-- `time.Time`, so times are natural numbers and the zero value is 0.
pub mod Refill
pub mod Credit
pub mod Wait
use activity_relay_directory.Prelude.{
  ℕ, ◌+◌, ◌-◌, ◌*◌, ◌/◌, ◌^◌, ◌≡◌, Bool, ◌&&◌, ◌||◌, not, ltb, leb, if◌then◌else◌, Bytes,
}
use activity_relay_directory.Admission.Config.{Rate}

abbrev pub maximum_duration : ℕ
maximum_duration = 2 ^ 63 - 1

-- `t.Sub(u)` for `u` not after `t`, which is where the source calls it: the difference, held at the
-- largest `time.Duration`.
abbrev pub time_sub : ℕ → ℕ → ℕ
time_sub t u = if ltb maximum_duration (t - u) then maximum_duration else t - u

abbrev pub after : ℕ → ℕ → Bool
after t u = ltb u t

abbrev pub before : ℕ → ℕ → Bool
before t u = ltb t u

pub record Bucket : Type 0 where
  pub key : Bytes
  pub tokens : ℕ
  pub last_refill : ℕ
  pub last_seen : ℕ

unfoldable pub refill : Bucket → ℕ → Rate → Bucket
refill entry now rate =
    if not (after now entry.last_refill) || leb rate.burst entry.tokens
    then if leb rate.burst entry.tokens && after now entry.last_refill
      then record entry { last_refill = now }
      else entry
    else let steps = time_sub now entry.last_refill / rate.refill_interval in
      let available = rate.burst - entry.tokens in
      if ltb steps 1
      then entry
      else if leb available steps
      then record entry { tokens = rate.burst; last_refill = now }
      else record entry {
        tokens = entry.tokens + steps;
        last_refill = entry.last_refill + steps * rate.refill_interval;
      }

-- The subtraction is guarded as in the source: a remaining time that would be zero or negative
-- gives the whole interval, and so does one above it.
unfoldable pub retry_after : Bucket → ℕ → ℕ → ℕ
retry_after entry now interval =
    if not (after now entry.last_refill)
    then interval
    else let elapsed = time_sub now entry.last_refill in
      if leb interval elapsed || ltb interval (interval - elapsed)
      then interval
      else interval - elapsed

unfoldable pub monotonic_maximum : ℕ → ℕ → ℕ
monotonic_maximum left right = if after right left then right else left
