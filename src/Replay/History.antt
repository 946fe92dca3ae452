-- ===== src/Replay/History.antt =====
-- internal/storage/sqlite/replay.go: calls one after another, with clock readings that do not fall.
use activity_relay_directory.Prelude.{
  ◌⊎◌, ℕ, ◌+◌, ◌≤◌, ◌<◌, ◌≡◌, ◌∙◌, refl, Bool, true, false, not, ◌&&◌, ◌||◌, Option, none, some,
  List, [], ◌∷◌, arith, Bool-cases, inl, inr, ltb, ◌==◌, if◌then◌else◌, Bytes, bytes_eq,
  bytes_eq_iff, bytes_eq_refl, keys, Distinct,
}
use activity_relay_directory.Replay.Live.{beyond}
use activity_relay_directory.Replay.Table.{
  Rows, ReplayFaults, broken, broken_cleanup, cleanup_expired, maximum_cleanup_batch, reserve_rows,
  reserve, cleanup_store, validate, replay_ttl,
}
use activity_relay_directory.Replay.Table.Reserve.{view, Swept, cleanup_expired-Swept}
use activity_relay_directory.Replay.Table.Answer.{reserve_rows-Answered}
use activity_relay_directory.Store.Rows.{ClockTime, since_epoch, before_epoch}

-- A call with its clock reading; a reservation also has its expiry.
pub data Call : Type 0 where
  reserve_call : ReplayFaults → Bool → Bytes → ℕ → ClockTime → Call
  cleanup_call : ReplayFaults → Bool → ℕ → ℕ → Call

abbrev pub reading : Call → ℕ
reading (reserve_call fails canceled key now expires) = now
reading (cleanup_call fails canceled maximum now) = now

abbrev pub Ordered : ℕ → List Call → Type 0
Ordered start [] = Unit {0}
Ordered start (call ∷ calls) = (start ≤ reading call) × Ordered (reading call) calls

abbrev pub is_granted : Option Bool → Bool
is_granted none = false
is_granted (some granted) = granted

-- How often a key is granted at a reading before `until`.
unfoldable pub granted_before : ℕ → Bytes → ℕ → Rows → List Call → ℕ
granted_before batch key until rows [] = 0
granted_before batch key until rows (reserve_call fails canceled other now expires ∷ calls) =
    let (next, answer) = reserve batch fails rows canceled other (since_epoch now) expires in
    (if bytes_eq other key && ltb now until && is_granted answer then 1 else 0)
    + granted_before batch key until next calls
granted_before batch key until rows (cleanup_call fails canceled maximum now ∷ calls) =
    granted_before batch key until (cleanup_store fails rows canceled maximum (since_epoch now)).0
      calls

-- The key is reserved until then, from a time on.
pub record Held (key : Bytes) (until now : ℕ) (rows : Rows) : Type 0 where
  pub distinct : Distinct (keys rows)
  pub live : (time : ℕ) → now ≤ time → time < until → beyond (view rows key) time ≡ true

Held-later :
    (key : Bytes) (until now later : ℕ) (rows : Rows)
    → now ≤ later
    → Held key until now rows
    → Held key until later rows
Held-later key until now later rows h k = record {
  distinct = k.distinct;
  live = λ time a b. k.live time (omega arith) b;
}

-- How a reservation ends: nothing changes and nothing is granted, or it is answered.
pub data Ended (batch : ℕ) (rows : Rows) (key : Bytes) (now : ℕ) (expires_at : ClockTime)
    : Rows × Option Bool → Type 0 where
  failed : Ended batch rows key now expires_at (rows, none)
  answered :
      (expires : ℕ)
      → now < expires
      → expires_at ≡ since_epoch expires
      → Ended batch rows key now expires_at (
        (reserve_rows batch key now expires rows).0,
        some (reserve_rows batch key now expires rows).1,
      )

validate-cases :
    (canceled : Bool) (now : ℕ) (expires_at : ClockTime)
    → (validate canceled (since_epoch now) expires_at ≡ none)
      ⊎ ((expires : ℕ) × (now < expires)
          × (expires_at ≡ since_epoch expires)
          × (validate canceled (since_epoch now) expires_at ≡ some (now, expires)))
unfolding validate
validate-cases canceled now (before_epoch n) = inl refl
validate-cases canceled now (since_epoch expires) =
    elim (Bool-cases (canceled || not (ltb now expires) || ltb (now + replay_ttl) expires)) [
      | inl bad ↦ inl (ground arith)
      | inr good ↦ inr (expires, ground arith, refl, ground arith)
    ]

pub reserve-Ended :
    (batch : ℕ) (fails : ReplayFaults) (rows : Rows) (canceled : Bool) (key : Bytes) (now : ℕ)
    (expires : ClockTime)
    → Ended batch rows key now expires
        (reserve batch fails rows canceled key (since_epoch now) expires)
unfolding reserve
reserve-Ended batch fails rows canceled key now expires_at =
    elim (validate-cases canceled now expires_at) [
      | inl bad ↦ rw (bad, reserve) failed
      | inr (expires, h, same, e) ↦
          rw (e, reserve)
            (elim (Bool-cases (broken fails)) [
              | inl down ↦ rw down failed
              | inr up ↦ rw up (answered expires h same)
            ])
    ]

-- A call keeps what is held, and grants it to nobody else.
reserve-Held :
    (batch : ℕ) (key other : Bytes) (until now : ℕ) (rows : Rows)
    → Held key until now rows
    → {expires_at : ClockTime} (result : Rows × Option Bool)
    → Ended batch rows other now expires_at result
    → Held key until now result.0
      × ((bytes_eq other key && ltb now until && is_granted result.1) ≡ false)
reserve-Held batch key other until now rows h (next, none) failed = (h, ground arith)
reserve-Held batch key other until now rows h (next, some granted) (answered expires k same) =
    let (a, distinct) = reserve_rows-Answered batch other now expires rows k h.distinct in
    let refused : bytes_eq other key ≡ true → now < until → granted ≡ false = λ same early.
      let one : other ≡ key = (bytes_eq_iff other key).0 same in
      a.granted_is ∙ rw one (rw (h.live now (omega arith) early) refl) in
    let no_grant : (bytes_eq other key && ltb now until && granted) ≡ false =
      elim (Bool-cases (bytes_eq other key)) [
        | inr apart ↦ rw apart refl
        | inl same ↦ elim (Bool-cases (ltb now until)) [
          | inr late ↦ ground arith
          | inl early ↦ ground (arith, refused same (ground arith))
        ]
      ] in
    (
      record {
        distinct = distinct;
        live = λ time b c. a.later key time b ∙ (elim (Bool-cases (granted && bytes_eq other key)) [
          | inr apart ↦ rw apart (h.live time b c)
          | inl taken ↦ absurd (ground (arith, refused (ground arith) (omega arith)))
        ]);
      },
      no_grant,
    )

cleanup_store-Held :
    (fails : ReplayFaults) (rows : Rows) (canceled : Bool) (maximum now : ℕ) (key : Bytes)
    (until : ℕ)
    → Held key until now rows
    → Held key until now (cleanup_store fails rows canceled maximum (since_epoch now)).0
unfolding cleanup_store
cleanup_store-Held fails rows canceled maximum now key until h =
    elim (Bool-cases
      (maximum == 0 || ltb maximum_cleanup_batch maximum || canceled || broken_cleanup fails)) [
        | inl bad ↦ rw bad h
        | inr fine ↦ rw fine (record {
          distinct = swept.distinct;
          live = λ time a b. swept.agree key time a ∙ h.live time a b;
        })
      ]
  where
    swept : Swept now rows (cleanup_expired maximum now rows).0
    swept = cleanup_expired-Swept maximum now rows h.distinct

granted_before-Held :
    (batch : ℕ) (key : Bytes) (until start : ℕ) (rows : Rows) (calls : List Call)
    → Held key until start rows
    → Ordered start calls
    → granted_before batch key until rows calls ≡ 0
unfolding granted_before
granted_before-Held batch key until start rows [] h o = refl
granted_before-Held batch key until start rows
      (reserve_call fails canceled other now expires ∷ calls) h o =
    let (kept, none_granted) =
      reserve-Held batch key other until now rows (Held-later key until start now rows o.0 h)
        (reserve batch fails rows canceled other (since_epoch now) expires)
        (reserve-Ended batch fails rows canceled other now expires) in
    let rest =
      granted_before-Held batch key until now
        (reserve batch fails rows canceled other (since_epoch now) expires).0 calls kept o.1 in
    rw none_granted (omega (arith, rest))
granted_before-Held batch key until start rows (cleanup_call fails canceled maximum now ∷ calls) h
      o =
    granted_before-Held batch key until now _ calls
      (cleanup_store-Held fails rows canceled maximum now key until
        (Held-later key until start now rows o.0 h))
      o.1

-- A granted reservation holds its key until its expiry.
granted-Held :
    (batch : ℕ) (key : Bytes) (now until : ℕ) (rows : Rows)
    → Distinct (keys rows)
    → (result : Rows × Option Bool) → Ended batch rows key now (since_epoch until) result
    → result.1 ≡ some true
    → Held key until now result.0
granted-Held batch key now until rows d (next, none) failed e = absurd (ground arith)
granted-Held batch key now until rows d (next, some granted) (answered expires k same) e =
    let (a, distinct) = reserve_rows-Answered batch key now expires rows k d in
    let yes_granted : granted ≡ true = ground arith in
    let one : until ≡ expires = ground arith in
    record {
      distinct = distinct;
      live = λ time b c. a.later key time b ∙ rw (yes_granted, bytes_eq_refl key) (ground arith);
    }

-- A key that was granted until a time is not granted again at any reading before that time, whatever calls
-- follow, whichever statements fail in them and whatever cleanups run, while the readings do not fall.
pub reserve-granted_once :
    (batch : ℕ) (fails : ReplayFaults) (rows : Rows) (canceled : Bool) (key : Bytes) (now until : ℕ)
    (calls : List Call)
    → Distinct (keys rows)
    → (reserve batch fails rows canceled key (since_epoch now) (since_epoch until)).1 ≡ some true
    → Ordered now calls
    → granted_before batch key until
        (reserve batch fails rows canceled key (since_epoch now) (since_epoch until)).0
        calls
      ≡ 0
reserve-granted_once batch fails rows canceled key now until calls d e o =
    granted_before-Held batch key until now _ calls
      (granted-Held batch key now until rows d _
        (reserve-Ended batch fails rows canceled key now (since_epoch until)) e)
      o
