-- ===== src/Replay/Live.antt =====
-- What both stores of reservations promise: a key is live at a time if it is reserved beyond that time.
use activity_relay_directory.Prelude.{
  ℕ, ◌≤◌, ◌≡◌, Bool, false, not, ◌&&◌, Option, none, some, ltb, if◌then◌else◌, Bytes, bytes_eq,
}

abbrev pub beyond : Option ℕ → ℕ → Bool
beyond none time = false
beyond (some expires) time = ltb time expires

-- The view of a store: until when each key is reserved.
abbrev pub View : Type 0
View = Bytes → Option ℕ

-- Two views agree from a time on: they differ in expired reservations at most.
abbrev pub AgreeFrom : ℕ → View → View → Type 0
AgreeFrom now before after =
    (key : Bytes) (time : ℕ) → now ≤ time → beyond (after key) time ≡ beyond (before key) time

-- A reservation that is answered: it is granted exactly if the key was not live, and from then on the key
-- is live until its expiry and every other key as before.
pub record Answered (before after : View) (key : Bytes) (now expires : ℕ) (granted : Bool)
    : Type 0 where
  pub granted_is : granted ≡ not (beyond (before key) now)
  pub later :
      (other : Bytes) (time : ℕ)
      → now ≤ time
      → beyond (after other) time
        ≡ (if granted && bytes_eq key other then ltb time expires else beyond (before other) time)
