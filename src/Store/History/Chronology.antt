-- ===== src/Store/History/Chronology.antt =====
-- The event logs of internal/storage/sqlite over many requests.
use activity_relay_directory.Prelude.{
  ℕ, ◌≤◌, ◌≡◌, refl, true, false, Option, none, some, List, [], ◌∷◌, ◌++◌, arith, Bool-cases, inl,
  inr, Bytes, bytes_eq, bytes_eq_iff, lookup,
}
use activity_relay_directory.Identity.Library.{Library}
use activity_relay_directory.Store.Schema.{Database, RelayEvent, ModerationEvent}
use activity_relay_directory.Store.Transaction.{Faults}
use activity_relay_directory.Store.Rows.{
  latest, latest_event, latest_moderation, later, relay_time, precedes,
}
use activity_relay_directory.Store.Rows.Consistent.{Consistent}
use activity_relay_directory.Store.Lifecycle.Step.{Step, lifecycle_logged, moderation_logged}
use activity_relay_directory.Store.History.{Request, serve, serve_all}
use activity_relay_directory.Store.History.Moved.{Moved, stayed, stepped, policy, serve-Moved}

abbrev pub relay_stamps : List RelayEvent → List (Bytes × ℕ)
relay_stamps [] = []
relay_stamps (event ∷ events) = (event.relay_actor, event.recorded_at) ∷ relay_stamps events

abbrev pub moderation_stamps : List ModerationEvent → List (Bytes × ℕ)
moderation_stamps [] = []
moderation_stamps (event ∷ events) =
    (event.relay_actor, event.recorded_at) ∷ moderation_stamps events

-- Every time of the actor is at most, or at least, the given one.
abbrev pub AtMost : Bytes → ℕ → List (Bytes × ℕ) → Type 0
AtMost actor time [] = Unit {0}
AtMost actor time ((other, t) ∷ stamps) =
    (bytes_eq other actor ≡ true → t ≤ time) × AtMost actor time stamps

abbrev pub AtLeast : Bytes → ℕ → List (Bytes × ℕ) → Type 0
AtLeast actor time [] = Unit {0}
AtLeast actor time ((other, t) ∷ stamps) =
    (bytes_eq other actor ≡ true → time ≤ t) × AtLeast actor time stamps

-- The times of the actor rise.
abbrev pub Rising : Bytes → List (Bytes × ℕ) → Type 0
Rising actor [] = Unit {0}
Rising actor ((other, t) ∷ stamps) =
    (bytes_eq other actor ≡ true → AtLeast actor t stamps) × Rising actor stamps

AtLeast-snoc :
    (actor other : Bytes) (time t : ℕ) (stamps : List (Bytes × ℕ))
    → AtLeast actor time stamps
    → (bytes_eq other actor ≡ true → time ≤ t)
    → AtLeast actor time (stamps ++ (other, t) ∷ [])
AtLeast-snoc actor other time t [] h k = (k, tt)
AtLeast-snoc actor other time t (s ∷ stamps) h k =
    (h.0, AtLeast-snoc actor other time t stamps h.1 k)

Rising-snoc :
    (actor other : Bytes) (t : ℕ) (stamps : List (Bytes × ℕ))
    → Rising actor stamps
    → (bytes_eq other actor ≡ true → AtMost actor t stamps)
    → Rising actor (stamps ++ (other, t) ∷ [])
Rising-snoc actor other t [] h k = ((λ same. tt), tt)
Rising-snoc actor other t ((first, u) ∷ stamps) h k = (
  λ same. AtLeast-snoc actor other u t stamps (h.0 same) (λ own. (k own).0 same),
  Rising-snoc actor other t stamps h.1 (λ own. (k own).1),
)

relay_stamps-append :
    (events : List RelayEvent) (event : RelayEvent)
    → relay_stamps (events ++ event ∷ [])
      ≡ relay_stamps events ++ (event.relay_actor, event.recorded_at) ∷ []
relay_stamps-append [] event = refl
relay_stamps-append (e ∷ events) event = rw (relay_stamps-append events event) refl

moderation_stamps-append :
    (events : List ModerationEvent) (event : ModerationEvent)
    → moderation_stamps (events ++ event ∷ [])
      ≡ moderation_stamps events ++ (event.relay_actor, event.recorded_at) ∷ []
moderation_stamps-append [] event = refl
moderation_stamps-append (e ∷ events) event = rw (moderation_stamps-append events event) refl

precedes-later :
    (t : ℕ) (a b : Option ℕ)
    → precedes t (later a b) ≡ false
    → (precedes t a ≡ false) × (precedes t b ≡ false)
precedes-later t none b h = (refl, h)
precedes-later t (some n) none h = (h, refl)
precedes-later t (some n) (some m) h = ground arith

latest_event-AtMost :
    (actor : Bytes) (t : ℕ) (events : List RelayEvent)
    → precedes t (latest_event actor events) ≡ false
    → AtMost actor t (relay_stamps events)
unfolding latest_event
latest_event-AtMost actor t [] h = tt
latest_event-AtMost actor t (event ∷ events) h =
    elim (Bool-cases (bytes_eq event.relay_actor actor)) [
      | inr other ↦ (λ same. ground arith, latest_event-AtMost actor t events (rw other at h))
      | inl same ↦
          let (a, b) =
            precedes-later t (some event.recorded_at) (latest_event actor events) (rw same at h) in
          (λ own. ground arith, latest_event-AtMost actor t events b)
    ]

latest_moderation-AtMost :
    (actor : Bytes) (t : ℕ) (events : List ModerationEvent)
    → precedes t (latest_moderation actor events) ≡ false
    → AtMost actor t (moderation_stamps events)
unfolding latest_moderation
latest_moderation-AtMost actor t [] h = tt
latest_moderation-AtMost actor t (event ∷ events) h =
    elim (Bool-cases (bytes_eq event.relay_actor actor)) [
      | inr other ↦ (λ same. ground arith, latest_moderation-AtMost actor t events (rw other at h))
      | inl same ↦
          let (a, b) =
            precedes-later t (some event.recorded_at) (latest_moderation actor events)
              (rw same at h) in
          (λ own. ground arith, latest_moderation-AtMost actor t events b)
    ]

-- A database that its requests may have written.
pub record Sound (lib : Library) (db : Database) : Type 0 where
  pub consistent : Consistent lib db
  pub relay_log : (actor : Bytes) → Rising actor (relay_stamps db.relay_events)
  pub moderation_log : (actor : Bytes) → Rising actor (moderation_stamps db.moderation_events)

Step-AtMost :
    (lib : Library) (db next : Database) (actor : Bytes) (accepted : ℕ)
    → Step lib db actor accepted next
    → AtMost actor accepted (relay_stamps db.relay_events)
      × AtMost actor accepted (moderation_stamps db.moderation_events)
unfolding latest
Step-AtMost lib db next actor accepted s =
    let (rest, c) =
      precedes-later accepted
        (later (relay_time (lookup actor db.relays)) (latest_event actor db.relay_events))
        (latest_moderation actor db.moderation_events) s.in_order in
    let (a, b) =
      precedes-later accepted (relay_time (lookup actor db.relays))
        (latest_event actor db.relay_events) rest in
    (
      latest_event-AtMost actor accepted db.relay_events b,
      latest_moderation-AtMost actor accepted db.moderation_events c,
    )

Step-Sound :
    (lib : Library) (db next : Database) (actor : Bytes) (accepted : ℕ)
    → Sound lib db
    → Step lib db actor accepted next
    → Sound lib next
Step-Sound lib db next actor accepted v s = elim s.logged [
  | lifecycle_logged kind a b ↦ record {
    consistent = s.consistent;
    relay_log = λ other.
        rw
          (
            a,
            relay_stamps-append db.relay_events
                (record { relay_actor = actor; event_kind = kind; recorded_at = accepted }),
          )
          (Rising-snoc other actor accepted (relay_stamps db.relay_events) (v.relay_log other)
            (λ same. rw (← (bytes_eq_iff actor other).0 same) bounds.0));
    moderation_log = λ other. rw b (v.moderation_log other);
  }
  | moderation_logged event whose when a b ↦ record {
    consistent = s.consistent;
    relay_log = λ other. rw b (v.relay_log other);
    moderation_log = λ other.
        rw (a, moderation_stamps-append db.moderation_events event, whose, when)
          (Rising-snoc other actor accepted (moderation_stamps db.moderation_events)
            (v.moderation_log other) (λ same. rw (← (bytes_eq_iff actor other).0 same) bounds.1));
  }
]
  where
    bounds :
        AtMost actor accepted (relay_stamps db.relay_events)
        × AtMost actor accepted (moderation_stamps db.moderation_events)
    bounds = Step-AtMost lib db next actor accepted s

Moved-Sound :
    (lib : Library) (db next : Database) → Sound lib db → Moved lib db next → Sound lib next
Moved-Sound lib db next v (stayed e) = rw e v
Moved-Sound lib db next v (stepped actor accepted s) = Step-Sound lib db next actor accepted v s
Moved-Sound lib db next v (policy target updated events e) = rw e (record {
  consistent = record {
    relays_ok = v.consistent.relays_ok;
    observations_ok = v.consistent.observations_ok;
  };
  relay_log = v.relay_log;
  moderation_log = v.moderation_log;
})

pub serve-Sound :
    (lib : Library) (db : Database) (request : Faults × Request)
    → Sound lib db
    → Sound lib (serve lib db request)
serve-Sound lib db request v =
    Moved-Sound lib db (serve lib db request) v (serve-Moved lib db request v.consistent)

-- After any requests, whichever statements fail in each: every row meets the constraints of its table
-- under its canonical identity, and in both logs the times of each actor rise.
pub serve_all-Sound :
    (lib : Library) (db : Database) (requests : List (Faults × Request))
    → Sound lib db
    → Sound lib (serve_all lib db requests)
unfolding serve_all
serve_all-Sound lib db [] v = v
serve_all-Sound lib db (request ∷ requests) v =
    serve_all-Sound lib (serve lib db request) requests (serve-Sound lib db request v)
