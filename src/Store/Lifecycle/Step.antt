-- ===== src/Store/Lifecycle/Step.antt =====
-- internal/storage/sqlite/relay.go: what a committed transition does to the database.
use activity_relay_directory.Prelude.{
  ℕ, ◌≡◌, refl, sym, subst, true, false, some, List, [], ◌∷◌, ◌++◌, arith, Bool-cases, inl, inr,
  Bytes, bytes_eq, bytes_eq_iff, bytes_eq_refl, lookup, insert, lookup-insert,
}
use activity_relay_directory.Identity.Library.{Library}
use activity_relay_directory.Identity.Normalize.{normalize_relay_identity}
use activity_relay_directory.Store.Schema.{
  Relay, EventKind, ModerationEvent, Observation, Database, relay_check, sized,
}
use activity_relay_directory.Store.Transaction.{
  StoreError, observation_time, Faults, write_event, bind,
}
use activity_relay_directory.Store.Transaction.Ends.{Ends, guarded-Ends, bind-Ends}
use activity_relay_directory.Store.Rows.{
  latest, precedes, put_relay, retained, record_rfc9421_verified, insert_relay_event,
}
use activity_relay_directory.Store.Rows.Consistent.{
  RelaysOk, ObservationsOk, Consistent, put_relay-Ends,
}
use activity_relay_directory.Store.Rows.Evidence.{record_rfc9421_verified-Ends}
use activity_relay_directory.Store.Rows.Evidence.{Evidence}
use activity_relay_directory.Store.Lifecycle.{write_transition}

-- One entry more in one of the two logs of an actor, at the accepted time.
pub data Logged (db : Database) (actor : Bytes) (accepted : ℕ) (next : Database) : Type 0 where
  lifecycle_logged :
      (kind : EventKind)
      → next.relay_events
        ≡ db.relay_events
          ++ record { relay_actor = actor; event_kind = kind; recorded_at = accepted } ∷ []
      → next.moderation_events ≡ db.moderation_events
      → Logged db actor accepted next
  moderation_logged :
      (event : ModerationEvent)
      → event.relay_actor ≡ actor
      → event.recorded_at ≡ accepted
      → next.moderation_events ≡ db.moderation_events ++ event ∷ []
      → next.relay_events ≡ db.relay_events
      → Logged db actor accepted next

pub record Step (lib : Library) (db : Database) (actor : Bytes) (accepted : ℕ) (next : Database)
    : Type 0 where
  pub consistent : Consistent lib next
  pub in_order : precedes accepted (latest db actor) ≡ false
  pub logged : Logged db actor accepted next
  pub others :
      (other : Bytes)
      → bytes_eq actor other ≡ false
      → (lookup other next.relays ≡ lookup other db.relays)
        × (lookup other next.observations ≡ lookup other db.observations)
  pub same_policy : next.enrollment_open ≡ db.enrollment_open
  pub same_discoveries : next.discoveries ≡ db.discoveries

-- Evidence of an actor that is newer than the accepted time, which a transition does not overwrite.
abbrev pub Newer : Database → Bytes → ℕ → Type 0
Newer db actor accepted =
    (current : Observation) × (lookup actor db.observations ≡ some current)
    × (precedes accepted current.rfc9421_verified ≡ true)

-- A relay row that may be kept.
pub record RowOk (lib : Library) (actor : Bytes) (row : Relay) : Type 0 where
  pub constraints : relay_check actor row ≡ true
  pub canonical :
      normalize_relay_identity lib actor row.public_base_url
      ≡ some (record { relay_actor = actor; public_base_url = row.public_base_url })

pub insert-RelaysOk :
    (lib : Library) (relays : List (Bytes × Relay)) (actor : Bytes) (row : Relay)
    → RelaysOk lib relays
    → RowOk lib actor row
    → RelaysOk lib (insert actor row relays)
insert-RelaysOk lib relays actor row ok own other found e =
    elim (Bool-cases (bytes_eq actor other)) [
      | inl same ↦
          let k : actor ≡ other = (bytes_eq_iff actor other).0 same in
          let r : row ≡ found = ground (arith, lookup-insert actor other row relays) in
          rw (← k, ← r) (own.constraints, own.canonical)
      | inr different ↦ ok other found (ground (arith, lookup-insert actor other row relays))
    ]

-- What the write, the evidence and the event leave.
pub record Written (db : Database) (actor : Bytes) (row : Relay) (kind : EventKind) (accepted : ℕ)
    (next : Database) : Type 0 where
  pub observations : List (Bytes × Observation)
  pub only : next ≡ record db {
    relays = insert actor row db.relays;
    observations = observations;
    relay_events =
        db.relay_events
        ++ record { relay_actor = actor; event_kind = kind; recorded_at = accepted } ∷ [];
  }
  pub ok : ObservationsOk observations
  pub marked :
      (o : Observation) × (lookup actor observations ≡ some o)
      × (o.rfc9421_verified ≡ some accepted)
  pub others :
      (other : Bytes)
      → bytes_eq actor other ≡ false
      → lookup other observations ≡ lookup other db.observations

sized_actor : (actor : Bytes) (row : Relay) → relay_check actor row ≡ true → sized 4096 actor ≡ true
unfolding relay_check
sized_actor actor row h = ground arith

retained-insert :
    (db : Database) (actor : Bytes) (row : Relay)
    → retained (record db { relays = insert actor row db.relays }) actor ≡ true
unfolding retained
retained-insert db actor row =
    ground (arith, lookup-insert actor actor row db.relays, bytes_eq_refl actor)

pub write_transition-Written :
    (fails : Faults) (F : StoreError → Type 0) (db : Database) (actor : Bytes) (row : Relay)
    (kind : EventKind) (accepted : ℕ)
    → (Newer db actor accepted → F observation_time)
    → ObservationsOk db.observations
    → relay_check actor row ≡ true
    → Ends fails F
        (Written db actor row kind accepted)
        (write_transition fails db actor row kind accepted)
unfolding write_transition insert_relay_event
write_transition-Written fails F db actor row kind accepted newer ok h =
    bind-Ends fails F _ (Written db actor row kind accepted) (put_relay fails db actor row) _
      (put_relay-Ends fails F db actor row h)
      (λ db' e.
        subst
          (λ d. Ends fails F (Written db actor row kind accepted) (
            bind (record_rfc9421_verified fails d actor accepted)
              (λ v. insert_relay_event fails v actor kind accepted)))
          (sym e) rest)
  where
    put : Database
    put = record db { relays = insert actor row db.relays }

    rest : Ends fails F (Written db actor row kind accepted) (
        bind
          (record_rfc9421_verified fails put actor accepted)
          (λ v. insert_relay_event fails v actor kind accepted))
    rest =
        bind-Ends fails F (Evidence put actor accepted) (Written db actor row kind accepted)
          (record_rfc9421_verified fails put actor accepted) _
          (record_rfc9421_verified-Ends fails F put actor accepted
            (λ o known late. newer (o, known, late)) ok (retained-insert db actor row)
            (sized_actor actor row h))
          (λ v k. guarded-Ends fails F (Written db actor row kind accepted) write_event _ (record {
            observations = k.observations;
            only = rw k.only refl;
            ok = k.ok;
            marked = k.marked;
            others = k.others;
          }))

pub Written-Step :
    (lib : Library) (db next : Database) (actor : Bytes) (row : Relay) (kind : EventKind)
    (accepted : ℕ)
    → Consistent lib db
    → RowOk lib actor row
    → precedes accepted (latest db actor) ≡ false
    → Written db actor row kind accepted next
    → Step lib db actor accepted next
Written-Step lib db next actor row kind accepted c own order w = rw w.only (record {
  consistent = record {
    relays_ok = insert-RelaysOk lib db.relays actor row c.relays_ok own;
    observations_ok = w.ok;
  };
  in_order = order;
  logged = lifecycle_logged kind refl refl;
  others = λ other h. (ground (arith, lookup-insert actor other row db.relays), w.others other h);
  same_policy = refl;
  same_discoveries = refl;
})
