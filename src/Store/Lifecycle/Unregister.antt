-- ===== src/Store/Lifecycle/Unregister.antt =====
-- internal/storage/sqlite/relay.go: `Unregister` on every branch.
use activity_relay_directory.Store.Lifecycle.Departure.{
  departed, not_there, gone_before, Left, UnregisterReason, not_valid, late, newer, Leaving,
}
use activity_relay_directory.Prelude.{
  ℕ, ◌≡◌, refl, sym, subst, ap, ◌∙◌, true, false, Option, none, some, List, ◌∷◌, [], ◌++◌, arith,
  Bool-cases, inl, inr, Bytes, bytes_eq, lookup, insert, lookup-insert,
}
use activity_relay_directory.Identity.Library.{Library}
use activity_relay_directory.Protocol.Vocabulary.{Outcome, removed}
use activity_relay_directory.Store.Schema.{Relay, Observation, Database, sized}
use activity_relay_directory.Store.Transaction.{
  transition_input, Attempt, done, failed, Faults, read_relay, read_retained, write_event, bind,
}
use activity_relay_directory.Store.Transaction.Ends.{
  Ends, guarded-Ends, checked-Ends, bind-Ends, Settled, refused, Promised, transact-Settled,
}
use activity_relay_directory.Store.Rows.{
  since_epoch, transition_unix, validate_identity_intent, require_monotonic_time, put_relay,
  retained, record_rfc9421_verified, insert_relay_event,
}
use activity_relay_directory.Store.Rows.Consistent.{
  ObservationsOk, Consistent, put_relay-Ends, require_monotonic_time-row,
  require_monotonic_time-none, require_monotonic_time-reason,
}
use activity_relay_directory.Store.Rows.Evidence.{record_rfc9421_verified-Ends}
use activity_relay_directory.Store.Rows.Evidence.{Evidence}
use activity_relay_directory.Store.Checks.{left-check}
use activity_relay_directory.Store.Lifecycle.{
  is_registered, left, leave, leave_event, keep_evidence, answered, unregister_body, unregister,
}
use activity_relay_directory.Store.Lifecycle.Step.{lifecycle_logged, RowOk, insert-RelaysOk}

module _ (lib : Library) (fails : Faults) (db : Database) (actor : Bytes) (accepted : ℕ)
    (c : Consistent lib db) (short : sized 4096 actor ≡ true)
    (ordered : require_monotonic_time fails db actor accepted ≡ none) where
  leave-Ends :
      (row : Option Relay)
      → lookup actor db.relays ≡ row
      → Ends fails
          (UnregisterReason lib db actor accepted)
          (Leaving lib db actor accepted)
          (leave fails db actor row accepted)
  unfolding leave
  leave-Ends none e = record {
    relays = db.relays;
    only = refl;
    ok = c.relays_ok;
    others = λ other h. refl;
    departure = not_there e refl;
  }
  leave-Ends (some row) e = elim (Bool-cases (is_registered row.lifecycle_state)) [
    | inr gone ↦ rw gone (record {
      relays = db.relays;
      only = refl;
      ok = c.relays_ok;
      others = λ other h. refl;
      departure = gone_before row e gone refl;
    })
    | inl here ↦
        let (constraints, kept) = c.relays_ok actor row e in
        let (a, b) = require_monotonic_time-row fails db actor accepted row ordered e in
        let own : RowOk lib actor (left row accepted) = record {
          constraints = left-check actor row accepted constraints here a;
          canonical = kept;
        } in
        rw here (
          bind-Ends fails (UnregisterReason lib db actor accepted)
            (λ d. d ≡ record db { relays = insert actor (left row accepted) db.relays })
            (Leaving lib db actor accepted) (put_relay fails db actor (left row accepted))
            (λ d. done (d, removed))
            (put_relay-Ends fails (UnregisterReason lib db actor accepted) db actor
              (left row accepted) own.constraints)
            (λ db' only. record {
              relays = insert actor (left row accepted) db.relays;
              only = only;
              ok = insert-RelaysOk lib db.relays actor (left row accepted) c.relays_ok own;
              others = λ other h.
                  ground (arith, lookup-insert actor other (left row accepted) db.relays);
              departure = departed row e here refl;
            }))
  ]

  -- The evidence, for a database with other relays.
  record Kept (mid next : Database) : Type 0 where
    observations : List (Bytes × Observation)
    only : next ≡ record mid { observations = observations }
    ok : ObservationsOk observations
    others :
        (other : Bytes)
        → bytes_eq actor other ≡ false
        → lookup other observations ≡ lookup other mid.observations

  keep_evidence-Ends :
      (mid : Database)
      → mid.observations ≡ db.observations
      → ObservationsOk mid.observations
      → Ends fails
          (UnregisterReason lib db actor accepted)
          (Kept mid)
          (keep_evidence fails mid actor accepted)
  unfolding keep_evidence
  keep_evidence-Ends mid same ok =
      guarded-Ends fails (UnregisterReason lib db actor accepted) (Kept mid) read_retained _
        (elim (Bool-cases (retained mid actor)) [
          | inr unknown ↦ rw unknown (record {
            observations = mid.observations;
            only = refl;
            ok = ok;
            others = λ other h. refl;
          })
          | inl known ↦ rw known (
              kept (record_rfc9421_verified fails mid actor accepted) (
                record_rfc9421_verified-Ends fails (UnregisterReason lib db actor accepted) mid
                  actor accepted
                  (λ o known late. newer (o, ap (lookup actor) (sym same) ∙ known, late)) ok known
                  short))
        ])
    where
      kept :
          (x : Attempt Database)
          → Ends fails (UnregisterReason lib db actor accepted) (Evidence mid actor accepted) x
          → Ends fails (UnregisterReason lib db actor accepted) (Kept mid) x
      kept (failed e) h = h
      kept (done next) h = record {
        observations = h.observations;
        only = h.only;
        ok = h.ok;
        others = h.others;
      }

  Kept-Step :
      (mid kept : Database) (outcome : Outcome)
      → Leaving lib db actor accepted (mid, outcome)
      → Kept mid kept
      → Left lib db actor accepted
          (record kept {
            relay_events =
                kept.relay_events
                ++ record {
                  relay_actor = actor;
                  event_kind = leave_event outcome;
                  recorded_at = accepted;
                }
                  ∷ [];
          })
          outcome
  Kept-Step mid kept outcome h k =
      rw (k.only, h.only)
        (record {
          step = record {
            consistent = record { relays_ok = h.ok; observations_ok = k.ok };
            in_order = require_monotonic_time-none fails db actor accepted ordered;
            logged = lifecycle_logged (leave_event outcome) refl refl;
            others = λ other apart. (
              h.others other apart,
              k.others other apart ∙ ap (λ d. lookup other d.observations) h.only,
            );
            same_policy = refl;
            same_discoveries = refl;
          };
          departure = h.departure;
        })

  finish-Ends :
      (mid : Database × Outcome)
      → Leaving lib db actor accepted mid
      → Ends fails
          (UnregisterReason lib db actor accepted)
          (Promised (Left lib db actor accepted) (λ o. ⊥))
          (answered mid.1 (
            bind
              (keep_evidence fails mid.0 actor accepted)
              (λ kept. insert_relay_event fails kept actor (leave_event mid.1) accepted)))
  unfolding insert_relay_event
  finish-Ends (mid, outcome) h = answered-Ends _ (
      bind-Ends fails (UnregisterReason lib db actor accepted) (Kept mid)
        (λ next. Left lib db actor accepted next outcome) (keep_evidence fails mid actor accepted)
        (λ kept. insert_relay_event fails kept actor (leave_event outcome) accepted)
        (keep_evidence-Ends mid (ap (λ d. d.observations) h.only)
          (subst (λ d. ObservationsOk d.observations) (sym h.only) c.observations_ok))
        (λ kept k.
          guarded-Ends fails (UnregisterReason lib db actor accepted)
            (λ next. Left lib db actor accepted next outcome) write_event _
            (Kept-Step mid kept outcome h k)))
    where
      answered-Ends :
          (x : Attempt Database)
          → Ends fails
              (UnregisterReason lib db actor accepted)
              (λ next. Left lib db actor accepted next outcome)
              x
          → Ends fails
              (UnregisterReason lib db actor accepted)
              (Promised (Left lib db actor accepted) (λ o. ⊥))
              (answered outcome x)
      answered-Ends (failed e) k = k
      answered-Ends (done next) k = k

validate_identity_intent-sized :
    (lib : Library) (actor : Bytes)
    → validate_identity_intent lib actor ≡ true
    → sized 4096 actor ≡ true
unfolding validate_identity_intent sized
validate_identity_intent-sized lib actor h = ground arith

-- `Unregister` in a consistent database, whatever statements fail: it commits the departure of a relay that
-- is registered, and answers `absent` without a change to its row for any other, with one new event and no
-- change to other relays; or it fails and changes nothing, and fails with a storage failure only if some
-- statement failed.
pub unregister-Left :
    (lib : Library) (fails : Faults) (db : Database) (actor : Bytes) (accepted : ℕ)
    → Consistent lib db
    → Settled fails
        (UnregisterReason lib db actor accepted)
        (Left lib db actor accepted)
        (λ o. ⊥)
        db
        (unregister lib fails db actor (since_epoch accepted))
unfolding unregister unregister_body transition_unix
unregister-Left lib fails db actor accepted c =
    elim (Bool-cases (validate_identity_intent lib actor)) [
      | inr bad ↦ rw bad (refused transition_input (λ sane. not_valid bad))
      | inl ok ↦ rw ok (
          transact-Settled fails (UnregisterReason lib db actor accepted)
            (Left lib db actor accepted) (λ o. ⊥) db _
            (guarded-Ends fails (UnregisterReason lib db actor accepted) promise read_relay _ (
              checked-Ends fails (UnregisterReason lib db actor accepted) promise
                (require_monotonic_time fails db actor accepted) _
                (λ sane e h.
                  let (which, early) =
                    require_monotonic_time-reason fails db actor accepted sane e h in
                  rw which (late early))
                (λ ordered.
                  bind-Ends fails (UnregisterReason lib db actor accepted)
                    (Leaving lib db actor accepted) promise
                    (leave fails db actor (lookup actor db.relays) accepted) _
                    (leave-Ends lib fails db actor accepted c
                      (validate_identity_intent-sized lib actor ok) ordered (lookup actor db.relays)
                      refl)
                    (finish-Ends lib fails db actor accepted c
                      (validate_identity_intent-sized lib actor ok) ordered)))))
    ]
  where
    promise : Option Database × Outcome → Type 0
    promise = Promised (Left lib db actor accepted) (λ o. ⊥)
