-- ===== src/Store/Moderation/Standing.antt =====
-- internal/storage/sqlite/moderation.go: `Suspend` and `Restore` on every branch.
use activity_relay_directory.Store.Moderation.Change.{
  changed, kept, Moderated, classify_moderation-Tells, differs, agrees, whether, ModerationReason,
  not_valid, not_known, late, Standing,
}
use activity_relay_directory.Prelude.{
  ℕ, ◌≡◌, ◌≢◌, refl, Option, none, some, ◌∷◌, [], ◌++◌, arith, Bool-cases, Option-cases, inl, inr,
  bytes_eq_refl, lookup, insert, lookup-insert,
}
use activity_relay_directory.Identity.Library.{Library}
use activity_relay_directory.Protocol.Vocabulary.{AdministrativeState}
use activity_relay_directory.Store.Schema.{Relay, Database, ModerationEvent}
use activity_relay_directory.Store.Transaction.{
  transition_input, Attempt, done, failed, Faults, read_relay, write_moderation_event, bind,
}
use activity_relay_directory.Store.Transaction.Ends.{
  Ends, guarded-Ends, checked-Ends, bind-Ends, Settled, refused, Promised, transact-Settled,
}
use activity_relay_directory.Store.Rows.{since_epoch, transition_unix, require_monotonic_time}
use activity_relay_directory.Store.Rows.Consistent.{
  Consistent, put_relay-Ends, require_monotonic_time-row, require_monotonic_time-none,
  require_monotonic_time-reason,
}
use activity_relay_directory.Store.Checks.{moderated-check}
use activity_relay_directory.Store.Lifecycle.Step.{moderation_logged, RowOk, insert-RelaysOk}
use activity_relay_directory.Store.Moderation.{
  ModerationIntent, ModerationOutcome, classify_moderation, moderated, insert_moderation_event,
  change_standing, answered_moderation, moderate_body, moderate, validate_moderation_intent,
}

module _ (lib : Library) (fails : Faults) (db : Database) (intent : ModerationIntent)
    (target : AdministrativeState) (accepted : ℕ) (row : Relay) (c : Consistent lib db)
    (e : lookup intent.relay_actor db.relays ≡ some row)
    (ordered : require_monotonic_time fails db intent.relay_actor accepted ≡ none) where
  change_standing-Ends :
      Ends fails
        (ModerationReason lib db intent accepted)
        (Standing lib db intent.relay_actor row target accepted)
        (change_standing fails db intent.relay_actor row target accepted)
  unfolding change_standing
  change_standing-Ends = elim (whether row.administrative_state target) [
    | agrees same equal ↦ rw same (record {
      relays = db.relays;
      only = refl;
      ok = c.relays_ok;
      others = λ other h. refl;
      after = row;
      found = e;
      change = kept equal refl;
      now = equal;
      same_lifecycle = refl;
    })
    | differs other apart ↦ rw other (
        written _
          (put_relay-Ends fails (ModerationReason lib db intent accepted) db intent.relay_actor next
            own.constraints)
          apart)
  ]
    where
      next : Relay
      next = moderated row target accepted

      own : RowOk lib intent.relay_actor next
      own =
          let (constraints, canonical) = c.relays_ok intent.relay_actor row e in
          let (a, b) =
            require_monotonic_time-row fails db intent.relay_actor accepted row ordered e in
          record {
            constraints = moderated-check intent.relay_actor row target accepted constraints a;
            canonical = canonical;
          }

      written :
          (x : Attempt Database)
          → Ends fails
              (ModerationReason lib db intent accepted)
              (λ d. d ≡ record db { relays = insert intent.relay_actor next db.relays })
              x
          → row.administrative_state ≢ target
          → Ends fails
              (ModerationReason lib db intent accepted)
              (Standing lib db intent.relay_actor row target accepted)
              x
      written (failed wrong) h apart = h
      written (done mid) h apart = record {
        relays = insert intent.relay_actor next db.relays;
        only = h;
        ok = insert-RelaysOk lib db.relays intent.relay_actor next c.relays_ok own;
        others = λ other k. ground (arith, lookup-insert intent.relay_actor other next db.relays);
        after = next;
        found = ground (
          arith,
          lookup-insert intent.relay_actor intent.relay_actor next db.relays,
          bytes_eq_refl intent.relay_actor,
        );
        change = changed apart refl;
        now = refl;
        same_lifecycle = refl;
      }

  abbrev outcome : ModerationOutcome
  outcome = (classify_moderation row.administrative_state target).outcome

  log-Moderated :
      (event : ModerationEvent) (mid : Database)
      → event.relay_actor ≡ intent.relay_actor
      → event.recorded_at ≡ accepted
      → Standing lib db intent.relay_actor row target accepted mid
      → Moderated lib db intent target accepted
          (record mid { moderation_events = mid.moderation_events ++ event ∷ [] })
          outcome
  log-Moderated event mid whose when h = rw h.only (record {
    step = record {
      consistent = record { relays_ok = h.ok; observations_ok = c.observations_ok };
      in_order = require_monotonic_time-none fails db intent.relay_actor accepted ordered;
      logged = moderation_logged event whose when refl refl;
      others = λ other k. (h.others other k, refl);
      same_policy = refl;
      same_discoveries = refl;
    };
    before = row;
    known = e;
    after = h.after;
    found = h.found;
    change = h.change;
    now = h.now;
    same_lifecycle = h.same_lifecycle;
    tells = classify_moderation-Tells row.administrative_state target;
    same_observations = refl;
  })

  moderation-Ends :
      Ends fails
        (ModerationReason lib db intent accepted)
        (Promised (Moderated lib db intent target accepted) (λ o. ⊥))
        (answered_moderation outcome (
          bind (change_standing fails db intent.relay_actor row target accepted) (λ mid.
            insert_moderation_event fails mid intent
              (classify_moderation row.administrative_state target).action
              accepted)))
  unfolding insert_moderation_event
  moderation-Ends = answered-Ends _ (
      bind-Ends fails (ModerationReason lib db intent accepted)
        (Standing lib db intent.relay_actor row target accepted) finished
        (change_standing fails db intent.relay_actor row target accepted)
        (λ mid.
          insert_moderation_event fails mid intent
            (classify_moderation row.administrative_state target).action accepted)
        change_standing-Ends
        (λ mid h.
          guarded-Ends fails (ModerationReason lib db intent accepted) finished
            write_moderation_event _ (log-Moderated _ mid refl refl h)))
    where
      finished : Database → Type 0
      finished next = Moderated lib db intent target accepted next outcome

      answered-Ends :
          (x : Attempt Database)
          → Ends fails (ModerationReason lib db intent accepted) finished x
          → Ends fails
              (ModerationReason lib db intent accepted)
              (Promised (Moderated lib db intent target accepted) (λ o. ⊥))
              (answered_moderation outcome x)
      answered-Ends (failed wrong) k = k
      answered-Ends (done next) k = k

-- `Suspend` and `Restore` in a consistent database, whatever statements fail: they commit the state that
-- was asked for on a relay that is retained, with an outcome that tells whether it changed, one new event,
-- the same lifecycle state and no change to other relays; or they fail and change nothing, and fail with a
-- storage failure only if some statement failed.
pub moderate-Moderated :
    (lib : Library) (fails : Faults) (db : Database) (intent : ModerationIntent) (accepted : ℕ)
    (target : AdministrativeState)
    → Consistent lib db
    → Settled fails
        (ModerationReason lib db intent accepted)
        (Moderated lib db intent target accepted)
        (λ o. ⊥)
        db
        (moderate lib fails db intent (since_epoch accepted) target)
unfolding moderate moderate_body transition_unix
moderate-Moderated lib fails db intent accepted target c =
    elim (Bool-cases (validate_moderation_intent lib intent)) [
      | inr bad ↦ rw bad (refused transition_input (λ sane. not_valid bad))
      | inl ok ↦ rw ok (
          transact-Settled fails (ModerationReason lib db intent accepted)
            (Moderated lib db intent target accepted) (λ o. ⊥) db _
            (guarded-Ends fails (ModerationReason lib db intent accepted) promise read_relay _
              (elim (Option-cases (lookup intent.relay_actor db.relays)) [
                | inl missing ↦ rw missing (λ sane. not_known missing)
                | inr (row, e) ↦ rw e (
                    checked-Ends fails (ModerationReason lib db intent accepted) promise
                      (require_monotonic_time fails db intent.relay_actor accepted) _
                      (λ sane wrong h.
                        let (which, early) =
                          require_monotonic_time-reason fails db intent.relay_actor accepted sane
                            wrong h in
                        rw which (late early))
                      (moderation-Ends lib fails db intent target accepted row c e))
              ])))
    ]
  where
    promise : Option Database × ModerationOutcome → Type 0
    promise = Promised (Moderated lib db intent target accepted) (λ o. ⊥)
