-- ===== src/Growth/Guard/Alerts.antt =====
-- internal/storage/sqlite/growth.go: the alerts that are pending after a sample, and after a delivery.
use activity_relay_directory.Prelude.{
  ℕ, ◌+◌, ◌≤◌, ◌<◌, ◌≡◌, refl, Bool, true, false, not, ◌&&◌, ◌||◌, Option, none, some, leb, is_some,
  arith, if◌then◌else◌, ap, ◌∙◌, sym, subst,
}
use activity_relay_directory.Store.Rows.{since_epoch}
use activity_relay_directory.Growth.State.{
  GrowthState, AlertKind, is_normal, alert_kind_for_state, alert_kind_for_transition,
}
use activity_relay_directory.Growth.Sample.{Outcome, ok, err, Readings, Sample}
use activity_relay_directory.Growth.Row.{
  Row, names, same_state, elapsed, clear_pending, schedule, note_transition, first_alert_due,
  reminder_due, retry_delay, note_failure,
}
use activity_relay_directory.Growth.Guard.{
  Guard, write_row, write_if, scheduled, kept_sample, alerts_changed, finish_sample, record_sample,
  keep_sample, sample_locked, due, write_or_mark, delivered,
}

-- What the row says of alerts after a sample in the state `reached`.
pub record Told (email_enabled : Bool) (reminder : ℕ) (reached : GrowthState) (now : ℕ)
    (before after : Row) : Type 0 where
  pub state_is : same_state after.growth_state reached ≡ true
  pub changed :
      same_state reached before.growth_state ≡ false
      → email_enabled ≡ true
      → (after.pending_kind ≡ some (alert_kind_for_transition before.growth_state reached))
        × (after.pending_since ≡ some now)
        × (after.retry_after ≡ some now)
        × (after.transition_at ≡ now)
  pub silent :
      same_state reached before.growth_state ≡ false
      → email_enabled ≡ false
      → after.pending_kind ≡ none
  pub undisturbed :
      same_state reached before.growth_state ≡ true
      → is_some before.pending_kind ≡ true
      → (after.pending_kind ≡ before.pending_kind)
        × (after.pending_since ≡ before.pending_since)
        × (after.retry_after ≡ before.retry_after)
        × (after.retry_attempt ≡ before.retry_attempt)
  pub informed :
      email_enabled ≡ true
      → is_normal reached ≡ false
      → (is_some after.pending_kind
          || names after.last_email_kind (alert_kind_for_state reached)
            && not (elapsed after.last_email_at reminder now))
        ≡ true

scheduled-Told :
    (email_enabled : Bool) (reminder : ℕ) (reached : GrowthState) (now bytes : ℕ) (row : Row)
    → Told email_enabled reminder reached now row
        (record (scheduled email_enabled reminder reached now row).0 {
          sampled_at = now;
          physical_bytes = bytes;
        })
unfolding scheduled note_transition first_alert_due reminder_due schedule clear_pending
scheduled-Told email_enabled reminder reached now bytes row = record {
  state_is = ground arith;
  changed = λ h e. ground arith;
  silent = λ h e. ground arith;
  undisturbed = λ h e. ground arith;
  informed = λ h e. ground arith;
}

write_if-written :
    (write : Bool) (guard written : Guard) (fails : Bool)
    → write_if write guard fails ≡ some written
    → (written.last ≡ guard.last)
      × (written.loaded ≡ guard.loaded)
      × (write ≡ true → written.stored ≡ written.loaded)
unfolding write_if write_row
write_if-written true guard written fails e = (ground arith, ground arith, λ w. ground arith)
write_if-written false guard written fails e = (ground arith, ground arith, λ w. cc)

-- What a successful sample leaves: the sample, the row with its alerts, and that row in the database where a
-- state or an alert changed.
pub record Noted (guard : Guard) (now : ℕ) (sample : Sample) (transitioned : Bool) (next : Guard)
    : Type 0 where
  pub sample_is : next.last ≡ some sample
  pub told :
      Told guard.email_enabled guard.reminder sample.growth_state now guard.loaded next.loaded
  pub transition_is : transitioned ≡ not (same_state sample.growth_state guard.loaded.growth_state)
  pub stored_is : transitioned ≡ true → next.stored ≡ next.loaded

alerts_changed-moved :
    (guard : Guard) (now : ℕ) (taken : Sample) (persist_periodic : Bool)
    → not (same_state taken.growth_state guard.loaded.growth_state) ≡ true
    → (alerts_changed guard now taken || persist_periodic) ≡ true
unfolding scheduled
alerts_changed-moved guard now taken persist_periodic h = rw h refl

finish_sample-Noted :
    (guard : Guard) (now : ℕ) (taken sample : Sample) (persist_periodic transitioned : Bool)
    (written : Option Guard)
    → ((next : Guard)
        → written ≡ some next
        → (next.last ≡ some taken)
          × (next.loaded ≡ (kept_sample guard now taken).loaded)
          × ((alerts_changed guard now taken || persist_periodic) ≡ true
              → next.stored ≡ next.loaded))
    → (finish_sample
        (kept_sample guard now taken)
        taken
        (not (same_state taken.growth_state guard.loaded.growth_state))
        written).1
      ≡ ok (sample, transitioned)
    → Noted guard now sample transitioned
        (finish_sample
          (kept_sample guard now taken)
          taken
          (not (same_state taken.growth_state guard.loaded.growth_state))
          written).0
unfolding kept_sample scheduled
finish_sample-Noted guard now taken sample persist_periodic transitioned none h e =
    absurd (ground arith)
finish_sample-Noted guard now taken sample persist_periodic transitioned (some next) h e =
    let (last_is, loaded_is, stored_is) = h next refl in
    let same : taken ≡ sample = ground arith in
    let moved : not (same_state taken.growth_state guard.loaded.growth_state) ≡ transitioned =
      ground arith in
    record {
      sample_is = last_is ∙ ap some same;
      told =
          subst
            (λ (s : Sample).
              Told guard.email_enabled guard.reminder s.growth_state now guard.loaded next.loaded)
            same
            (subst
              (λ row.
                Told guard.email_enabled guard.reminder taken.growth_state now guard.loaded row)
              (sym loaded_is)
              (scheduled-Told guard.email_enabled guard.reminder taken.growth_state now
                taken.family_bytes guard.loaded));
      transition_is =
          sym moved
          ∙ ap (λ (s : Sample). not (same_state s.growth_state guard.loaded.growth_state)) same;
      stored_is =
          λ t. stored_is (alerts_changed-moved guard now taken persist_periodic (moved ∙ t));
    }

keep_sample-Noted :
    (guard : Guard) (now : ℕ) (persist_periodic fails : Bool) (taken : Outcome Sample)
    (sample : Sample) (transitioned : Bool)
    → (keep_sample guard now persist_periodic fails taken).1 ≡ ok (sample, transitioned)
    → Noted guard now sample transitioned (keep_sample guard now persist_periodic fails taken).0
unfolding keep_sample record_sample kept_sample
keep_sample-Noted guard now persist_periodic fails (err failure) sample transitioned e =
    absurd (ground arith)
keep_sample-Noted guard now persist_periodic fails (ok taken) sample transitioned e =
    let write = alerts_changed guard now taken || persist_periodic in
    finish_sample-Noted guard now taken sample persist_periodic transitioned
      (write_if write (kept_sample guard now taken) fails)
      (λ next w. write_if-written write (kept_sample guard now taken) next fails w) e

-- A successful sample is the last one, and the guard's state is the one it reached. Where the state changed,
-- its alert is pending from now on if mail is enabled and no alert is if not, and the row is in the database.
-- Where it did not, a pending alert stays as it was. With mail enabled, outside the normal state, an alert is
-- pending or the last one mailed was for this state and less than a reminder interval ago.
pub sample_locked-Noted :
    (guard : Guard) (now : ℕ) (readings : Readings) (persist_periodic fails : Bool)
    (sample : Sample) (transitioned : Bool)
    → (sample_locked guard (since_epoch now) readings persist_periodic fails).1
      ≡ ok (sample, transitioned)
    → Noted guard now sample transitioned
        (sample_locked guard (since_epoch now) readings persist_periodic fails).0
unfolding sample_locked
sample_locked-Noted guard now readings persist_periodic fails sample transitioned e =
    keep_sample-Noted guard now persist_periodic fails _ sample transitioned e

write_or_mark-keeps :
    (guard : Guard) (fails : Bool)
    → ((write_or_mark guard fails).loaded ≡ guard.loaded)
      × ((write_or_mark guard fails).email_enabled ≡ guard.email_enabled)
unfolding write_row
write_or_mark-keeps guard fails = ground arith

retry_delay_bounds : (attempt : ℕ) → (300 ≤ retry_delay attempt) × (retry_delay attempt ≤ 86_400)
unfolding retry_delay
retry_delay_bounds attempt = ground arith

delivered-note_failure :
    (guard : Guard) (kind : AlertKind) (since now : ℕ) (fails : Bool)
    → guard.loaded.pending_kind ≡ some kind
    → guard.loaded.pending_since ≡ some since
    → ((delivered guard kind since false (since_epoch now) fails).loaded
        ≡ note_failure now guard.loaded)
      × ((delivered guard kind since false (since_epoch now) fails).email_enabled
          ≡ guard.email_enabled)
unfolding delivered
delivered-note_failure guard kind since now fails pending from =
    ground
      (arith, write_or_mark-keeps (record guard { loaded = note_failure now guard.loaded }) fails)

due-note_failure :
    (next : Guard) (row : Row) (kind : AlertKind) (since now later : ℕ)
    → next.email_enabled ≡ true
    → next.loaded ≡ note_failure now row
    → row.pending_kind ≡ some kind
    → row.pending_since ≡ some since
    → due next false (since_epoch later)
      ≡ (if leb (now + retry_delay row.retry_attempt) later then some (kind, since) else none)
unfolding due note_failure
due-note_failure next row kind since now later on is pending from = ground arith

-- A pending alert whose mail fails is not due again for five minutes, and is due, as the same alert, a day
-- later at the latest, whether or not the row was written.
pub due-delivered :
    (guard : Guard) (kind : AlertKind) (since now later : ℕ) (fails : Bool)
    → guard.email_enabled ≡ true
    → guard.loaded.pending_kind ≡ some kind
    → guard.loaded.pending_since ≡ some since
    → (later < now + 300
        → due (delivered guard kind since false (since_epoch now) fails) false (since_epoch later)
          ≡ none)
      × (now + 86_400 ≤ later
          → due (delivered guard kind since false (since_epoch now) fails) false (since_epoch later)
            ≡ some (kind, since))
due-delivered guard kind since now later fails on pending from =
    let (row_is, on_is) = delivered-note_failure guard kind since now fails pending from in
    let due_is =
      due-note_failure (delivered guard kind since false (since_epoch now) fails) guard.loaded kind
        since now later (on_is ∙ on) row_is pending from in
    let (low, high) = retry_delay_bounds guard.loaded.retry_attempt in
    (λ soon. due_is ∙ ground arith, λ long. due_is ∙ ground arith)
