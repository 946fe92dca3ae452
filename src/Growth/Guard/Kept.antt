-- ===== src/Growth/Guard/Kept.antt =====
-- internal/storage/sqlite/growth.go: the row that a guard holds, and the one that it has written.
use activity_relay_directory.Prelude.{
  ℕ, ◌≡◌, refl, Bool, true, false, not, ◌||◌, Option, none, some, List, [], ◌∷◌, arith, Bool-cases,
  Option-cases, inl, inr, if◌then◌else◌,
}
use activity_relay_directory.Store.Rows.{ClockTime, since_epoch, before_epoch}
use activity_relay_directory.Growth.State.{GrowthState, AlertKind}
use activity_relay_directory.Growth.Sample.{Outcome, ok, err, Readings, Policy, Sample}
use activity_relay_directory.Growth.Row.{Row, row_check, names, same_state, note_sent, note_failure}
use activity_relay_directory.Growth.Row.Check.{
  row_check-attempt, schedule_if-row_check, note_transition-row_check, note_sent-row_check,
  note_failure-row_check, sampled-row_check,
}
use activity_relay_directory.Growth.Guard.{
  Guard, since_is, unhealthy, write_row, write_or_mark, scheduled, kept_sample, alerts_changed,
  write_if, finish_sample, record_sample, keep_sample, sample_locked, signal_if, admit_sample,
  end_tick, acquire_write, tick, delivered, Call, acquire_call, tick_call, delivery_call, step, run,
}

-- The guard keeps the policy that it was made with, and both rows meet their constraints.
pub record Kept (policy : Policy) (guard : Guard) : Type 0 where
  pub policy_is : guard.policy ≡ policy
  pub loaded_ok : row_check guard.loaded ≡ true
  pub stored_ok : row_check guard.stored ≡ true

pub write_row-stores :
    (guard : Guard)
    → row_check guard.loaded ≡ true
    → write_row guard false ≡ some (record guard { stored = guard.loaded })
unfolding write_row
write_row-stores guard h = ground (arith, row_check-attempt guard.loaded h)

write_row-Kept :
    (policy : Policy) (guard written : Guard) (fails : Bool)
    → Kept policy guard
    → write_row guard fails ≡ some written
    → Kept policy written
unfolding write_row
write_row-Kept policy guard written fails k e = ground arith

pub scheduled-row_check :
    (email_enabled : Bool) (reminder : ℕ) (reached : GrowthState) (now : ℕ) (row : Row)
    → row_check row ≡ true
    → row_check (scheduled email_enabled reminder reached now row).0 ≡ true
unfolding scheduled
scheduled-row_check email_enabled reminder reached now row h =
    schedule_if-row_check _ reached now _ (
      schedule_if-row_check _ reached now _
        (note_transition-row_check email_enabled reached now row h))

unhealthy-Kept :
    (policy : Policy) (guard : Guard) → Kept policy guard → Kept policy (unhealthy guard)
unhealthy-Kept policy guard k = record {
  policy_is = k.policy_is;
  loaded_ok = k.loaded_ok;
  stored_ok = k.stored_ok;
}

healthy-Kept :
    (policy : Policy) (guard : Guard)
    → Kept policy guard
    → Kept policy (record guard { sample_healthy = true })
healthy-Kept policy guard k = record {
  policy_is = k.policy_is;
  loaded_ok = k.loaded_ok;
  stored_ok = k.stored_ok;
}

write_if-Kept :
    (policy : Policy) (write : Bool) (guard written : Guard) (fails : Bool)
    → Kept policy guard
    → write_if write guard fails ≡ some written
    → Kept policy written
unfolding write_if
write_if-Kept policy true guard written fails k e = write_row-Kept policy guard written fails k e
write_if-Kept policy false guard written fails k e = ground arith

pub kept_sample-row_check :
    (guard : Guard) (now : ℕ) (sample : Sample)
    → row_check guard.loaded ≡ true
    → row_check (kept_sample guard now sample).loaded ≡ true
unfolding kept_sample
kept_sample-row_check guard now sample h =
    sampled-row_check now sample.family_bytes _ (
      scheduled-row_check guard.email_enabled guard.reminder sample.growth_state now guard.loaded h)

kept_sample-Kept :
    (policy : Policy) (guard : Guard) (now : ℕ) (sample : Sample)
    → Kept policy guard
    → Kept policy (kept_sample guard now sample)
unfolding kept_sample
kept_sample-Kept policy guard now sample k = record {
  policy_is = k.policy_is;
  loaded_ok = kept_sample-row_check guard now sample k.loaded_ok;
  stored_ok = k.stored_ok;
}

finish_sample-Kept :
    (policy : Policy) (kept : Guard) (sample : Sample) (transitioned : Bool)
    (written : Option Guard)
    → Kept policy kept
    → ((next : Guard) → written ≡ some next → Kept policy next)
    → Kept policy (finish_sample kept sample transitioned written).0
finish_sample-Kept policy kept sample transitioned none k next_ok = unhealthy-Kept policy kept k
finish_sample-Kept policy kept sample transitioned (some next) k next_ok =
    healthy-Kept policy next (next_ok next refl)

record_sample-Kept :
    (policy : Policy) (guard : Guard) (now : ℕ) (sample : Sample) (persist_periodic fails : Bool)
    → Kept policy guard
    → Kept policy (record_sample guard now sample persist_periodic fails).0
unfolding record_sample
record_sample-Kept policy guard now sample persist_periodic fails k =
    let kept = kept_sample-Kept policy guard now sample k in
    let write = alerts_changed guard now sample || persist_periodic in
    finish_sample-Kept policy (kept_sample guard now sample) sample
      (not (same_state sample.growth_state guard.loaded.growth_state))
      (write_if write (kept_sample guard now sample) fails) kept
      (λ next e. write_if-Kept policy write (kept_sample guard now sample) next fails kept e)

keep_sample-Kept :
    (policy : Policy) (guard : Guard) (now : ℕ) (persist_periodic fails : Bool)
    (taken : Outcome Sample)
    → Kept policy guard
    → Kept policy (keep_sample guard now persist_periodic fails taken).0
unfolding keep_sample
keep_sample-Kept policy guard now persist_periodic fails (err e) k = unhealthy-Kept policy guard k
keep_sample-Kept policy guard now persist_periodic fails (ok sample) k =
    record_sample-Kept policy guard now sample persist_periodic fails k

pub sample_locked-Kept :
    (policy : Policy) (guard : Guard) (now : ClockTime) (readings : Readings)
    (persist_periodic fails : Bool)
    → Kept policy guard
    → Kept policy (sample_locked guard now readings persist_periodic fails).0
unfolding sample_locked
sample_locked-Kept policy guard (before_epoch n) readings persist_periodic fails k =
    unhealthy-Kept policy guard k
sample_locked-Kept policy guard (since_epoch now) readings persist_periodic fails k =
    keep_sample-Kept policy guard now persist_periodic fails _ k

signal_if-Kept :
    (policy : Policy) (transitioned : Bool) (guard : Guard)
    → Kept policy guard
    → Kept policy (signal_if transitioned guard)
signal_if-Kept policy true guard k = record {
  policy_is = k.policy_is;
  loaded_ok = k.loaded_ok;
  stored_ok = k.stored_ok;
}
signal_if-Kept policy false guard k = k

write_or_mark-Kept :
    (policy : Policy) (guard : Guard) (fails : Bool)
    → Kept policy guard
    → Kept policy (write_or_mark guard fails)
write_or_mark-Kept policy guard fails k = elim (Option-cases (write_row guard fails)) [
  | inl e ↦ rw (e, write_or_mark) (unhealthy-Kept policy guard k)
  | inr (written, e) ↦ rw (e, write_or_mark) (write_row-Kept policy guard written fails k e)
]

delivered-Kept :
    (policy : Policy) (guard : Guard) (kind : AlertKind) (since : ℕ) (sent : Bool) (now : ClockTime)
    (fails : Bool)
    → Kept policy guard
    → Kept policy (delivered guard kind since sent now fails)
unfolding delivered
delivered-Kept policy guard kind since sent (before_epoch n) fails k = k
delivered-Kept policy guard kind since sent (since_epoch now) fails k =
    elim (Bool-cases (names guard.loaded.pending_kind kind)) [
      | inr other ↦ rw other k
      | inl same ↦ rw same (elim (Bool-cases (since_is guard.loaded.pending_since since)) [
        | inr other ↦ rw other k
        | inl still ↦ rw still (answered sent same)
      ])
    ]
  where
    answered :
        (sent : Bool)
        → names guard.loaded.pending_kind kind ≡ true
        → Kept policy (
            if sent
            then write_or_mark (record guard { loaded = note_sent kind now guard.loaded }) fails
            else write_or_mark (record guard { loaded = note_failure now guard.loaded }) fails)
    answered true same = write_or_mark-Kept policy _ fails (record {
      policy_is = k.policy_is;
      loaded_ok = note_sent-row_check kind now guard.loaded k.loaded_ok;
      stored_ok = k.stored_ok;
    })
    answered false same = write_or_mark-Kept policy _ fails (record {
      policy_is = k.policy_is;
      loaded_ok = note_failure-row_check kind now guard.loaded same k.loaded_ok;
      stored_ok = k.stored_ok;
    })

admit_sample-Kept :
    (policy : Policy) (taken : Guard × Outcome (Sample × Bool))
    → Kept policy taken.0
    → Kept policy (admit_sample taken).0
unfolding admit_sample
admit_sample-Kept policy (sampled, err e) h = h
admit_sample-Kept policy (sampled, ok (sample, transitioned)) h =
    signal_if-Kept policy transitioned sampled h

acquire_write-Kept :
    (policy : Policy) (guard : Guard) (is_canceled : Bool) (now : ClockTime) (readings : Readings)
    (fails : Bool)
    → Kept policy guard
    → Kept policy (acquire_write guard is_canceled now readings fails).0
unfolding acquire_write
acquire_write-Kept policy guard true now readings fails k = k
acquire_write-Kept policy guard false now readings fails k =
    admit_sample-Kept policy _ (sample_locked-Kept policy guard now readings false fails k)

end_tick-Kept :
    (policy : Policy) (taken : Guard × Outcome (Sample × Bool))
    → Kept policy taken.0
    → Kept policy (end_tick taken)
unfolding end_tick
end_tick-Kept policy (sampled, err e) h = h
end_tick-Kept policy (sampled, ok (sample, transitioned)) h =
    signal_if-Kept policy transitioned sampled h

tick-Kept :
    (policy : Policy) (guard : Guard) (is_canceled : Bool) (now : ClockTime) (readings : Readings)
    (fails : Bool)
    → Kept policy guard
    → Kept policy (tick guard is_canceled now readings fails)
unfolding tick
tick-Kept policy guard true now readings fails k = k
tick-Kept policy guard false now readings fails k =
    end_tick-Kept policy _ (sample_locked-Kept policy guard now readings true fails k)

step-Kept :
    (policy : Policy) (guard : Guard) (call : Call)
    → Kept policy guard
    → Kept policy (step guard call)
unfolding step
step-Kept policy guard (acquire_call is_canceled now readings fails) k =
    acquire_write-Kept policy guard is_canceled now readings fails k
step-Kept policy guard (tick_call is_canceled now readings fails) k =
    tick-Kept policy guard is_canceled now readings fails k
step-Kept policy guard (delivery_call kind since sent now fails) k =
    delivered-Kept policy guard kind since sent now fails k

-- After any calls, in any order and with any results of mail, statements and readings, the policy is the
-- one that the guard was made with, and the row that it holds and the row of the database both meet the
-- constraints of the table.
pub run-Kept :
    (policy : Policy) (guard : Guard) (calls : List Call)
    → Kept policy guard
    → Kept policy (run guard calls)
unfolding run
run-Kept policy guard [] k = k
run-Kept policy guard (call ∷ calls) k =
    run-Kept policy (step guard call) calls (step-Kept policy guard call k)
