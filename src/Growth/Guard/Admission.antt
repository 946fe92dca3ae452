-- ===== src/Growth/Guard/Admission.antt =====
-- internal/storage/sqlite/growth.go: what `AcquireWrite` answers.
use activity_relay_directory.Prelude.{
  ℕ, ◌<◌, ◌≡◌, refl, ◌∙◌, sym, ap, Bool, true, false, not, ◌||◌, Option, none, some, arith,
  Bool-cases, Option-cases, inl, inr, if◌then◌else◌,
}
use activity_relay_directory.Store.Rows.{ClockTime, since_epoch, before_epoch}
use activity_relay_directory.Growth.State.{GrowthState, is_hard}
use activity_relay_directory.Growth.Sample.{
  sample_error, write_admission_hard, Outcome, ok, err, Readings, Policy, Sizes, Sample, measure,
  next_state, policy_refused, sample_of, sample_growth,
}
use activity_relay_directory.Growth.Sample.Boundary.{PolicyOk, Within, not_hard-Within}
use activity_relay_directory.Growth.Row.{row_check, same_state}
use activity_relay_directory.Growth.Guard.{
  Guard, previous_bytes, unhealthy, kept_sample, alerts_changed, write_if, finish_sample,
  record_sample, keep_sample, sample_locked, admit_sample, acquire_write,
}
use activity_relay_directory.Growth.Guard.Kept.{write_row-stores, kept_sample-row_check}

policy-accepted :
    (policy : Policy) → PolicyOk policy → 0 < policy.desired_pages → policy_refused policy ≡ false
policy-accepted policy k pages = ground arith

sample_growth-measured :
    (policy : Policy) (readings : Readings) (sizes : Sizes) (now : ℕ) (before : Option ℕ)
    (previous : GrowthState)
    → policy_refused policy ≡ false
    → measure readings ≡ some sizes
    → sample_growth policy readings now before previous
      ≡ ok (sample_of policy sizes now before previous)
unfolding sample_growth
sample_growth-measured policy readings sizes now before previous p e = rw (p, e) refl

sample_growth-ok :
    (policy : Policy) (readings : Readings) (now : ℕ) (before : Option ℕ) (previous : GrowthState)
    (sample : Sample)
    → sample_growth policy readings now before previous ≡ ok sample
    → (sizes : Sizes) × (measure readings ≡ some sizes)
      × (sample.growth_state ≡ next_state policy sizes previous)
unfolding sample_growth sample_of
sample_growth-ok policy readings now before previous sample h =
    elim (Bool-cases (policy_refused policy)) [
      | inl refused ↦ absurd (ground arith)
      | inr fine ↦ elim (Option-cases (measure readings)) [
        | inl missing ↦ absurd (ground arith)
        | inr (sizes, e) ↦ (sizes, e, ground arith)
      ]
    ]

-- The answer of a lease, by the answer of the sample.
abbrev lease_for : Outcome (Sample × Bool) → Outcome (Unit {0})
lease_for (err e) = err e
lease_for (ok (sample, transitioned)) =
    if is_hard sample.growth_state then err write_admission_hard else ok tt

finish_sample-lease :
    (kept : Guard) (taken : Sample) (moved : Bool) (written : Option Guard)
    → lease_for (finish_sample kept taken moved written).1 ≡ ok tt
    → is_hard taken.growth_state ≡ false
finish_sample-lease kept taken moved none e = absurd (ground arith)
finish_sample-lease kept taken moved (some next) e = ground arith

record_sample-stores :
    (guard : Guard) (now : ℕ) (sample : Sample) (persist_periodic : Bool)
    → row_check guard.loaded ≡ true
    → (record_sample guard now sample persist_periodic false).1
      ≡ ok (sample, not (same_state sample.growth_state guard.loaded.growth_state))
unfolding record_sample write_if
record_sample-stores guard now sample persist_periodic h =
    elim (Bool-cases (alerts_changed guard now sample || persist_periodic)) [
      | inr skip ↦ rw skip refl
      | inl write ↦
          rw
            (
              write,
              write_row-stores (kept_sample guard now sample)
                  (kept_sample-row_check guard now sample h),
            )
            refl
    ]

admit_sample-lease :
    (taken : Guard × Outcome (Sample × Bool)) → (admit_sample taken).1 ≡ lease_for taken.1
unfolding admit_sample
admit_sample-lease (sampled, err e) = refl
admit_sample-lease (sampled, ok (sample, transitioned)) = refl

-- What an admitted write shows: a measurement of the files, in which the pages in use are below their limit
-- and all files below the budget.
pub record Admitted (guard : Guard) (readings : Readings) : Type 0 where
  pub sizes : Sizes
  pub measured : measure readings ≡ some sizes
  pub within : Within guard.policy sizes guard.loaded.growth_state

sample-Admitted :
    (guard : Guard) (now : ℕ) (readings : Readings) (persist_periodic fails : Bool)
    (taken : Outcome Sample)
    → PolicyOk guard.policy
    → sample_growth guard.policy readings now (previous_bytes guard) guard.loaded.growth_state
      ≡ taken
    → lease_for (keep_sample guard now persist_periodic fails taken).1 ≡ ok tt
    → Admitted guard readings
unfolding keep_sample record_sample
sample-Admitted guard now readings persist_periodic fails (err e) k h lease = absurd (ground arith)
sample-Admitted guard now readings persist_periodic fails (ok sample) k h lease =
    let (sizes, measured, state_is) =
      sample_growth-ok guard.policy readings now (previous_bytes guard) guard.loaded.growth_state
        sample h in
    record {
      sizes = sizes;
      measured = measured;
      within = not_hard-Within guard.policy sizes guard.loaded.growth_state k (
          ap is_hard (sym state_is)
          ∙ finish_sample-lease (kept_sample guard now sample) sample _ _ lease);
    }

-- A write is admitted only after a measurement in which the pages in use are below their limit and the
-- files below the budget; and if the state before was hard, the pressure is below 95 percent.
pub acquire_write-Admitted :
    (guard : Guard) (is_canceled : Bool) (now : ClockTime) (readings : Readings) (fails : Bool)
    → PolicyOk guard.policy
    → (acquire_write guard is_canceled now readings fails).1 ≡ ok tt
    → Admitted guard readings
unfolding acquire_write sample_locked
acquire_write-Admitted guard true now readings fails k h = absurd (ground arith)
acquire_write-Admitted guard false (before_epoch n) readings fails k h = absurd (
    let no : err sample_error ≡ ok tt =
      sym (admit_sample-lease (unhealthy guard, err sample_error)) ∙ h in
    ground arith)
acquire_write-Admitted guard false (since_epoch now) readings fails k h =
    sample-Admitted guard now readings false fails _ k refl (sym (admit_sample-lease _) ∙ h)

-- Where the clock, the files and the statement can be read and written, a write is refused exactly in the
-- hard state of this sample, and with that error.
pub acquire_write-measured :
    (guard : Guard) (now : ℕ) (readings : Readings) (sizes : Sizes)
    → PolicyOk guard.policy
    → 0 < guard.policy.desired_pages
    → row_check guard.loaded ≡ true
    → measure readings ≡ some sizes
    → (acquire_write guard false (since_epoch now) readings false).1 ≡ (
        if is_hard (next_state guard.policy sizes guard.loaded.growth_state)
        then err write_admission_hard
        else ok tt)
unfolding acquire_write sample_locked keep_sample sample_of
acquire_write-measured guard now readings sizes k pages row_ok measured =
    admit_sample-lease _
    ∙ ap (λ taken. lease_for (keep_sample guard now false false taken).1)
        (sample_growth-measured guard.policy readings sizes now (previous_bytes guard)
          guard.loaded.growth_state (policy-accepted guard.policy k pages) measured)
    ∙ ap lease_for (record_sample-stores guard now _ false row_ok)
