-- ===== src/Growth/Guard/Start.antt =====
-- internal/storage/sqlite/growth.go: a new guard, and the writes that it admits from then on.
use activity_relay_directory.Prelude.{
  ◌≡◌, refl, sym, ap, subst, Bool, true, false, some, List, arith, Bool-cases, Option-cases, inl,
  inr,
}
use activity_relay_directory.Store.Rows.{ClockTime}
use activity_relay_directory.Growth.Limits.{
  Pragmas, PageLimits, page_limits, verify_connection_policy,
}
use activity_relay_directory.Growth.Limits.Budget.{page_limits-Budget}
use activity_relay_directory.Growth.Sample.{
  configuration_error, Outcome, ok, err, Readings, Policy, Sample,
}
use activity_relay_directory.Growth.Sample.Boundary.{PolicyOk}
use activity_relay_directory.Growth.Row.{Row, row_check}
use activity_relay_directory.Growth.Guard.{Guard, acquire_write, Call, run}
use activity_relay_directory.Growth.Guard.Opening.{
  Options, options_refused, guard_of, new_guard, start_guard,
}
use activity_relay_directory.Growth.Guard.Kept.{Kept, sample_locked-Kept, run-Kept}
use activity_relay_directory.Growth.Guard.Admission.{Admitted, acquire_write-Admitted}

-- The bounds of a policy are the budget and the warning of the options, and the limits that the budget gives.
pub record Budgeted (options : Options) (pragmas : Pragmas) (policy : Policy) : Type 0 where
  pub limits : PageLimits
  pub found : page_limits pragmas options.max_bytes ≡ some limits
  pub budget : policy.max_bytes ≡ options.max_bytes
  pub main_limit : policy.main_limit ≡ limits.main_limit
  pub desired_pages : policy.desired_pages ≡ limits.desired_pages
  pub warning : policy.warning_percent ≡ options.warning_percent

-- What a new guard starts with.
pub record Started (options : Options) (pragmas : Pragmas) (guard : Guard) : Type 0 where
  pub policy_ok : PolicyOk guard.policy
  pub budgeted : Budgeted options pragmas guard.policy
  pub rows_ok : Kept guard.policy guard

policy_of :
    (options : Options) (pragmas : Pragmas) (limits : PageLimits) (row : Row)
    → options_refused options ≡ false
    → page_limits pragmas options.max_bytes ≡ some limits
    → PolicyOk (guard_of options limits row).policy
policy_of options pragmas limits row fine e =
    let (low, page_size, page_count, size_is, count_is, budget) =
      page_limits-Budget pragmas options.max_bytes limits e in
    record {
      budget_pos = ground arith;
      limit_pos = budget.limit_pos;
      warning_pos = ground arith;
      warning_low = ground arith;
    }

start_guard-Kept :
    (options : Options) (limits : PageLimits) (persisted : Row)
    (taken : Guard × Outcome (Sample × Bool)) (guard : Guard)
    → Kept (guard_of options limits persisted).policy taken.0
    → start_guard taken ≡ ok guard
    → Kept (guard_of options limits persisted).policy guard
start_guard-Kept options limits persisted (sampled, err e) guard k h = absurd (ground arith)
start_guard-Kept options limits persisted (sampled, ok result) guard k h =
    let same : record sampled { wake = true } ≡ guard = ground arith in
    subst (λ g. Kept (guard_of options limits persisted).policy g) same
      (record { policy_is = k.policy_is; loaded_ok = k.loaded_ok; stored_ok = k.stored_ok })

Kept-Started :
    (options : Options) (pragmas : Pragmas) (limits : PageLimits) (persisted : Row) (guard : Guard)
    → page_limits pragmas options.max_bytes ≡ some limits
    → PolicyOk (guard_of options limits persisted).policy
    → Kept (guard_of options limits persisted).policy guard
    → Started options pragmas guard
Kept-Started options pragmas limits persisted guard found p k = record {
  policy_ok = subst (λ policy. PolicyOk policy) (sym k.policy_is) p;
  budgeted = record {
    limits = limits;
    found = found;
    budget = ap (λ policy. policy.max_bytes) k.policy_is;
    main_limit = ap (λ policy. policy.main_limit) k.policy_is;
    desired_pages = ap (λ policy. policy.desired_pages) k.policy_is;
    warning = ap (λ policy. policy.warning_percent) k.policy_is;
  };
  rows_ok = record { policy_is = refl; loaded_ok = k.loaded_ok; stored_ok = k.stored_ok };
}

new_guard-Started :
    (options : Options) (pragmas : Pragmas) (persisted : Row) (now : ClockTime)
    (readings : Readings) (fails : Bool) (guard : Guard)
    → row_check persisted ≡ true
    → new_guard options pragmas (some persisted) now readings fails ≡ ok guard
    → Started options pragmas guard
unfolding new_guard
new_guard-Started options pragmas persisted now readings fails guard row_ok e =
    elim (Bool-cases (options_refused options)) [
      | inl refused ↦
          absurd (let k : err configuration_error ≡ ok guard = rw refused at e in ground arith)
      | inr fine ↦ elim (Option-cases (page_limits pragmas options.max_bytes)) [
        | inl no_limits ↦
            absurd (
              let k : err configuration_error ≡ ok guard = rw (fine, no_limits) at e in
              ground arith)
        | inr (limits, found) ↦
            let p = policy_of options pragmas limits persisted fine found in
            elim (Bool-cases (
              verify_connection_policy pragmas options.max_bytes limits.desired_pages
                limits.main_limit false)) [
                  | inr broken ↦ absurd (
                      let k : err configuration_error ≡ ok guard = rw (fine, found, broken) at e in
                      ground arith)
                  | inl agrees ↦ Kept-Started options pragmas limits persisted guard found p (
                      start_guard-Kept options limits persisted _ guard
                        (sample_locked-Kept (guard_of options limits persisted).policy
                          (guard_of options limits persisted) now readings true fails
                          (record { policy_is = refl; loaded_ok = row_ok; stored_ok = row_ok }))
                        (rw (fine, found, agrees) at e))
                ]
      ]
    ]

-- From a new guard over a row that meets its constraints, after any calls: the policy holds the budget and the
-- warning of the options, and the limits that `page_limits` gives for that budget. A write is admitted only
-- after a measurement in which the pages in use are below that limit and all files below that budget, and in
-- which the pressure is below 95 percent if the state before was hard.
pub run-new_guard-Admitted :
    (options : Options) (pragmas : Pragmas) (persisted : Row) (started : ClockTime)
    (first : Readings) (broken : Bool) (guard : Guard) (calls : List Call) (is_canceled : Bool)
    (now : ClockTime) (readings : Readings) (fails : Bool)
    → row_check persisted ≡ true
    → new_guard options pragmas (some persisted) started first broken ≡ ok guard
    → (acquire_write (run guard calls) is_canceled now readings fails).1 ≡ ok tt
    → Admitted (run guard calls) readings × Budgeted options pragmas (run guard calls).policy
run-new_guard-Admitted options pragmas persisted started first broken guard calls is_canceled now
      readings fails row_ok e lease =
    let s = new_guard-Started options pragmas persisted started first broken guard row_ok e in
    let k = run-Kept guard.policy guard calls s.rows_ok in
    (
      acquire_write-Admitted (run guard calls) is_canceled now readings fails
          (subst (λ policy. PolicyOk policy) (sym k.policy_is) s.policy_ok) lease,
      subst (λ policy. Budgeted options pragmas policy) (sym k.policy_is) s.budgeted,
    )
