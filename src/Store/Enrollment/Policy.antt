-- ===== src/Store/Enrollment/Policy.antt =====
-- internal/storage/sqlite/enrollment.go: `SetEnrollment` on every branch.
use activity_relay_directory.Prelude.{
  ℕ, ◌≡◌, refl, Bool, true, false, Option, none, some, [], ◌∷◌, ◌++◌, arith, Bool-cases, inl, inr,
  Bytes, if◌then◌else◌,
}
use activity_relay_directory.Store.Schema.{Database, EnrollmentAction}
use activity_relay_directory.Store.Transaction.{
  StoreError, transition_input, transition_time, Attempt, done, failed, Faults, read_enrollment,
  read_policy_time, read_enrollment_time, write_policy, write_enrollment_event,
}
use activity_relay_directory.Store.Transaction.Ends.{
  Sane, Ends, guarded-Ends, checked-Ends, bind-Ends, Settled, refused, Promised, transact-Settled,
}
use activity_relay_directory.Store.Rows.{since_epoch, transition_unix, later, precedes}
use activity_relay_directory.Store.Enrollment.{
  EnrollmentOutcome, opened, already_open, closed, already_closed, valid_operator_id,
  classify_enrollment, latest_enrollment, require_enrollment_time, differs, put_policy,
  insert_enrollment_event, answered_enrollment, set_enrollment_body, set_enrollment,
}

abbrev pub policy_latest : Database → Option ℕ
policy_latest db = later (some db.policy_updated_at) (latest_enrollment db.enrollment_events)

-- The outcome tells the policy before and the policy that was asked for.
abbrev pub Tells : EnrollmentOutcome → Bool → Bool → Type 0
Tells opened before target = (before ≡ false) × (target ≡ true)
Tells already_open before target = (before ≡ true) × (target ≡ true)
Tells closed before target = (before ≡ true) × (target ≡ false)
Tells already_closed before target = (before ≡ false) × (target ≡ false)

pub record Enrolled (db : Database) (target : Bool) (operator_id : Bytes) (accepted : ℕ)
    (next : Database) (outcome : EnrollmentOutcome) : Type 0 where
  pub updated : ℕ
  pub action : EnrollmentAction
  pub only : next ≡ record db {
    enrollment_open = target;
    policy_updated_at = updated;
    enrollment_events =
        db.enrollment_events
        ++ record { action = action; operator_id = operator_id; recorded_at = accepted } ∷ [];
  }
  pub updated_is :
      updated ≡ (if differs db.enrollment_open target then accepted else db.policy_updated_at)
  pub in_order : precedes accepted (policy_latest db) ≡ false
  pub tells : Tells outcome db.enrollment_open target

-- Why `SetEnrollment` refuses, while no statement fails.
pub data EnrollmentReason (db : Database) (operator_id : Bytes) (accepted : ℕ)
    : StoreError → Type 0 where
  not_valid :
      valid_operator_id operator_id ≡ false
      → EnrollmentReason db operator_id accepted transition_input
  late :
      precedes accepted (policy_latest db) ≡ true
      → EnrollmentReason db operator_id accepted transition_time

require_enrollment_time-reason :
    (fails : Faults) (db : Database) (operator_id : Bytes) (accepted : ℕ)
    → Sane fails
    → (e : StoreError) → require_enrollment_time fails db accepted ≡ some e
    → EnrollmentReason db operator_id accepted e
unfolding require_enrollment_time
require_enrollment_time-reason fails db operator_id accepted sane e h =
    elim (Bool-cases (precedes accepted (policy_latest db))) [
      | inl early ↦
          let which : e ≡ transition_time =
            ground (arith, sane read_policy_time, sane read_enrollment_time) in
          rw which (late early)
      | inr fine ↦ absurd (ground (arith, sane read_policy_time, sane read_enrollment_time))
    ]

require_enrollment_time-none :
    (fails : Faults) (db : Database) (accepted : ℕ)
    → require_enrollment_time fails db accepted ≡ none
    → precedes accepted (policy_latest db) ≡ false
unfolding require_enrollment_time
require_enrollment_time-none fails db accepted h =
    elim (Bool-cases (precedes accepted (policy_latest db))) [
      | inl early ↦ ground arith
      | inr fine ↦ fine
    ]

classify_enrollment-Tells :
    (before target : Bool) → Tells (classify_enrollment before target).0 before target
unfolding classify_enrollment
classify_enrollment-Tells true true = (refl, refl)
classify_enrollment-Tells true false = (refl, refl)
classify_enrollment-Tells false true = (refl, refl)
classify_enrollment-Tells false false = (refl, refl)

differs-false : (before target : Bool) → differs before target ≡ false → before ≡ target
differs-false true true h = refl
differs-false true false h = ground arith
differs-false false true h = ground arith
differs-false false false h = refl

differs_refl : (b : Bool) → differs b b ≡ false
differs_refl true = refl
differs_refl false = refl

module _ (fails : Faults) (db : Database) (target : Bool) (operator_id : Bytes) (accepted : ℕ) where
  updated_time : ℕ
  updated_time = if differs db.enrollment_open target then accepted else db.policy_updated_at

  Set : Database → Type 0
  Set mid = mid ≡ record db { enrollment_open = target; policy_updated_at = updated_time }

  put_policy-Ends :
      Ends fails
        (EnrollmentReason db operator_id accepted)
        Set
        (put_policy fails db target accepted)
  unfolding put_policy Set updated_time
  put_policy-Ends = elim (Bool-cases (differs db.enrollment_open target)) [
    | inl changed ↦ rw changed (
        guarded-Ends fails (EnrollmentReason db operator_id accepted) Set write_policy _
          (rw changed refl))
    | inr same ↦
        let equal : db.enrollment_open ≡ target = differs-false db.enrollment_open target same in
        rw same (rw (← equal, differs_refl db.enrollment_open) refl)
  ]

  abbrev Finished : Database → Type 0
  Finished next =
      Enrolled db target operator_id accepted next (classify_enrollment db.enrollment_open target).0

  insert_event-Ends :
      (mid : Database)
      → Set mid
      → precedes accepted (policy_latest db) ≡ false
      → Ends fails (EnrollmentReason db operator_id accepted) Finished (
          insert_enrollment_event fails mid
            (classify_enrollment db.enrollment_open target).1
            operator_id
            accepted)
  unfolding insert_enrollment_event Set updated_time
  insert_event-Ends mid h order =
      guarded-Ends fails (EnrollmentReason db operator_id accepted) Finished write_enrollment_event
        _
        (record {
          updated = updated_time;
          action = (classify_enrollment db.enrollment_open target).1;
          only = rw h refl;
          updated_is = refl;
          in_order = order;
          tells = classify_enrollment-Tells db.enrollment_open target;
        })

  answered-Ends :
      (outcome : EnrollmentOutcome) (x : Attempt Database)
      → Ends fails
          (EnrollmentReason db operator_id accepted)
          (λ next. Enrolled db target operator_id accepted next outcome)
          x
      → Ends fails
          (EnrollmentReason db operator_id accepted)
          (Promised (Enrolled db target operator_id accepted) (λ o. ⊥))
          (answered_enrollment outcome x)
  answered-Ends outcome (failed e) k = k
  answered-Ends outcome (done next) k = k

-- `SetEnrollment`, whatever statements fail: it commits the policy that was asked for, with an outcome that
-- tells whether it changed, its time where it did, one new event and nothing else; or it fails, changes
-- nothing and has one of two reasons, unless some statement failed.
pub set_enrollment-Enrolled :
    (fails : Faults) (db : Database) (target : Bool) (operator_id : Bytes) (accepted : ℕ)
    → Settled fails
        (EnrollmentReason db operator_id accepted)
        (Enrolled db target operator_id accepted)
        (λ o. ⊥)
        db
        (set_enrollment fails db target operator_id (since_epoch accepted))
unfolding set_enrollment set_enrollment_body transition_unix
set_enrollment-Enrolled fails db target operator_id accepted =
    elim (Bool-cases (valid_operator_id operator_id)) [
      | inr bad ↦ rw bad (refused transition_input (λ sane. not_valid bad))
      | inl ok ↦ rw ok (
          transact-Settled fails R P (λ o. ⊥) db _
            (guarded-Ends fails R (Promised P (λ o. ⊥)) read_enrollment _ (
              checked-Ends fails R (Promised P (λ o. ⊥)) (require_enrollment_time fails db accepted)
                _ (require_enrollment_time-reason fails db operator_id accepted)
                (λ ordered. answered-Ends fails db target operator_id accepted c.0 _ (
                  bind-Ends fails R (Set fails db target operator_id accepted)
                    (Finished fails db target operator_id accepted)
                    (put_policy fails db target accepted)
                    (λ mid. insert_enrollment_event fails mid c.1 operator_id accepted)
                    (put_policy-Ends fails db target operator_id accepted)
                    (λ mid h.
                      insert_event-Ends fails db target operator_id accepted mid h
                        (require_enrollment_time-none fails db accepted ordered)))))))
    ]
  where
    R : StoreError → Type 0
    R = EnrollmentReason db operator_id accepted

    P : Database → EnrollmentOutcome → Type 0
    P = Enrolled db target operator_id accepted

    c : EnrollmentOutcome × EnrollmentAction
    c = classify_enrollment db.enrollment_open target
