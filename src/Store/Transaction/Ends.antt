-- ===== src/Store/Transaction/Ends.antt =====
-- How an attempt ends, followed through the calls that make it up: what is done has a property, and what
-- fails has a reason, unless some statement failed.
use activity_relay_directory.Prelude.{
  ◌≡◌, refl, false, ◌||◌, Option, none, some, arith, Bool-cases, inl, inr, if◌then◌else◌,
}
use activity_relay_directory.Store.Schema.{Database}
use activity_relay_directory.Store.Transaction.{
  StoreError, storage_failure, Attempt, done, failed, Statement, Faults, admit_write,
  begin_transaction, commit, guarded, checked, bind, transact,
}

-- No statement fails.
abbrev pub Sane : Faults → Type 0
Sane fails = (statement : Statement) → fails statement ≡ false

abbrev pub Ends : {A : Type 0} → Faults → (StoreError → Type 0) → (A → Type 0) → Attempt A → Type 0
Ends fails F P (done a) = P a
Ends fails F P (failed e) = Sane fails → F e

module _ (fails : Faults) (F : StoreError → Type 0) where
  pub guarded-Ends :
      {A : Type 0} (P : A → Type 0) (statement : Statement) (rest : Attempt A)
      → Ends fails F P rest
      → Ends fails F P (guarded fails statement rest)
  guarded-Ends P statement rest h = elim (Bool-cases (fails statement)) [
    | inl broken ↦ rw broken (λ sane. absurd (ground (arith, sane statement)))
    | inr fine ↦ rw fine h
  ]

  pub checked-Ends :
      {A : Type 0} (P : A → Type 0) (verdict : Option StoreError) (rest : Attempt A)
      → (Sane fails → (e : StoreError) → verdict ≡ some e → F e)
      → (verdict ≡ none → Ends fails F P rest)
      → Ends fails F P (checked verdict rest)
  checked-Ends P none rest h k = k refl
  checked-Ends P (some e) rest h k = λ sane. h sane e refl

  pub bind-Ends :
      {A B : Type 0} (P : A → Type 0) (Q : B → Type 0) (x : Attempt A) (f : A → Attempt B)
      → Ends fails F P x
      → ((a : A) → P a → Ends fails F Q (f a))
      → Ends fails F Q (bind x f)
  bind-Ends P Q (done a) f h k = k a h
  bind-Ends P Q (failed e) f h k = h

-- What a finished transaction promises: it commits with `P`, or it answers with `Q` and leaves the database
-- as it was, or it fails, leaves the database as it was, and has the reason `F` unless some statement failed.
pub data Settled {A : Type 0} (fails : Faults) (F : StoreError → Type 0) (P : Database → A → Type 0)
    (Q : A → Type 0) (db : Database) : Database × Attempt A → Type 0 where
  committed : (next : Database) (a : A) → P next a → Settled fails F P Q db (next, done a)
  unwritten : (a : A) → Q a → Settled fails F P Q db (db, done a)
  refused : (e : StoreError) → (Sane fails → F e) → Settled fails F P Q db (db, failed e)

abbrev pub Promised :
    {A : Type 0} → (Database → A → Type 0) → (A → Type 0) → Option Database × A → Type 0
Promised P Q (none, a) = Q a
Promised P Q (some next, a) = P next a

pub transact-Settled :
    {A : Type 0} (fails : Faults) (F : StoreError → Type 0) (P : Database → A → Type 0)
    (Q : A → Type 0) (db : Database) (body : Attempt (Option Database × A))
    → Ends fails F (Promised P Q) body
    → Settled fails F P Q db (transact fails db body)
unfolding transact
transact-Settled {A = A} fails F P Q db body h =
    elim (Bool-cases (fails admit_write || fails begin_transaction)) [
      | inl broken ↦ rw broken (
          refused storage_failure
            (λ sane. absurd (ground (arith, sane admit_write, sane begin_transaction))))
      | inr fine ↦ rw fine (settle body h)
    ]
  where
    settle :
        (body : Attempt (Option Database × A))
        → Ends fails F (Promised P Q) body
        → Settled fails F P Q db (elim body [
          | failed e ↦ (db, failed e)
          | done (none, a) ↦ (db, done a)
          | done (some next, a) ↦
              if fails commit then (db, failed storage_failure) else (next, done a)
        ])
    settle (failed e) h = refused e h
    settle (done (none, a)) h = unwritten a h
    settle (done (some next, a)) h = elim (Bool-cases (fails commit)) [
      | inl broken ↦
          rw broken (refused storage_failure (λ sane. absurd (ground (arith, sane commit))))
      | inr fine ↦ rw fine (committed next a h)
    ]
