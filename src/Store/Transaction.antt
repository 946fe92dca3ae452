-- ===== src/Store/Transaction.antt =====
-- internal/storage/sqlite/relay.go: how a transition runs. What the database answers is a parameter: which
-- of the statements of a transaction fail, for reasons of their own.
pub mod Ends
use activity_relay_directory.Prelude.{Bool, ◌||◌, Option, none, some, if◌then◌else◌}
use activity_relay_directory.Store.Schema.{Database}

-- The errors of internal/storage/relay.go, and the one of the observations that a transition passes on.
pub data StoreError : Type 0 where
  transition_input transition_time relay_absent relay_suspended : StoreError
  enrollment_is_closed observation_time storage_failure : StoreError

pub data Attempt {ℓ} (A : Type ℓ) : Type ℓ where
  done : A → Attempt A
  failed : StoreError → Attempt A

pub data Statement : Type 0 where
  admit_write begin_transaction read_relay read_enrollment read_event_time : Statement
  read_moderation_time write_relay read_observation insert_observation : Statement
  read_inserted_observation write_observation read_retained write_event commit : Statement
  write_moderation_event read_policy_time read_enrollment_time write_policy : Statement
  write_enrollment_event read_rows_affected : Statement

abbrev pub Faults : Type 0
Faults = Statement → Bool

-- A statement whose error the source wraps as a storage failure.
abbrev pub guarded {ℓ} : {A : Type ℓ} → Faults → Statement → Attempt A → Attempt A
guarded fails statement rest = if fails statement then failed storage_failure else rest

-- `if err != nil { return "", err }` behind a call that answers an error alone.
abbrev pub checked {ℓ} : {A : Type ℓ} → Option StoreError → Attempt A → Attempt A
checked none rest = rest
checked (some e) rest = failed e

abbrev pub bind {ℓ ℓ'} : {A : Type ℓ} {B : Type ℓ'} → Attempt A → (A → Attempt B) → Attempt B
bind (done a) f = f a
bind (failed e) f = failed e

-- `begin`, the body and `Commit`, or the deferred `Rollback`. A body that answers no database returns
-- without a commit.
unfoldable pub transact :
    {A : Type 0} → Faults → Database → Attempt (Option Database × A) → Database × Attempt A
transact fails db body =
    if fails admit_write || fails begin_transaction
    then (db, failed storage_failure)
    else elim body [
      | failed e ↦ (db, failed e)
      | done (none, a) ↦ (db, done a)
      | done (some next, a) ↦ if fails commit then (db, failed storage_failure) else (next, done a)
    ]
