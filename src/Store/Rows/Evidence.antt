-- ===== src/Store/Rows/Evidence.antt =====
-- internal/storage/sqlite/discovery.go: what the evidence of a verified signature leaves.
use activity_relay_directory.Store.Rows.Consistent.{put_observation-Ends}
use activity_relay_directory.Store.Rows.Consistent.{ObservationsOk}
use activity_relay_directory.Prelude.{
  ℕ, ◌+◌, ◌≡◌, refl, sym, subst, true, false, Option, none, some, List, arith, Bool-cases,
  Option-cases, inl, inr, max, Bytes, bytes_eq, bytes_eq_iff, bytes_eq_refl, lookup, insert,
  lookup-insert,
}
use activity_relay_directory.Store.Schema.{
  Observation, Database, observation_check, null_or_to, actor_state_check, inbox_state_check,
  url_check, sized,
}
use activity_relay_directory.Store.Transaction.{
  StoreError, observation_time, Attempt, done, failed, Faults, read_observation, insert_observation,
  read_inserted_observation, write_observation,
}
use activity_relay_directory.Store.Transaction.Ends.{Ends, guarded-Ends, bind-Ends}
use activity_relay_directory.Store.Rows.{
  precedes, put_observation, retained, empty_observation, insert_empty_observation, mark_verified,
  mark_inserted, record_rfc9421_verified,
}

-- What the evidence of a signature leaves: the observations alone change.
pub record Evidence (db : Database) (actor : Bytes) (verified : ℕ) (next : Database) : Type 0 where
  pub observations : List (Bytes × Observation)
  pub only : next ≡ record db { observations = observations }
  pub ok : ObservationsOk observations
  pub marked :
      (row : Observation) × (lookup actor observations ≡ some row)
      × (row.rfc9421_verified ≡ some verified)
  pub others :
      (other : Bytes)
      → bytes_eq actor other ≡ false
      → lookup other observations ≡ lookup other db.observations

insert-ObservationsOk :
    (observations : List (Bytes × Observation)) (actor : Bytes) (row : Observation)
    → ObservationsOk observations
    → observation_check actor row ≡ true
    → ObservationsOk (insert actor row observations)
insert-ObservationsOk observations actor row ok h other found e =
    elim (Bool-cases (bytes_eq actor other)) [
      | inl same ↦
          let k : actor ≡ other = (bytes_eq_iff actor other).0 same in
          ground (arith, lookup-insert actor other row observations)
      | inr different ↦ ok other found (ground (arith, lookup-insert actor other row observations))
    ]

null_or_to-max : (t : Option ℕ) (n m : ℕ) → null_or_to t n ≡ true → null_or_to t (max n m) ≡ true
unfolding null_or_to
null_or_to-max none n m h = refl
null_or_to-max (some k) n m h = ground arith

null_or_to-verified : (n m : ℕ) → null_or_to (some m) (max n m) ≡ true
unfolding null_or_to
null_or_to-verified n m = ground arith

marked_check :
    (actor : Bytes) (row : Observation) (verified : ℕ)
    → observation_check actor row ≡ true
    → observation_check actor (record row {
      rfc9421_verified = some verified;
      updated_unix = max row.updated_unix verified;
      revision = row.revision + 1;
    })
      ≡ true
unfolding observation_check actor_state_check inbox_state_check
marked_check actor row verified h = ground (
  arith,
  null_or_to-max row.actor_last_checked row.updated_unix verified,
  null_or_to-max row.actor_last_success row.updated_unix verified,
  null_or_to-max row.inbox_declared row.updated_unix verified,
  null_or_to-max row.inbox_last_checked row.updated_unix verified,
  null_or_to-verified row.updated_unix verified,
)

mark_verified-Ends :
    (fails : Faults) (F : StoreError → Type 0) (db : Database) (actor : Bytes)
    (current : Observation) (verified : ℕ)
    → ObservationsOk db.observations
    → lookup actor db.observations ≡ some current
    → (precedes verified current.rfc9421_verified ≡ true → F observation_time)
    → Ends fails F (Evidence db actor verified) (mark_verified fails db actor current verified)
unfolding mark_verified put_observation
mark_verified-Ends fails F db actor current verified ok e newer =
    elim (Bool-cases (precedes verified current.rfc9421_verified)) [
      | inl early ↦ rw early (λ sane. newer early)
      | inr fine ↦
          rw fine (guarded-Ends fails F (Evidence db actor verified) write_observation _ written)
    ]
  where
    row : Observation
    row = record current {
      rfc9421_verified = some verified;
      updated_unix = max current.updated_unix verified;
      revision = current.revision + 1;
    }

    row_ok : observation_check actor row ≡ true
    row_ok = marked_check actor current verified (ok actor current e)

    written : Ends fails F (Evidence db actor verified) (put_observation db actor row)
    written = rw row_ok (record {
      observations = insert actor row db.observations;
      only = refl;
      ok = insert-ObservationsOk db.observations actor row ok row_ok;
      marked = (
        row,
        ground (arith, lookup-insert actor actor row db.observations, bytes_eq_refl actor),
        refl,
      );
      others = λ other h. ground (arith, lookup-insert actor other row db.observations);
    })

empty_check :
    (actor : Bytes) (updated_unix : ℕ)
    → sized 4096 actor ≡ true
    → observation_check actor (empty_observation updated_unix) ≡ true
unfolding observation_check actor_state_check inbox_state_check url_check null_or_to
empty_check actor updated_unix h = rw h refl

insert_empty_observation-Ends :
    (fails : Faults) (F : StoreError → Type 0) (db : Database) (actor : Bytes) (updated_unix : ℕ)
    → retained db actor ≡ true
    → sized 4096 actor ≡ true
    → Ends fails F
        (λ db'. db' ≡ record db {
          observations = insert actor (empty_observation updated_unix) db.observations;
        })
        (insert_empty_observation fails db actor updated_unix)
unfolding insert_empty_observation
insert_empty_observation-Ends fails F db actor updated_unix known short =
    elim (Bool-cases (fails insert_observation)) [
      | inl broken ↦ rw broken (λ sane. absurd (ground (arith, sane insert_observation)))
      | inr fine ↦
          rw (fine, known)
            (put_observation-Ends fails F db actor (empty_observation updated_unix)
              (empty_check actor updated_unix short))
    ]

-- The evidence of an actor that is retained fails for reasons of the database or for an older reading
-- alone, and changes nothing else.
pub record_rfc9421_verified-Ends :
    (fails : Faults) (F : StoreError → Type 0) (db : Database) (actor : Bytes) (verified : ℕ)
    → ((current : Observation)
        → lookup actor db.observations ≡ some current
        → precedes verified current.rfc9421_verified ≡ true
        → F observation_time)
    → ObservationsOk db.observations
    → retained db actor ≡ true
    → sized 4096 actor ≡ true
    → Ends fails F (Evidence db actor verified) (record_rfc9421_verified fails db actor verified)
unfolding record_rfc9421_verified mark_inserted
record_rfc9421_verified-Ends fails F db actor verified newer ok known short =
    guarded-Ends fails F (Evidence db actor verified) read_observation _
      (elim (Option-cases (lookup actor db.observations)) [
        | inr (current, e) ↦
            rw e (mark_verified-Ends fails F db actor current verified ok e (newer current e))
        | inl missing ↦ rw missing (
            bind-Ends fails F _ (Evidence db actor verified)
              (insert_empty_observation fails db actor verified) _
              (insert_empty_observation-Ends fails F db actor verified known short)
              (λ db' e.
                subst
                  (λ d.
                    Ends fails F (Evidence db actor verified)
                      (mark_inserted fails d actor verified))
                  (sym e) marked_filled))
      ])
  where
    empty : Observation
    empty = empty_observation verified

    filled : Database
    filled = record db { observations = insert actor empty db.observations }

    filled_ok : ObservationsOk filled.observations
    filled_ok =
        insert-ObservationsOk db.observations actor empty ok (empty_check actor verified short)

    inserted : lookup actor (insert actor empty db.observations) ≡ some empty
    inserted = ground (arith, lookup-insert actor actor empty db.observations, bytes_eq_refl actor)

    through :
        (x : Attempt Database)
        → Ends fails F (Evidence filled actor verified) x
        → Ends fails F (Evidence db actor verified) x
    through (done next) k = record {
      observations = k.observations;
      only = k.only;
      ok = k.ok;
      marked = k.marked;
      others = λ other h.
          ground (arith, k.others other h, lookup-insert actor other empty db.observations);
    }
    through (failed e) k = k

    marked_filled :
        Ends fails F (Evidence db actor verified) (mark_inserted fails filled actor verified)
    marked_filled = guarded-Ends fails F (Evidence db actor verified) read_inserted_observation _ (
        rw inserted (
          through (mark_verified fails filled actor empty verified) (
            mark_verified-Ends fails F filled actor empty verified filled_ok inserted
              (λ wrong. ground arith))))
