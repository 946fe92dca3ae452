-- ===== src/Replay/Table/Answer.antt =====
-- internal/storage/sqlite/replay.go: how the durable store answers a reservation.
use activity_relay_directory.Replay.Table.Reserve.{
  view, Swept, Swept-trans, drop_expired-Swept, cleanup_expired-Swept, drop_expired-live,
}
use activity_relay_directory.Prelude.{
  ap, Distinct, Distinct-insert, keys, ℕ, ◌<◌, ◌≡◌, ◌∙◌, refl, Bool, true, false, not, ◌&&◌, none,
  some, arith, Bool-cases, Option-cases, inl, inr, ltb, if◌then◌else◌, Bytes, bytes_eq, lookup,
  insert, lookup-insert,
}
use activity_relay_directory.Replay.Live.{View, Answered}
use activity_relay_directory.Replay.Table.{
  Reservation, Rows, drop_expired, cleanup_expired, insert_reservation, reserve_rows,
}

insert_reservation-taken :
    (key : Bytes) (now expires : ℕ) (rows : Rows) (row : Reservation)
    → lookup key rows ≡ some row
    → insert_reservation key now expires rows ≡ (rows, false)
unfolding insert_reservation
insert_reservation-taken key now expires rows row e = rw (e, insert_reservation) refl

insert_reservation-free :
    (key : Bytes) (now expires : ℕ) (rows : Rows)
    → lookup key rows ≡ none
    → insert_reservation key now expires rows
      ≡ (insert key (record { reserved_at = now; expires_at = expires }) rows, true)
unfolding insert_reservation
insert_reservation-free key now expires rows e = rw (e, insert_reservation) refl

insert_reservation-Answered :
    (key : Bytes) (now expires : ℕ) (rows : Rows)
    → now < expires
    → ((row : Reservation) → lookup key rows ≡ some row → now < row.expires_at)
    → Answered
        (view rows)
        (view (insert_reservation key now expires rows).0)
        key
        now
        expires
        (insert_reservation key now expires rows).1
insert_reservation-Answered key now expires rows h fresh = elim (Option-cases (lookup key rows)) [
  | inr (row, e) ↦
      let live = fresh row e in
      rw (insert_reservation-taken key now expires rows row e)
        (record { granted_is = rw e (ground arith); later = λ other time k. refl })
  | inl missing ↦ rw (insert_reservation-free key now expires rows missing) (record {
    granted_is = rw missing refl;
    later = λ other time k.
        rw (lookup-insert key other (record { reserved_at = now; expires_at = expires }) rows)
          (elim (Bool-cases (bytes_eq key other)) [
            | inl same ↦ rw same refl
            | inr apart ↦ rw apart refl
          ]);
  })
]

-- The deletions of a reservation are not seen from its time on.
Answered-Swept :
    (now : ℕ) (rows left : Rows) (after : View) (key : Bytes) (expires : ℕ) (granted : Bool)
    → Swept now rows left
    → Answered (view left) after key now expires granted
    → Answered (view rows) after key now expires granted
Answered-Swept now rows left after key expires granted s a = record {
  granted_is = a.granted_is ∙ ap not (s.agree key now (omega arith));
  later = λ other time h.
      a.later other time h
      ∙ ap (λ b. if granted && bytes_eq key other then ltb time expires else b)
          (s.agree other time h);
}

pub reserve_rows-Answered :
    (batch : ℕ) (key : Bytes) (now expires : ℕ) (rows : Rows)
    → now < expires
    → Distinct (keys rows)
    → Answered
        (view rows)
        (view (reserve_rows batch key now expires rows).0)
        key
        now
        expires
        (reserve_rows batch key now expires rows).1
      × Distinct (keys (reserve_rows batch key now expires rows).0)
unfolding reserve_rows
reserve_rows-Answered batch key now expires rows h d = (
  Answered-Swept now rows left _ key expires _ swept (
      insert_reservation-Answered key now expires left h
        (λ row e. drop_expired-live key now rows row (cleaned.kept key row e))),
  distinct,
)
  where
    dropped : Swept now rows (drop_expired key now rows)
    dropped = drop_expired-Swept key now rows d

    left : Rows
    left = (cleanup_expired batch now (drop_expired key now rows)).0

    cleaned : Swept now (drop_expired key now rows) left
    cleaned = cleanup_expired-Swept batch now (drop_expired key now rows) dropped.distinct

    swept : Swept now rows left
    swept = Swept-trans now rows (drop_expired key now rows) left dropped cleaned

    distinct : Distinct (keys (insert_reservation key now expires left).0)
    distinct = elim (Option-cases (lookup key left)) [
      | inr (row, e) ↦ rw (insert_reservation-taken key now expires left row e) cleaned.distinct
      | inl missing ↦
          rw (insert_reservation-free key now expires left missing)
            (Distinct-insert key _ left cleaned.distinct)
    ]
