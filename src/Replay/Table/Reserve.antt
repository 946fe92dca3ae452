-- ===== src/Replay/Table/Reserve.antt =====
-- internal/storage/sqlite/replay.go: what the deletions of a reservation leave.
use activity_relay_directory.Prelude.{
  ◌⊎◌, Distinct, Distinct-delete, keys, has-keys, ℕ, zero, suc, ◌≤◌, ◌<◌, ◌≡◌, ◌∙◌, refl, false,
  Option, none, some, [], ◌∷◌, arith, Bool-cases, Option-cases, inl, inr, leb, Bytes, bytes_eq,
  bytes_eq_iff, bytes_eq_refl, lookup, delete, lookup-delete,
}
use activity_relay_directory.Replay.Live.{beyond, View, AgreeFrom}
use activity_relay_directory.Replay.Table.{
  Reservation, Rows, drop_expired, sooner, first_of, first_expired, cleanup_expired,
}

abbrev expiry : Option Reservation → Option ℕ
expiry none = none
expiry (some row) = some row.expires_at

abbrev pub view : Rows → View
view rows key = expiry (lookup key rows)

-- A row that is read at its key, expired.
abbrev Expired : ℕ → Rows → Bytes → Type 0
Expired now rows key = beyond (view rows key) now ≡ false

delete-AgreeFrom :
    (now : ℕ) (rows : Rows) (key : Bytes)
    → Expired now rows key
    → AgreeFrom now (view rows) (view (delete key rows))
delete-AgreeFrom now rows key old other time h =
    rw (lookup-delete key other rows) (elim (Bool-cases (bytes_eq key other)) [
      | inr apart ↦ rw apart refl
      | inl same ↦
          rw (same, ← (bytes_eq_iff key other).0 same)
            (elim (Option-cases (lookup key rows)) [
              | inl missing ↦ rw missing refl
              | inr (row, e) ↦ rw e (ground arith)
            ])
    ])

drop_expired-cases :
    (key : Bytes) (now : ℕ) (rows : Rows)
    → (drop_expired key now rows ≡ rows)
      ⊎ ((drop_expired key now rows ≡ delete key rows) × Expired now rows key)
unfolding drop_expired
drop_expired-cases key now rows = elim (Option-cases (lookup key rows)) [
  | inl missing ↦ inl (rw (missing, drop_expired) refl)
  | inr (row, e) ↦ elim (Bool-cases (leb row.expires_at now)) [
    | inl old ↦ inr (rw (e, drop_expired) (rw old refl), rw e (ground arith))
    | inr live ↦ inl (rw (e, drop_expired) (rw live refl))
  ]
]

-- Only expired rows go, and no row is there twice.
pub record Swept (now : ℕ) (rows left : Rows) : Type 0 where
  pub agree : AgreeFrom now (view rows) (view left)
  pub distinct : Distinct (keys left)
  pub kept :
      (other : Bytes) (row : Reservation)
      → lookup other left ≡ some row
      → lookup other rows ≡ some row

Swept-self : (now : ℕ) (rows : Rows) → Distinct (keys rows) → Swept now rows rows
Swept-self now rows d = record {
  agree = λ other time h. refl;
  distinct = d;
  kept = λ other row e. e;
}

Swept-delete :
    (now : ℕ) (rows : Rows) (key : Bytes)
    → Distinct (keys rows)
    → Expired now rows key
    → Swept now rows (delete key rows)
Swept-delete now rows key d old = record {
  agree = delete-AgreeFrom now rows key old;
  distinct = Distinct-delete key rows d;
  kept = λ other row e. ground (arith, lookup-delete key other rows);
}

pub Swept-trans : (now : ℕ) (a b c : Rows) → Swept now a b → Swept now b c → Swept now a c
Swept-trans now a b c s t = record {
  agree = λ other time h. t.agree other time h ∙ s.agree other time h;
  distinct = t.distinct;
  kept = λ other row e. s.kept other row (t.kept other row e);
}

pub drop_expired-Swept :
    (key : Bytes) (now : ℕ) (rows : Rows)
    → Distinct (keys rows)
    → Swept now rows (drop_expired key now rows)
drop_expired-Swept key now rows d = elim (drop_expired-cases key now rows) [
  | inl same ↦ rw same (Swept-self now rows d)
  | inr (gone, old) ↦ rw gone (Swept-delete now rows key d old)
]

first_of-cases :
    (row : Bytes × ℕ) (rest : Option (Bytes × ℕ))
    → (first_of row rest ≡ row) ⊎ (rest ≡ some (first_of row rest))
first_of-cases row none = inl refl
first_of-cases row (some other) = elim (Bool-cases (sooner other row)) [
  | inl first ↦ inr (rw first refl)
  | inr second ↦ inl (rw second refl)
]

lookup-tail :
    (key first : Bytes) (row found : Reservation) (rows : Rows)
    → Distinct (first ∷ keys rows)
    → lookup key rows ≡ some found
    → lookup key ((first, row) ∷ rows) ≡ some found
unfolding lookup
lookup-tail key first row found rows d e = elim (Bool-cases (bytes_eq first key)) [
  | inr apart ↦ ground arith
  | inl same ↦
      let k : first ≡ key = (bytes_eq_iff first key).0 same in
      absurd (ground (arith, d.0, has-keys first rows))
]

first_expired-lookup :
    (now : ℕ) (rows : Rows) (key : Bytes) (expires : ℕ)
    → Distinct (keys rows)
    → first_expired now rows ≡ some (key, expires)
    → (row : Reservation) × (lookup key rows ≡ some row) × (row.expires_at ≤ now)
unfolding first_expired lookup
first_expired-lookup now [] key expires d e = absurd (ground arith)
first_expired-lookup now ((first, row) ∷ rows) key expires d e =
    let tail : first_expired now rows ≡ some (key, expires)
        → (found : Reservation) × (lookup key ((first, row) ∷ rows) ≡ some found)
          × (found.expires_at ≤ now) =
      λ h.
        let (found, there, old) = first_expired-lookup now rows key expires d.1 h in
        (found, lookup-tail key first row found rows d there, old) in
    elim (Bool-cases (leb row.expires_at now)) [
      | inr live ↦ tail (rw live at e)
      | inl old ↦ elim (first_of-cases (first, row.expires_at) (first_expired now rows)) [
        | inr rest ↦ tail (rest ∙ (rw old at e))
        | inl head ↦
            let same : first ≡ key = ground arith in
            (row, ground (arith, bytes_eq_refl key), ground arith)
      ]
    ]

Expired-row :
    (now : ℕ) (rows : Rows) (key : Bytes) (row : Reservation)
    → lookup key rows ≡ some row
    → row.expires_at ≤ now
    → Expired now rows key
Expired-row now rows key row e old = rw e (ground arith)

pub cleanup_expired-Swept :
    (maximum now : ℕ) (rows : Rows)
    → Distinct (keys rows)
    → Swept now rows (cleanup_expired maximum now rows).0
unfolding cleanup_expired
cleanup_expired-Swept zero now rows d = Swept-self now rows d
cleanup_expired-Swept (suc maximum) now rows d = elim (Option-cases (first_expired now rows)) [
  | inl none_left ↦ rw (none_left, cleanup_expired) (Swept-self now rows d)
  | inr ((key, expires), e) ↦
      let (row, there, old) = first_expired-lookup now rows key expires d e in
      let one = Swept-delete now rows key d (Expired-row now rows key row there old) in
      rw (e, cleanup_expired)
        (Swept-trans now rows (delete key rows) (cleanup_expired maximum now (delete key rows)).0
          one (cleanup_expired-Swept maximum now (delete key rows) one.distinct))
]

pub drop_expired-live :
    (key : Bytes) (now : ℕ) (rows : Rows) (row : Reservation)
    → lookup key (drop_expired key now rows) ≡ some row
    → now < row.expires_at
unfolding drop_expired
drop_expired-live key now rows row h = elim (Option-cases (lookup key rows)) [
  | inl missing ↦ absurd (ground (arith, rw (missing, drop_expired) at h))
  | inr (found, e) ↦ elim (Bool-cases (leb found.expires_at now)) [
    | inl old ↦ absurd (ground (arith, lookup-delete key key rows, bytes_eq_refl key))
    | inr live ↦ ground arith
  ]
]
