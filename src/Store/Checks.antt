-- ===== src/Store/Checks.antt =====
-- The rows that internal/storage/sqlite/relay.go and pruning.go write, against the constraints of the table.
use activity_relay_directory.Prelude.{ℕ, ◌≤◌, ◌≡◌, refl, true, Option, none, some, arith, Bytes}
use activity_relay_directory.Protocol.Vocabulary.{AdministrativeState, active, suspended}
use activity_relay_directory.Store.Schema.{
  registered, Relay, relay_check, relay_state_check, relay_time_check, administrative_check,
  null_or_from, null_or_to, sized,
}
use activity_relay_directory.Store.Lifecycle.{is_registered, left, new_relay, seen}
use activity_relay_directory.Store.Moderation.{moderated}
use activity_relay_directory.Store.Pruning.{pruned_row}

-- The rows that `Register` writes.
pub new_relay-check :
    (actor base : Bytes) (accepted : ℕ)
    → sized 4096 actor ≡ true
    → sized 2048 base ≡ true
    → relay_check actor (new_relay base accepted) ≡ true
unfolding relay_check relay_state_check administrative_check relay_time_check null_or_from
    null_or_to
new_relay-check actor base accepted h k = ground arith

pub null_or_to_mono :
    (t : Option ℕ) (n m : ℕ) → n ≤ m → null_or_to t n ≡ true → null_or_to t m ≡ true
unfolding null_or_to
null_or_to_mono none n m h k = refl
null_or_to_mono (some t) n m h k = ground arith

pub null_or_to-some : (t n : ℕ) → t ≤ n → null_or_to (some t) n ≡ true
unfolding null_or_to
null_or_to-some t n h = ground arith

pub null_or_from-some : (t n : ℕ) → n ≤ t → null_or_from (some t) n ≡ true
unfolding null_or_from
null_or_from-some t n h = ground arith

pub null_or_from-none : (n : ℕ) → null_or_from none n ≡ true
unfolding null_or_from
null_or_from-none n = refl

pub null_or_to-none : (n : ℕ) → null_or_to none n ≡ true
unfolding null_or_to
null_or_to-none n = refl

pub seen-check :
    (actor : Bytes) (row : Relay) (accepted : ℕ)
    → relay_check actor row ≡ true
    → is_registered row.lifecycle_state ≡ true
    → row.updated_at ≤ accepted
    → row.last_seen_at ≤ accepted
    → relay_check actor (seen row accepted) ≡ true
unfolding relay_check relay_state_check relay_time_check administrative_check
seen-check actor row accepted h k a b = ground (
  arith,
  null_or_to_mono row.unregistered_at row.updated_at accepted a,
  null_or_to_mono row.suspended_at row.updated_at accepted a,
  null_or_to_mono row.pruned_at row.updated_at accepted a,
  null_or_from-none accepted,
  null_or_to-some accepted accepted,
  null_or_from-some accepted row.first_registered_at,
)

pub joined-check :
    (actor base : Bytes) (row : Relay) (accepted : ℕ)
    → relay_check actor row ≡ true
    → sized 2048 base ≡ true
    → row.updated_at ≤ accepted
    → row.last_seen_at ≤ accepted
    → relay_check actor (record (seen row accepted) {
      public_base_url = base;
      lifecycle_state = registered;
      unregistered_at = none;
      pruned_at = none;
    })
      ≡ true
unfolding relay_check relay_state_check relay_time_check administrative_check
joined-check actor base row accepted h k a b = ground (
  arith,
  null_or_to_mono row.suspended_at row.updated_at accepted a,
  null_or_from-none accepted,
  null_or_from-none row.first_registered_at,
  null_or_to-none accepted,
  null_or_to-some accepted accepted,
  null_or_from-some accepted row.first_registered_at,
)

-- The row that `Unregister` writes.
pub left-check :
    (actor : Bytes) (row : Relay) (accepted : ℕ)
    → relay_check actor row ≡ true
    → is_registered row.lifecycle_state ≡ true
    → row.updated_at ≤ accepted
    → relay_check actor (left row accepted) ≡ true
unfolding relay_check relay_state_check relay_time_check administrative_check
left-check actor row accepted h k a = ground (
  arith,
  null_or_to_mono row.last_heartbeat_at row.updated_at accepted a,
  null_or_to_mono row.suspended_at row.updated_at accepted a,
  null_or_to_mono row.pruned_at row.updated_at accepted a,
  null_or_to-some accepted accepted,
  null_or_from-some accepted row.first_registered_at,
)

-- The row that `SoftPrune` writes.
pub pruned_row-check :
    (actor : Bytes) (row : Relay) (observed : ℕ)
    → relay_check actor row ≡ true
    → row.lifecycle_state ≡ registered
    → row.updated_at ≤ observed
    → row.last_seen_at ≤ observed
    → relay_check actor (pruned_row row observed) ≡ true
unfolding relay_check relay_state_check relay_time_check administrative_check
pruned_row-check actor row observed h k a b = ground (
  arith,
  null_or_to_mono row.last_heartbeat_at row.updated_at observed a,
  null_or_to_mono row.suspended_at row.updated_at observed a,
  null_or_to_mono row.unregistered_at row.updated_at observed a,
  null_or_to-some observed observed,
  null_or_from-some observed row.first_registered_at,
  null_or_from-some observed row.last_seen_at,
)

moderated-times :
    (row : Relay) (target : AdministrativeState) (at : Option ℕ) (accepted : ℕ)
    → relay_time_check row ≡ true
    → row.updated_at ≤ accepted
    → null_or_from at row.first_registered_at ≡ true
    → null_or_to at accepted ≡ true
    → relay_time_check
        (record row { administrative_state = target; suspended_at = at; updated_at = accepted })
      ≡ true
unfolding relay_time_check
moderated-times row target at accepted h a from to = ground (
  arith,
  null_or_to_mono row.last_heartbeat_at row.updated_at accepted a,
  null_or_to_mono row.unregistered_at row.updated_at accepted a,
  null_or_to_mono row.pruned_at row.updated_at accepted a,
)

first-le : (row : Relay) → relay_time_check row ≡ true → row.first_registered_at ≤ row.updated_at
unfolding relay_time_check
first-le row h = ground arith

relay_check-parts :
    (actor : Bytes) (row : Relay)
    → relay_check actor row ≡ true
    → (sized 4096 actor ≡ true)
      × (sized 2048 row.public_base_url ≡ true)
      × (relay_state_check row ≡ true)
      × (relay_time_check row ≡ true)
unfolding relay_check
relay_check-parts actor row h = ground arith

moderated_row :
    (actor : Bytes) (row : Relay) (target : AdministrativeState) (at : Option ℕ) (accepted : ℕ)
    → relay_check actor row ≡ true
    → row.updated_at ≤ accepted
    → null_or_from at row.first_registered_at ≡ true
    → null_or_to at accepted ≡ true
    → let next = record row {
      administrative_state = target;
      suspended_at = at;
      updated_at = accepted;
    } in
      administrative_check next ≡ true → relay_check actor next ≡ true
unfolding relay_check relay_state_check
moderated_row actor row target at accepted h a from to standing =
    let (s, u, state, times) = relay_check-parts actor row h in
    rw (s, u, state, standing, moderated-times row target at accepted times a from to) refl

-- The row that `Suspend` or `Restore` writes.
pub moderated-check :
    (actor : Bytes) (row : Relay) (target : AdministrativeState) (accepted : ℕ)
    → relay_check actor row ≡ true
    → row.updated_at ≤ accepted
    → relay_check actor (moderated row target accepted) ≡ true
unfolding administrative_check
moderated-check actor row active accepted h a =
    moderated_row actor row active none accepted h a (null_or_from-none row.first_registered_at)
      (null_or_to-none accepted) refl
moderated-check actor row suspended accepted h a =
    let (_, _, _, times) = relay_check-parts actor row h in
    moderated_row actor row suspended (some accepted) accepted h a
      (null_or_from-some accepted row.first_registered_at (omega (arith, first-le row times)))
      (null_or_to-some accepted accepted (omega arith)) refl
