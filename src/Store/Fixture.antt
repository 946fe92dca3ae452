-- ===== src/Store/Fixture.antt =====
-- A database of internal/storage/sqlite with one registered relay that was last seen at the time 100, and one
-- without relays.
use activity_relay_directory.Prelude.{
  ◌≡◌, refl, true, false, some, none, [], ◌∷◌, arith, Bytes, codes, bytes_eq, bytes_eq_iff,
  Bool-cases, inl, inr, lookup, has_byte, ends_with, has_double, split,
}
use activity_relay_directory.Identity.Examples.{example_library}
use activity_relay_directory.Identity.Normalize.{
  normalize_relay_identity, normalize_relay_url, acceptable, finish_url,
}
use activity_relay_directory.Identity.Authority.{
  normalize_authority, trim_host, normalize_host, normalize_name, valid_dns_label, numeric_host,
  add_port,
}
use activity_relay_directory.Identity.Escapes.{rewrite_path, plain, forbidden}
use activity_relay_directory.Identity.Utf8.{valid_string, has_control}
use activity_relay_directory.Identity.Path.{
  normalize_actor_path, check_path, path_unescape, has_dot_segment,
}
use activity_relay_directory.Protocol.Vocabulary.{active}
use activity_relay_directory.Store.Schema.{
  registered, Relay, Database, relay_check, relay_state_check, relay_time_check,
  administrative_check, null_or_from, null_or_to, sized,
}
use activity_relay_directory.Store.Transaction.{Faults}
use activity_relay_directory.Store.Rows.{RegisterIntent}
use activity_relay_directory.Store.Rows.Consistent.{Consistent}
use activity_relay_directory.Store.History.Chronology.{Sound}

abbrev pub actor : Bytes
actor = codes "https://relay.example/actor"

abbrev pub base : Bytes
base = codes "https://relay.example"

abbrev pub intent : RegisterIntent
intent = record { relay_actor = actor; public_base_url = base }

abbrev pub relay : Relay
relay = record {
  public_base_url = base;
  lifecycle_state = registered;
  administrative_state = active;
  first_registered_at = 50;
  updated_at = 100;
  last_seen_at = 100;
  last_heartbeat_at = some 100;
  unregistered_at = none;
  pruned_at = none;
  suspended_at = none;
}

abbrev pub empty_database : Database
empty_database = record {
  relays = [];
  relay_events = [];
  moderation_events = [];
  discoveries = [];
  observations = [];
  enrollment_open = true;
  policy_updated_at = 0;
  enrollment_events = [];
}

abbrev pub database : Database
database = record empty_database { relays = (actor, relay) ∷ [] }

abbrev pub no_faults : Faults
no_faults = λ statement. false

pub empty-Consistent : Consistent example_library empty_database
unfolding lookup
empty-Consistent = record {
  relays_ok = λ a row e. absurd (ground arith);
  observations_ok = λ a row e. absurd (ground arith);
}

relay_ok : relay_check actor relay ≡ true
unfolding relay_check relay_state_check relay_time_check administrative_check null_or_from
    null_or_to sized
relay_ok = refl

pub relay_canonical :
    normalize_relay_identity example_library actor base
    ≡ some (record { relay_actor = actor; public_base_url = base })
unfolding normalize_relay_identity normalize_relay_url acceptable finish_url normalize_authority
    trim_host normalize_host normalize_name valid_dns_label numeric_host add_port
    normalize_actor_path check_path path_unescape valid_string has_control has_double
    has_dot_segment split rewrite_path plain forbidden bytes_eq has_byte ends_with
relay_canonical = refl

only_relay :
    (a : Bytes) (row : Relay) → lookup a database.relays ≡ some row → (actor ≡ a) × (relay ≡ row)
unfolding lookup
only_relay a row e = elim (Bool-cases (bytes_eq actor a)) [
  | inl same ↦ ((bytes_eq_iff actor a).0 same, ground arith)
  | inr other ↦ absurd (ground arith)
]

pub database-Consistent : Consistent example_library database
unfolding lookup
database-Consistent = record {
  relays_ok = λ a row e.
      let (same, it) = only_relay a row e in rw (← same, ← it) (relay_ok, relay_canonical);
  observations_ok = λ a row e. absurd (ground arith);
}

pub database-Sound : Sound example_library database
database-Sound = record {
  consistent = database-Consistent;
  relay_log = λ a. tt;
  moderation_log = λ a. tt;
}
