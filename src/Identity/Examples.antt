-- ===== src/Identity/Examples.antt =====
-- The properties of internal/protocol/v1/identity.go at concrete inputs, with a library that reads
-- addresses of the form `https://<host><path>` with a name and no port.
use activity_relay_directory.Prelude.{
  ℕ, zero, suc, ◌≡◌, refl, false, ◌==◌, if◌then◌else◌, Option, none, some, [], ◌∷◌, ◌++◌, Bytes,
  codes, bytes_eq, has_byte, has_double, split, ends_with,
}
use activity_relay_directory.Identity.Library.{Url, Library}
use activity_relay_directory.Identity.Normalize.{
  RelayIdentity, normalize_relay_identity, normalize_relay_url, acceptable, finish_url,
}
use activity_relay_directory.Identity.Authority.{
  normalize_authority, trim_host, normalize_host, normalize_name, valid_dns_label, numeric_host,
  add_port,
}
use activity_relay_directory.Identity.Escapes.{
  rewrite_path, plain, escape, escaped_byte, hex_value, forbidden, forbidden_escape, written,
  unreserved,
}
use activity_relay_directory.Identity.Utf8.{valid_string, has_control}
use activity_relay_directory.Identity.Normalize.Binding.{
  IdentityContract, normalize_relay_identity-IdentityContract, normalize_relay_identity_unique,
}
use activity_relay_directory.Identity.Path.{
  normalize_actor_path, check_path, path_unescape, unescape_pair, has_dot_segment,
}
use activity_relay_directory.Identity.Path.Meaning.{PathContract, normalize_actor_path-PathContract}

abbrev host_part : Bytes → Bytes
host_part [] = []
host_part (c ∷ s) = if c == b'/' then [] else c ∷ host_part s

abbrev path_part : Bytes → Bytes
path_part [] = []
path_part (c ∷ s) = if c == b'/' then c ∷ s else path_part s

abbrev drop : ℕ → Bytes → Bytes
drop zero s = s
drop (suc n) [] = []
drop (suc n) (c ∷ s) = drop n s

abbrev parse_https : Bytes → Option Url
parse_https raw = some (record {
  scheme = codes "https";
  opaque = [];
  has_user = false;
  host = host_part (drop 8 raw);
  hostname = host_part (drop 8 raw);
  port = [];
  raw_query = [];
  force_query = false;
  escaped_path = path_part (drop 8 raw);
})

abbrev pub example_library : Library
example_library = record {
  parse = parse_https;
  trim_space = λ s. s;
  equal_fold = bytes_eq;
  to_lower = λ s. s;
  parse_addr = λ s. none;
}

abbrev actor : Bytes
actor = codes "https://relay.example/a%63t%6fr"

abbrev base : Bytes
base = codes "https://relay.example"

abbrev identity : RelayIdentity
identity = record { relay_actor = codes "https://relay.example/actor"; public_base_url = base }

-- With and without a slash behind the base URL.
accepted :
    (normalize_relay_identity example_library actor base ≡ some identity)
    × (normalize_relay_identity example_library actor (base ++ codes "/") ≡ some identity)
unfolding normalize_relay_identity normalize_relay_url acceptable finish_url normalize_authority
    trim_host normalize_host normalize_name valid_dns_label numeric_host add_port
    normalize_actor_path check_path path_unescape unescape_pair valid_string has_control has_double
    has_dot_segment split rewrite_path plain escape escaped_byte hex_value forbidden
    forbidden_escape written unreserved bytes_eq has_byte ends_with
accepted = (refl, refl)

normalize_relay_identity-IdentityContract_example :
    IdentityContract example_library actor base identity
normalize_relay_identity-IdentityContract_example =
    normalize_relay_identity-IdentityContract example_library actor base identity accepted.0

normalize_relay_identity_unique_example : identity ≡ identity
normalize_relay_identity_unique_example =
    normalize_relay_identity_unique example_library actor base (base ++ codes "/") identity identity
      accepted.0 accepted.1

path_accepted : normalize_actor_path (codes "/a%63t%6fr") ≡ some (codes "/actor")
unfolding normalize_actor_path check_path path_unescape unescape_pair valid_string has_control
    has_double has_dot_segment split rewrite_path plain escape escaped_byte hex_value forbidden
    forbidden_escape written unreserved bytes_eq
path_accepted = refl

normalize_actor_path-PathContract_example : PathContract (codes "/a%63t%6fr") (codes "/actor")
normalize_actor_path-PathContract_example =
    normalize_actor_path-PathContract (codes "/a%63t%6fr") (codes "/actor") path_accepted
