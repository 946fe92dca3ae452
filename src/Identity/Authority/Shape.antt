-- ===== src/Identity/Authority/Shape.antt =====
-- The names and ports that an authority is made of.
use activity_relay_directory.Prelude.{
  ℕ, ◌≤◌, ◌<◌, ◌≡◌, ◌≢◌, ◌⊎◌, refl, true, false, none, some, ◌∷◌, ◌++◌, arith, ◌==◌, length, all,
  Bytes, split, decimal, Option-cases, Bool-cases, inl, inr, is_empty, ends_with,
}
use activity_relay_directory.Identity.Authority.{
  valid_dns_label, numeric_host, normalize_name, normalize_host, parse_port, add_port, bracketed,
  trim_host, normalize_authority,
}
use activity_relay_directory.Identity.Library.{Url, Address, Library}

-- What a registered name is held to, label by label.
pub record NameContract (host : Bytes) : Type 0 where
  pub short : length host ≤ 253
  pub qualified : 2 ≤ length (split b'.' host)
  pub labels : all valid_dns_label (split b'.' host) ≡ true
  pub not_address : numeric_host host ≡ false

normalize_name-NameContract :
    (host out : Bytes) → normalize_name host ≡ some out → (out ≡ host) × NameContract host
unfolding normalize_name
normalize_name-NameContract host out e = ground arith

parse_port-lt : (port : Bytes) (number : ℕ) → parse_port port ≡ some number → number < 65536
unfolding parse_port
parse_port-lt port number e = ground arith

-- How a port changes a host: not at all, or to a port in range that is not the default one.
pub data PortCase (host out : Bytes) : Type 0 where
  default : out ≡ host → PortCase host out
  explicit :
      (number : ℕ)
      → out ≡ host ++ b':' ∷ decimal number
      → 0 < number
      → number < 65536
      → number ≢ 443
      → PortCase host out

add_port-PortCase : (host port out : Bytes) → add_port host port ≡ some out → PortCase host out
unfolding add_port
add_port-PortCase host port out e = elim (Bool-cases (is_empty port)) [
  | inl absent ↦ default (ground arith)
  | inr present ↦ elim (Option-cases (parse_port port)) [
    | inl bad ↦ absurd (ground arith)
    | inr (number, en) ↦ elim (Bool-cases (number == 443)) [
      | inl https ↦ default (ground arith)
      | inr other ↦
          explicit number (ground arith) (ground arith) (parse_port-lt port number en)
            (ground arith)
    ]
  ]
]

-- The host of an accepted authority is an address that the library reads, or a name of at least two
-- labels; behind it stands at most one port.
pub record AuthorityContract (lib : Library) (parsed : Url) (out : Bytes) : Type 0 where
  pub host : Bytes
  pub written : Bytes
  pub trimmed : host ≡ trim_host lib parsed.hostname
  pub undotted : ends_with b'.' host ≡ false
  pub kind :
      ((address : Address) × (lib.parse_addr host ≡ some address) × (written ≡ bracketed address))
      ⊎ ((lib.parse_addr host ≡ none) × (written ≡ host) × NameContract host)
  pub port : PortCase written out

normalize_host-kind :
    (lib : Library) (host written : Bytes)
    → normalize_host lib host ≡ some written
    → ((address : Address) × (lib.parse_addr host ≡ some address) × (written ≡ bracketed address))
      ⊎ ((lib.parse_addr host ≡ none) × (written ≡ host) × NameContract host)
unfolding normalize_host
normalize_host-kind lib host written e = elim (Option-cases (lib.parse_addr host)) [
  | inl name ↦
      let (same, c) = normalize_name-NameContract host written (ground arith) in inr (name, same, c)
  | inr (address, ea) ↦ inl (address, ea, ground arith)
]

pub normalize_authority-AuthorityContract :
    (lib : Library) (parsed : Url) (out : Bytes)
    → normalize_authority lib parsed ≡ some out
    → AuthorityContract lib parsed out
unfolding normalize_authority
normalize_authority-AuthorityContract lib parsed out e =
    elim (Option-cases (normalize_host lib (trim_host lib parsed.hostname))) [
      | inl bad ↦ absurd (ground arith)
      | inr (written, ew) ↦ record {
        host = trim_host lib parsed.hostname;
        written = written;
        trimmed = refl;
        undotted = ground arith;
        kind = normalize_host-kind lib (trim_host lib parsed.hostname) written ew;
        port = add_port-PortCase written parsed.port out (ground arith);
      }
    ]
