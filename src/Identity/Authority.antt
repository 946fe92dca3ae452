-- ===== src/Identity/Authority.antt =====
-- internal/protocol/v1/identity.go: `normalizeAuthority` and what it calls. A refusal is `none`.
pub mod Shape
use activity_relay_directory.Prelude.{
  ℕ, ◌<◌, ◌≡◌, Bool, true, false, not, ◌&&◌, ◌||◌, Option, none, some, List, [], ◌∷◌, ◌++◌, ltb,
  leb, ◌==◌, if◌then◌else◌, length, all, last, drop_last, Bytes, is_empty, has_byte, ends_with,
  split, decimal, decimal_value,
}
use activity_relay_directory.Identity.Library.{Url, Address, Library}

abbrev is_digit : ℕ → Bool
is_digit c = leb b'0' c && leb c b'9'

abbrev label_character : ℕ → Bool
label_character c = leb b'a' c && leb c b'z' || is_digit c || c == b'-'

abbrev starts_with : ℕ → Bytes → Bool
starts_with b [] = false
starts_with b (c ∷ s) = c == b

unfoldable pub valid_dns_label : Bytes → Bool
valid_dns_label label =
    if is_empty label || ltb 63 (length label) || starts_with b'-' label || ends_with b'-' label
    then false
    else all label_character label

unfoldable pub numeric_host : Bytes → Bool
numeric_host host = not (is_empty host) && all (λ c. is_digit c || c == b'.') host

abbrev numeric_last : List Bytes → Bool
numeric_last labels = elim (last labels) [ none ↦ false | some label ↦ numeric_host label ]

unfoldable pub normalize_name : Bytes → Option Bytes
normalize_name host =
    if numeric_host host
    then none
    else if ltb 253 (length host)
    then none
    else let labels = split b'.' host in
      if ltb (length labels) 2
      then none
      else if not (all valid_dns_label labels)
      then none
      else if numeric_last labels
      then none
      else some host

abbrev bracketed : Address → Bytes
bracketed address = if address.is_6 then b'[' ∷ (address.text ++ b']' ∷ []) else address.text

unfoldable pub normalize_host : Library → Bytes → Option Bytes
normalize_host lib host = elim (lib.parse_addr host) [
  | some address ↦ some (bracketed address)
  | none ↦ normalize_name host
]

-- `strconv.ParseUint(port, 10, 16)`
unfoldable pub parse_port : Bytes → Option ℕ
parse_port port =
    if is_empty port || not (all is_digit port)
    then none
    else if ltb 65535 (decimal_value 0 port)
    then none
    else some (decimal_value 0 port)

-- The port, if there is one and it is not the default one, behind the host.
unfoldable pub add_port : Bytes → Bytes → Option Bytes
add_port host port = if is_empty port then some host else elim (parse_port port) [
  | none ↦ none
  | some number ↦
      if number == 0
      then none
      else if number == 443
      then some host
      else some (host ++ b':' ∷ decimal number)
]

-- The host in lower case, without one dot at its end.
unfoldable pub trim_host : Library → Bytes → Bytes
trim_host lib hostname =
    let host = lib.to_lower hostname in if ends_with b'.' host then drop_last host else host

unfoldable pub normalize_authority : Library → Url → Option Bytes
normalize_authority lib parsed =
    if has_byte b'%' parsed.hostname
    then none
    else let host = trim_host lib parsed.hostname in
      if is_empty host || ends_with b'.' host then none else elim (normalize_host lib host) [
        | none ↦ none
        | some normalized_host ↦
            if ends_with b':' parsed.host then none else add_port normalized_host parsed.port
      ]
