-- ===== src/Identity/Escapes.antt =====
-- internal/protocol/v1/identity.go: the bytes of an actor path, with their percent escapes. Texts are
-- lists of bytes, each below 256.
pub mod Canonical
use activity_relay_directory.Prelude.{
  ℕ, ◌+◌, ◌-◌, ◌*◌, ◌/◌, ◌%◌, ◌≡◌, Bool, ◌&&◌, ◌||◌, Option, none, some, [], ◌∷◌, ◌++◌, ltb, leb,
  ◌==◌, if◌then◌else◌, Bytes,
}

unfoldable pub hex_value : ℕ → Option ℕ
hex_value character =
    if leb b'0' character && leb character b'9'
    then some (character - b'0')
    else if leb b'a' character && leb character b'f'
    then some (character - b'a' + 10)
    else if leb b'A' character && leb character b'F'
    then some (character - b'A' + 10)
    else none

-- `upperHex[digit]`
unfoldable pub upper_hex : ℕ → ℕ
upper_hex digit = if ltb digit 10 then b'0' + digit else b'A' + (digit - 10)

unfoldable pub unreserved : ℕ → Bool
unreserved character =
    leb b'a' character && leb character b'z'
    || leb b'A' character && leb character b'Z'
    || leb b'0' character && leb character b'9'
    || (character == b'-' || character == b'.' || character == b'_' || character == b'~')

-- A byte that may not stand for itself.
unfoldable pub forbidden : ℕ → Bool
forbidden character = character == b'\\' || ltb character 0x20 || character == 0x7f

-- A byte that may not be escaped.
unfoldable pub forbidden_escape : ℕ → Bool
forbidden_escape value =
    value == b'%' || value == b'/' || value == b'\\' || ltb value 0x20 || value == 0x7f

-- What the loop writes for an escaped byte.
unfoldable pub written : ℕ → Bytes
written value =
    if unreserved value
    then value ∷ []
    else b'%' ∷ upper_hex (value / 16) ∷ upper_hex (value % 16) ∷ []

abbrev pub prepend : Bytes → Option Bytes → Option Bytes
prepend out none = none
prepend out (some rest) = some (out ++ rest)

unfoldable pub plain : ℕ → Option Bytes → Option Bytes
plain character rest = if forbidden character then none else prepend (character ∷ []) rest

-- `high<<4 | low` with both below 16 is the sum.
unfoldable pub escaped_byte : ℕ → ℕ → Option ℕ
escaped_byte high low = elim (hex_value high) [
  | none ↦ none
  | some h ↦ elim (hex_value low) [ none ↦ none | some l ↦ some (h * 16 + l) ]
]

unfoldable pub escape : ℕ → ℕ → Option Bytes → Option Bytes
escape high low rest = elim (escaped_byte high low) [
  | none ↦ none
  | some value ↦ if forbidden_escape value then none else prepend (written value) rest
]

-- The loop of `normalizeActorPath`: what it writes from here on, or `none` at a refusal.
unfoldable pub rewrite_path : Bytes → Option Bytes
rewrite_path [] = some []
rewrite_path (c ∷ []) = if c == b'%' then none else plain c (some [])
rewrite_path (c ∷ d ∷ []) =
    let rest = rewrite_path (d ∷ []) in if c == b'%' then none else plain c rest
rewrite_path (c ∷ high ∷ low ∷ s) =
    let rest = rewrite_path (high ∷ low ∷ s) in
    let skipped = rewrite_path s in if c == b'%' then escape high low skipped else plain c rest
