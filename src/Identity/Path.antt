-- ===== src/Identity/Path.antt =====
-- internal/protocol/v1/identity.go: `normalizeActorPath`. A refusal, which the source reports as
-- `ErrInvalidRelayURL` with a reason, is `none`.
pub mod Meaning
use activity_relay_directory.Prelude.{
  ℕ, ◌≡◌, Bool, false, not, ◌||◌, Option, none, some, List, [], ◌∷◌, ◌==◌, if◌then◌else◌, Bytes,
  codes, bytes_eq, split, has_double,
}
use activity_relay_directory.Identity.Escapes.{escaped_byte, prepend, rewrite_path}
use activity_relay_directory.Identity.Utf8.{valid_string, has_control}

unfoldable pub unescape_pair : ℕ → ℕ → Option Bytes → Option Bytes
unescape_pair high low rest = elim (escaped_byte high low) [
  | none ↦ none
  | some value ↦ prepend (value ∷ []) rest
]

-- `url.PathUnescape`
unfoldable pub path_unescape : Bytes → Option Bytes
path_unescape [] = some []
path_unescape (c ∷ []) = if c == b'%' then none else some (c ∷ [])
path_unescape (c ∷ d ∷ []) =
    let rest = path_unescape (d ∷ []) in if c == b'%' then none else prepend (c ∷ []) rest
path_unescape (c ∷ high ∷ low ∷ s) =
    let rest = path_unescape (high ∷ low ∷ s) in
    let skipped = path_unescape s in
    if c == b'%' then unescape_pair high low skipped else prepend (c ∷ []) rest

unfoldable pub has_dot_segment : List Bytes → Bool
has_dot_segment [] = false
has_dot_segment (segment ∷ segments) =
    bytes_eq segment (codes ".") || bytes_eq segment (codes "..") || has_dot_segment segments

-- The checks of the rewritten path.
unfoldable pub check_path : Bytes → Option Bytes
check_path path = elim (path_unescape path) [
  | none ↦ none
  | some decoded ↦
      if not (valid_string decoded)
      then none
      else if has_control decoded
      then none
      else if has_double b'/' path
      then none
      else if has_dot_segment (split b'/' path)
      then none
      else some path
]

unfoldable pub normalize_actor_path : Bytes → Option Bytes
normalize_actor_path [] = some (b'/' ∷ [])
normalize_actor_path (c ∷ s) =
    if not (c == b'/')
    then none
    else elim (rewrite_path (c ∷ s)) [ none ↦ none | some path ↦ check_path path ]
