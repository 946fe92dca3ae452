-- ===== src/Identity/Normalize.antt =====
-- internal/protocol/v1/identity.go: `normalizeRelayURL` and the three functions that the other packages
-- call. A refusal, which the source reports as `ErrInvalidRelayURL` with a reason, is `none`.
pub mod Binding
use activity_relay_directory.Prelude.{
  ◌≡◌, Bool, not, ◌&&◌, ◌||◌, Option, none, some, ◌++◌, [], ◌∷◌, if◌then◌else◌, Bytes, codes,
  bytes_eq, is_empty, has_byte,
}
use activity_relay_directory.Identity.Library.{Url, Library}
use activity_relay_directory.Identity.Authority.{normalize_authority}
use activity_relay_directory.Identity.Path.{normalize_actor_path}

pub record RelayIdentity : Type 0 where
  pub relay_actor : Bytes
  pub public_base_url : Bytes

pub data RelayUrlKind : Type 0 where
  actor_url public_base_url_kind : RelayUrlKind

pub record NormalizedRelayUrl : Type 0 where
  pub value : Bytes
  pub origin : Bytes

-- The checks of `normalizeRelayURL` on the parsed address, in the order of the source.
unfoldable pub acceptable : Library → Bytes → Url → Bool
acceptable lib raw parsed = not (
    not (is_empty parsed.opaque)
    || not (lib.equal_fold parsed.scheme (codes "https"))
    || parsed.has_user
    || is_empty parsed.host
    || is_empty parsed.hostname
    || not (is_empty parsed.raw_query)
    || parsed.force_query
    || has_byte b'#' raw)

-- The end of `normalizeRelayURL`, by kind.
unfoldable pub finish_url : RelayUrlKind → Bytes → Bytes → Option NormalizedRelayUrl
finish_url public_base_url_kind origin path =
    if not (is_empty path) && not (bytes_eq path (codes "/"))
    then none
    else some (record { value = origin; origin = origin })
finish_url actor_url origin escaped = elim (normalize_actor_path escaped) [
  | none ↦ none
  | some path ↦ some (record { value = origin ++ path; origin = origin })
]

unfoldable pub normalize_relay_url : Library → Bytes → RelayUrlKind → Option NormalizedRelayUrl
normalize_relay_url lib raw kind =
    if is_empty raw || not (bytes_eq (lib.trim_space raw) raw) then none else elim (lib.parse raw) [
      | none ↦ none
      | some parsed ↦
          if not (acceptable lib raw parsed) then none else elim (normalize_authority lib parsed) [
            | none ↦ none
            | some authority ↦ finish_url kind (codes "https://" ++ authority) parsed.escaped_path
          ]
    ]

abbrev value_of : Option NormalizedRelayUrl → Option Bytes
value_of none = none
value_of (some normalized) = some normalized.value

unfoldable pub normalize_relay_actor_url : Library → Bytes → Option Bytes
normalize_relay_actor_url lib raw = value_of (normalize_relay_url lib raw actor_url)

unfoldable pub normalize_public_base_url : Library → Bytes → Option Bytes
normalize_public_base_url lib raw = value_of (normalize_relay_url lib raw public_base_url_kind)

unfoldable pub normalize_relay_identity : Library → Bytes → Bytes → Option RelayIdentity
normalize_relay_identity lib relay_actor public_base_url =
    elim (normalize_relay_url lib relay_actor actor_url) [
      | none ↦ none
      | some actor ↦ elim (normalize_relay_url lib public_base_url public_base_url_kind) [
        | none ↦ none
        | some base ↦
            if not (bytes_eq actor.origin base.origin)
            then none
            else some (record { relay_actor = actor.value; public_base_url = base.value })
      ]
    ]
