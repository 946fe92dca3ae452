-- ===== src/Identity/Normalize/Binding.antt =====
-- internal/protocol/v1/identity.go: the origin that an accepted actor and its base URL have.
use activity_relay_directory.Prelude.{
  ◌≡◌, refl, sym, ◌∙◌, true, some, [], ◌∷◌, ◌++◌, arith, Bytes, codes, bytes_eq, bytes_eq_iff,
  Option-cases, Bool-cases, inl, inr,
}
use activity_relay_directory.Identity.Library.{Url, Library}
use activity_relay_directory.Identity.Authority.{normalize_authority}
use activity_relay_directory.Identity.Authority.Shape.{
  AuthorityContract, normalize_authority-AuthorityContract,
}
use activity_relay_directory.Identity.Path.{normalize_actor_path}
use activity_relay_directory.Identity.Path.Meaning.{PathContract, normalize_actor_path-PathContract}
use activity_relay_directory.Identity.Normalize.{
  RelayIdentity, RelayUrlKind, actor_url, public_base_url_kind, NormalizedRelayUrl, acceptable,
  finish_url, normalize_relay_url, normalize_relay_identity,
}

normalize_relay_url-inv :
    (lib : Library) (raw : Bytes) (kind : RelayUrlKind) (out : NormalizedRelayUrl)
    → normalize_relay_url lib raw kind ≡ some out
    → (parsed : Url) × (authority : Bytes) × (lib.parse raw ≡ some parsed)
      × (acceptable lib raw parsed ≡ true)
      × (normalize_authority lib parsed ≡ some authority)
      × (finish_url kind (codes "https://" ++ authority) parsed.escaped_path ≡ some out)
unfolding normalize_relay_url
normalize_relay_url-inv lib raw kind out e = elim (Option-cases (lib.parse raw)) [
  | inl bad ↦ absurd (ground arith)
  | inr (parsed, ep) ↦ elim (Option-cases (normalize_authority lib parsed)) [
    | inl bad ↦ absurd (ground arith)
    | inr (authority, ea) ↦ (parsed, authority, ep, ground arith, ea, ground arith)
  ]
]

-- The end of the function, by kind.
finish_url-base :
    (origin path : Bytes) (out : NormalizedRelayUrl)
    → finish_url public_base_url_kind origin path ≡ some out
    → (out.origin ≡ origin) × (out.value ≡ origin)
unfolding finish_url
finish_url-base origin path out e = ground arith

finish_url-actor :
    (origin escaped : Bytes) (out : NormalizedRelayUrl)
    → finish_url actor_url origin escaped ≡ some out
    → (out.origin ≡ origin)
      × ((path : Bytes) × (out.value ≡ origin ++ path) × (normalize_actor_path escaped ≡ some path))
unfolding finish_url
finish_url-actor origin escaped out e = elim (Option-cases (normalize_actor_path escaped)) [
  | inl bad ↦ absurd (ground arith)
  | inr (path, ep) ↦ (ground arith, (path, ground arith, ep))
]

-- What an accepted pair is made of.
pub record IdentityContract (lib : Library) (actor base : Bytes) (identity : RelayIdentity)
    : Type 0 where
  pub parsed_actor : Url
  pub parsed_base : Url
  pub authority : Bytes
  pub path : Bytes
  pub actor_read : lib.parse actor ≡ some parsed_actor
  pub base_read : lib.parse base ≡ some parsed_base
  pub actor_accepted : acceptable lib actor parsed_actor ≡ true
  pub base_accepted : acceptable lib base parsed_base ≡ true
  pub authority_shape : AuthorityContract lib parsed_actor authority
  pub same_authority : normalize_authority lib parsed_base ≡ some authority
  pub path_shape : PathContract parsed_actor.escaped_path path
  pub base_value : identity.public_base_url ≡ codes "https://" ++ authority
  pub actor_value : identity.relay_actor ≡ identity.public_base_url ++ path

append-cancel : (s t u : Bytes) → s ++ t ≡ s ++ u → t ≡ u
append-cancel [] t u e = e
append-cancel (c ∷ s) t u e = append-cancel s t u (ground arith)

pub normalize_relay_identity-inv :
    (lib : Library) (actor base : Bytes) (identity : RelayIdentity)
    → normalize_relay_identity lib actor base ≡ some identity
    → (a : NormalizedRelayUrl) × (b : NormalizedRelayUrl) × (normalize_relay_url lib actor actor_url
        ≡ some a)
      × (normalize_relay_url lib base public_base_url_kind ≡ some b)
      × (a.origin ≡ b.origin)
      × (identity ≡ record { relay_actor = a.value; public_base_url = b.value })
unfolding normalize_relay_identity
normalize_relay_identity-inv lib actor base identity e =
    elim (Option-cases (normalize_relay_url lib actor actor_url)) [
      | inl bad ↦ absurd (ground arith)
      | inr (a, ea) ↦ elim (Option-cases (normalize_relay_url lib base public_base_url_kind)) [
        | inl bad ↦ absurd (ground arith)
        | inr (b, eb) ↦ elim (Bool-cases (bytes_eq a.origin b.origin)) [
          | inr other ↦ absurd (ground arith)
          | inl same ↦ (a, b, ea, eb, (bytes_eq_iff a.origin b.origin).0 same, ground arith)
        ]
      ]
    ]

base_is_origin :
    (lib : Library) (raw : Bytes) (out : NormalizedRelayUrl)
    → normalize_relay_url lib raw public_base_url_kind ≡ some out
    → out.value ≡ out.origin
base_is_origin lib raw out e =
    let (parsed, authority, _, _, _, finished) =
      normalize_relay_url-inv lib raw public_base_url_kind out e in
    let (o, v) = finish_url-base (codes "https://" ++ authority) parsed.escaped_path out finished in
    v ∙ sym o

-- An accepted pair shares one authority: the base URL is `https://` and that authority, and the actor
-- is the base URL followed by a canonical path.
pub normalize_relay_identity-IdentityContract :
    (lib : Library) (actor base : Bytes) (identity : RelayIdentity)
    → normalize_relay_identity lib actor base ≡ some identity
    → IdentityContract lib actor base identity
normalize_relay_identity-IdentityContract lib actor base identity e =
    let (a, b, ea, eb, same, ei) = normalize_relay_identity-inv lib actor base identity e in
    let (pa, aa, ra, xa, na, fa) = normalize_relay_url-inv lib actor actor_url a ea in
    let (pb, ab, rb, xb, nb, fb) = normalize_relay_url-inv lib base public_base_url_kind b eb in
    let (oa, (path, va, np)) = finish_url-actor (codes "https://" ++ aa) pa.escaped_path a fa in
    let (ob, vb) = finish_url-base (codes "https://" ++ ab) pb.escaped_path b fb in
    let shared : ab ≡ aa = append-cancel (codes "https://") ab aa (sym ob ∙ sym same ∙ oa) in
    record {
      parsed_actor = pa;
      parsed_base = pb;
      authority = aa;
      path = path;
      actor_read = ra;
      base_read = rb;
      actor_accepted = xa;
      base_accepted = xb;
      authority_shape = normalize_authority-AuthorityContract lib pa aa na;
      same_authority = rw (← shared) nb;
      path_shape = normalize_actor_path-PathContract pa.escaped_path path np;
      base_value = rw (ei, vb, shared) refl;
      actor_value = rw (ei, va, vb, shared) refl;
    }

-- One actor has one public base URL: whatever base URLs it is given with, the pairs that are
-- accepted are the same.
pub normalize_relay_identity_unique :
    (lib : Library) (actor base base' : Bytes) (identity identity' : RelayIdentity)
    → normalize_relay_identity lib actor base ≡ some identity
    → normalize_relay_identity lib actor base' ≡ some identity'
    → identity ≡ identity'
normalize_relay_identity_unique lib actor base base' identity identity' e e' =
    let (a, b, ea, eb, same, ei) = normalize_relay_identity-inv lib actor base identity e in
    let (a', b', ea', eb', same', ei') =
      normalize_relay_identity-inv lib actor base' identity' e' in
    let one : a ≡ a' = ground arith in
    ground (arith, base_is_origin lib base b eb, base_is_origin lib base' b' eb')
