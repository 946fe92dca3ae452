-- ===== src/Identity/Path/Meaning.antt =====
-- internal/protocol/v1/identity.go: what a normalized actor path decodes to.
use activity_relay_directory.Prelude.{
  ℕ, ◌<◌, ◌≡◌, ◌⊎◌, ◌∙◌, refl, false, Option, some, [], ◌∷◌, ◌++◌, arith, ◌==◌, Bytes, bytes_eq,
  subst, Bool-cases, Option-cases, inl, inr, has_double, split,
}
use activity_relay_directory.Identity.Escapes.{
  escaped_byte, prepend, plain, rewrite_path, written, unreserved, forbidden,
}
use activity_relay_directory.Identity.Escapes.Canonical.{
  plain-inv, rewrite_path-plain, Rewrites, end, keep, unescape, rewrite_path-Rewrites,
  rewrite_path_idem, unreserved-plain, escaped_byte-upper_hex, escaped_byte-lt,
}
use activity_relay_directory.Identity.Utf8.{valid_string, has_control}
use activity_relay_directory.Identity.Path.{
  path_unescape, unescape_pair, has_dot_segment, check_path, normalize_actor_path,
}

path_unescape-plain :
    (c : ℕ) (s : Bytes)
    → (c == b'%') ≡ false
    → path_unescape (c ∷ s) ≡ prepend (c ∷ []) (path_unescape s)
unfolding path_unescape
path_unescape-plain c [] h = rw h
path_unescape-plain c (d ∷ []) h = rw h
path_unescape-plain c (d ∷ e ∷ s) h = rw h

path_unescape-percent :
    (high low : ℕ) (s : Bytes)
    → path_unescape (b'%' ∷ high ∷ low ∷ s) ≡ unescape_pair high low (path_unescape s)
unfolding path_unescape
path_unescape-percent high low s = refl

unescape_pair_lem :
    (high low value : ℕ) (rest : Option Bytes)
    → escaped_byte high low ≡ some value
    → unescape_pair high low rest ≡ prepend (value ∷ []) rest
unfolding unescape_pair
unescape_pair_lem high low value rest e = rw (e, unescape_pair)

path_unescape-pair :
    (high low value : ℕ) (s : Bytes)
    → escaped_byte high low ≡ some value
    → path_unescape (b'%' ∷ high ∷ low ∷ s) ≡ prepend (value ∷ []) (path_unescape s)
path_unescape-pair high low value s e =
    path_unescape-percent high low s ∙ unescape_pair_lem high low value (path_unescape s) e

path_unescape-written :
    (value : ℕ) (s : Bytes)
    → value < 256
    → path_unescape (written value ++ s) ≡ prepend (value ∷ []) (path_unescape s)
unfolding written
path_unescape-written value s h = elim (Bool-cases (unreserved value)) [
  | inl free ↦ rw free (path_unescape-plain value s (unreserved-plain value free).1)
  | inr reserved ↦ rw reserved (path_unescape-pair _ _ value s (escaped_byte-upper_hex value h))
]

Rewrites-unescape : {s out : Bytes} → Rewrites s out → path_unescape out ≡ path_unescape s
Rewrites-unescape end = refl
Rewrites-unescape (keep {s = s} {t = t} c other allowed r) =
    rw (path_unescape-plain c t other, path_unescape-plain c s other, Rewrites-unescape r)
Rewrites-unescape (unescape {s = s} {t = t} high low value ev allowed eo r) = rw (
  eo,
  path_unescape-written value t (escaped_byte-lt high low value ev),
  path_unescape-pair high low value s ev,
  Rewrites-unescape r,
)

-- The checks depend on the rewritten path alone, and give it back.
check_path-inv :
    (path out : Bytes)
    → check_path path ≡ some out
    → (out ≡ path) × (has_double b'/' path ≡ false) × (has_dot_segment (split b'/' path) ≡ false)
unfolding check_path
check_path-inv path out e = elim (Option-cases (path_unescape path)) [
  | inl bad ↦ ground arith
  | inr (decoded, ed) ↦ ground arith
]

-- What an accepted path promises.
pub record PathContract (given path : Bytes) : Type 0 where
  pub rooted : (s : Bytes) × (path ≡ b'/' ∷ s)
  pub stable : normalize_actor_path path ≡ some path
  pub meaning : (given ≡ []) ⊎ (path_unescape path ≡ path_unescape given)
  pub no_empty : has_double b'/' path ≡ false
  pub no_dots : has_dot_segment (split b'/' path) ≡ false

root_contract : PathContract [] (b'/' ∷ [])
unfolding normalize_actor_path check_path path_unescape valid_string has_control has_double
    has_dot_segment split rewrite_path plain forbidden bytes_eq
root_contract = record {
  rooted = ([], refl);
  stable = refl;
  meaning = inl refl;
  no_empty = refl;
  no_dots = refl;
}

normalize_rooted :
    (s path : Bytes)
    → rewrite_path (b'/' ∷ s) ≡ some path
    → check_path path ≡ some path
    → normalize_actor_path (b'/' ∷ s) ≡ some path
unfolding normalize_actor_path
normalize_rooted s path e ok = rw (e, normalize_actor_path) ok

rewritten_contract :
    (s path : Bytes)
    → rewrite_path (b'/' ∷ s) ≡ some path
    → check_path path ≡ some path
    → PathContract (b'/' ∷ s) path
rewritten_contract s path e ok =
    let (t, et, eo, allowed) =
      plain-inv b'/' (rewrite_path s) path (rw (rewrite_path-plain b'/' s refl) at e) in
    let (same, no_empty, no_dots) = check_path-inv path path ok in
    record {
      rooted = (t, eo);
      stable = rw eo (
          normalize_rooted t (b'/' ∷ t) (rw (← eo) (rewrite_path_idem (b'/' ∷ s) path e))
            (rw (← eo) ok));
      meaning = inr (Rewrites-unescape (rewrite_path-Rewrites (b'/' ∷ s) path e));
      no_empty = no_empty;
      no_dots = no_dots;
    }

normalize_actor_path-inv :
    (c : ℕ) (s path : Bytes)
    → normalize_actor_path (c ∷ s) ≡ some path
    → (c ≡ b'/') × (rewrite_path (c ∷ s) ≡ some path) × (check_path path ≡ some path)
unfolding normalize_actor_path
normalize_actor_path-inv c s path e = elim (Option-cases (rewrite_path (c ∷ s))) [
  | inl bad ↦ ground arith
  | inr (out, eo) ↦ (
    ground arith,
    ground (arith, check_path-inv out path),
    ground (arith, check_path-inv out path),
  )
]

-- An accepted path starts with a slash, is accepted again as it is, decodes to what the given path
-- decodes to (an empty path stands for the root), and has no empty and no dot segment.
pub normalize_actor_path-PathContract :
    (given path : Bytes) → normalize_actor_path given ≡ some path → PathContract given path
normalize_actor_path-PathContract [] path e =
    let e' : b'/' ∷ [] ≡ path = unfold normalize_actor_path in ground arith in
    subst (PathContract []) e' root_contract
normalize_actor_path-PathContract (c ∷ s) path e =
    let (slash, rewritten, ok) = normalize_actor_path-inv c s path e in
    rw slash (rewritten_contract s path (rw slash at rewritten) ok)
