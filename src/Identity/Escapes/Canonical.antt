-- ===== src/Identity/Escapes/Canonical.antt =====
-- internal/protocol/v1/identity.go: what `rewrite_path` writes.
use activity_relay_directory.Prelude.{
  ℕ, ◌/◌, ◌%◌, ◌<◌, ◌≡◌, refl, subst, length, true, false, Option, none, some, [], ◌∷◌, ◌++◌, arith,
  ◌==◌, Bytes, Bool-cases, Option-cases, inl, inr,
}
use activity_relay_directory.Identity.Escapes.{
  hex_value, upper_hex, unreserved, forbidden, forbidden_escape, written, prepend, plain,
  escaped_byte, escape, rewrite_path,
}

hex_value-upper_hex : (digit : ℕ) → digit < 16 → hex_value (upper_hex digit) ≡ some digit
unfolding hex_value upper_hex
hex_value-upper_hex digit h = ground arith

pub escaped_byte-upper_hex :
    (value : ℕ)
    → value < 256
    → escaped_byte (upper_hex (value / 16)) (upper_hex (value % 16)) ≡ some value
unfolding escaped_byte
escaped_byte-upper_hex value h = ground (
  arith,
  hex_value-upper_hex (value / 16) (omega arith),
  hex_value-upper_hex (value % 16) (omega arith),
)

hex_value-lt : (character h : ℕ) → hex_value character ≡ some h → h < 16
unfolding hex_value
hex_value-lt character h e = ground arith

pub escaped_byte-lt : (high low value : ℕ) → escaped_byte high low ≡ some value → value < 256
unfolding escaped_byte
escaped_byte-lt high low value e = elim (Option-cases (hex_value high)) [
  | inl bad ↦ ground arith
  | inr (h, eh) ↦ elim (Option-cases (hex_value low)) [
    | inl bad ↦ ground arith
    | inr (l, el) ↦ ground (arith, hex_value-lt high h eh, hex_value-lt low l el)
  ]
]

pub unreserved-plain :
    (value : ℕ) → unreserved value ≡ true → (forbidden value ≡ false) × ((value == b'%') ≡ false)
unfolding unreserved forbidden
unreserved-plain value h = ground arith

-- One byte that stands for itself is kept, whatever follows.
pub rewrite_path-plain :
    (c : ℕ) (s : Bytes) → (c == b'%') ≡ false → rewrite_path (c ∷ s) ≡ plain c (rewrite_path s)
unfolding rewrite_path
rewrite_path-plain c [] h = rw h
rewrite_path-plain c (d ∷ []) h = rw h
rewrite_path-plain c (d ∷ e ∷ s) h = rw h

rewrite_path-escape :
    (high low : ℕ) (s : Bytes)
    → rewrite_path (b'%' ∷ high ∷ low ∷ s) ≡ escape high low (rewrite_path s)
unfolding rewrite_path
rewrite_path-escape high low s = refl

-- What is written for a byte is read back as that byte.
rewrite_path-written :
    (value : ℕ) (s : Bytes)
    → value < 256
    → forbidden_escape value ≡ false
    → rewrite_path (written value ++ s) ≡ prepend (written value) (rewrite_path s)
unfolding written
rewrite_path-written value s h ok = elim (Bool-cases (unreserved value)) [
  | inl free ↦
      let (allowed, not_percent) = unreserved-plain value free in
      rw (free, rewrite_path-plain value s not_percent) (unfold plain in rw allowed)
  | inr reserved ↦
      rw (reserved, rewrite_path-escape (upper_hex (value / 16)) (upper_hex (value % 16)) s)
        (unfold escape written in rw (escaped_byte-upper_hex value h, escape) (rw (ok, reserved)))
]

pub plain-inv :
    (c : ℕ) (rest : Option Bytes) (out : Bytes)
    → plain c rest ≡ some out
    → (t : Bytes) × (rest ≡ some t) × (out ≡ c ∷ t) × (forbidden c ≡ false)
unfolding plain
plain-inv c none out e = ground arith
plain-inv c (some t) out e = (t, refl, ground arith, ground arith)

escape-inv :
    (high low : ℕ) (rest : Option Bytes) (out : Bytes)
    → escape high low rest ≡ some out
    → (value : ℕ) × (t : Bytes) × (escaped_byte high low ≡ some value)
      × (rest ≡ some t)
      × (out ≡ written value ++ t)
      × (forbidden_escape value ≡ false)
unfolding escape
escape-inv high low rest out e = elim (Option-cases (escaped_byte high low)) [
  | inl bad ↦ ground arith
  | inr (value, ev) ↦ elim (Option-cases rest) [
    | inl stop ↦ ground arith
    | inr (t, et) ↦ (value, t, ev, et, ground arith, ground arith)
  ]
]

-- The rewriting of a path as a relation between what is read and what is written.
pub data Rewrites : Bytes → Bytes → Type 0 where
  end : Rewrites [] []
  keep :
      {s t : Bytes} (c : ℕ)
      → (c == b'%') ≡ false
      → forbidden c ≡ false
      → Rewrites s t
      → Rewrites (c ∷ s) (c ∷ t)
  unescape :
      {s t u : Bytes} (high low value : ℕ)
      → escaped_byte high low ≡ some value
      → forbidden_escape value ≡ false
      → u ≡ written value ++ t
      → Rewrites s t
      → Rewrites (b'%' ∷ high ∷ low ∷ s) u

plain-Rewrites :
    (c : ℕ) (s out : Bytes)
    → (c == b'%') ≡ false
    → plain c (rewrite_path s) ≡ some out
    → ((t : Bytes) → rewrite_path s ≡ some t → Rewrites s t)
    → Rewrites (c ∷ s) out
plain-Rewrites c s out h e ih =
    let (t, et, eo, allowed) = plain-inv c (rewrite_path s) out e in
    rw eo (keep c h allowed (ih t et))

escape-Rewrites :
    (high low : ℕ) (s out : Bytes)
    → escape high low (rewrite_path s) ≡ some out
    → ((t : Bytes) → rewrite_path s ≡ some t → Rewrites s t)
    → Rewrites (b'%' ∷ high ∷ low ∷ s) out
escape-Rewrites high low s out e ih =
    let (value, t, ev, et, eo, allowed) = escape-inv high low (rewrite_path s) out e in
    unescape high low value ev allowed eo (ih t et)

percent_alone : (s : Bytes) → length s < 2 → rewrite_path (b'%' ∷ s) ≡ none
unfolding rewrite_path
percent_alone [] h = refl
percent_alone (c ∷ []) h = refl
percent_alone (c ∷ d ∷ s) h = absurd (omega arith)

pub rewrite_path-Rewrites : (s out : Bytes) → rewrite_path s ≡ some out → Rewrites s out
rewrite_path-Rewrites [] out e =
    let e' : [] ≡ out = unfold rewrite_path in ground arith in subst (Rewrites []) e' end
rewrite_path-Rewrites (c ∷ []) out e = elim (Bool-cases (c == b'%')) [
  | inr other ↦
      plain-Rewrites c [] out other (rw (rewrite_path-plain c [] other) at e)
        (rewrite_path-Rewrites [])
  | inl percent ↦
      let c' : c ≡ b'%' = ground arith in absurd (ground (arith, percent_alone [], rw c' at e))
]
rewrite_path-Rewrites (c ∷ d ∷ []) out e = elim (Bool-cases (c == b'%')) [
  | inr other ↦
      plain-Rewrites c (d ∷ []) out other (rw (rewrite_path-plain c (d ∷ []) other) at e)
        (rewrite_path-Rewrites (d ∷ []))
  | inl percent ↦
      let c' : c ≡ b'%' = ground arith in
      absurd (ground (arith, percent_alone (d ∷ []), rw c' at e))
]
rewrite_path-Rewrites (c ∷ d ∷ f ∷ s) out e = elim (Bool-cases (c == b'%')) [
  | inr other ↦
      plain-Rewrites c (d ∷ f ∷ s) out other (rw (rewrite_path-plain c (d ∷ f ∷ s) other) at e)
        (rewrite_path-Rewrites (d ∷ f ∷ s))
  | inl percent ↦
      let c' : c ≡ b'%' = ground arith in
      rw c' (
        escape-Rewrites d f s out (rw (c', rewrite_path-escape d f s) at e)
          (rewrite_path-Rewrites s))
]

Rewrites-fixed : {s out : Bytes} → Rewrites s out → rewrite_path out ≡ some out
Rewrites-fixed end = unfold rewrite_path in refl
Rewrites-fixed (keep {t = t} c other allowed r) =
    rw (rewrite_path-plain c t other, Rewrites-fixed r) (unfold plain in rw allowed)
Rewrites-fixed (unescape {t = t} high low value ev allowed eo r) =
    rw
      (
        eo,
        rewrite_path-written value t (escaped_byte-lt high low value ev) allowed,
        Rewrites-fixed r,
      )
      refl

-- Rewriting is idempotent: what it accepts and writes, it accepts again and leaves alone.
pub rewrite_path_idem : (s out : Bytes) → rewrite_path s ≡ some out → rewrite_path out ≡ some out
rewrite_path_idem s out e = Rewrites-fixed (rewrite_path-Rewrites s out e)
