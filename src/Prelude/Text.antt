-- ===== src/Prelude/Text.antt =====
-- Texts as lists of bytes, with Go's comparison of strings: equality, and the bytewise order.
use Prim.Native.Char.{code}
use Prim.Native.Nat.{ℕ}
use Prim.Native.String.{String}
use mathlib.Core.Path.{◌≡◌, refl}
use mathlib.Core.Logic.{◌↔◌, ◌⊎◌, inl, inr}
use mathlib.Core.Bool.{Bool, true, false, ◌&&◌, ◌||◌}
use mathlib.Core.List.{List, [], ◌∷◌}
use mathlib.Core.Option.{none, some}
use native.Mathlib.Omega.{arith}
use activity_relay_directory.Prelude.Tests.{ltb, ◌==◌, if◌then◌else◌}
use activity_relay_directory.Prelude.Lists.{last}

abbrev pub Bytes : Type 0
Bytes = List ℕ

-- The code points of a literal; its bytes, when the text is ASCII.
abbrev pub codes : String → Bytes
codes String.[] = []
codes (String.◌∷◌ c s) = code c ∷ codes s

unfoldable pub bytes_eq : Bytes → Bytes → Bool
bytes_eq [] [] = true
bytes_eq [] (y ∷ ys) = false
bytes_eq (x ∷ xs) [] = false
bytes_eq (x ∷ xs) (y ∷ ys) = (x == y) && bytes_eq xs ys

unfoldable pub bytes_lt : Bytes → Bytes → Bool
bytes_lt xs [] = false
bytes_lt [] (y ∷ ys) = true
bytes_lt (x ∷ xs) (y ∷ ys) = ltb x y || ((x == y) && bytes_lt xs ys)

pub bytes_eq_refl : (s : Bytes) → bytes_eq s s ≡ true
unfolding bytes_eq
bytes_eq_refl [] = refl
bytes_eq_refl (x ∷ xs) = ground (arith, bytes_eq_refl xs)

pub bytes_eq→eq : (s t : Bytes) → bytes_eq s t ≡ true → s ≡ t
unfolding bytes_eq
bytes_eq→eq [] [] h = refl
bytes_eq→eq [] (y ∷ ys) h = cc
bytes_eq→eq (x ∷ xs) [] h = cc
bytes_eq→eq (x ∷ xs) (y ∷ ys) h = ground (arith, bytes_eq→eq xs ys)

pub bytes_eq_iff : (s t : Bytes) → (bytes_eq s t ≡ true) ↔ (s ≡ t)
bytes_eq_iff s t = (bytes_eq→eq s t, λ e. ground (arith, bytes_eq_refl s))

pub bytes_lt_irrefl : (s : Bytes) → bytes_lt s s ≡ false
unfolding bytes_lt
bytes_lt_irrefl [] = refl
bytes_lt_irrefl (x ∷ xs) = ground (arith, bytes_lt_irrefl xs)

pub bytes_lt_trans :
    (s t u : Bytes) → bytes_lt s t ≡ true → bytes_lt t u ≡ true → bytes_lt s u ≡ true
unfolding bytes_lt
bytes_lt_trans s [] u h k = cc
bytes_lt_trans s (y ∷ ys) [] h k = cc
bytes_lt_trans [] (y ∷ ys) (z ∷ zs) h k = refl
bytes_lt_trans (x ∷ xs) (y ∷ ys) (z ∷ zs) h k = ground (arith, bytes_lt_trans xs ys zs)

pub bytes_lt_total : (s t : Bytes) → (bytes_lt s t ≡ true) ⊎ (s ≡ t) ⊎ (bytes_lt t s ≡ true)
unfolding bytes_lt
bytes_lt_total [] [] = inr (inl refl)
bytes_lt_total [] (y ∷ ys) = inl refl
bytes_lt_total (x ∷ xs) [] = inr (inr refl)
bytes_lt_total (x ∷ xs) (y ∷ ys) = ground (arith, bytes_lt_total xs ys)

-- `strings.Contains` of a text of one byte.
unfoldable pub has_byte : ℕ → Bytes → Bool
has_byte b [] = false
has_byte b (c ∷ s) = (c == b) || has_byte b s

abbrev pub is_empty : Bytes → Bool
is_empty [] = true
is_empty (c ∷ s) = false

-- `strings.HasSuffix` with a text of one byte.
unfoldable pub ends_with : ℕ → Bytes → Bool
ends_with b s = elim (last s) [ none ↦ false | some c ↦ c == b ]

attach : ℕ → List Bytes → List Bytes
attach c [] = (c ∷ []) ∷ []
attach c (part ∷ parts) = (c ∷ part) ∷ parts

-- `strings.Split` at a text of one byte.
unfoldable pub split : ℕ → Bytes → List Bytes
unfolding attach
split sep [] = [] ∷ []
split sep (c ∷ s) = let rest = split sep s in if c == sep then [] ∷ rest else attach c rest

-- A text holds the byte twice in a row.
unfoldable pub has_double : ℕ → Bytes → Bool
has_double b [] = false
has_double b (c ∷ []) = false
has_double b (c ∷ d ∷ s) = ((c == b) && (d == b)) || has_double b (d ∷ s)
