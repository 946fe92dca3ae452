-- ===== src/Identity/Utf8.antt =====
-- Go's `utf8.ValidString`, and `unicode.IsControl` over the characters of a valid text, as
-- internal/protocol/v1/identity.go applies them to the decoded path.
use activity_relay_directory.Prelude.{
  ℕ, ◌-◌, Bool, false, ◌&&◌, ◌||◌, Option, none, some, [], ◌∷◌, ltb, leb, ◌==◌, if◌then◌else◌,
  Bytes,
}

-- Where a decoder stands: how many bytes of the character are to come, and the range of the next.
pub record Expected : Type 0 where
  pub left : ℕ
  pub low : ℕ
  pub high : ℕ

abbrev between : ℕ → ℕ → ℕ → Bool
between low high c = leb low c && leb c high

abbrev continue : ℕ → Option Expected
continue n = some (record { left = n; low = 0x80; high = 0xbf })

lead : ℕ → Option Expected
lead c =
    if ltb c 0x80
    then continue 0
    else if between 0xc2 0xdf c
    then continue 1
    else if c == 0xe0
    then some (record { left = 2; low = 0xa0; high = 0xbf })
    else if c == 0xed
    then some (record { left = 2; low = 0x80; high = 0x9f })
    else if between 0xe1 0xef c
    then continue 2
    else if c == 0xf0
    then some (record { left = 3; low = 0x90; high = 0xbf })
    else if between 0xf1 0xf3 c
    then continue 3
    else if c == 0xf4
    then some (record { left = 3; low = 0x80; high = 0x8f })
    else none

advance : Expected → ℕ → Option Expected
unfolding lead
advance e c =
    if e.left == 0 then lead c else if between e.low e.high c then continue (e.left - 1) else none

valid_from : Expected → Bytes → Bool
unfolding advance
valid_from e [] = e.left == 0
valid_from e (c ∷ s) = elim (advance e c) [ none ↦ false | some next ↦ valid_from next s ]

unfoldable pub valid_string : Bytes → Bool
unfolding valid_from
valid_string s = valid_from (record { left = 0; low = 0x80; high = 0xbf }) s

-- The control characters are U+0000 to U+001F and U+007F to U+009F.
unfoldable pub has_control : Bytes → Bool
has_control [] = false
has_control (c ∷ []) = ltb c 0x20 || c == 0x7f
has_control (c ∷ d ∷ s) =
    ltb c 0x20 || c == 0x7f || c == 0xc2 && between 0x80 0x9f d || has_control (d ∷ s)
