-- ===== src/Admission/Limiter/Keys.antt =====
-- internal/admission/limiter.go: the keys of the buckets.
use activity_relay_directory.Prelude.{
  ◌≡◌, refl, [], ◌∷◌, ◌++◌, arith, length, All, Bytes, decimal, decimal_injective, decimal-digits,
  ◌<◌,
}
use activity_relay_directory.Admission.Limiter.{bucket_key}

-- Two texts of digits before a colon are equal, and so is what follows.
split_at_colon :
    (s s' t t' : Bytes)
    → All (λ c. c < b':') s
    → All (λ c. c < b':') s'
    → s ++ b':' ∷ t ≡ s' ++ b':' ∷ t'
    → (s ≡ s') × (t ≡ t')
split_at_colon [] [] t t' h h' e = ground arith
split_at_colon [] (c' ∷ s') t t' h h' e = absurd (ground arith)
split_at_colon (c ∷ s) [] t t' h h' e = absurd (ground arith)
split_at_colon (c ∷ s) (c' ∷ s') t t' h h' e =
    let (same, rest) = split_at_colon s s' t t' h.1 h'.1 (ground arith) in (ground arith, rest)

-- Two texts whose first parts have one length are equal part by part.
split_at_length :
    (s s' t t' : Bytes) → length s ≡ length s' → s ++ t ≡ s' ++ t' → (s ≡ s') × (t ≡ t')
split_at_length [] [] t t' l e = (refl, e)
split_at_length [] (c' ∷ s') t t' l e = absurd (omega arith)
split_at_length (c ∷ s) [] t t' l e = absurd (omega arith)
split_at_length (c ∷ s) (c' ∷ s') t t' l e =
    let (same, rest) = split_at_length s s' t t' (omega arith) (ground arith) in
    (ground arith, rest)

-- The key of a bucket tells its operation and its identity, whatever bytes they hold.
pub bucket_key_injective :
    (operation operation' identity identity' : Bytes)
    → bucket_key operation identity ≡ bucket_key operation' identity'
    → (operation ≡ operation') × (identity ≡ identity')
unfolding bucket_key
bucket_key_injective operation operation' identity identity' e =
    let (lengths, rest) =
      split_at_colon (decimal (length operation)) (decimal (length operation'))
        (operation ++ identity) (operation' ++ identity') (decimal-digits (length operation))
        (decimal-digits (length operation')) e in
    split_at_length operation operation' identity identity'
      (decimal_injective (length operation) (length operation') lengths) rest
