-- ===== src/Store/Pruning/Page/First.antt =====
-- internal/storage/sqlite/pruning.go: the first candidates of a list in order.
use activity_relay_directory.Prelude.{
  ℕ, zero, suc, ◌≤◌, ◌≡◌, ◌⊎◌, refl, sym, true, false, List, [], ◌∷◌, ltb, arith, inl, inr, length,
  take, all,
}
use activity_relay_directory.Identity.Library.{Library}
use activity_relay_directory.Store.Pruning.Page.{
  Position, cursor_after, Candidate, position_of, next_of, candidate_ok,
}
use activity_relay_directory.Store.Pruning.Page.Order.{Above, Ascending}
use activity_relay_directory.Store.Pruning.Page.Members.{Among}

pub Among-take :
    (n : ℕ) (rows : List Candidate) (candidate : Candidate)
    → Among candidate (take n rows)
    → Among candidate rows
Among-take zero rows candidate h = absurd h
Among-take (suc n) [] candidate h = h
Among-take (suc n) (first ∷ rest) candidate (inl e) = inl e
Among-take (suc n) (first ∷ rest) candidate (inr m) = inr (Among-take n rest candidate m)

pub Above-take :
    (n : ℕ) (a : Position) (rows : List Candidate) → Above a rows → Above a (take n rows)
Above-take zero a rows h = tt
Above-take (suc n) a [] h = tt
Above-take (suc n) a (first ∷ rest) h = (h.0, Above-take n a rest h.1)

pub Ascending-take : (n : ℕ) (rows : List Candidate) → Ascending rows → Ascending (take n rows)
Ascending-take zero rows h = tt
Ascending-take (suc n) [] h = tt
Ascending-take (suc n) (first ∷ rest) h =
    (Above-take n (position_of first) rest h.0, Ascending-take n rest h.1)

Above-Among :
    (a : Position) (rows : List Candidate) (candidate : Candidate)
    → Above a rows
    → Among candidate rows
    → cursor_after (position_of candidate) a ≡ true
Above-Among a [] candidate h m = absurd m
Above-Among a (first ∷ rest) candidate h (inl e) = rw (sym e) h.0
Above-Among a (first ∷ rest) candidate h (inr m) = Above-Among a rest candidate h.1 m

pub length-take : (n : ℕ) (rows : List Candidate) → length (take n rows) ≤ n
length-take zero rows = omega arith
length-take (suc n) [] = omega arith
length-take (suc n) (first ∷ rest) = omega (arith, length-take n rest)

pub take_whole : (n : ℕ) (rows : List Candidate) → ltb n (length rows) ≡ false → take n rows ≡ rows
take_whole zero [] h = refl
take_whole zero (first ∷ rest) h = ground arith
take_whole (suc n) [] h = refl
take_whole (suc n) (first ∷ rest) h = ground (arith, take_whole n rest)

pub all-take :
    (lib : Library) (n : ℕ) (rows : List Candidate)
    → ((candidate : Candidate) → Among candidate rows → candidate_ok lib candidate ≡ true)
    → all (candidate_ok lib) (take n rows) ≡ true
all-take lib zero rows h = refl
all-take lib (suc n) [] h = refl
all-take lib (suc n) (first ∷ rest) h =
    ground (arith, h first (inl refl), all-take lib n rest (λ candidate m. h candidate (inr m)))

-- A row is in the first ones, or stands after the last of these.
pub taken_or_after :
    (n : ℕ) (rows : List Candidate) (candidate : Candidate)
    → Ascending rows
    → Among candidate rows
    → Among candidate (take (suc n) rows)
      ⊎ (cursor_after (position_of candidate) (next_of (take (suc n) rows)) ≡ true)
taken_or_after n [] candidate k m = absurd m
taken_or_after n (first ∷ rest) candidate k (inl e) = inl (inl e)
taken_or_after zero (first ∷ rest) candidate k (inr m) =
    inr (Above-Among (position_of first) rest candidate k.0 m)
taken_or_after (suc n) (first ∷ []) candidate k (inr m) = absurd m
taken_or_after (suc n) (first ∷ second ∷ rest) candidate k (inr m) =
    elim (taken_or_after n (second ∷ rest) candidate k.1 m) [ inl t ↦ inl (inr t) | inr a ↦ inr a ]

-- The last position of a part that is not empty stands after what all stand after.
pub next_of-after :
    (n : ℕ) (a : Position) (rows : List Candidate)
    → Above a rows
    → ltb (suc n) (length rows) ≡ true
    → cursor_after (next_of (take (suc n) rows)) a ≡ true
next_of-after n a [] h l = absurd (ground arith)
next_of-after zero a (first ∷ rest) h l = h.0
next_of-after (suc n) a (first ∷ []) h l = absurd (ground arith)
next_of-after (suc n) a (first ∷ second ∷ rest) h l =
    next_of-after n a (second ∷ rest) h.1 (ground arith)
