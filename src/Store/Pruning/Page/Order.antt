-- ===== src/Store/Pruning/Page/Order.antt =====
-- internal/storage/sqlite/pruning.go: the order of the candidates and which rows they are.
use activity_relay_directory.Prelude.{
  ℕ, ◌≡◌, refl, true, false, ◌||◌, List, [], ◌∷◌, map, arith, Bool-cases, inl, inr, Bytes, bytes_eq,
  bytes_eq_iff, bytes_lt_irrefl, bytes_lt_trans, bytes_lt_total, has, keys, Distinct,
}
use activity_relay_directory.Store.Schema.{Relay, Database}
use activity_relay_directory.Store.Pruning.Page.{
  Position, cursor_after, Candidate, position_of, selected, candidate_of, insert_ordered, query,
}

pub cursor_after_trans :
    (a b c : Position) → cursor_after a b ≡ true → cursor_after b c ≡ true → cursor_after a c ≡ true
unfolding cursor_after
cursor_after_trans a b c h k =
    ground (arith, bytes_lt_trans c.relay_actor b.relay_actor a.relay_actor)

cursor_after_total :
    (a b : Position)
    → bytes_eq a.relay_actor b.relay_actor ≡ false
    → cursor_after a b ≡ false
    → cursor_after b a ≡ true
unfolding cursor_after
cursor_after_total a b apart h = elim (bytes_lt_total a.relay_actor b.relay_actor) [
  | inl l ↦ ground (arith, l)
  | inr (inl e) ↦ absurd (let same = (bytes_eq_iff a.relay_actor b.relay_actor).1 e in ground arith)
  | inr (inr g) ↦ ground (arith, g)
]

pub cursor_after_irrefl : (a : Position) → cursor_after a a ≡ false
unfolding cursor_after
cursor_after_irrefl a = ground (arith, bytes_lt_irrefl a.relay_actor)

-- Every candidate stands after the position.
abbrev pub Above : Position → List Candidate → Type 0
Above position [] = Unit {0}
Above position (candidate ∷ rest) =
    (cursor_after (position_of candidate) position ≡ true) × Above position rest

abbrev pub Ascending : List Candidate → Type 0
Ascending [] = Unit {0}
Ascending (candidate ∷ rest) = Above (position_of candidate) rest × Ascending rest

abbrev pub actors : List Candidate → List Bytes
actors = map (λ candidate. candidate.relay_actor)

Above-trans :
    (a b : Position) (rest : List Candidate) → cursor_after b a ≡ true → Above b rest → Above a rest
Above-trans a b [] h k = tt
Above-trans a b (candidate ∷ rest) h k =
    (cursor_after_trans (position_of candidate) b a k.0 h, Above-trans a b rest h k.1)

pub Above-insert_ordered :
    (a : Position) (candidate : Candidate) (rest : List Candidate)
    → cursor_after (position_of candidate) a ≡ true
    → Above a rest
    → Above a (insert_ordered candidate rest)
unfolding insert_ordered
Above-insert_ordered a candidate [] h k = (h, tt)
Above-insert_ordered a candidate (first ∷ rest) h k =
    elim (Bool-cases (cursor_after (position_of candidate) (position_of first))) [
      | inl further ↦ rw further (k.0, Above-insert_ordered a candidate rest h k.1)
      | inr before ↦ rw before (h, (k.0, k.1))
    ]

Ascending-insert_ordered :
    (candidate : Candidate) (rest : List Candidate)
    → has candidate.relay_actor (actors rest) ≡ false
    → Ascending rest
    → Ascending (insert_ordered candidate rest)
unfolding insert_ordered has
Ascending-insert_ordered candidate [] h k = (tt, tt)
Ascending-insert_ordered candidate (first ∷ rest) h k =
    elim (Bool-cases (cursor_after (position_of candidate) (position_of first))) [
      | inl further ↦ rw further (
        Above-insert_ordered (position_of first) candidate rest further k.0,
        Ascending-insert_ordered candidate rest (ground arith) k.1,
      )
      | inr before ↦ rw before (
          let apart : bytes_eq candidate.relay_actor first.relay_actor ≡ false = ground (
            arith,
            bytes_eq_iff candidate.relay_actor first.relay_actor,
            bytes_eq_iff first.relay_actor candidate.relay_actor,
          ) in
          let next = cursor_after_total (position_of candidate) (position_of first) apart before in
          ((next, Above-trans (position_of candidate) (position_of first) rest next k.0), k))
    ]

has-insert_ordered :
    (actor : Bytes) (candidate : Candidate) (rest : List Candidate)
    → has actor (actors (insert_ordered candidate rest))
      ≡ (bytes_eq candidate.relay_actor actor || has actor (actors rest))
unfolding insert_ordered has
has-insert_ordered actor candidate [] = refl
has-insert_ordered actor candidate (first ∷ rest) =
    ground (arith, has-insert_ordered actor candidate rest)

pub has-query :
    (db : Database) (observed : ℕ) (after : Position) (relays : List (Bytes × Relay))
    (actor : Bytes)
    → has actor (actors (query db observed after relays)) ≡ true
    → has actor (keys relays) ≡ true
unfolding query has
has-query db observed after [] actor h = h
has-query db observed after ((key, row) ∷ relays) actor h = ground (
  arith,
  has-insert_ordered actor (candidate_of (key, row)) (query db observed after relays),
  has-query db observed after relays actor,
)

pub query-Ascending :
    (db : Database) (observed : ℕ) (after : Position) (relays : List (Bytes × Relay))
    → Distinct (keys relays)
    → Ascending (query db observed after relays)
unfolding query
query-Ascending db observed after [] d = tt
query-Ascending db observed after ((key, row) ∷ relays) d =
    elim (Bool-cases (selected db observed after (key, row))) [
      | inr out ↦ rw out (query-Ascending db observed after relays d.1)
      | inl taken ↦ rw taken (
          Ascending-insert_ordered (candidate_of (key, row)) (query db observed after relays)
            (ground (arith, has-query db observed after relays key))
            (query-Ascending db observed after relays d.1))
    ]

pub query-Above :
    (db : Database) (observed : ℕ) (after : Position) (relays : List (Bytes × Relay))
    → Above after (query db observed after relays)
unfolding query selected
query-Above db observed after [] = tt
query-Above db observed after ((key, row) ∷ relays) =
    elim (Bool-cases (selected db observed after (key, row))) [
      | inr out ↦ rw out (query-Above db observed after relays)
      | inl taken ↦ rw taken (
          Above-insert_ordered after (candidate_of (key, row)) (query db observed after relays)
            (ground arith) (query-Above db observed after relays))
    ]
