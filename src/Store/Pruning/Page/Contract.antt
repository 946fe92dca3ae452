-- ===== src/Store/Pruning/Page/Contract.antt =====
-- internal/storage/sqlite/pruning.go: what a page of candidates promises.
use activity_relay_directory.Prelude.{
  ℕ, zero, suc, ◌+◌, ◌≤◌, ◌<◌, ◌≡◌, ◌⊎◌, refl, sym, ap, subst, Bool, true, false, some, List, [],
  ◌∷◌, ltb, arith, Bool-cases, inl, inr, if◌then◌else◌, Bytes, bytes_lt, bytes_eq_iff, is_empty,
  keys, Distinct, length, take,
}
use activity_relay_directory.Identity.Library.{Library}
use activity_relay_directory.Identity.Normalize.{normalize_relay_identity}
use activity_relay_directory.Store.Schema.{Database}
use activity_relay_directory.Store.Rows.{since_epoch, canonical_identity}
use activity_relay_directory.Store.Rows.Consistent.{Consistent}
use activity_relay_directory.Store.Pruning.Page.{
  Position, start, is_start, position_valid, position_refused, cursor_after, Candidate, position_of,
  next_of, candidate_ok, Page, page, query, page_of, prune_candidates,
}
use activity_relay_directory.Store.Pruning.Page.Order.{Ascending, query-Above, query-Ascending}
use activity_relay_directory.Store.Pruning.Page.Members.{Among, Listed, query-Listed, Listed-query}
use activity_relay_directory.Store.Pruning.Page.First.{
  Among-take, Ascending-take, length-take, take_whole, all-take, taken_or_after, next_of-after,
}

not_below_empty : (s : Bytes) → bytes_lt s [] ≡ false
unfolding bytes_lt
not_below_empty [] = refl
not_below_empty (x ∷ s) = refl

start-first : (a : Position) → cursor_after start a ≡ false
unfolding cursor_after
start-first a = ground (arith, not_below_empty a.relay_actor)

-- The page that a database has after a position.
pub record Paged (db : Database) (observed : ℕ) (after : Position) (limit : ℕ) (found : Page)
    : Type 0 where
  pub bounded : length found.candidates ≤ limit
  pub ascending : Ascending found.candidates
  pub listed :
      (candidate : Candidate)
      → Among candidate found.candidates
      → Listed db observed after db.relays candidate
  pub ends : (found.next ≡ start) ⊎ (found.next ≡ next_of found.candidates)
  pub complete :
      (candidate : Candidate)
      → Listed db observed after db.relays candidate
      → Among candidate found.candidates
        ⊎ ((is_start found.next ≡ false) × (cursor_after (position_of candidate) found.next ≡ true))

is_empty_lem : (s : Bytes) → is_empty s ≡ true → s ≡ []
is_empty_lem [] h = refl
is_empty_lem (x ∷ s) h = ground arith

-- A position that stands after another one is not the start.
after_not_start : (a b : Position) → cursor_after b a ≡ true → is_start b ≡ false
unfolding cursor_after
after_not_start a b h = elim (Bool-cases (is_start b)) [
  | inr other ↦ other
  | inl first ↦ ground (arith, not_below_empty a.relay_actor, is_empty_lem b.relay_actor)
]

normal_canonical :
    (lib : Library) (actor base : Bytes)
    → normalize_relay_identity lib actor base
      ≡ some (record { relay_actor = actor; public_base_url = base })
    → canonical_identity lib actor base ≡ true
normal_canonical lib actor base e = ground (arith, bytes_eq_iff actor actor, bytes_eq_iff base base)

module _ (lib : Library) (db : Database) (observed : ℕ) (after : Position) where
  Listed-candidate_ok :
      (candidate : Candidate)
      → Consistent lib db
      → Listed db observed after db.relays candidate
      → candidate_ok lib candidate ≡ true
  Listed-candidate_ok candidate c (row, e, is_it, h) =
      let base : row.public_base_url ≡ candidate.public_base_url =
        sym (ap (λ x. x.public_base_url) is_it) in
      let normal : normalize_relay_identity lib candidate.relay_actor candidate.public_base_url
          ≡ some (record {
            relay_actor = candidate.relay_actor;
            public_base_url = candidate.public_base_url;
          }) =
        rw base at (c.relays_ok candidate.relay_actor row e).1 in
      normal_canonical lib candidate.relay_actor candidate.public_base_url normal

  abbrev query_rows : List Candidate
  query_rows = query db observed after db.relays

  abbrev first_page : ℕ → Page
  first_page limit = record {
    candidates = take limit query_rows;
    next = if ltb limit (length query_rows) then next_of (take limit query_rows) else start;
  }

  first_page-Paged :
      (limit : ℕ)
      → Distinct (keys db.relays)
      → Paged db observed after (suc limit) (first_page (suc limit))
  first_page-Paged limit d = record {
    bounded = length-take (suc limit) query_rows;
    ascending =
        Ascending-take (suc limit) query_rows (query-Ascending db observed after db.relays d);
    listed = λ candidate m.
        query-Listed db observed after db.relays candidate d
          (Among-take (suc limit) query_rows candidate m);
    ends = elim (Bool-cases (ltb (suc limit) (length query_rows))) [
      | inr whole ↦ inl (rw whole refl)
      | inl more ↦ inr (rw more refl)
    ];
    complete = λ candidate l. elim (Bool-cases (ltb (suc limit) (length query_rows))) [
      | inr whole ↦ inl (
          rw (take_whole (suc limit) query_rows whole)
            (Listed-query db observed after db.relays candidate l))
      | inl more ↦
          rw more
            (elim (taken_or_after limit query_rows candidate
              (query-Ascending db observed after db.relays d)
              (Listed-query db observed after db.relays candidate l)) [
                | inl t ↦ inl t
                | inr a ↦ inr (
                  after_not_start after (next_of (take (suc limit) query_rows)) (
                      next_of-after limit after query_rows (query-Above db observed after db.relays)
                        more),
                  a,
                )
              ])
    ];
  }

  page_of-page :
      (limit : ℕ)
      → Consistent lib db
      → Distinct (keys db.relays)
      → page_of lib limit query_rows ≡ page (first_page limit)
  unfolding page_of
  page_of-page limit c d =
      rw
        (all-take lib (limit + 1) query_rows (λ candidate m.
          Listed-candidate_ok candidate c (query-Listed db observed after db.relays candidate d m)))
        refl

  -- A read of a consistent database that does not fail answers a page for any input it allows, and the
  -- page holds the first candidates after the position in their order, at most as many as the limit:
  -- they are relays that the query selects, and each such relay is on the page or stands after the
  -- position to read on from, which is then not the start.
  pub prune_candidates-Paged :
      (limit : ℕ)
      → Consistent lib db
      → Distinct (keys db.relays)
      → position_valid after ≡ true
      → position_refused lib after observed ≡ false
      → 0 < limit
      → limit ≤ 100
      → (found : Page) × (prune_candidates lib false db after limit (since_epoch observed)
          ≡ page found)
        × Paged db observed after limit found
  unfolding prune_candidates
  prune_candidates-Paged zero c d v r low high = absurd (omega arith)
  prune_candidates-Paged (suc limit) c d v r low high = (
    first_page (suc limit),
    ground (arith, page_of-page (suc limit) c d),
    first_page-Paged limit d,
  )

  page_injective : (a b : Page) → page a ≡ page b → a ≡ b
  page_injective a b h = ground arith

  -- Any page that is answered is one.
  pub prune_candidates-page :
      (fails : Bool) (limit : ℕ) (found : Page)
      → Consistent lib db
      → Distinct (keys db.relays)
      → prune_candidates lib fails db after limit (since_epoch observed) ≡ page found
      → Paged db observed after limit found
  unfolding prune_candidates
  prune_candidates-page fails zero found c d h = ground arith
  prune_candidates-page fails (suc limit) found c d h =
      let e : first_page (suc limit) ≡ found = ground (arith, page_of-page (suc limit) c d) in
      subst (λ p. Paged db observed after (suc limit) p) e (first_page-Paged limit d)
