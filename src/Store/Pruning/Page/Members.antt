-- ===== src/Store/Pruning/Page/Members.antt =====
-- internal/storage/sqlite/pruning.go: which rows the candidates are.
use activity_relay_directory.Prelude.{
  ℕ, ◌≡◌, ◌⊎◌, refl, sym, true, false, some, List, [], ◌∷◌, arith, Bool-cases, inl, inr, Bytes,
  bytes_eq, bytes_eq_iff, lookup, has, has-keys, keys, Distinct, subst,
}
use activity_relay_directory.Store.Schema.{Relay, Database}
use activity_relay_directory.Store.Pruning.Page.{
  Position, cursor_after, Candidate, position_of, selected, candidate_of, insert_ordered, query,
}

abbrev pub Among : Candidate → List Candidate → Type 0
Among candidate [] = ⊥
Among candidate (first ∷ rest) = (first ≡ candidate) ⊎ Among candidate rest

-- A candidate is a row of the relays that the query selects.
abbrev pub Listed : Database → ℕ → Position → List (Bytes × Relay) → Candidate → Type 0
Listed db observed after relays candidate =
    (row : Relay) × (lookup candidate.relay_actor relays ≡ some row)
    × (candidate ≡ candidate_of (candidate.relay_actor, row))
    × (selected db observed after (candidate.relay_actor, row) ≡ true)

Among-insert_ordered :
    (candidate other : Candidate) (rest : List Candidate)
    → Among candidate (insert_ordered other rest)
    → (other ≡ candidate) ⊎ Among candidate rest
unfolding insert_ordered
Among-insert_ordered candidate other [] h = h
Among-insert_ordered candidate other (first ∷ rest) h =
    elim (Bool-cases (cursor_after (position_of other) (position_of first))) [
      | inr before ↦ rw before at h
      | inl further ↦
          let below : (first ≡ candidate) ⊎ Among candidate (insert_ordered other rest) =
            rw further at h in
          elim below [
            | inl e ↦ inr (inl e)
            | inr m ↦ elim (Among-insert_ordered candidate other rest m) [
              | inl e ↦ inl e
              | inr k ↦ inr (inr k)
            ]
          ]
    ]

insert_ordered-Among :
    (candidate other : Candidate) (rest : List Candidate)
    → (other ≡ candidate) ⊎ Among candidate rest
    → Among candidate (insert_ordered other rest)
unfolding insert_ordered
insert_ordered-Among candidate other [] h = h
insert_ordered-Among candidate other (first ∷ rest) h =
    elim (Bool-cases (cursor_after (position_of other) (position_of first))) [
      | inr before ↦ rw before h
      | inl further ↦ rw further (elim h [
        | inl e ↦ inr (insert_ordered-Among candidate other rest (inl e))
        | inr (inl e) ↦ inl e
        | inr (inr m) ↦ inr (insert_ordered-Among candidate other rest (inr m))
      ])
    ]

module _ (db : Database) (observed : ℕ) (after : Position) where
  Listed-head :
      (key : Bytes) (row : Relay) (relays : List (Bytes × Relay)) (candidate : Candidate)
      → selected db observed after (key, row) ≡ true
      → candidate_of (key, row) ≡ candidate
      → Listed db observed after ((key, row) ∷ relays) candidate
  unfolding lookup
  Listed-head key row relays candidate h e =
      subst (λ c. Listed db observed after ((key, row) ∷ relays) c) e
        (row, ground (arith, bytes_eq_iff key key), refl, h)

  Listed-tail :
      (key : Bytes) (row : Relay) (relays : List (Bytes × Relay)) (candidate : Candidate)
      → has key (keys relays) ≡ false
      → Listed db observed after relays candidate
      → Listed db observed after ((key, row) ∷ relays) candidate
  unfolding lookup
  Listed-tail key row relays candidate apart (found, e, c, h) =
      (found, ground (arith, has-keys key relays, bytes_eq_iff key candidate.relay_actor), c, h)

  pub query-Listed :
      (relays : List (Bytes × Relay)) (candidate : Candidate)
      → Distinct (keys relays)
      → Among candidate (query db observed after relays)
      → Listed db observed after relays candidate
  unfolding query
  query-Listed [] candidate d h = absurd h
  query-Listed ((key, row) ∷ relays) candidate d h =
      elim (Bool-cases (selected db observed after (key, row))) [
        | inr out ↦
            Listed-tail key row relays candidate d.0
              (query-Listed relays candidate d.1 (rw out at h))
        | inl taken ↦
            elim (Among-insert_ordered candidate (candidate_of (key, row))
              (query db observed after relays) (rw taken at h)) [
                | inl e ↦ Listed-head key row relays candidate taken e
                | inr m ↦
                    Listed-tail key row relays candidate d.0 (query-Listed relays candidate d.1 m)
              ]
      ]

  pub Listed-query :
      (relays : List (Bytes × Relay)) (candidate : Candidate)
      → Listed db observed after relays candidate
      → Among candidate (query db observed after relays)
  unfolding query lookup
  Listed-query [] candidate (row, e, c, h) = cc
  Listed-query ((key, found) ∷ relays) candidate (row, e, c, h) =
      elim (Bool-cases (bytes_eq key candidate.relay_actor)) [
        | inl same ↦
            let of_key : key ≡ candidate.relay_actor =
              (bytes_eq_iff key candidate.relay_actor).0 same in
            let of_row : found ≡ row = ground arith in
            let taken : selected db observed after (key, found) ≡ true = rw (of_key, of_row) h in
            let is_it : candidate_of (key, found) ≡ candidate = rw (of_key, of_row) (sym c) in
            rw taken (
              insert_ordered-Among candidate (candidate_of (key, found))
                (query db observed after relays) (inl is_it))
        | inr apart ↦
            let known : lookup candidate.relay_actor relays ≡ some row = ground arith in
            let rest = Listed-query relays candidate (row, known, c, h) in
            elim (Bool-cases (selected db observed after (key, found))) [
              | inr out ↦ rw out rest
              | inl taken ↦ rw taken (
                  insert_ordered-Among candidate (candidate_of (key, found))
                    (query db observed after relays) (inr rest))
            ]
      ]
