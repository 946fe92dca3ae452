-- ===== src/Maintenance/Pruning/Fitting.antt =====
-- internal/pruning/run.go over internal/storage/sqlite/pruning.go: the candidates of a stored page pass the tests
-- of the run.
use activity_relay_directory.Prelude.{
  ℕ, ◌+◌, ◌≤◌, ◌≡◌, ◌⊎◌, refl, sym, ap, ◌∙◌, true, false, some, List, [], ◌∷◌, ltb, ◌==◌, length,
  Bytes, bytes_eq_iff, is_empty, arith, Bool-cases, inl, inr,
}
use activity_relay_directory.Identity.Library.{Library}
use activity_relay_directory.Identity.Normalize.{
  normalize_relay_identity, normalize_relay_actor_url,
}
use activity_relay_directory.Identity.Normalize.Binding.{normalize_relay_identity-inv}
use activity_relay_directory.Store.Schema.{Relay, Database, relay_check, sized}
use activity_relay_directory.Store.Rows.{validate_identity_intent, canonical_actor}
use activity_relay_directory.Store.Rows.Consistent.{Consistent}
use activity_relay_directory.Store.Pruning.{dead_before}
use activity_relay_directory.Store.Pruning.Page.{
  Position, start, is_start, position_valid, position_refused, cursor_after, Candidate, position_of,
  selected, next_of, Page,
}
use activity_relay_directory.Store.Pruning.Page.Order.{Above, Ascending}
use activity_relay_directory.Store.Pruning.Page.Members.{Among, Listed}
use activity_relay_directory.Store.Pruning.Page.Contract.{Paged}
use activity_relay_directory.Maintenance.Pruning.{candidate_fits}

normalized-canonical_actor :
    (lib : Library) (actor : Bytes)
    → normalize_relay_actor_url lib actor ≡ some actor
    → canonical_actor lib actor ≡ true
normalized-canonical_actor lib actor e = ground (arith, bytes_eq_iff actor actor)

identity-canonical_actor :
    (lib : Library) (actor base : Bytes)
    → normalize_relay_identity lib actor base
      ≡ some (record { relay_actor = actor; public_base_url = base })
    → canonical_actor lib actor ≡ true
unfolding normalize_relay_actor_url
identity-canonical_actor lib actor base e =
    let (a, b, ea, eb, same, it) = normalize_relay_identity-inv lib actor base _ e in
    normalized-canonical_actor lib actor (rw ea (ap (λ i. some i.relay_actor) (sym it)))

-- A relay that a run may try.
pub record Tried (lib : Library) (observed : ℕ) (candidate : Candidate) : Type 0 where
  pub named : is_empty candidate.relay_actor ≡ false
  pub canonical : canonical_actor lib candidate.relay_actor ≡ true
  pub intent : validate_identity_intent lib candidate.relay_actor ≡ true
  pub idle : ltb observed (candidate.last_seen + dead_before) ≡ false

sized_lem : (text : Bytes) → sized 4096 text ≡ true → (is_empty text ≡ false) × (length text ≤ 4096)
unfolding sized
sized_lem [] h = ground arith
sized_lem (x ∷ text) h = (refl, ground arith)

checked_size :
    (actor : Bytes) (row : Relay) → relay_check actor row ≡ true → sized 4096 actor ≡ true
unfolding relay_check
checked_size actor row h = ground arith

intent_lem :
    (lib : Library) (actor : Bytes)
    → is_empty actor ≡ false
    → length actor ≤ 4096
    → canonical_actor lib actor ≡ true
    → validate_identity_intent lib actor ≡ true
unfolding validate_identity_intent
intent_lem lib [] h k c = ground arith
intent_lem lib (x ∷ actor) h k c = ground (arith, c)

pub Listed-Tried :
    (lib : Library) (db : Database) (observed : ℕ) (after : Position) (candidate : Candidate)
    → Consistent lib db
    → Listed db observed after db.relays candidate
    → Tried lib observed candidate
unfolding selected
Listed-Tried lib db observed after candidate c (row, known, it, h) =
    let (checked, normal) = c.relays_ok candidate.relay_actor row known in
    let (named, short) =
      sized_lem candidate.relay_actor (checked_size candidate.relay_actor row checked) in
    let canonical = identity-canonical_actor lib candidate.relay_actor row.public_base_url normal in
    let seen : candidate.last_seen ≡ row.last_seen_at = ap (λ x. x.last_seen) it in
    record {
      named = named;
      canonical = canonical;
      intent = intent_lem lib candidate.relay_actor named short canonical;
      idle = rw seen (ground arith);
    }

pub Listed-after :
    (db : Database) (observed : ℕ) (after : Position) (candidate : Candidate)
    → Listed db observed after db.relays candidate
    → cursor_after (position_of candidate) after ≡ true
unfolding selected
Listed-after db observed after candidate (row, known, it, h) =
    let seen : candidate.last_seen ≡ row.last_seen_at = ap (λ x. x.last_seen) it in
    rw seen (ground arith)

module _ (lib : Library) (observed : ℕ) where
  -- Each candidate passes the tests of the run and of `SoftPrune`, from the position on.
  abbrev pub Fitting : Position → List Candidate → Type 0
  Fitting position [] = Unit {0}
  Fitting position (candidate ∷ rest) =
      (candidate_fits lib observed position candidate ≡ true)
      × (validate_identity_intent lib candidate.relay_actor ≡ true)
      × Fitting (position_of candidate) rest

  Tried-fits :
      (position : Position) (candidate : Candidate)
      → Tried lib observed candidate
      → cursor_after (position_of candidate) position ≡ true
      → candidate_fits lib observed position candidate ≡ true
  unfolding candidate_fits position_valid
  Tried-fits position candidate t h = ground (arith, t.named, t.canonical, t.idle)

  Above-Fitting :
      (position : Position) (candidates : List Candidate)
      → Above position candidates
      → Ascending candidates
      → ((candidate : Candidate) → Among candidate candidates → Tried lib observed candidate)
      → Fitting position candidates
  Above-Fitting position [] a k t = tt
  Above-Fitting position (candidate ∷ rest) a k t = (
    Tried-fits position candidate (t candidate (inl refl)) a.0,
    (t candidate (inl refl)).intent,
    Above-Fitting (position_of candidate) rest k.0 k.1 (λ c m. t c (inr m)),
  )

  -- The position after the candidates.
  abbrev pub end_of : Position → List Candidate → Position
  end_of position [] = position
  end_of position (candidate ∷ rest) = end_of (position_of candidate) rest

  end_of-next_of :
      (position : Position) (candidates : List Candidate)
      → (length candidates == 0) ≡ false
      → end_of position candidates ≡ next_of candidates
  end_of-next_of position [] h = ground arith
  end_of-next_of position (candidate ∷ []) h = refl
  end_of-next_of position (candidate ∷ second ∷ rest) h =
      end_of-next_of (position_of candidate) (second ∷ rest) (ground arith)

  -- A position to read on from that both the run and the read accept.
  pub record Usable (position : Position) : Type 0 where
    pub valid : position_valid position ≡ true
    pub taken : position_refused lib position observed ≡ false

  pub start-Usable : Usable start
  unfolding position_valid
  start-Usable = record { valid = refl; taken = refl }

  Tried-Usable :
      (candidate : Candidate) → Tried lib observed candidate → Usable (position_of candidate)
  unfolding position_valid
  Tried-Usable candidate t = record {
    valid = ground (arith, t.named);
    taken = ground (arith, t.named, t.intent, t.idle);
  }

  next_of-Usable :
      (candidates : List Candidate)
      → ((candidate : Candidate) → Among candidate candidates → Tried lib observed candidate)
      → Usable (next_of candidates)
  next_of-Usable [] t = start-Usable
  next_of-Usable (candidate ∷ []) t = Tried-Usable candidate (t candidate (inl refl))
  next_of-Usable (candidate ∷ second ∷ rest) t = next_of-Usable (second ∷ rest) (λ c m. t c (inr m))

  Above-all :
      (position : Position) (candidates : List Candidate)
      → ((candidate : Candidate)
          → Among candidate candidates
          → cursor_after (position_of candidate) position ≡ true)
      → Above position candidates
  Above-all position [] h = tt
  Above-all position (candidate ∷ rest) h =
      (h candidate (inl refl), Above-all position rest (λ c m. h c (inr m)))

  -- What a stored page lets the run do.
  pub record Good (cursor : Position) (found : Page) : Type 0 where
    pub fitting : Fitting cursor found.candidates
    pub usable : Usable found.next
    pub ends :
        (is_start found.next ≡ true)
        ⊎ ((length found.candidates == 0 ≡ false) × (found.next ≡ end_of cursor found.candidates))

  pub Paged-Good :
      (db : Database) (cursor : Position) (limit : ℕ) (found : Page)
      → Consistent lib db
      → Paged db observed cursor limit found
      → Good cursor found
  Paged-Good db cursor limit found c p = record {
    fitting =
        Above-Fitting cursor found.candidates
          (Above-all cursor found.candidates
            (λ candidate m. Listed-after db observed cursor candidate (p.listed candidate m)))
          p.ascending all_tried;
    usable = elim p.ends [
      | inl e ↦ rw e start-Usable
      | inr e ↦ rw e (next_of-Usable found.candidates all_tried)
    ];
    ends = elim p.ends [
      | inl e ↦ inl (rw e refl)
      | inr e ↦ elim (Bool-cases (length found.candidates == 0)) [
        | inr rows ↦ inr (rows, e ∙ sym (end_of-next_of cursor found.candidates rows))
        | inl no_rows ↦ inl (rw e (no_rows-start found.candidates no_rows))
      ]
    ];
  }
    where
      all_tried :
          (candidate : Candidate) → Among candidate found.candidates → Tried lib observed candidate
      all_tried candidate m = Listed-Tried lib db observed cursor candidate c (p.listed candidate m)

      no_rows-start :
          (candidates : List Candidate)
          → (length candidates == 0) ≡ true
          → is_start (next_of candidates) ≡ true
      no_rows-start [] h = refl
      no_rows-start (x ∷ xs) h = ground arith
