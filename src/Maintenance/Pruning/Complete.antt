-- ===== src/Maintenance/Pruning/Complete.antt =====
-- internal/pruning/run.go over internal/storage/sqlite/pruning.go: a run that ends at the last page leaves no
-- relay to prune.
pub mod Ended
use activity_relay_directory.Prelude.{
  ℕ, zero, suc, ◌+◌, ◌<◌, ◌≤◌, ◌≡◌, ◌⊎◌, refl, sym, ap, true, false, not, ◌||◌, Option, none, some,
  List, [], ◌∷◌, leb, ltb, ◌==◌, length, Bytes, bytes_eq, bytes_eq_iff, lookup, arith, Bool-cases,
  Option-cases, inl, inr,
}
use activity_relay_directory.Identity.Library.{Library}
use activity_relay_directory.Store.Schema.{Relay, Database}
use activity_relay_directory.Store.Transaction.{Attempt, done, failed}
use activity_relay_directory.Store.Rows.{since_epoch}
use activity_relay_directory.Store.Pruning.{PruneOutcome, soft_prune}
use activity_relay_directory.Store.Pruning.Eligible.{Eligible}
use activity_relay_directory.Store.Pruning.Progress.{Ready, Answered, soft_prune-Answered}
use activity_relay_directory.Store.Pruning.Page.{
  Position, start, is_start, position_valid, cursor_after, Candidate, position_of, candidate_of,
  PageResult, page, read_input, read_failure, prune_candidates, selected,
}
use activity_relay_directory.Store.Pruning.Page.Members.{Among, Listed}
use activity_relay_directory.Store.Pruning.Page.Contract.{Paged, prune_candidates-page}
use activity_relay_directory.Maintenance.Pruning.{
  RunError, configuration_error, repository_error, canceled, Totals, no_totals, count_outcome,
  page_limit, candidate_fits, PageEnd, broken, reached, same_position, Turn, stop, go_on, attempt,
  after_page, use_page, turn, follow, run_pages, run,
}
use activity_relay_directory.Maintenance.Pruning.Counts.{Counted, Turned}
use activity_relay_directory.Maintenance.Pruning.Bounds.{turn-Turned, no_totals-Counted}
use activity_relay_directory.Maintenance.Pruning.Stored.{Environment, stored, outcome_of}

module _ (lib : Library) (observed : ℕ) where
  -- Every relay that is eligible is among the candidates, or stands after the position to read on from.
  abbrev pub Pending : Database → List Candidate → Position → Type 0
  Pending db candidates next =
      (actor : Bytes) (row : Relay)
      → Eligible db actor observed row
      → Among (candidate_of (actor, row)) candidates
        ⊎ ((is_start next ≡ false)
            × (cursor_after (position_of (candidate_of (actor, row))) next ≡ true))

  -- Every relay that is eligible stands after the position.
  abbrev pub Open : Database → Position → Type 0
  Open db cursor =
      (actor : Bytes) (row : Relay)
      → Eligible db actor observed row
      → cursor_after (position_of (candidate_of (actor, row))) cursor ≡ true

  abbrev pub NoneLeft : Database → Type 0
  NoneLeft db = (actor : Bytes) (row : Relay) → Eligible db actor observed row → ⊥

  -- How the candidates of a page leave the database.
  pub data Emptied (next : Position) : (Database × ℕ) × Totals × PageEnd → Type 0 where
    cut_short :
        (s : Database × ℕ) (totals : Totals) (e : RunError) → Emptied next (s, totals, broken e)
    all_tried :
        (s : Database × ℕ) (totals : Totals) (position : Position)
        → Ready lib s.0
        → Pending s.0 [] next
        → Emptied next (s, totals, reached position)

  -- How a turn leaves the database.
  pub data Onward : (Database × ℕ) × Totals × Turn → Type 0 where
    failing :
        (s : Database × ℕ) (totals : Totals) (e : RunError) → Onward (s, totals, stop (some e))
    ending :
        (s : Database × ℕ) (totals : Totals)
        → (totals.truncated ≡ false → NoneLeft s.0)
        → Onward (s, totals, stop none)
    going_on :
        (s : Database × ℕ) (totals : Totals) (next : Position)
        → Ready lib s.0
        → Open s.0 next
        → leb 1000 totals.scanned ≡ false
        → Onward (s, totals, go_on next)

  Pending-next :
      (db next : Database) (candidate : Candidate) (candidates : List Candidate) (to : Position)
      → Pending db (candidate ∷ candidates) to
      → ((other : Bytes) (row : Relay)
          → Eligible next other observed row
          → (bytes_eq candidate.relay_actor other ≡ false) × Eligible db other observed row)
      → Pending next candidates to
  Pending-next db next candidate candidates to p k other row e =
      let (apart, e') = k other row e in
      elim (p other row e') [
        | inr later ↦ inr later
        | inl (inr m) ↦ inl m
        | inl (inl same) ↦ absurd (
            let mine : candidate.relay_actor ≡ other = ap (λ c. c.relay_actor) same in
            ground (arith, bytes_eq_iff candidate.relay_actor other))
      ]

  pub Answered-outcome :
      (db : Database) (actor : Bytes) (result : Database × Attempt PruneOutcome)
      (outcome : PruneOutcome)
      → Answered lib db actor observed result
      → outcome_of result.1 ≡ some outcome
      → Ready lib result.0
        × ((other : Bytes) (row : Relay)
            → Eligible result.0 other observed row
            → (bytes_eq actor other ≡ false) × Eligible db other observed row)
  Answered-outcome db actor (next, done o) outcome a h = a
  Answered-outcome db actor (next, failed e) outcome a h = absurd (ground arith)

  pub Eligible-Listed :
      (db : Database) (cursor : Position) (actor : Bytes) (row : Relay)
      → Open db cursor
      → Eligible db actor observed row
      → Listed db observed cursor db.relays (candidate_of (actor, row))
  unfolding selected
  Eligible-Listed db cursor actor row o e =
      (row, e.known, refl, ground (arith, e.listed, e.idle, e.unprotected, o actor row e))

  module _ (env : Environment) where
    pub attempt-Emptied :
        (s : Database × ℕ) (totals : Totals) (position : Position) (candidates : List Candidate)
        (next : Position)
        → Ready lib s.0
        → Pending s.0 candidates next
        → Emptied next (attempt lib (stored lib env observed) observed s totals position candidates)
    unfolding attempt
    attempt-Emptied s totals position [] next r p = all_tried s totals position r p
    attempt-Emptied s totals position (candidate ∷ candidates) next r p =
        elim (Bool-cases (candidate_fits lib observed position candidate)) [
          | inr bad ↦ rw bad (cut_short s totals configuration_error)
          | inl fits ↦ rw fits (elim (Bool-cases (env.cancels s.1)) [
            | inl gone ↦ rw gone (cut_short s totals canceled)
            | inr still ↦ rw still (elim (Option-cases (outcome_of pruned.1)) [
              | inl e ↦ rw e (cut_short (pruned.0, s.1 + 1) totals repository_error)
              | inr (outcome, e) ↦
                  let (r', k) =
                    Answered-outcome s.0 candidate.relay_actor pruned outcome
                      (soft_prune-Answered lib s.0 candidate.relay_actor observed (env.faults s.1)
                        r)
                      e in
                  rw e (
                    attempt-Emptied (pruned.0, s.1 + 1) (count_outcome outcome totals)
                      (position_of candidate) candidates next r'
                      (Pending-next s.0 pruned.0 candidate candidates next p k))
            ])
          ])
        ]
      where
        pruned : Database × Attempt PruneOutcome
        pruned = soft_prune lib (env.faults s.1) s.0 candidate.relay_actor (since_epoch observed)

    Pending-Open : (db : Database) (next : Position) → Pending db [] next → Open db next
    Pending-Open db next p actor row e = elim (p actor row e) [
      | inl m ↦ absurd m
      | inr later ↦ later.1
    ]

    pub Pending-NoneLeft :
        (db : Database) (next : Position) → is_start next ≡ true → Pending db [] next → NoneLeft db
    Pending-NoneLeft db next h p actor row e = elim (p actor row e) [
      | inl m ↦ m
      | inr later ↦ ground (arith, later.0)
    ]

    pub after_page-Onward :
        (next : Position) (taken : (Database × ℕ) × Totals × PageEnd)
        → taken.1.scanned ≤ 1000
        → Emptied next taken
        → Onward (after_page next taken)
    unfolding after_page
    after_page-Onward next _ h (cut_short s totals e) = failing s totals e
    after_page-Onward next _ h (all_tried s totals position r p) =
        elim (Bool-cases (is_start next)) [
          | inl last_page ↦
              rw last_page (ending s totals (λ whole. Pending-NoneLeft s.0 next last_page p))
          | inr more ↦
              rw more
                (elim (Bool-cases
                  (not (position_valid next) || not (same_position next position))) [
                    | inl wrong ↦ rw wrong (failing s totals configuration_error)
                    | inr right ↦ rw right (elim (Bool-cases (totals.scanned == 1000)) [
                      | inl full ↦ rw full (
                          ending s (record totals { truncated = true })
                            (λ whole. absurd (ground arith)))
                      | inr room ↦
                          rw room
                            (going_on s totals next r (Pending-Open s.0 next p) (ground arith))
                    ])
                  ])
        ]
