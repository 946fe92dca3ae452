-- ===== src/Maintenance/Pruning/Calm.antt =====
-- internal/pruning/run.go over internal/storage/sqlite/pruning.go: a run of which no call fails and that is not
-- canceled.
use activity_relay_directory.Prelude.{
  ℕ, zero, suc, ◌+◌, ◌≤◌, ◌≡◌, ◌⊎◌, refl, subst, true, false, none, some, List, [], ◌∷◌, leb, ltb,
  ◌==◌, length, Bytes, bytes_eq_iff, arith, Bool-cases, inl, inr,
}
use activity_relay_directory.Identity.Library.{Library}
use activity_relay_directory.Store.Schema.{Database}
use activity_relay_directory.Store.Transaction.{StoreError, Attempt, Faults}
use activity_relay_directory.Store.Transaction.Ends.{Sane, Settled, committed, unwritten, refused}
use activity_relay_directory.Store.Rows.{since_epoch, validate_identity_intent}
use activity_relay_directory.Store.Pruning.{PruneOutcome, soft_prune}
use activity_relay_directory.Store.Pruning.Eligible.{Pruned, PruneReason, not_valid, Unpruned}
use activity_relay_directory.Store.Pruning.Prune.{soft_prune-Pruned}
use activity_relay_directory.Store.Pruning.Progress.{Ready, soft_prune-Answered}
use activity_relay_directory.Store.Pruning.Page.{
  Position, start, is_start, Candidate, position_of, Page, page,
}
use activity_relay_directory.Store.Pruning.Page.Contract.{prune_candidates-Paged}
use activity_relay_directory.Maintenance.Pruning.{
  RunError, Totals, no_totals, count_outcome, page_limit, PageEnd, broken, reached, same_position,
  Turn, stop, go_on, attempt, after_page, use_page, turn, follow, run_pages, run,
}
use activity_relay_directory.Maintenance.Pruning.Counts.{Counted, Turned}
use activity_relay_directory.Maintenance.Pruning.Bounds.{turn-Turned, no_totals-Counted}
use activity_relay_directory.Maintenance.Pruning.Stored.{Environment, stored, outcome_of}
use activity_relay_directory.Maintenance.Pruning.Complete.{
  Open, Onward, failing, ending, going_on, Answered-outcome,
}
use activity_relay_directory.Maintenance.Pruning.Complete.Ended.{turn-Onward, start-Open}
use activity_relay_directory.Maintenance.Pruning.Fitting.{
  Fitting, end_of, Usable, Good, Paged-Good, start-Usable,
}

-- No call fails, and the context is not canceled.
pub record Calm (env : Environment) : Type 0 where
  pub sane : (call : ℕ) → Sane (env.faults call)
  pub readable : (call : ℕ) → env.read_fails call ≡ false
  pub lasting : (call : ℕ) → env.cancels call ≡ false

-- A turn that ends a run without an error or goes on from a usable position.
data Fine (lib : Library) (observed : ℕ) : Turn → Type 0 where
  over : Fine lib observed (stop none)
  onward : (next : Position) → Usable lib observed next → Fine lib observed (go_on next)

same_position_refl : (a : Position) → same_position a a ≡ true
same_position_refl a = ground (arith, bytes_eq_iff a.relay_actor a.relay_actor)

module _ (lib : Library) (observed : ℕ) where
  Settled-outcome :
      (fails : Faults) (db : Database) (actor : Bytes) (result : Database × Attempt PruneOutcome)
      → Sane fails
      → validate_identity_intent lib actor ≡ true
      → Settled fails
          (PruneReason lib actor)
          (Pruned lib db actor observed)
          (Unpruned db actor observed)
          db
          result
      → (outcome : PruneOutcome) × (outcome_of result.1 ≡ some outcome)
  Settled-outcome fails db actor _ sane v (committed next outcome p) = (outcome, refl)
  Settled-outcome fails db actor _ sane v (unwritten outcome u) = (outcome, refl)
  Settled-outcome fails db actor _ sane v (refused e reason) = absurd (never (reason sane))
    where
      never : {wrong : StoreError} → PruneReason lib actor wrong → ⊥
      never (not_valid bad) = ground arith

  Fine-some : {t : Turn} (e : RunError) → Fine lib observed t → t ≡ stop (some e) → ⊥
  Fine-some e over h = ground arith
  Fine-some e (onward next u) h = ground arith

  Fine-going :
      {t : Turn}
      → Fine lib observed t
      → (next : Position) → t ≡ go_on next
      → Usable lib observed next
  Fine-going over next h = absurd (ground arith)
  Fine-going (onward reached_to u) next h =
      let e : reached_to ≡ next = ground arith in subst (λ x. Usable lib observed x) e u

  Onward-going :
      {taken : (Database × ℕ) × Totals × Turn}
      → Onward lib observed taken
      → (next : Position) → taken.2 ≡ go_on next
      → Ready lib taken.0.0 × Open lib observed taken.0.0 next × (leb 1000 taken.1.scanned ≡ false)
  Onward-going (failing s totals e) next h = absurd (ground arith)
  Onward-going (ending s totals k) next h = absurd (ground arith)
  Onward-going (going_on s totals reached_to r o room) next h =
      let e : reached_to ≡ next = ground arith in
      (r, subst (λ x. Open lib observed s.0 x) e o, room)

  module _ (env : Environment) (calm : Calm env) where
    attempt-reached :
        (s : Database × ℕ) (totals : Totals) (position : Position) (candidates : List Candidate)
        → Ready lib s.0
        → Fitting lib observed position candidates
        → (attempt lib (stored lib env observed) observed s totals position candidates).2
          ≡ reached (end_of lib observed position candidates)
    unfolding attempt
    attempt-reached s totals position [] r f = refl
    attempt-reached s totals position (candidate ∷ candidates) r (fits, intent, rest) =
        let (outcome, e) =
          Settled-outcome (env.faults s.1) s.0 candidate.relay_actor pruned (calm.sane s.1) intent (
            soft_prune-Pruned lib (env.faults s.1) s.0 candidate.relay_actor observed
              r.consistent) in
        let (r', k) =
          Answered-outcome lib observed s.0 candidate.relay_actor pruned outcome
            (soft_prune-Answered lib s.0 candidate.relay_actor observed (env.faults s.1) r) e in
        rw (fits, calm.lasting s.1, e)
          (attempt-reached (pruned.0, s.1 + 1) (count_outcome outcome totals)
            (position_of candidate) candidates r' rest)
      where
        pruned : Database × Attempt PruneOutcome
        pruned = soft_prune lib (env.faults s.1) s.0 candidate.relay_actor (since_epoch observed)

    after_page-Fine :
        (next position : Position) (taken : (Database × ℕ) × Totals × PageEnd)
        → taken.2 ≡ reached position
        → (is_start next ≡ true) ⊎ (next ≡ position)
        → Usable lib observed next
        → Fine lib observed (after_page next taken).2
    unfolding after_page
    after_page-Fine next position (s, totals, broken e) h k u = absurd (ground arith)
    after_page-Fine next position (s, totals, reached here) h k u =
        elim (Bool-cases (is_start next)) [
          | inl last_page ↦ rw last_page over
          | inr more ↦
              let same : same_position next here ≡ true = ground (arith, same_position_refl here) in
              rw (more, u.valid, same)
                (elim (Bool-cases (totals.scanned == 1000)) [
                  | inl full ↦ rw full over
                  | inr room ↦ rw room (onward next u)
                ])
        ]

    use_page-Fine :
        (s : Database × ℕ) (totals : Totals) (cursor : Position) (found : Page)
        → Ready lib s.0
        → length found.candidates ≤ page_limit totals.scanned
        → Good lib observed cursor found
        → Fine lib observed
            (use_page lib (stored lib env observed) observed s totals cursor (page found)).2
    unfolding use_page
    use_page-Fine s totals cursor found r h g = elim (Bool-cases (length found.candidates == 0)) [
      | inl no_rows ↦ elim g.ends [
        | inl first ↦ rw (no_rows, first) over
        | inr (rows, e) ↦ absurd (ground arith)
      ]
      | inr rows ↦
          let few : ltb (page_limit totals.scanned) (length found.candidates) ≡ false =
            ground arith in
          rw (rows, few)
            (after_page-Fine found.next (end_of lib observed cursor found.candidates)
              (attempt lib (stored lib env observed) observed s totals cursor found.candidates)
              (attempt-reached s totals cursor found.candidates r g.fitting)
              (elim g.ends [ inl first ↦ inl first | inr (some_rows, e) ↦ inr e ]) g.usable)
    ]

    turn-Fine :
        (s : Database × ℕ) (totals : Totals) (cursor : Position)
        → Ready lib s.0
        → Usable lib observed cursor
        → leb 1000 totals.scanned ≡ false
        → Fine lib observed (turn lib (stored lib env observed) observed s totals cursor).2
    unfolding turn
    turn-Fine s totals cursor r u room =
        let (found, e, p) =
          prune_candidates-Paged lib s.0 observed cursor (page_limit totals.scanned) r.consistent
            r.once u.valid u.taken (ground arith) (ground arith) in
        rw (calm.readable s.1, e)
          (use_page-Fine (s.0, s.1 + 1) totals cursor found r p.bounded
            (Paged-Good lib observed s.0 cursor (page_limit totals.scanned) found r.consistent p))

    run_pages-fine :
        (turns : ℕ) (s : Database × ℕ) (totals : Totals) (cursor : Position)
        → Counted totals
        → totals.truncated ≡ false
        → leb 1000 totals.scanned ≡ false
        → Ready lib s.0
        → Open lib observed s.0 cursor
        → Usable lib observed cursor
        → (run_pages lib (stored lib env observed) observed turns s totals cursor).2 ≡ none
    unfolding run_pages
    run_pages-fine zero s totals cursor c open_run room r o u = refl
    run_pages-fine (suc turns) s totals cursor c open_run room r o u = rw room (
        after (turn lib (stored lib env observed) observed s totals cursor)
          (turn-Turned lib (stored lib env observed) observed s totals cursor c open_run)
          (turn-Onward lib observed env s totals cursor c r o) (turn-Fine s totals cursor r u room)
          (λ s' totals' next c' still room' r' o' u'.
            run_pages-fine turns s' totals' next c' still room' r' o' u'))
      where
        after :
            (taken : (Database × ℕ) × Totals × Turn)
            → Turned totals taken.1 taken.2
            → Onward lib observed taken
            → Fine lib observed taken.2
            → ((s' : Database × ℕ) (totals' : Totals) (next : Position)
                → Counted totals'
                → totals'.truncated ≡ false
                → leb 1000 totals'.scanned ≡ false
                → Ready lib s'.0
                → Open lib observed s'.0 next
                → Usable lib observed next
                → (run_pages lib (stored lib env observed) observed turns s' totals' next).2 ≡ none)
            → (follow (run_pages lib (stored lib env observed) observed turns) taken).2 ≡ none
        after (s', totals', stop none) t w f rest = refl
        after (s', totals', stop (some e)) t w f rest = absurd (Fine-some e f refl)
        after (s', totals', go_on next) t w f rest =
            let (further, still) = t.forward next refl in
            let (r', o', room') = Onward-going w next refl in
            rest s' totals' next (record { adds_up = t.adds_up; bounded = t.bounded }) still room'
              r' o' (Fine-going f next refl)

    -- A run of which no call fails and that is not canceled ends without an error, over a consistent database
    -- that holds each relay once.
    pub run-fine :
        (db : Database) (calls : ℕ)
        → Ready lib db
        → (run lib (stored lib env observed) observed (db, calls)).2 ≡ none
    unfolding run
    run-fine db calls r = rw (calm.lasting calls) (
        run_pages-fine 1001 (db, calls) no_totals start no_totals-Counted refl refl r
          (start-Open lib observed db r) (start-Usable lib observed))
