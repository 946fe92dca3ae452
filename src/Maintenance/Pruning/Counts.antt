-- ===== src/Maintenance/Pruning/Counts.antt =====
-- internal/pruning/run.go: what a run counts, and how it ends.
use activity_relay_directory.Prelude.{
  ℕ, ◌+◌, ◌≤◌, ◌<◌, ◌≡◌, refl, ◌∙◌, true, false, not, ◌||◌, Option, none, some, List, [], ◌∷◌, ltb,
  ◌==◌, length, arith, Bool-cases, Option-cases, inl, inr,
}
use activity_relay_directory.Identity.Library.{Library}
use activity_relay_directory.Store.Pruning.{
  PruneOutcome, prune_applied, already_pruned, not_eligible,
}
use activity_relay_directory.Store.Pruning.Page.{
  Position, is_start, position_valid, Candidate, position_of, PageResult, page, read_input,
  read_failure,
}
use activity_relay_directory.Maintenance.Pruning.{
  Repository, RunError, configuration_error, repository_error, canceled, Totals, count_outcome,
  page_limit, candidate_fits, PageEnd, broken, reached, Turn, stop, go_on, attempt, same_position,
  after_page, use_page,
}

pub record Counted (totals : Totals) : Type 0 where
  pub adds_up : totals.pruned + totals.skipped ≡ totals.scanned
  pub bounded : totals.scanned ≤ 1000

count_outcome-adds :
    (outcome : PruneOutcome) (totals : Totals)
    → totals.pruned + totals.skipped ≡ totals.scanned
    → ((count_outcome outcome totals).pruned + (count_outcome outcome totals).skipped
        ≡ (count_outcome outcome totals).scanned)
      × ((count_outcome outcome totals).scanned ≡ totals.scanned + 1)
      × ((count_outcome outcome totals).truncated ≡ totals.truncated)
unfolding count_outcome
count_outcome-adds prune_applied totals h = (omega arith, refl, refl)
count_outcome-adds already_pruned totals h = (omega arith, refl, refl)
count_outcome-adds not_eligible totals h = (omega arith, refl, refl)

-- What the candidates of a page, `most` at most, add to the totals.
pub record Attempted (totals : Totals) (most : ℕ) (next : Totals) (end : PageEnd) : Type 0 where
  adds_up : next.pruned + next.skipped ≡ next.scanned
  grows : totals.scanned ≤ next.scanned
  pub within : next.scanned ≤ totals.scanned + most
  same : next.truncated ≡ totals.truncated
  all_scanned :
      (position : Position) → end ≡ reached position → next.scanned ≡ totals.scanned + most

module _ {State : Type 0} (lib : Library) (repository : Repository State) (observed : ℕ) where
  stopped-Attempted :
      (totals : Totals) (most : ℕ) (e : RunError)
      → totals.pruned + totals.skipped ≡ totals.scanned
      → Attempted totals most totals (broken e)
  stopped-Attempted totals most e h = record {
    adds_up = h;
    grows = omega arith;
    within = omega arith;
    same = refl;
    all_scanned = λ position w. absurd (ground arith);
  }

  pub attempt-Attempted :
      (s : State) (totals : Totals) (position : Position) (candidates : List Candidate)
      → totals.pruned + totals.skipped ≡ totals.scanned
      → Attempted totals
          (length candidates)
          (attempt lib repository observed s totals position candidates).1
          (attempt lib repository observed s totals position candidates).2
  unfolding attempt
  attempt-Attempted s totals position [] h = record {
    adds_up = h;
    grows = omega arith;
    within = omega arith;
    same = refl;
    all_scanned = λ p w. omega arith;
  }
  attempt-Attempted s totals position (candidate ∷ candidates) h =
      elim (Bool-cases (candidate_fits lib observed position candidate)) [
        | inr bad ↦ rw bad (stopped-Attempted totals _ configuration_error h)
        | inl fits ↦ rw fits (elim (Bool-cases (repository.is_canceled s)) [
          | inl gone ↦ rw gone (stopped-Attempted totals _ canceled h)
          | inr here ↦
              rw here (elim (Option-cases (repository.soft_prune s candidate.relay_actor).1) [
                | inl e ↦ rw e (stopped-Attempted totals _ repository_error h)
                | inr (outcome, e) ↦
                    let (adds, one, same) = count_outcome-adds outcome totals h in
                    let rest =
                      attempt-Attempted (repository.soft_prune s candidate.relay_actor).0
                        (count_outcome outcome totals) (position_of candidate) candidates adds in
                    rw e (record {
                      adds_up = rest.adds_up;
                      grows = omega (arith, rest.grows);
                      within = omega (arith, rest.within);
                      same = rest.same ∙ same;
                      all_scanned = λ p w. omega (arith, rest.all_scanned p w);
                    })
              ])
        ])
      ]

-- What a turn does to the totals of a run that was not cut off.
pub record Turned (totals next : Totals) (taken : Turn) : Type 0 where
  pub adds_up : next.pruned + next.skipped ≡ next.scanned
  pub bounded : next.scanned ≤ 1000
  pub cut : next.truncated ≡ true → (next.scanned ≡ 1000) × (taken ≡ stop none)
  pub forward :
      (position : Position)
      → taken ≡ go_on position
      → (totals.scanned < next.scanned) × (next.truncated ≡ false)

module _ {State : Type 0} (lib : Library) (repository : Repository State) (observed : ℕ) where
  stopped-Turned :
      (totals next : Totals) (e : Option RunError)
      → next.pruned + next.skipped ≡ next.scanned
      → next.scanned ≤ 1000
      → next.truncated ≡ false
      → Turned totals next (stop e)
  stopped-Turned totals next e h k f = record {
    adds_up = h;
    bounded = k;
    cut = λ w. absurd (ground arith);
    forward = λ p w. absurd (ground arith);
  }

  after_page-Turned :
      (totals : Totals) (next : Position) (most : ℕ) (taken : State × Totals × PageEnd)
      → 0 < most
      → totals.scanned + most ≤ 1000
      → totals.truncated ≡ false
      → Attempted totals most taken.1 taken.2
      → Turned totals (after_page next taken).1 (after_page next taken).2
  unfolding after_page
  after_page-Turned totals next most (s, end, broken e) some_rows fits open_run a =
      stopped-Turned totals end (some e) a.adds_up (omega (arith, a.within)) (a.same ∙ open_run)
  after_page-Turned totals next most (s, end, reached position) some_rows fits open_run a =
      let all = a.all_scanned position refl in
      elim (Bool-cases (is_start next)) [
        | inl last_page ↦
            rw last_page
              (stopped-Turned totals end none a.adds_up (omega (arith, all)) (a.same ∙ open_run))
        | inr more ↦
            rw more
              (elim (Bool-cases (not (position_valid next) || not (same_position next position))) [
                | inl wrong ↦ rw wrong (
                    stopped-Turned totals end (some configuration_error) a.adds_up
                      (omega (arith, all)) (a.same ∙ open_run))
                | inr right ↦ rw right (elim (Bool-cases (end.scanned == 1000)) [
                  | inl full ↦ rw full (record {
                    adds_up = a.adds_up;
                    bounded = omega (arith, all);
                    cut = λ w. (ground arith, refl);
                    forward = λ p w. absurd (ground arith);
                  })
                  | inr left ↦ rw left (record {
                    adds_up = a.adds_up;
                    bounded = omega (arith, all);
                    cut = λ w.
                        absurd (let no : end.truncated ≡ false = a.same ∙ open_run in ground arith);
                    forward = λ p w. (omega (arith, all), a.same ∙ open_run);
                  })
                ])
              ])
      ]

  pub use_page-Turned :
      (s : State) (totals : Totals) (cursor : Position) (found : PageResult)
      → Counted totals
      → totals.truncated ≡ false
      → Turned totals
          (use_page lib repository observed s totals cursor found).1
          (use_page lib repository observed s totals cursor found).2
  unfolding use_page
  use_page-Turned s totals cursor read_input c open_run =
      stopped-Turned totals totals (some repository_error) c.adds_up c.bounded open_run
  use_page-Turned s totals cursor read_failure c open_run =
      stopped-Turned totals totals (some repository_error) c.adds_up c.bounded open_run
  use_page-Turned s totals cursor (page found) c open_run =
      elim (Bool-cases (length found.candidates == 0)) [
        | inl no_rows ↦ rw no_rows (stopped-Turned totals totals _ c.adds_up c.bounded open_run)
        | inr rows ↦
            rw rows (elim (Bool-cases (ltb (page_limit totals.scanned) (length found.candidates))) [
              | inl many ↦ rw many (
                  stopped-Turned totals totals (some configuration_error) c.adds_up c.bounded
                    open_run)
              | inr few ↦ rw few (
                  after_page-Turned totals found.next (length found.candidates)
                    (attempt lib repository observed s totals cursor found.candidates)
                    (ground arith) (ground (arith, c.bounded)) open_run
                    (attempt-Attempted lib repository observed s totals cursor found.candidates
                      c.adds_up))
            ])
      ]
