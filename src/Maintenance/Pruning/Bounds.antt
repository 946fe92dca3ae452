-- ===== src/Maintenance/Pruning/Bounds.antt =====
-- internal/pruning/run.go: the bound of a run, and its end.
use activity_relay_directory.Prelude.{
  ℕ, zero, suc, ◌+◌, ◌≤◌, ◌<◌, ◌≡◌, refl, true, false, Option, none, some, leb, arith, Bool-cases,
  inl, inr,
}
use activity_relay_directory.Identity.Library.{Library}
use activity_relay_directory.Store.Pruning.Page.{Position, start}
use activity_relay_directory.Maintenance.Pruning.{
  Repository, RunError, canceled, Totals, no_totals, Turn, stop, go_on, follow, turn, page_limit,
  run_pages, run,
}
use activity_relay_directory.Maintenance.Pruning.Counts.{Counted, Turned, use_page-Turned}

-- What a run answers: its totals add up and are bounded, and it is cut off only at the bound and without
-- an error.
pub record Ran (totals : Totals) (e : Option RunError) : Type 0 where
  pub adds_up : totals.pruned + totals.skipped ≡ totals.scanned
  pub bounded : totals.scanned ≤ 1000
  pub cut : totals.truncated ≡ true → (totals.scanned ≡ 1000) × (e ≡ none)

pub no_totals-Counted : Counted no_totals
no_totals-Counted = record { adds_up = omega arith; bounded = omega arith }

module _ {State : Type 0} (lib : Library) (repository : Repository State) (observed : ℕ) where
  pub turn-Turned :
      (s : State) (totals : Totals) (cursor : Position)
      → Counted totals
      → totals.truncated ≡ false
      → Turned totals
          (turn lib repository observed s totals cursor).1
          (turn lib repository observed s totals cursor).2
  unfolding turn
  turn-Turned s totals cursor c open_run =
      use_page-Turned lib repository observed
        (repository.prune_candidates s cursor (page_limit totals.scanned)).0 totals cursor
        (repository.prune_candidates s cursor (page_limit totals.scanned)).1 c open_run

  unended-Ran :
      (totals : Totals) (e : Option RunError)
      → Counted totals
      → totals.truncated ≡ false
      → Ran totals e
  unended-Ran totals e c open_run = record {
    adds_up = c.adds_up;
    bounded = c.bounded;
    cut = λ w. absurd (ground arith);
  }

  run_pages-Ran :
      (turns : ℕ) (s : State) (totals : Totals) (cursor : Position)
      → Counted totals
      → totals.truncated ≡ false
      → Ran
          (run_pages lib repository observed turns s totals cursor).1
          (run_pages lib repository observed turns s totals cursor).2
  unfolding run_pages
  run_pages-Ran zero s totals cursor c open_run = unended-Ran totals none c open_run
  run_pages-Ran (suc turns) s totals cursor c open_run =
      elim (Bool-cases (leb 1000 totals.scanned)) [
        | inl full ↦ rw full (unended-Ran totals none c open_run)
        | inr room ↦ rw room (
            after (turn lib repository observed s totals cursor)
              (turn-Turned s totals cursor c open_run)
              (λ s' totals' next c' open'. run_pages-Ran turns s' totals' next c' open'))
      ]
    where
      after :
          (taken : State × Totals × Turn)
          → Turned totals taken.1 taken.2
          → ((s' : State) (totals' : Totals) (next : Position)
              → Counted totals'
              → totals'.truncated ≡ false
              → Ran
                  (run_pages lib repository observed turns s' totals' next).1
                  (run_pages lib repository observed turns s' totals' next).2)
          → Ran
              (follow (run_pages lib repository observed turns) taken).1
              (follow (run_pages lib repository observed turns) taken).2
      after (s', totals', stop e) t rest = record {
        adds_up = t.adds_up;
        bounded = t.bounded;
        cut = λ w. let (full, ends) = t.cut w in (full, ground arith);
      }
      after (s', totals', go_on next) t rest =
          rest s' totals' next (record { adds_up = t.adds_up; bounded = t.bounded })
            (t.forward next refl).1

  -- A run scans at most 1000 candidates, and those it pruned and those it skipped make up the scanned ones,
  -- whatever the repository answers; it is cut off only after 1000, and then without an error.
  pub run-Ran :
      (s : State) → Ran (run lib repository observed s).1 (run lib repository observed s).2
  unfolding run
  run-Ran s = elim (Bool-cases (repository.is_canceled s)) [
    | inl gone ↦ rw gone (unended-Ran no_totals (some canceled) no_totals-Counted refl)
    | inr here ↦ rw here (run_pages-Ran 1001 s no_totals start no_totals-Counted refl)
  ]

  more_turns :
      (a b : ℕ) (s : State) (totals : Totals) (cursor : Position)
      → Counted totals
      → totals.truncated ≡ false
      → 1000 < a + totals.scanned
      → 1000 < b + totals.scanned
      → run_pages lib repository observed a s totals cursor
        ≡ run_pages lib repository observed b s totals cursor
  unfolding run_pages
  more_turns zero b s totals cursor c open_run h k = absurd (omega (arith, c.bounded))
  more_turns (suc a) zero s totals cursor c open_run h k = absurd (omega (arith, c.bounded))
  more_turns (suc a) (suc b) s totals cursor c open_run h k =
      elim (Bool-cases (leb 1000 totals.scanned)) [
        | inl full ↦ rw full refl
        | inr room ↦ rw room (
            after (turn lib repository observed s totals cursor)
              (turn-Turned s totals cursor c open_run)
              (λ s' totals' next c' open' further.
                more_turns a b s' totals' next c' open' (omega arith) (omega arith)))
      ]
    where
      after :
          (taken : State × Totals × Turn)
          → Turned totals taken.1 taken.2
          → ((s' : State) (totals' : Totals) (next : Position)
              → Counted totals'
              → totals'.truncated ≡ false
              → totals.scanned < totals'.scanned
              → run_pages lib repository observed a s' totals' next
                ≡ run_pages lib repository observed b s' totals' next)
          → follow (run_pages lib repository observed a) taken
            ≡ (follow (run_pages lib repository observed b) taken)
      after (s', totals', stop e) t rest = refl
      after (s', totals', go_on next) t rest =
          let (further, still) = t.forward next refl in
          rest s' totals' next (record { adds_up = t.adds_up; bounded = t.bounded }) still further

  -- A run never ends for want of turns: with any number of turns above 1000 it answers the same.
  pub run_pages-enough :
      (turns : ℕ) (s : State)
      → 1000 < turns
      → run_pages lib repository observed turns s no_totals start
        ≡ run_pages lib repository observed 1001 s no_totals start
  run_pages-enough turns s h =
      more_turns turns 1001 s no_totals start no_totals-Counted refl (omega arith) (omega arith)
