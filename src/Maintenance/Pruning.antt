-- ===== src/Maintenance/Pruning.antt =====
-- internal/pruning/run.go: `Run`, over any repository and context. What they answer depends on a state that
-- the calls change, and that others may change too.
pub mod Counts
pub mod Stored
pub mod Spared
pub mod Complete
pub mod Fitting
pub mod Calm
pub mod Bounds
use activity_relay_directory.Prelude.{
  ℕ, zero, suc, ◌+◌, ◌-◌, Bool, true, false, not, ◌&&◌, ◌||◌, Option, none, some, List, [], ◌∷◌,
  ltb, leb, ◌==◌, if◌then◌else◌, Bytes, length, bytes_eq,
}
use activity_relay_directory.Identity.Library.{Library}
use activity_relay_directory.Store.Rows.{canonical_actor}
use activity_relay_directory.Store.Pruning.{
  PruneOutcome, prune_applied, already_pruned, not_eligible, dead_before,
}
use activity_relay_directory.Store.Pruning.Page.{
  Position, start, is_start, position_valid, cursor_after, Candidate, position_of, PageResult, page,
  read_input, read_failure, maximum_prune_candidate_page,
}

-- The methods of `storage.PruningRepository` and `ctx.Err`, at the captured time.
pub record Repository (State : Type 0) : Type 0 where
  pub prune_candidates : State → Position → ℕ → State × PageResult
  pub soft_prune : State → Bytes → State × Option PruneOutcome
  pub is_canceled : State → Bool

pub data RunError : Type 0 where
  configuration_error repository_error canceled : RunError

pub record Totals : Type 0 where
  pub scanned : ℕ
  pub pruned : ℕ
  pub skipped : ℕ
  pub truncated : Bool

abbrev pub no_totals : Totals
no_totals = record { scanned = 0; pruned = 0; skipped = 0; truncated = false }

abbrev pub maximum_attempts : ℕ
maximum_attempts = 1000

abbrev pub page_limit : ℕ → ℕ
page_limit scanned =
    let remaining = maximum_attempts - scanned in
    if ltb remaining maximum_prune_candidate_page then remaining else maximum_prune_candidate_page

unfoldable pub count_outcome : PruneOutcome → Totals → Totals
count_outcome prune_applied totals = record totals {
  scanned = totals.scanned + 1;
  pruned = totals.pruned + 1;
}
count_outcome already_pruned totals = record totals {
  scanned = totals.scanned + 1;
  skipped = totals.skipped + 1;
}
count_outcome not_eligible totals = record totals {
  scanned = totals.scanned + 1;
  skipped = totals.skipped + 1;
}

-- The candidate is one that the page may hold at this place.
unfoldable pub candidate_fits : Library → ℕ → Position → Candidate → Bool
candidate_fits lib observed position candidate =
    position_valid (position_of candidate)
    && canonical_actor lib candidate.relay_actor
    && not (ltb observed (candidate.last_seen + dead_before))
    && cursor_after (position_of candidate) position

pub data PageEnd : Type 0 where
  broken : RunError → PageEnd
  reached : Position → PageEnd

-- How a turn of the loop ends: the run returns, or reads on after a position.
pub data Turn : Type 0 where
  stop : Option RunError → Turn
  go_on : Position → Turn

abbrev pub same_position : Position → Position → Bool
same_position a b = a.last_seen == b.last_seen && bytes_eq a.relay_actor b.relay_actor

-- What follows the candidates of a page.
unfoldable pub after_page :
    {State : Type 0} → Position → State × Totals × PageEnd → State × Totals × Turn
after_page next (s, totals, broken e) = (s, totals, stop (some e))
after_page next (s, totals, reached position) =
    if is_start next
    then (s, totals, stop none)
    else if not (position_valid next) || not (same_position next position)
    then (s, totals, stop (some configuration_error))
    else if totals.scanned == maximum_attempts
    then (s, record totals { truncated = true }, stop none)
    else (s, totals, go_on next)

abbrev pub follow :
    {State : Type 0}
    → (State → Totals → Position → State × Totals × Option RunError)
    → State × Totals × Turn
    → State × Totals × Option RunError
follow rest (s, totals, stop e) = (s, totals, e)
follow rest (s, totals, go_on next) = rest s totals next

module _ {State : Type 0} (lib : Library) (repository : Repository State) (observed : ℕ) where
  -- The loop over the candidates of a page.
  unfoldable pub attempt : State → Totals → Position → List Candidate → State × Totals × PageEnd
  attempt s totals position [] = (s, totals, reached position)
  attempt s totals position (candidate ∷ candidates) =
      if not (candidate_fits lib observed position candidate)
      then (s, totals, broken configuration_error)
      else if repository.is_canceled s
      then (s, totals, broken canceled)
      else let (s', answer) = repository.soft_prune s candidate.relay_actor in
        elim answer [
          | none ↦ (s', totals, broken repository_error)
          | some outcome ↦
              attempt s' (count_outcome outcome totals) (position_of candidate) candidates
        ]

  unfoldable pub use_page : State → Totals → Position → PageResult → State × Totals × Turn
  use_page s totals cursor read_input = (s, totals, stop (some repository_error))
  use_page s totals cursor read_failure = (s, totals, stop (some repository_error))
  use_page s totals cursor (page found) =
      if length found.candidates == 0
      then (s, totals, stop (if is_start found.next then none else some configuration_error))
      else if ltb (page_limit totals.scanned) (length found.candidates)
      then (s, totals, stop (some configuration_error))
      else after_page found.next (attempt s totals cursor found.candidates)

  unfoldable pub turn : State → Totals → Position → State × Totals × Turn
  turn s totals cursor =
      let (s', found) = repository.prune_candidates s cursor (page_limit totals.scanned) in
      use_page s' totals cursor found

  -- The first argument counts the turns that are left.
  unfoldable pub run_pages : ℕ → State → Totals → Position → State × Totals × Option RunError
  run_pages zero s totals cursor = (s, totals, none)
  run_pages (suc turns) s totals cursor =
      if leb maximum_attempts totals.scanned
      then (s, totals, none)
      else follow (run_pages turns) (turn s totals cursor)

  -- `Run` at a time since 1970.
  unfoldable pub run : State → State × Totals × Option RunError
  run s =
      if repository.is_canceled s
      then (s, no_totals, some canceled)
      else run_pages (maximum_attempts + 1) s no_totals start
