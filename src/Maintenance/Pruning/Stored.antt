-- ===== src/Maintenance/Pruning/Stored.antt =====
-- internal/pruning/run.go over internal/storage/sqlite/pruning.go: a run on the database that `PruneCandidates`
-- reads and `SoftPrune` writes.
use activity_relay_directory.Prelude.{
  ℕ, zero, suc, ◌+◌, ◌≡◌, refl, Bool, Option, none, some, List, [], ◌∷◌, leb, Bytes, arith,
  Bool-cases, Option-cases, inl, inr, length, ltb, ◌==◌,
}
use activity_relay_directory.Identity.Library.{Library}
use activity_relay_directory.Store.Schema.{Database}
use activity_relay_directory.Store.Transaction.{Attempt, done, failed, Faults}
use activity_relay_directory.Store.Rows.{since_epoch}
use activity_relay_directory.Store.Pruning.{PruneOutcome, soft_prune}
use activity_relay_directory.Store.Pruning.Page.{
  Position, start, position_of, Candidate, PageResult, page, read_input, read_failure,
  prune_candidates,
}
use activity_relay_directory.Store.History.{prune_request, serve}
use activity_relay_directory.Maintenance.Pruning.{
  Repository, Totals, no_totals, count_outcome, page_limit, candidate_fits, PageEnd, broken,
  reached, Turn, stop, go_on, attempt, after_page, use_page, turn, follow, run_pages, run,
}

-- What the environment answers to the calls, by their number: which statements fail, whether a read fails,
-- and whether the context is canceled.
pub record Environment : Type 0 where
  pub faults : ℕ → Faults
  pub read_fails : ℕ → Bool
  pub cancels : ℕ → Bool

abbrev pub outcome_of : Attempt PruneOutcome → Option PruneOutcome
outcome_of (done outcome) = some outcome
outcome_of (failed e) = none

-- The database, and how many calls were made.
abbrev pub stored : Library → Environment → ℕ → Repository (Database × ℕ)
stored lib env observed = record {
  prune_candidates = λ s position limit. (
    (s.0, s.1 + 1),
    prune_candidates lib (env.read_fails s.1) s.0 position limit (since_epoch observed),
  );
  soft_prune = λ s actor. (
    ((soft_prune lib (env.faults s.1) s.0 actor (since_epoch observed)).0, s.1 + 1),
    outcome_of (soft_prune lib (env.faults s.1) s.0 actor (since_epoch observed)).1,
  );
  is_canceled = λ s. env.cancels s.1;
}

-- The second database is what prune requests at the captured time make of the first.
pub data Served (lib : Library) (observed : ℕ) : Database → Database → Type 0 where
  here : (db : Database) → Served lib observed db db
  pruned_then :
      (db final : Database) (fails : Faults) (actor : Bytes)
      → Served lib observed (serve lib db (fails, prune_request actor (since_epoch observed))) final
      → Served lib observed db final

module _ (lib : Library) (observed : ℕ) where
  Served-trans :
      {a b c : Database}
      → Served lib observed a b
      → Served lib observed b c
      → Served lib observed a c
  Served-trans (here db) k = k
  Served-trans (pruned_then db final fails actor h) k =
      pruned_then db _ fails actor (Served-trans h k)

  module _ (env : Environment) where
    attempt-Served :
        (s : Database × ℕ) (totals : Totals) (position : Position) (candidates : List Candidate)
        → Served lib observed s.0
            (attempt lib (stored lib env observed) observed s totals position candidates).0.0
    unfolding attempt serve
    attempt-Served s totals position [] = here s.0
    attempt-Served s totals position (candidate ∷ candidates) =
        elim (Bool-cases (candidate_fits lib observed position candidate)) [
          | inr bad ↦ rw bad (here s.0)
          | inl fits ↦ rw fits (elim (Bool-cases (env.cancels s.1)) [
            | inl gone ↦ rw gone (here s.0)
            | inr still ↦ rw still (
                pruned_then s.0 _ (env.faults s.1) candidate.relay_actor
                  (elim (Option-cases (
                    outcome_of
                      (soft_prune lib (env.faults s.1) s.0 candidate.relay_actor
                        (since_epoch observed)).1)) [
                          | inl e ↦ rw e (here _)
                          | inr (outcome, e) ↦ rw e (
                              attempt-Served
                                (
                                  (soft_prune lib (env.faults s.1) s.0 candidate.relay_actor
                                      (since_epoch observed)).0,
                                  s.1 + 1,
                                )
                                (count_outcome outcome totals) (position_of candidate) candidates)
                        ]))
          ])
        ]

    after_page-state :
        (next : Position) (taken : (Database × ℕ) × Totals × PageEnd)
        → (after_page next taken).0 ≡ taken.0
    unfolding after_page
    after_page-state next (s, totals, broken e) = refl
    after_page-state next (s, totals, reached position) = ground arith

    use_page-Served :
        (s : Database × ℕ) (totals : Totals) (cursor : Position) (found : PageResult)
        → Served lib observed s.0
            (use_page lib (stored lib env observed) observed s totals cursor found).0.0
    unfolding use_page
    use_page-Served s totals cursor read_input = here s.0
    use_page-Served s totals cursor read_failure = here s.0
    use_page-Served s totals cursor (page found) =
        elim (Bool-cases (length found.candidates == 0)) [
          | inl no_rows ↦ rw no_rows (here s.0)
          | inr rows ↦
              rw rows
                (elim (Bool-cases (ltb (page_limit totals.scanned) (length found.candidates))) [
                  | inl many ↦ rw many (here s.0)
                  | inr few ↦
                      rw
                        (
                          few,
                          after_page-state found.next (
                              attempt lib (stored lib env observed) observed s totals cursor
                                found.candidates),
                        )
                        (attempt-Served s totals cursor found.candidates)
                ])
        ]

    run_pages-Served :
        (turns : ℕ) (s : Database × ℕ) (totals : Totals) (cursor : Position)
        → Served lib observed s.0
            (run_pages lib (stored lib env observed) observed turns s totals cursor).0.0
    unfolding run_pages turn
    run_pages-Served zero s totals cursor = here s.0
    run_pages-Served (suc turns) s totals cursor = elim (Bool-cases (leb 1000 totals.scanned)) [
      | inl full ↦ rw full (here s.0)
      | inr room ↦ rw room (
          after _
            (use_page-Served (s.0, s.1 + 1) totals cursor
              (prune_candidates lib (env.read_fails s.1) s.0 cursor (page_limit totals.scanned)
                (since_epoch observed)))
            (λ s' totals' next. run_pages-Served turns s' totals' next))
    ]
      where
        after :
            (taken : (Database × ℕ) × Totals × Turn)
            → Served lib observed s.0 taken.0.0
            → ((s' : Database × ℕ) (totals' : Totals) (next : Position)
                → Served lib observed s'.0
                    (run_pages lib (stored lib env observed) observed turns s' totals' next).0.0)
            → Served lib observed s.0
                (follow (run_pages lib (stored lib env observed) observed turns) taken).0.0
        after (s', totals', stop e) h rest = h
        after (s', totals', go_on next) h rest = Served-trans h (rest s' totals' next)

    -- A run changes the database by prune requests at its captured time alone, whichever of its calls fail
    -- and whenever it is canceled.
    pub run-Served :
        (s : Database × ℕ)
        → Served lib observed s.0 (run lib (stored lib env observed) observed s).0.0
    unfolding run
    run-Served s = elim (Bool-cases (env.cancels s.1)) [
      | inl gone ↦ rw gone (here s.0)
      | inr still ↦ rw still (run_pages-Served 1001 s no_totals start)
    ]
