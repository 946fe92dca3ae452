-- ===== src/Maintenance/Pruning/Complete/Ended.antt =====
-- internal/pruning/run.go over internal/storage/sqlite/pruning.go: what is left when a run ends.
use activity_relay_directory.Prelude.{
  ℕ, zero, suc, ◌+◌, ◌<◌, ◌≤◌, ◌≡◌, refl, true, false, none, List, [], ◌∷◌, leb, ltb, ◌==◌, length,
  Bytes, bytes_lt, arith, Bool-cases, inl, inr,
}
use activity_relay_directory.Identity.Library.{Library}
use activity_relay_directory.Store.Schema.{Database, relay_check, sized}
use activity_relay_directory.Store.Pruning.Progress.{Ready}
use activity_relay_directory.Store.Pruning.Page.{
  Position, start, is_start, cursor_after, Candidate, candidate_of, PageResult, Page, page,
  read_input, read_failure,
}
use activity_relay_directory.Store.Pruning.Page.Members.{Among}
use activity_relay_directory.Store.Pruning.Page.Contract.{prune_candidates-page}
use activity_relay_directory.Maintenance.Pruning.{
  configuration_error, repository_error, Totals, no_totals, page_limit, Turn, attempt, use_page,
  turn, follow, run_pages, run,
}
use activity_relay_directory.Maintenance.Pruning.Counts.{Counted, Turned, attempt-Attempted}
use activity_relay_directory.Maintenance.Pruning.Bounds.{turn-Turned, no_totals-Counted}
use activity_relay_directory.Maintenance.Pruning.Stored.{Environment, stored}
use activity_relay_directory.Maintenance.Pruning.Complete.{
  Pending, Open, NoneLeft, Onward, failing, ending, going_on, Eligible-Listed, attempt-Emptied,
  after_page-Onward,
}

none-Among :
    (candidate : Candidate) (candidates : List Candidate)
    → (length candidates == 0) ≡ true
    → Among candidate candidates
    → ⊥
none-Among candidate [] h m = m
none-Among candidate (first ∷ rest) h m = ground arith

not_empty : (greatest : ℕ) (text : Bytes) → sized greatest text ≡ true → bytes_lt [] text ≡ true
unfolding sized bytes_lt
not_empty greatest [] h = ground arith
not_empty greatest (x ∷ text) h = refl

module _ (lib : Library) (observed : ℕ) where
  pub start-Open : (db : Database) → Ready lib db → Open lib observed db start
  unfolding cursor_after relay_check
  start-Open db r actor row e =
      let (checked, normal) = r.consistent.relays_ok actor row e.known in
      let text = not_empty 4096 actor (ground arith) in ground (arith, text)

  module _ (env : Environment) where
    use_page-Onward :
        (s : Database × ℕ) (totals : Totals) (cursor : Position) (result : PageResult)
        → Counted totals
        → Ready lib s.0
        → ((found : Page)
            → result ≡ page found
            → Pending lib observed s.0 found.candidates found.next)
        → Onward lib observed
            (use_page lib (stored lib env observed) observed s totals cursor result)
    unfolding use_page
    use_page-Onward s totals cursor read_input c r p = failing s totals repository_error
    use_page-Onward s totals cursor read_failure c r p = failing s totals repository_error
    use_page-Onward s totals cursor (page found) c r p =
        elim (Bool-cases (length found.candidates == 0)) [
          | inl no_rows ↦ rw no_rows (elim (Bool-cases (is_start found.next)) [
            | inr wrong ↦ rw wrong (failing s totals configuration_error)
            | inl over ↦ rw over (
                ending s totals (λ whole actor row e. elim (p found refl actor row e) [
                  | inl m ↦ none-Among _ found.candidates no_rows m
                  | inr later ↦ ground (arith, later.0)
                ]))
          ])
          | inr rows ↦
              rw rows
                (elim (Bool-cases (ltb (page_limit totals.scanned) (length found.candidates))) [
                  | inl many ↦ rw many (failing s totals configuration_error)
                  | inr few ↦ rw few (
                      after_page-Onward lib observed env found.next
                        (attempt lib (stored lib env observed) observed s totals cursor
                          found.candidates)
                        (tried s totals cursor found.candidates c few)
                        (attempt-Emptied lib observed env s totals cursor found.candidates
                          found.next r (p found refl)))
                ])
        ]
      where
        tried :
            (s : Database × ℕ) (totals : Totals) (cursor : Position) (candidates : List Candidate)
            → Counted totals
            → ltb (page_limit totals.scanned) (length candidates) ≡ false
            → (attempt lib (stored lib env observed) observed s totals cursor candidates).1.scanned
              ≤ 1000
        tried s totals cursor candidates c few =
            let a =
              attempt-Attempted lib (stored lib env observed) observed s totals cursor candidates
                c.adds_up in
            ground (arith, a.within, c.bounded)

    pub turn-Onward :
        (s : Database × ℕ) (totals : Totals) (cursor : Position)
        → Counted totals
        → Ready lib s.0
        → Open lib observed s.0 cursor
        → Onward lib observed (turn lib (stored lib env observed) observed s totals cursor)
    unfolding turn
    turn-Onward s totals cursor c r o =
        use_page-Onward (s.0, s.1 + 1) totals cursor _ c r
          (λ found h actor row e.
            (prune_candidates-page lib s.0 observed cursor (env.read_fails s.1)
                (page_limit totals.scanned) found r.consistent r.once h).complete
              (candidate_of (actor, row)) (Eligible-Listed lib observed s.0 cursor actor row o e))

    run_pages-NoneLeft :
        (turns : ℕ) (s : Database × ℕ) (totals : Totals) (cursor : Position)
        → Counted totals
        → totals.truncated ≡ false
        → leb 1000 totals.scanned ≡ false
        → 1000 < turns + totals.scanned
        → Ready lib s.0
        → Open lib observed s.0 cursor
        → (run_pages lib (stored lib env observed) observed turns s totals cursor).2 ≡ none
        → (run_pages lib (stored lib env observed) observed turns s totals cursor).1.truncated
          ≡ false
        → NoneLeft lib observed
            (run_pages lib (stored lib env observed) observed turns s totals cursor).0.0
    unfolding run_pages
    run_pages-NoneLeft zero s totals cursor c open_run room enough r o =
        absurd (ground (arith, c.bounded))
    run_pages-NoneLeft (suc turns) s totals cursor c open_run room enough r o = rw room (
        after (turn lib (stored lib env observed) observed s totals cursor)
          (turn-Turned lib (stored lib env observed) observed s totals cursor c open_run)
          (turn-Onward s totals cursor c r o)
          (λ s' totals' next c' still room' further r' o'.
            run_pages-NoneLeft turns s' totals' next c' still room' (omega arith) r' o'))
      where
        after :
            (taken : (Database × ℕ) × Totals × Turn)
            → Turned totals taken.1 taken.2
            → Onward lib observed taken
            → ((s' : Database × ℕ) (totals' : Totals) (next : Position)
                → Counted totals'
                → totals'.truncated ≡ false
                → leb 1000 totals'.scanned ≡ false
                → totals.scanned < totals'.scanned
                → Ready lib s'.0
                → Open lib observed s'.0 next
                → (run_pages lib (stored lib env observed) observed turns s' totals' next).2 ≡ none
                → (run_pages lib
                    (stored lib env observed)
                    observed
                    turns
                    s'
                    totals'
                    next).1.truncated
                  ≡ false
                → NoneLeft lib observed
                    (run_pages lib (stored lib env observed) observed turns s' totals' next).0.0)
            → (follow (run_pages lib (stored lib env observed) observed turns) taken).2 ≡ none
            → (follow (run_pages lib (stored lib env observed) observed turns) taken).1.truncated
              ≡ false
            → NoneLeft lib observed
                (follow (run_pages lib (stored lib env observed) observed turns) taken).0.0
        after _ t (failing s' totals' e) rest fine whole = absurd (ground arith)
        after _ t (ending s' totals' k) rest fine whole = k whole
        after _ t (going_on s' totals' next r' o' room') rest fine whole =
            let (further, still) = t.forward next refl in
            rest s' totals' next (record { adds_up = t.adds_up; bounded = t.bounded }) still room'
              further r' o' fine whole

    -- A run over a consistent database that holds each relay once, which ends without an error and is not
    -- cut off, leaves no relay that `SoftPrune` would prune at the captured time.
    pub run-NoneLeft :
        (db : Database) (calls : ℕ)
        → Ready lib db
        → (run lib (stored lib env observed) observed (db, calls)).2 ≡ none
        → (run lib (stored lib env observed) observed (db, calls)).1.truncated ≡ false
        → NoneLeft lib observed (run lib (stored lib env observed) observed (db, calls)).0.0
    unfolding run
    run-NoneLeft db calls r = elim (Bool-cases (env.cancels calls)) [
      | inl gone ↦ rw gone (λ fine whole. absurd (ground arith))
      | inr still ↦ rw still (
          run_pages-NoneLeft 1001 (db, calls) no_totals start no_totals-Counted refl refl
            (omega arith) r (start-Open db r))
    ]
