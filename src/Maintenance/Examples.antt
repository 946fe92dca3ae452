-- ===== src/Maintenance/Examples.antt =====
-- The properties of internal/pruning/run.go and of the candidate pages at concrete inputs: a database whose one
-- relay was last seen at the time 100.
use activity_relay_directory.Maintenance.Pruning.Calm.{Calm}
use activity_relay_directory.Maintenance.Pruning.Calm.{run-fine}
use activity_relay_directory.Prelude.{none}
use activity_relay_directory.Store.Pruning.Progress.{Ready}
use activity_relay_directory.Maintenance.Pruning.Complete.{NoneLeft}
use activity_relay_directory.Maintenance.Pruning.Complete.Ended.{run-NoneLeft}
use activity_relay_directory.Store.Pruning.{soft_prune}
use activity_relay_directory.Store.Pruning.{soft_prune_body}
use activity_relay_directory.Store.Pruning.{prune_candidate}
use activity_relay_directory.Store.Pruning.{prune_row}
use activity_relay_directory.Store.Transaction.{transact}
use activity_relay_directory.Store.Rows.{transition_unix}
use activity_relay_directory.Store.Rows.{validate_identity_intent}
use activity_relay_directory.Identity.Normalize.{normalize_relay_actor_url}
use activity_relay_directory.Store.Rows.{require_monotonic_time}
use activity_relay_directory.Store.Rows.{latest}
use activity_relay_directory.Store.Rows.{latest_event}
use activity_relay_directory.Store.Rows.{latest_moderation}
use activity_relay_directory.Store.Rows.{put_relay}
use activity_relay_directory.Store.Rows.{insert_relay_event}
use activity_relay_directory.Prelude.{insert}
use activity_relay_directory.Prelude.{bytes_lt}
use activity_relay_directory.Store.Schema.{relay_check}
use activity_relay_directory.Store.Schema.{relay_state_check}
use activity_relay_directory.Store.Schema.{relay_time_check}
use activity_relay_directory.Store.Schema.{administrative_check}
use activity_relay_directory.Store.Schema.{null_or_from}
use activity_relay_directory.Store.Schema.{null_or_to}
use activity_relay_directory.Store.Schema.{sized}
use activity_relay_directory.Identity.Normalize.{normalize_relay_identity}
use activity_relay_directory.Identity.Normalize.{normalize_relay_url}
use activity_relay_directory.Identity.Normalize.{acceptable}
use activity_relay_directory.Identity.Normalize.{finish_url}
use activity_relay_directory.Identity.Authority.{normalize_authority}
use activity_relay_directory.Identity.Authority.{trim_host}
use activity_relay_directory.Identity.Authority.{normalize_host}
use activity_relay_directory.Identity.Authority.{normalize_name}
use activity_relay_directory.Identity.Authority.{valid_dns_label}
use activity_relay_directory.Identity.Authority.{numeric_host}
use activity_relay_directory.Identity.Authority.{add_port}
use activity_relay_directory.Identity.Path.{normalize_actor_path}
use activity_relay_directory.Identity.Path.{check_path}
use activity_relay_directory.Identity.Path.{path_unescape}
use activity_relay_directory.Identity.Utf8.{valid_string}
use activity_relay_directory.Identity.Utf8.{has_control}
use activity_relay_directory.Prelude.{has_double}
use activity_relay_directory.Identity.Path.{has_dot_segment}
use activity_relay_directory.Prelude.{split}
use activity_relay_directory.Identity.Escapes.{rewrite_path}
use activity_relay_directory.Identity.Escapes.{plain}
use activity_relay_directory.Identity.Escapes.{forbidden}
use activity_relay_directory.Prelude.{bytes_eq}
use activity_relay_directory.Prelude.{has_byte}
use activity_relay_directory.Prelude.{ends_with}
use activity_relay_directory.Store.Pruning.{is_protected}
use activity_relay_directory.Store.Pruning.Page.{cursor_after}
use activity_relay_directory.Store.Pruning.Page.{insert_ordered}
use activity_relay_directory.Store.Pruning.Page.{selected}
use activity_relay_directory.Store.Pruning.Page.{query}
use activity_relay_directory.Store.Pruning.Page.{page_of}
use activity_relay_directory.Maintenance.Pruning.{candidate_fits}
use activity_relay_directory.Maintenance.Pruning.{count_outcome}
use activity_relay_directory.Maintenance.Pruning.{after_page}
use activity_relay_directory.Maintenance.Pruning.{attempt}
use activity_relay_directory.Maintenance.Pruning.{use_page}
use activity_relay_directory.Maintenance.Pruning.{turn}
use activity_relay_directory.Prelude.{
  ◌≡◌, refl, true, false, arith, bytes_eq_refl, keys, Distinct, lookup, has,
}
use activity_relay_directory.Identity.Examples.{example_library}
use activity_relay_directory.Store.Fixture.{
  actor, relay, database, no_faults, database-Consistent, database-Sound,
}
use activity_relay_directory.Store.Pruning.Page.{
  Page, page, start, prune_candidates, position_valid,
}
use activity_relay_directory.Store.Pruning.Page.Contract.{Paged, prune_candidates-Paged}
use activity_relay_directory.Store.Rows.{since_epoch}
use activity_relay_directory.Store.History.Chronology.{Sound}
use activity_relay_directory.Maintenance.Pruning.{run, run_pages, no_totals}
use activity_relay_directory.Maintenance.Pruning.Bounds.{Ran, run-Ran, run_pages-enough}
use activity_relay_directory.Maintenance.Pruning.Stored.{Environment, stored, Served, run-Served}
use activity_relay_directory.Maintenance.Pruning.Spared.{Spared, run_database, run-Spared}

abbrev calm : Environment
calm = record { faults = λ call. no_faults; read_fails = λ call. false; cancels = λ call. false }

run-Ran_example :
    Ran
      (run example_library (stored example_library calm 3000000) 3000000 (database, 0)).1
      (run example_library (stored example_library calm 3000000) 3000000 (database, 0)).2
run-Ran_example =
    run-Ran example_library (stored example_library calm 3000000) 3000000 (database, 0)

run_pages-enough_example :
    run_pages example_library
      (stored example_library calm 3000000)
      3000000
      2000
      (database, 0)
      no_totals
      start
    ≡ run_pages example_library
        (stored example_library calm 3000000)
        3000000
        1001
        (database, 0)
        no_totals
        start
run_pages-enough_example =
    run_pages-enough example_library (stored example_library calm 3000000) 3000000 2000
      (database, 0) (omega arith)

run-Served_example :
    Served example_library 3000000 database
      (run example_library (stored example_library calm 3000000) 3000000 (database, 0)).0.0
run-Served_example = run-Served example_library 3000000 calm (database, 0)

relay-Spared : Spared database 200000 actor relay
unfolding lookup
relay-Spared = record { known = ground (arith, bytes_eq_refl actor); kept = refl }

run-Spared_example :
    Sound example_library (run_database example_library calm 200000 database 0)
    × Spared (run_database example_library calm 200000 database 0) 200000 actor relay
run-Spared_example =
    run-Spared example_library calm 200000 database 0 actor relay database-Sound relay-Spared

start-position_valid : position_valid start ≡ true
unfolding position_valid
start-position_valid = refl

one_relay : Distinct (keys database.relays)
unfolding has
one_relay = (refl, tt)

database-Ready : Ready example_library database
database-Ready = record { consistent = database-Consistent; once = one_relay }

prune_candidates-Paged_example :
    (found : Page) × (prune_candidates example_library false database start 10 (since_epoch 3000000)
      ≡ page found)
    × Paged database 3000000 start 10 found
prune_candidates-Paged_example =
    prune_candidates-Paged example_library database 3000000 start 10 database-Consistent one_relay
      start-position_valid refl (omega arith) (omega arith)

-- The run prunes the relay, the whole page.
run_ends :
    ((run example_library (stored example_library calm 3000000) 3000000 (database, 0)).2 ≡ none)
    × ((run example_library (stored example_library calm 3000000) 3000000 (database, 0)).1
        ≡ record { scanned = 1; pruned = 1; skipped = 0; truncated = false })
unfolding run run_pages turn use_page attempt after_page count_outcome candidate_fits
    prune_candidates page_of query selected insert_ordered position_valid cursor_after is_protected
    soft_prune soft_prune_body prune_candidate prune_row transact transition_unix
    validate_identity_intent normalize_relay_actor_url require_monotonic_time latest latest_event
    latest_moderation put_relay insert_relay_event lookup insert bytes_lt relay_check
    relay_state_check relay_time_check administrative_check null_or_from null_or_to sized
    normalize_relay_identity normalize_relay_url acceptable finish_url normalize_authority trim_host
    normalize_host normalize_name valid_dns_label numeric_host add_port normalize_actor_path
    check_path path_unescape valid_string has_control has_double has_dot_segment split rewrite_path
    plain forbidden bytes_eq has_byte ends_with
run_ends = (refl, refl)

run-NoneLeft_example :
    NoneLeft example_library 3000000
      (run example_library (stored example_library calm 3000000) 3000000 (database, 0)).0.0
run-NoneLeft_example =
    run-NoneLeft example_library 3000000 calm database 0 database-Ready run_ends.0
      (rw run_ends.1 refl)

calm-Calm : Calm calm
calm-Calm = record {
  sane = λ call statement. refl;
  readable = λ call. refl;
  lasting = λ call. refl;
}

run-fine_example :
    (run example_library (stored example_library calm 3000000) 3000000 (database, 0)).2 ≡ none
run-fine_example = run-fine example_library 3000000 calm calm-Calm database 0 database-Ready
