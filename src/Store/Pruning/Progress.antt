-- ===== src/Store/Pruning/Progress.antt =====
-- internal/storage/sqlite/pruning.go: after `SoftPrune` answers, its relay is not eligible, and no other one has
-- become eligible.
use activity_relay_directory.Prelude.{
  ℕ, ◌≡◌, refl, sym, ◌∙◌, subst, false, some, List, [], ◌∷◌, ◌++◌, arith, Bool-cases, inl, inr,
  Bytes, bytes_eq, bytes_eq_iff, lookup, lookup-insert, keys, Distinct, Distinct-insert,
}
use activity_relay_directory.Identity.Library.{Library}
use activity_relay_directory.Store.Schema.{relay_pruned, Relay, Database, RelayEvent}
use activity_relay_directory.Store.Transaction.{Attempt, done, failed, Faults}
use activity_relay_directory.Store.Transaction.Ends.{Settled, committed, unwritten, refused}
use activity_relay_directory.Store.Rows.{since_epoch, latest, latest_event}
use activity_relay_directory.Store.Rows.Consistent.{Consistent}
use activity_relay_directory.Store.Pruning.{PruneOutcome, pruned_row, soft_prune}
use activity_relay_directory.Store.Pruning.Eligible.{
  Eligible, Pruned, PruneReason, Unpruned, before, ineligible,
}
use activity_relay_directory.Store.Pruning.Prune.{soft_prune-Pruned}

latest_event-append :
    (other : Bytes) (events : List RelayEvent) (event : RelayEvent)
    → bytes_eq event.relay_actor other ≡ false
    → latest_event other (events ++ event ∷ []) ≡ latest_event other events
unfolding latest_event
latest_event-append other [] event h = ground arith
latest_event-append other (e ∷ events) event h =
    ground (arith, latest_event-append other events event h)

-- A consistent database that holds each relay once.
pub record Ready (lib : Library) (db : Database) : Type 0 where
  pub consistent : Consistent lib db
  pub once : Distinct (keys db.relays)

module _ (lib : Library) (db : Database) (actor : Bytes) (observed : ℕ) where
  Pruned-latest :
      (next : Database) (outcome : PruneOutcome) (other : Bytes)
      → Pruned lib db actor observed next outcome
      → bytes_eq actor other ≡ false
      → latest next other ≡ latest db other
  unfolding latest
  Pruned-latest next outcome other p apart =
      rw
        (
          p.only,
          lookup-insert actor other (pruned_row p.row observed) db.relays,
          apart,
          latest_event-append other db.relay_events
              (record { relay_actor = actor; event_kind = relay_pruned; recorded_at = observed })
              apart,
        )
        refl

  Pruned-Eligible :
      (next : Database) (outcome : PruneOutcome) (other : Bytes) (row : Relay)
      → Pruned lib db actor observed next outcome
      → Eligible next other observed row
      → (bytes_eq actor other ≡ false) × Eligible db other observed row
  Pruned-Eligible next outcome other row p e = elim (Bool-cases (bytes_eq actor other)) [
    | inl same ↦ absurd (
        let k : other ≡ actor = sym ((bytes_eq_iff actor other).0 same) in
        let found : lookup actor next.relays ≡ some row =
          subst (λ x. lookup x next.relays ≡ some row) k e.known in
        let other_row : pruned_row p.row observed ≡ row = ground (arith, p.found) in
        ground (arith, e.listed))
    | inr apart ↦ (
      apart,
      record {
        known = sym (p.step.others other apart).0 ∙ e.known;
        listed = e.listed;
        idle = e.idle;
        unprotected = rw (← p.same_observations) e.unprotected;
        in_order = rw (← Pruned-latest next outcome other p apart) e.in_order;
      },
    )
  ]

  Unpruned-Eligible :
      (outcome : PruneOutcome) (other : Bytes) (row : Relay)
      → Unpruned db actor observed outcome
      → Eligible db other observed row
      → bytes_eq actor other ≡ false
  Unpruned-Eligible outcome other row u e = elim (Bool-cases (bytes_eq actor other)) [
    | inr apart ↦ apart
    | inl same ↦ absurd (
        never u
          (subst (λ x. Eligible db x observed row) (sym ((bytes_eq_iff actor other).0 same)) e))
  ]
    where
      never : {o : PruneOutcome} → Unpruned db actor observed o → Eligible db actor observed row → ⊥
      never (before r known was_pruned) k =
          let same : r ≡ row = ground (arith, k.known) in ground (arith, k.listed)
      never (ineligible none_is) k = none_is row k

  -- What is left after an answer.
  abbrev pub Answered : Database × Attempt PruneOutcome → Type 0
  Answered (next, failed e) = Unit {0}
  Answered (next, done outcome) =
      Ready lib next
      × ((other : Bytes) (row : Relay)
          → Eligible next other observed row
          → (bytes_eq actor other ≡ false) × Eligible db other observed row)

  Settled-Answered :
      (fails : Faults) (result : Database × Attempt PruneOutcome)
      → Ready lib db
      → Settled fails
          (PruneReason lib actor)
          (Pruned lib db actor observed)
          (Unpruned db actor observed)
          db
          result
      → Answered result
  Settled-Answered fails _ r (refused e reason) = tt
  Settled-Answered fails _ r (unwritten a u) =
      (r, λ other row e. (Unpruned-Eligible a other row u e, e))
  Settled-Answered fails _ r (committed next a p) = (
    record {
      consistent = p.step.consistent;
      once = rw p.only (Distinct-insert actor (pruned_row p.row observed) db.relays r.once);
    },
    λ other row e. Pruned-Eligible next a other row p e,
  )

  pub soft_prune-Answered :
      (fails : Faults)
      → Ready lib db
      → Answered (soft_prune lib fails db actor (since_epoch observed))
  soft_prune-Answered fails r =
      Settled-Answered fails _ r (soft_prune-Pruned lib fails db actor observed r.consistent)
