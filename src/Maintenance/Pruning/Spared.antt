-- ===== src/Maintenance/Pruning/Spared.antt =====
-- internal/pruning/run.go over internal/storage/sqlite/pruning.go: what a run leaves of a database.
use activity_relay_directory.Prelude.{
  ℕ, ◌≡◌, ◌∙◌, false, not, ◌&&◌, some, Bytes, bytes_eq, bytes_eq_iff, lookup, arith, Bool-cases,
  inl, inr, subst,
}
use activity_relay_directory.Identity.Library.{Library}
use activity_relay_directory.Store.Schema.{Relay, Database}
use activity_relay_directory.Store.Transaction.{Attempt, Faults}
use activity_relay_directory.Store.Transaction.Ends.{Settled, committed, unwritten, refused}
use activity_relay_directory.Store.Rows.{since_epoch}
use activity_relay_directory.Store.Lifecycle.{is_registered}
use activity_relay_directory.Store.Pruning.{PruneOutcome, recently_seen, is_protected, soft_prune}
use activity_relay_directory.Store.Pruning.Eligible.{Pruned, PruneReason, Unpruned}
use activity_relay_directory.Store.Pruning.Prune.{soft_prune-Pruned}
use activity_relay_directory.Store.History.{prune_request, serve}
use activity_relay_directory.Store.History.Chronology.{Sound, serve-Sound}
use activity_relay_directory.Maintenance.Pruning.{run}
use activity_relay_directory.Maintenance.Pruning.Stored.{
  Environment, stored, Served, here, pruned_then, run-Served,
}

-- A retained relay that is not registered, was seen within 30 days, or has a recent success of its actor
-- check.
pub record Spared (db : Database) (observed : ℕ) (actor : Bytes) (row : Relay) : Type 0 where
  pub known : lookup actor db.relays ≡ some row
  pub kept :
      (is_registered row.lifecycle_state
        && not (recently_seen row observed)
        && not (is_protected (lookup actor db.observations) observed))
      ≡ false

module _ (lib : Library) (observed : ℕ) (actor : Bytes) (row : Relay) where
  Settled-Spared :
      (fails : Faults) (db : Database) (other : Bytes) (result : Database × Attempt PruneOutcome)
      → Settled fails
          (PruneReason lib other)
          (Pruned lib db other observed)
          (Unpruned db other observed)
          db
          result
      → Spared db observed actor row
      → Spared result.0 observed actor row
  Settled-Spared fails db other _ (refused e reason) k = k
  Settled-Spared fails db other _ (unwritten a u) k = k
  Settled-Spared fails db other _ (committed next a p) k =
      elim (Bool-cases (bytes_eq other actor)) [
        | inr apart ↦ record {
          known = (p.step.others actor apart).0 ∙ k.known;
          kept = rw p.same_observations k.kept;
        }
        | inl same ↦ absurd (
            let e : other ≡ actor = (bytes_eq_iff other actor).0 same in
            let found =
              subst (λ (key : Bytes). lookup key db.relays ≡ some p.row) e p.eligible.known in
            let open_to =
              subst (λ (key : Bytes). is_protected (lookup key db.observations) observed ≡ false) e
                p.eligible.unprotected in
            let row_is : p.row ≡ row = ground (arith, found, k.known) in
            let idle = p.eligible.idle in let listed = p.eligible.listed in ground (arith, k.kept))
      ]

  Served-Spared :
      (db final : Database)
      → Served lib observed db final
      → Sound lib db
      → Spared db observed actor row
      → Sound lib final × Spared final observed actor row
  Served-Spared db final (here _) v k = (v, k)
  Served-Spared db final (pruned_then _ _ fails other h) v k =
      Served-Spared (serve lib db (fails, prune_request other (since_epoch observed))) final h
        (serve-Sound lib db (fails, prune_request other (since_epoch observed)) v)
        (unfold serve in
          Settled-Spared fails db other (soft_prune lib fails db other (since_epoch observed))
            (soft_prune-Pruned lib fails db other observed v.consistent) k)

-- What a run leaves of a database.
abbrev pub run_database : Library → Environment → ℕ → Database → ℕ → Database
run_database lib env observed db calls =
    (run lib (stored lib env observed) observed (db, calls)).0.0

-- A run over a sound database leaves it sound and does not change a relay that is not registered, that was
-- seen within 30 days of the captured time, or that has a recent success of its actor check, whichever of
-- its calls fail and whenever it is canceled.
pub run-Spared :
    (lib : Library) (env : Environment) (observed : ℕ) (db : Database) (calls : ℕ) (actor : Bytes)
    (row : Relay)
    → Sound lib db
    → Spared db observed actor row
    → Sound lib (run_database lib env observed db calls)
      × Spared (run_database lib env observed db calls) observed actor row
run-Spared lib env observed db calls actor row v k =
    Served-Spared lib observed actor row db _ (run-Served lib observed env (db, calls)) v k
