-- ===== src/Admission/Limiter/Run.antt =====
-- Callers of a limiter: the permits that it gave out, in order, and the calls that are made on it and
-- on them, one after another under its lock.
use activity_relay_directory.Prelude.{
  ℕ, Option, none, some, List, [], ◌∷◌, ◌++◌, get_elem?, set, Bytes,
}
use activity_relay_directory.Admission.Limiter.{
  Context, Limiter, Permit, admit_source, admit_actor, release,
}
use activity_relay_directory.Admission.Source.{Addr}
use activity_relay_directory.Identity.Library.{Library}
use activity_relay_directory.Protocol.Vocabulary.{Operation}

pub record World : Type 0 where
  pub limiter : Limiter
  pub permits : List Permit

-- A permit is named by its place.
pub data Call : Type 0 where
  source_call : Option Context → Operation → Addr → ℕ → Call
  actor_call : ℕ → Option Context → Operation → Bytes → ℕ → Call
  release_call : ℕ → Call

unfoldable pub add_permit : List Permit → Option Permit → List Permit
add_permit permits none = permits
add_permit permits (some permit) = permits ++ permit ∷ []

module _ (lib : Library) (addr_text : Addr → Bytes) where
  unfoldable pub step : World → Call → World
  step w (source_call ctx operation source reading) =
      let (limiter, permit, _) = admit_source addr_text w.limiter ctx operation source reading in
      record { limiter = limiter; permits = add_permit w.permits permit }
  step w (actor_call i ctx operation actor reading) = elim (get_elem? w.permits i) [
    | none ↦ w
    | some permit ↦
        let (limiter, checked, _) = admit_actor lib w.limiter permit ctx operation actor reading in
        record { limiter = limiter; permits = set w.permits i checked }
  ]
  step w (release_call i) = elim (get_elem? w.permits i) [
    | none ↦ w
    | some permit ↦
        let (limiter, released) = release w.limiter permit in
        record { limiter = limiter; permits = set w.permits i released }
  ]

  unfoldable pub run : World → List Call → World
  run w [] = w
  run w (call ∷ calls) = run (step w call) calls
