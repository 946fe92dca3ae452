-- ===== src/Admission/Limiter/Slots.antt =====
-- internal/admission/limiter.go: the limiter's invariant after any calls.
use activity_relay_directory.Prelude.{
  ℕ, ◌≡◌, refl, ◌∙◌, some, List, [], ◌∷◌, arith, get_elem?, set, Option-cases, Bool-cases, inl, inr,
  Bytes,
}
use activity_relay_directory.Admission.Config.{Config, validate_config}
use activity_relay_directory.Admission.Limiter.{Limiter, Permit, new_limiter}
use activity_relay_directory.Admission.Limiter.Run.{
  World, Call, source_call, actor_call, release_call, step, run,
}
use activity_relay_directory.Admission.Pool.{new_bucket_pool}
use activity_relay_directory.Admission.Pool.Invariant.{new_bucket_pool-InStep}
use activity_relay_directory.Admission.Source.{Addr}
use activity_relay_directory.Identity.Library.{Library}
use activity_relay_directory.Admission.Limiter.Concurrency.{
  active_count-set, Inv, admit_source-Inv, admit_actor-Inv, slots, release-Inv,
}

set-Inv :
    (limiter : Limiter) (permits : List Permit) (i : ℕ) (p q : Permit)
    → Inv limiter permits
    → get_elem? permits i ≡ some p
    → q.active ≡ p.active
    → Inv limiter (set permits i q)
set-Inv limiter permits i p q v e same =
    slots limiter permits v (v.counted ∙ ground (arith, active_count-set permits i p q e)) v.bounded

new_limiter-Inv :
    (config : Config) (limiter : Limiter) → new_limiter config ≡ some limiter → Inv limiter []
unfolding new_limiter new_bucket_pool
new_limiter-Inv config limiter e = elim (Bool-cases (validate_config config)) [
  | inr bad ↦ absurd (ground arith)
  | inl valid ↦
      let e' : fresh ≡ limiter = ground arith in
      rw (← e') (record {
        counted = refl;
        bounded = omega arith;
        sources_in_step = new_bucket_pool-InStep config.max_sources;
        actors_in_step = new_bucket_pool-InStep config.max_actors;
        sources_max = refl;
        actors_max = refl;
      })
]
  where
    fresh : Limiter
    fresh = record {
      config = config;
      sources = new_bucket_pool config.max_sources;
      actors = new_bucket_pool config.max_actors;
      in_flight = 0;
      last_now = 0;
    }

module _ (lib : Library) (addr_text : Addr → Bytes) where
  step-Inv :
      (w : World) (call : Call)
      → Inv w.limiter w.permits
      → Inv (step lib addr_text w call).limiter (step lib addr_text w call).permits
  unfolding step
  step-Inv w (source_call ctx operation source reading) v =
      admit_source-Inv w.limiter w.permits v addr_text ctx operation source reading
  step-Inv w (actor_call i ctx operation actor reading) v =
      elim (Option-cases (get_elem? w.permits i)) [
        | inl missing ↦ rw (missing, step) v
        | inr (permit, e) ↦
            let (kept, same) =
              admit_actor-Inv w.limiter w.permits v lib permit ctx operation actor reading in
            rw (e, step) (set-Inv _ w.permits i permit _ kept e same)
      ]
  step-Inv w (release_call i) v = elim (Option-cases (get_elem? w.permits i)) [
    | inl missing ↦ rw (missing, step) v
    | inr (permit, e) ↦ rw (e, step) (release-Inv w.limiter w.permits v permit i e)
  ]

  run-Inv :
      (w : World) (calls : List Call)
      → Inv w.limiter w.permits
      → Inv (run lib addr_text w calls).limiter (run lib addr_text w calls).permits
  unfolding run
  run-Inv w [] v = v
  run-Inv w (call ∷ calls) v = run-Inv (step lib addr_text w call) calls (step-Inv w call v)

  -- From a new limiter, after any calls in any order, with permits released twice or used after
  -- their release: the limiter's count is the number of active permits, it is within the limit, and
  -- both pools are in step and within their maximum.
  pub run-new_limiter-Inv :
      (config : Config) (limiter : Limiter) (calls : List Call)
      → new_limiter config ≡ some limiter
      → let w = run lib addr_text (record { limiter = limiter; permits = [] }) calls in
        Inv w.limiter w.permits
  run-new_limiter-Inv config limiter calls e =
      run-Inv (record { limiter = limiter; permits = [] }) calls (new_limiter-Inv config limiter e)
