-- ===== src/Admission/Limiter/Concurrency.antt =====
-- internal/admission/limiter.go: the global concurrency slots and the active permits.
use activity_relay_directory.Prelude.{
  ℕ, zero, suc, ◌+◌, ◌≤◌, ◌<◌, ◌≡◌, refl, sym, ◌∙◌, true, false, Option, none, some, List, [], ◌∷◌,
  ◌++◌, arith, get_elem?, set, leb, Bool-cases, inl, inr, Bytes, if◌then◌else◌,
}
use activity_relay_directory.Admission.Limiter.{
  Context, Limiter, Permit, source_terms, actor_terms, bucket_key, current_time, charge_source,
  admit_source, charge_actor, admit_actor, release,
}
use activity_relay_directory.Admission.Limiter.Run.{add_permit}
use activity_relay_directory.Admission.Pool.{is_allowed, admit}
use activity_relay_directory.Admission.Pool.Invariant.{InStep}
use activity_relay_directory.Admission.Pool.Requests.{admit-InStep, admit-maximum}
use activity_relay_directory.Admission.Source.{Addr, unmap, valid_source_address}
use activity_relay_directory.Identity.Library.{Library}
use activity_relay_directory.Protocol.Vocabulary.{Operation, operation_valid}

abbrev pub slot : Permit → ℕ
slot permit = if permit.active then 1 else 0

abbrev pub active_count : List Permit → ℕ
active_count [] = 0
active_count (permit ∷ permits) = slot permit + active_count permits

active_count-append :
    (ps : List Permit) (p : Permit) → active_count (ps ++ p ∷ []) ≡ active_count ps + slot p
active_count-append [] p = omega arith
active_count-append (q ∷ ps) p = omega (arith, active_count-append ps p)

pub active_count-set :
    (ps : List Permit) (i : ℕ) (p q : Permit)
    → get_elem? ps i ≡ some p
    → active_count (set ps i q) + slot p ≡ active_count ps + slot q
active_count-set [] i p q e = absurd (ground arith)
active_count-set (r ∷ ps) zero p q e = ground arith
active_count-set (r ∷ ps) (suc i) p q e = omega (arith, active_count-set ps i p q e)

pub record Inv (limiter : Limiter) (permits : List Permit) : Type 0 where
  pub counted : limiter.in_flight ≡ active_count permits
  pub bounded : limiter.in_flight ≤ limiter.config.max_concurrent
  pub sources_in_step : InStep limiter.sources
  pub actors_in_step : InStep limiter.actors
  pub sources_max : limiter.sources.maximum ≡ limiter.config.max_sources
  pub actors_max : limiter.actors.maximum ≡ limiter.config.max_actors

module _ (limiter : Limiter) (permits : List Permit) (v : Inv limiter permits) where
  charge_source-Inv :
      (operation : Operation) (source : Bytes) (reading : ℕ)
      → limiter.in_flight < limiter.config.max_concurrent
      → let charged = charge_source limiter operation source reading in
        Inv charged.0 (add_permit permits charged.1)
  unfolding charge_source add_permit
  charge_source-Inv operation source reading room =
      elim (Bool-cases
        (is_allowed (admit limiter.sources key now (source_terms limiter.config)).1)) [
          | inl granted ↦ rw granted (record {
            counted = omega (arith, active_count-append permits permit, v.counted);
            bounded = omega arith;
            sources_in_step =
                admit-InStep limiter.sources key now (source_terms limiter.config)
                  v.sources_in_step;
            actors_in_step = v.actors_in_step;
            sources_max =
                admit-maximum limiter.sources key now (source_terms limiter.config) ∙ v.sources_max;
            actors_max = v.actors_max;
          })
          | inr refused ↦ rw refused (record {
            counted = v.counted;
            bounded = v.bounded;
            sources_in_step =
                admit-InStep limiter.sources key now (source_terms limiter.config)
                  v.sources_in_step;
            actors_in_step = v.actors_in_step;
            sources_max =
                admit-maximum limiter.sources key now (source_terms limiter.config) ∙ v.sources_max;
            actors_max = v.actors_max;
          })
        ]
    where
      key : Bytes
      key = bucket_key operation source

      now : ℕ
      now = current_time limiter reading

      permit : Permit
      permit = record { operation = operation; active = true; actor_checked = false }

  pub admit_source-Inv :
      (addr_text : Addr → Bytes) (ctx : Option Context) (operation : Operation) (source : Addr)
      (reading : ℕ)
      → let admitted = admit_source addr_text limiter ctx operation source reading in
        Inv admitted.0 (add_permit permits admitted.1)
  unfolding admit_source add_permit
  admit_source-Inv addr_text none operation source reading = v
  admit_source-Inv addr_text (some ctx) operation source reading =
      elim (Bool-cases (operation_valid operation)) [
        | inr unknown ↦ rw unknown v
        | inl known ↦ elim (Bool-cases ctx.canceled_at_entry) [
          | inl gone ↦ rw (known, gone) v
          | inr here ↦ elim (Bool-cases (valid_source_address (unmap source))) [
            | inr bad ↦ rw (known, here, bad) v
            | inl good ↦ elim (Bool-cases ctx.canceled_at_lock) [
              | inl gone ↦ rw (known, here, good, gone) v
              | inr still ↦
                  elim (Bool-cases (leb limiter.config.max_concurrent limiter.in_flight)) [
                    | inl full ↦ rw (known, here, good, still, full) v
                    | inr room ↦
                        rw (known, here, good, still, room)
                          (charge_source-Inv operation (addr_text (unmap source)) reading
                            (ground arith))
                  ]
            ]
          ]
        ]
      ]

  charge_actor-Inv :
      (permit : Permit) (operation : Operation) (actor : Bytes) (reading : ℕ)
      → let charged = charge_actor limiter permit operation actor reading in
        Inv charged.0 permits × (charged.1.active ≡ permit.active)
  unfolding charge_actor
  charge_actor-Inv permit operation actor reading =
      let key = bucket_key operation actor in
      let now = current_time limiter reading in
      let terms = actor_terms limiter.config in
      (
        record {
          counted = v.counted;
          bounded = v.bounded;
          sources_in_step = v.sources_in_step;
          actors_in_step = admit-InStep limiter.actors key now terms v.actors_in_step;
          sources_max = v.sources_max;
          actors_max = admit-maximum limiter.actors key now terms ∙ v.actors_max;
        },
        refl,
      )

  pub admit_actor-Inv :
      (lib : Library) (permit : Permit) (ctx : Option Context) (operation : Operation)
      (actor : Bytes) (reading : ℕ)
      → let admitted = admit_actor lib limiter permit ctx operation actor reading in
        Inv admitted.0 permits × (admitted.1.active ≡ permit.active)
  unfolding admit_actor
  admit_actor-Inv lib permit none operation actor reading = (v, refl)
  admit_actor-Inv lib permit (some ctx) operation actor reading =
      ground (arith, v, charge_actor-Inv permit operation actor reading)

  -- A change of the count alone.
  pub slots :
      {n : ℕ} {ps : List Permit}
      → n ≡ active_count ps
      → n ≤ limiter.config.max_concurrent
      → Inv (record limiter { in_flight = n }) ps
  slots counted bounded = record {
    counted = counted;
    bounded = bounded;
    sources_in_step = v.sources_in_step;
    actors_in_step = v.actors_in_step;
    sources_max = v.sources_max;
    actors_max = v.actors_max;
  }

  pub release-Inv :
      (permit : Permit) (i : ℕ)
      → get_elem? permits i ≡ some permit
      → let released = release limiter permit in Inv released.0 (set permits i released.1)
  unfolding release
  release-Inv permit i e = elim (Bool-cases permit.active) [
    | inl held ↦
        let fewer : active_count (set permits i (record permit { active = false })) + 1
            ≡ active_count permits =
          ground (arith, active_count-set permits i permit (record permit { active = false }) e) in
        rw held (slots (ground (arith, v.counted, fewer)) (ground (arith, v.bounded)))
    | inr free ↦
        let same : active_count (set permits i (record permit { active = false }))
            ≡ active_count permits =
          ground (arith, active_count-set permits i permit (record permit { active = false }) e) in
        rw free (slots (v.counted ∙ sym same) v.bounded)
  ]
