-- ===== src/Growth/Sample/Boundary.antt =====
-- internal/storage/sqlite/growth.go: the state of a sample by the pressure that it reports.
use activity_relay_directory.Prelude.{
  ℕ, ◌+◌, ◌≤◌, ◌<◌, ◌≡◌, refl, true, false, ◌&&◌, ◌||◌, arith, leb, if◌then◌else◌,
}
use activity_relay_directory.Growth.Percent.{at_least_percent}
use activity_relay_directory.Growth.Percent.Agreement.{at_least_percent-bounded_percent}
use activity_relay_directory.Growth.State.{
  GrowthState, normal, warning, critical, hard, is_hard, growth_rank, classify_growth_state,
  apply_growth_hysteresis,
}
use activity_relay_directory.Growth.Sample.{Policy, Sizes, pressure, base_state, next_state}

-- What the constructor of the guard tests.
pub record PolicyOk (policy : Policy) : Type 0 where
  pub budget_pos : 0 < policy.max_bytes
  pub limit_pos : 0 < policy.main_limit
  pub warning_pos : 0 < policy.warning_percent
  pub warning_low : policy.warning_percent < 90

abbrev pub threshold : ℕ → GrowthState → ℕ
threshold warning_percent normal = 0
threshold warning_percent warning = warning_percent
threshold warning_percent critical = 90
threshold warning_percent hard = 100

reached :
    (policy : Policy) (sizes : Sizes) (percent : ℕ)
    → PolicyOk policy
    → 0 < percent
    → percent ≤ 100
    → (at_least_percent sizes.used_bytes policy.main_limit percent
        || at_least_percent sizes.family_bytes policy.max_bytes percent)
      ≡ leb percent (pressure policy sizes)
unfolding pressure
reached policy sizes percent k p h = ground (
  arith,
  at_least_percent-bounded_percent sizes.used_bytes policy.main_limit percent,
  at_least_percent-bounded_percent sizes.family_bytes policy.max_bytes percent,
)

pub base_state-pressure :
    (policy : Policy) (sizes : Sizes)
    → PolicyOk policy
    → base_state policy sizes ≡ (
        if leb 100 (pressure policy sizes)
        then hard
        else if leb 90 (pressure policy sizes)
        then critical
        else if leb policy.warning_percent (pressure policy sizes)
        then warning
        else normal)
unfolding base_state classify_growth_state
base_state-pressure policy sizes k = rw (
  reached policy sizes 100 k (omega arith) (omega arith),
  reached policy sizes 90 k (omega arith) (omega arith),
  reached policy sizes policy.warning_percent k k.warning_pos (omega arith),
)

-- A sample is in a state or above it exactly if its pressure reaches the boundary of that state, or if the
-- sample before was in it or above it and the pressure is at most five percent below the boundary of the
-- state before.
pub next_state_iff :
    (policy : Policy) (sizes : Sizes) (previous s : GrowthState)
    → PolicyOk policy
    → leb (growth_rank s) (growth_rank (next_state policy sizes previous)) ≡ (
        leb (threshold policy.warning_percent s) (pressure policy sizes)
        || leb (growth_rank s) (growth_rank previous)
          && leb (threshold policy.warning_percent previous) (pressure policy sizes + 5))
unfolding next_state apply_growth_hysteresis
next_state_iff policy sizes normal normal k = ground (arith, base_state-pressure policy sizes k)
next_state_iff policy sizes previous s k = ground (arith, base_state-pressure policy sizes k)

-- What a sample outside the hard state shows.
pub record Within (policy : Policy) (sizes : Sizes) (previous : GrowthState) : Type 0 where
  pub logical : sizes.used_bytes < policy.main_limit
  pub physical : sizes.family_bytes < policy.max_bytes
  pub settled : is_hard previous ≡ true → pressure policy sizes < 95

full :
    (value maximum : ℕ) → 0 < maximum → at_least_percent value maximum 100 ≡ false → value < maximum
unfolding at_least_percent
full value maximum m e = ground arith

pub not_hard-Within :
    (policy : Policy) (sizes : Sizes) (previous : GrowthState)
    → PolicyOk policy
    → is_hard (next_state policy sizes previous) ≡ false
    → Within policy sizes previous
not_hard-Within policy sizes previous k e = record {
  logical =
      ground (arith, below, reached policy sizes 100 k, full sizes.used_bytes policy.main_limit);
  physical =
      ground (arith, below, reached policy sizes 100 k, full sizes.family_bytes policy.max_bytes);
  settled = λ h. ground (
    arith,
    was_hard previous h,
    next_state_iff policy sizes previous hard k,
    rank_low (next_state policy sizes previous) e,
  );
}
  where
    rank_low : (s : GrowthState) → is_hard s ≡ false → growth_rank s < 3
    rank_low normal h = omega arith
    rank_low warning h = omega arith
    rank_low critical h = omega arith
    rank_low hard h = cc

    was_hard :
        (s : GrowthState)
        → is_hard s ≡ true
        → (growth_rank s ≡ 3) × (threshold policy.warning_percent s ≡ 100)
    was_hard normal h = cc
    was_hard warning h = cc
    was_hard critical h = cc
    was_hard hard h = (refl, refl)

    below : pressure policy sizes < 100
    below = ground (
      arith,
      next_state_iff policy sizes previous hard k,
      rank_low (next_state policy sizes previous) e,
    )
