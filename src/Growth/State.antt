-- ===== src/Growth/State.antt =====
-- internal/storage/growth.go: the states and alerts; internal/storage/sqlite/growth.go: their classification
-- and the hysteresis of a recovery.
use activity_relay_directory.Prelude.{ℕ, ◌-◌, Bool, ◌||◌, leb, if◌then◌else◌}
use activity_relay_directory.Growth.Percent.{at_least_percent}

pub data GrowthState : Type 0 where
  normal warning critical hard : GrowthState

-- The kind `test` is sent by a command only.
pub data AlertKind : Type 0 where
  warning_alert critical_alert hard_limit recovered : AlertKind

abbrev pub critical_percent : ℕ
critical_percent = 90

abbrev pub hard_percent : ℕ
hard_percent = 100

abbrev pub recovery_hysteresis : ℕ
recovery_hysteresis = 5

abbrev pub is_hard : GrowthState → Bool
is_hard normal = Bool.false
is_hard warning = Bool.false
is_hard critical = Bool.false
is_hard hard = Bool.true

abbrev pub is_normal : GrowthState → Bool
is_normal normal = Bool.true
is_normal warning = Bool.false
is_normal critical = Bool.false
is_normal hard = Bool.false

abbrev pub growth_rank : GrowthState → ℕ
growth_rank normal = 0
growth_rank warning = 1
growth_rank critical = 2
growth_rank hard = 3

unfoldable pub classify_growth_state : ℕ → ℕ → ℕ → ℕ → ℕ → GrowthState
classify_growth_state used main_limit family max_bytes warning_percent =
    if at_least_percent used main_limit hard_percent
      || at_least_percent family max_bytes hard_percent
    then hard
    else if at_least_percent used main_limit critical_percent
        || at_least_percent family max_bytes critical_percent
    then critical
    else if at_least_percent used main_limit warning_percent
        || at_least_percent family max_bytes warning_percent
    then warning
    else normal

-- A warning percentage below the hysteresis has a negative boundary in the source, which every pressure
-- reaches as it reaches 0.
unfoldable pub apply_growth_hysteresis : GrowthState → ℕ → GrowthState → ℕ → GrowthState
apply_growth_hysteresis base pressure previous warning_percent =
    if leb (growth_rank previous) (growth_rank base) then base else elim previous [
      | hard ↦ if leb (hard_percent - recovery_hysteresis) pressure then hard else base
      | critical ↦ if leb (critical_percent - recovery_hysteresis) pressure then critical else base
      | warning ↦ if leb (warning_percent - recovery_hysteresis) pressure then warning else base
      | normal ↦ base
    ]

unfoldable pub alert_kind_for_state : GrowthState → AlertKind
alert_kind_for_state normal = recovered
alert_kind_for_state warning = warning_alert
alert_kind_for_state critical = critical_alert
alert_kind_for_state hard = hard_limit

unfoldable pub alert_kind_for_transition : GrowthState → GrowthState → AlertKind
alert_kind_for_transition old new =
    if is_normal new
    then if is_normal old then alert_kind_for_state new else recovered
    else alert_kind_for_state new
