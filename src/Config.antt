-- ===== src/Config.antt =====
-- autoscale/config.go, and the variables at the top of autoscale/meta.go that command line flags
-- set. A pointer to a nested configuration that every constructor fills is a field here.
pub mod Bounds
use tiflash_autoscale.Prelude.{
  ℕ, ℤ, pos, ◌≤ℤ◌, leb_ℤ, ltb_ℤ, eq_ℤ, max_ℤ, ◌*ℤ◌, ◌/ℤ◌, ◌%ℤ◌, String, Bool, true, false, ◌&&◌,
  Option, none, some, if◌then◌else◌,
}
use tiflash_autoscale.Float.{Float64}

-- OptionRunMode.
pub data RunMode : Type 0 where
  serverless local dedicated custom : RunMode

-- The settings of a process. The number of cores of a pod and the metric resolution divide; a
-- flag of 0 or less for one of them is outside the model.
pub record Settings (fl : Float64) : Type 0 where
  pub default_min_cnt_of_pod : ℤ
  pub default_max_cnt_of_pod : ℤ
  pub default_core_of_pod : ℕ
  pub default_lower_limit : fl.Float
  pub default_upper_limit : fl.Float
  pub prewarm_pool_cap : ℤ
  pub metric_resolution_seconds : ℕ
  pub default_auto_pause_interval_seconds : ℤ
  pub default_scale_interval_seconds : ℤ
  pub option_run_mode : RunMode

pub record Threashold : Type 0 where
  pub min : ℤ
  pub max : ℤ

pub record CustomScaleRule : Type 0 where
  pub name : String
  pub threashold : Threashold

unfoldable pub new_cpu_scale_rule : ℤ → ℤ → Option CustomScaleRule
new_cpu_scale_rule min_percent max_percent =
    if leb_ℤ max_percent min_percent
    then none
    else some
        (record { name = "cpu"; threashold = record { min = min_percent; max = max_percent } })

pub record ConfigOfComputeCluster : Type 0 where
  pub disabled : Bool
  pub auto_pause_interval_seconds : ℤ
  pub min_cores : ℤ
  pub max_cores : ℤ
  pub init_cores : ℤ
  pub window_seconds : ℤ
  pub cpu_scale_rules : Option CustomScaleRule
  pub last_modified_ts : ℤ

-- The method HasChanged of ConfigOfComputeClusterHolder.
unfoldable pub has_changed : ConfigOfComputeCluster → ℤ → Bool
has_changed config old_ts = ltb_ℤ old_ts config.last_modified_ts

module _ (fl : Float64) (g : Settings fl) where
  open g use {default_core_of_pod}

  unfoldable pub get_init_cnt_of_pod : ConfigOfComputeCluster → ℤ
  get_init_cnt_of_pod c =
      if leb_ℤ c.min_cores c.init_cores
        && (leb_ℤ c.init_cores c.max_cores
            && eq_ℤ (c.init_cores %ℤ pos default_core_of_pod) (pos 0))
      then c.init_cores /ℤ pos default_core_of_pod
      else c.min_cores /ℤ pos default_core_of_pod

  unfoldable pub get_min_cnt_of_pod : ConfigOfComputeCluster → ℤ
  get_min_cnt_of_pod c = max_ℤ (c.min_cores /ℤ pos default_core_of_pod) (pos 1)

  unfoldable pub get_max_cnt_of_pod : ConfigOfComputeCluster → ℤ
  get_max_cnt_of_pod c =
      max_ℤ (c.max_cores /ℤ pos default_core_of_pod)
        (max_ℤ (c.min_cores /ℤ pos default_core_of_pod) (pos 1))

  unfoldable pub get_lower_and_upper_cpu_scale_threshold :
      ConfigOfComputeCluster → fl.Float × fl.Float
  get_lower_and_upper_cpu_scale_threshold c = elim c.cpu_scale_rules [
    | some r ↦ (
      fl.div (fl.of_int r.threashold.min) (fl.lit 1000 1),
      fl.div (fl.of_int r.threashold.max) (fl.lit 1000 1),
    )
    | none ↦ (g.default_lower_limit, g.default_upper_limit)
  ]

  -- The configuration that NewAutoPauseTenantDescWithState writes out.
  unfoldable pub auto_pause_config : ℤ → ℤ → ConfigOfComputeCluster
  auto_pause_config min_pods max_pods = record {
    disabled = false;
    auto_pause_interval_seconds = g.default_auto_pause_interval_seconds;
    min_cores = min_pods *ℤ pos default_core_of_pod;
    max_cores = max_pods *ℤ pos default_core_of_pod;
    init_cores = min_pods *ℤ pos default_core_of_pod;
    window_seconds = g.default_scale_interval_seconds;
    cpu_scale_rules = none;
    last_modified_ts = pos 0;
  }
