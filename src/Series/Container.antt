-- ===== src/Series/Container.antt =====
-- autoscale/timeseries.go: TimeSeriesContainer. Its two maps own their series, and its mutex
-- makes each method one step. `none` is a panic.
pub mod Insert
pub mod Window
use tiflash_autoscale.Prelude.{
  ℕ, ℤ, pos, ltb_ℤ, eq_ℤ, min_ℤ, max_ℤ, ◌+ℤ◌, ◌≡◌, String, Bool, true, false, ◌&&◌, Option, none,
  some, List, [], ◌∷◌, length, if◌then◌else◌,
}
use tiflash_autoscale.Dict
use tiflash_autoscale.Dict.{Dict}
use tiflash_autoscale.Float.{Float64}
use tiflash_autoscale.Series.Stats.{AvgSigma, ◌>>=◌, merge, new_statistics, avg}
use tiflash_autoscale.Series.Window.{
  SimpleTimeSeries, new_series, reload_cfg, append, get_min_max_time,
}

-- MetricsTopic: an int, of which two values have a name.
pub data MetricsTopic : Type 0 where
  cpu task_cnt : MetricsTopic
  unknown : ℤ → MetricsTopic

pub record TimeSeriesContainer (fl : Float64) : Type 0 where
  pub series_map : Dict (SimpleTimeSeries fl)
  pub task_cnt_series_map : Dict (SimpleTimeSeries fl)

pub record DescOfPodTimeSeries : Type 0 where
  pub max_time : ℤ
  pub min_time : ℤ
  pub size : ℤ

pub record DescOfTenantTimeSeries : Type 0 where
  pub max_of_pod_max_time : ℤ
  pub min_of_pod_max_time : ℤ
  pub max_of_pod_min_time : ℤ
  pub min_of_pod_min_time : ℤ
  pub max_of_pod_timeseries_size : ℤ
  pub min_of_pod_timeseries_size : ℤ
  pub sum_of_pod_timeseries_size : ℤ
  pub pod_cnt : ℤ

-- The method Init.
unfoldable pub init_desc : DescOfPodTimeSeries → DescOfTenantTimeSeries
init_desc o = record {
  max_of_pod_max_time = o.max_time;
  min_of_pod_max_time = o.max_time;
  max_of_pod_min_time = o.min_time;
  min_of_pod_min_time = o.min_time;
  max_of_pod_timeseries_size = o.size;
  min_of_pod_timeseries_size = o.size;
  sum_of_pod_timeseries_size = o.size;
  pod_cnt = pos 1;
}

-- The method Agg.
unfoldable pub agg_desc : DescOfTenantTimeSeries → DescOfPodTimeSeries → DescOfTenantTimeSeries
agg_desc c o = record {
  max_of_pod_max_time = max_ℤ c.max_of_pod_max_time o.max_time;
  min_of_pod_max_time = min_ℤ c.min_of_pod_max_time o.max_time;
  max_of_pod_min_time = max_ℤ c.max_of_pod_min_time o.min_time;
  min_of_pod_min_time = min_ℤ c.min_of_pod_min_time o.min_time;
  max_of_pod_timeseries_size = max_ℤ c.max_of_pod_timeseries_size o.size;
  min_of_pod_timeseries_size = min_ℤ c.min_of_pod_timeseries_size o.size;
  sum_of_pod_timeseries_size = c.sum_of_pod_timeseries_size +ℤ o.size;
  pod_cnt = c.pod_cnt +ℤ pos 1;
}

pub record StatsOfTimeSeries (fl : Float64) : Type 0 where
  pub avg_of_vals : fl.Float
  pub sample_cnt_of_vals : ℤ
  pub min_time : ℤ
  pub max_time : ℤ

module _ (fl : Float64) where
  unfoldable pub new_container : TimeSeriesContainer fl
  new_container = record { series_map = []; task_cnt_series_map = [] }

  -- The map of a topic; a topic with no name is a panic.
  unfoldable pub map_of_topic :
      TimeSeriesContainer fl → MetricsTopic → Option (Dict (SimpleTimeSeries fl))
  map_of_topic c cpu = some c.series_map
  map_of_topic c task_cnt = some c.task_cnt_series_map
  map_of_topic c (unknown n) = none

  -- A write into the map that `SeriesMap` has returned.
  unfoldable pub set_map_of_topic :
      TimeSeriesContainer fl → MetricsTopic → Dict (SimpleTimeSeries fl) → TimeSeriesContainer fl
  set_map_of_topic c cpu m = record c { series_map = m }
  set_map_of_topic c task_cnt m = record c { task_cnt_series_map = m }
  set_map_of_topic c (unknown n) m = c

  -- The series that an insert writes to: a new one, or the old one under the interval at hand.
  unfoldable pub series_for_insert : ℤ → ℤ → Option (SimpleTimeSeries fl) → SimpleTimeSeries fl
  series_for_insert resolution cfg_interval_sec none = new_series fl resolution cfg_interval_sec
  series_for_insert resolution cfg_interval_sec (some val) =
      if eq_ℤ val.interval_sec cfg_interval_sec
      then val
      else reload_cfg fl resolution cfg_interval_sec val

  -- commonInsertWithUserCfg, which InsertWithUserCfg calls as it is.
  unfoldable pub insert_with_user_cfg :
      ℤ
      → TimeSeriesContainer fl
      → String
      → ℤ
      → List fl.Float
      → ℤ
      → MetricsTopic
      → Option (TimeSeriesContainer fl × Bool)
  unfolding series_for_insert map_of_topic set_map_of_topic
  insert_with_user_cfg resolution cur key time values cfg_interval_sec topic =
      map_of_topic cur topic >>= λ m.
      let val = series_for_insert resolution cfg_interval_sec (Dict.lookup key m) in
      if ltb_ℤ val.max_time time
      then (append fl time values val >>= λ val'.
          some (set_map_of_topic cur topic (Dict.insert key val' m), true))
      else some (set_map_of_topic cur topic (Dict.insert key val m), false)

  -- GetStatisticsOfPod: inside, `none` for a pod with no series.
  unfoldable pub get_statistics_of_pod :
      TimeSeriesContainer fl
      → String
      → MetricsTopic
      → Option (Option (List (AvgSigma fl) × DescOfPodTimeSeries))
  unfolding map_of_topic
  get_statistics_of_pod c podname topic = map_of_topic c topic >>= λ m.
      elim (Dict.lookup podname m) [
        | none ↦ some none
        | some v ↦ merge fl (new_statistics fl) v.statistics >>= λ ret. some (
            some (
              ret,
              record {
                max_time = (get_min_max_time fl v).1;
                min_time = (get_min_max_time fl v).0;
                size = pos (length v.series);
              },
            ))
      ]

  -- `&c.Statistics[0]`.
  unfoldable pub vals_of_metric : SimpleTimeSeries fl → Option (AvgSigma fl)
  vals_of_metric c = elim c.statistics [ [] ↦ none | x ∷ xs ↦ some x ]

  unfoldable pub get_snapshot_of_time_series :
      TimeSeriesContainer fl → String → MetricsTopic → Option (Option (StatsOfTimeSeries fl))
  unfolding map_of_topic vals_of_metric
  get_snapshot_of_time_series c podname topic = map_of_topic c topic >>= λ m.
      elim (Dict.lookup podname m) [
        | none ↦ some none
        | some v ↦
            let (min_time, max_time) = get_min_max_time fl v in
            if eq_ℤ max_time (pos 0) && eq_ℤ min_time (pos 0)
            then some none
            else (vals_of_metric v >>= λ vals. some (
                some (record {
                  avg_of_vals = avg fl vals;
                  sample_cnt_of_vals = vals.cnt;
                  min_time = min_time;
                  max_time = max_time;
                })))
      ]

  unfoldable pub reset_metrics_of_pod : String → TimeSeriesContainer fl → TimeSeriesContainer fl
  reset_metrics_of_pod podname c = record c {
    series_map = Dict.remove podname c.series_map;
    task_cnt_series_map = Dict.remove podname c.task_cnt_series_map;
  }
