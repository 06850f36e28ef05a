-- ===== src/Metrics.antt =====
-- autoscale/timeseries.go: what PromClient makes of the answers of Prometheus; and
-- autoscale/cluster.go: a round of collectMetricsLoop. The answers are arguments, as the samples that
-- the client library has parsed; an answer of another shape gives no samples. `none` is a panic.
pub mod Latest
pub mod Keeps
pub mod Since
use tiflash_autoscale.Prelude.{
  ℕ, zero, suc, ℤ, pos, ◌+ℤ◌, ◌-ℤ◌, ltb_ℤ, eq_ℤ, String, str_eq, Bool, true, false, Option, none,
  some, List, [], ◌∷◌, if◌then◌else◌,
}
use tiflash_autoscale.Dict
use tiflash_autoscale.Dict.{Dict}
use tiflash_autoscale.Float.{Float64}
use tiflash_autoscale.Meta.{
  AutoScaleMeta, get_tenant_desc, get_tenant_info_of_pod, get_tenant_scale_interval_sec,
}
use tiflash_autoscale.Series.Stats.{◌>>=◌}
use tiflash_autoscale.Series.Container.{
  MetricsTopic, cpu, task_cnt, unknown, TimeSeriesContainer, insert_with_user_cfg,
  get_snapshot_of_time_series,
}

pub record TimeValPair (fl : Float64) : Type 0 where
  pub time : ℤ
  pub value : fl.Float

-- model.SampleStream and model.Sample: the pod of its labels, and its points.
pub record SampleStream (fl : Float64) : Type 0 where
  pub pod : String
  pub values : List (TimeValPair fl)

pub record Sample (fl : Float64) : Type 0 where
  pub pod : String
  pub point : TimeValPair fl

module _ (fl : Float64) where
  -- The last point but one, and the last.
  abbrev pub last_two : List (TimeValPair fl) → Option (TimeValPair fl × TimeValPair fl)
  last_two [] = none
  last_two (x ∷ []) = none
  last_two (x ∷ y ∷ []) = some (x, y)
  last_two (x ∷ y ∷ z ∷ r) = last_two (y ∷ z ∷ r)

  -- The use of processors between two points.
  unfoldable pub rate_of : TimeValPair fl × TimeValPair fl → TimeValPair fl
  rate_of (next_to_last, last) = record {
    time = last.time;
    value =
        fl.div (fl.sub last.value next_to_last.value) (fl.of_int (last.time -ℤ next_to_last.time));
  }

  -- Whether a point is taken in the place of what is there.
  abbrev pub is_newer : TimeValPair fl → Option (TimeValPair fl) → Bool
  is_newer p none = true
  is_newer p (some v) = ltb_ℤ v.time p.time

  -- The loop of QueryCpu.
  unfoldable pub query_cpu : List (SampleStream fl) → Dict (TimeValPair fl) → Dict (TimeValPair fl)
  unfolding rate_of
  query_cpu [] ret = ret
  query_cpu (s ∷ ss) ret = query_cpu ss (elim (last_two s.values) [
    | none ↦ ret
    | some two ↦
        if is_newer (rate_of two) (Dict.lookup s.pod ret)
        then Dict.insert s.pod (rate_of two) ret
        else ret
  ])

  -- The loop of QueryComputeTask.
  unfoldable pub query_compute_task :
      List (Sample fl) → Dict (TimeValPair fl) → Dict (TimeValPair fl)
  query_compute_task [] ret = ret
  query_compute_task (s ∷ ss) ret = query_compute_task ss (Dict.insert s.pod s.point ret)

  -- A point of a metric, with the dummy that stands for the use of memory.
  abbrev pub put_point :
      ℤ
      → TimeSeriesContainer fl
      → String
      → TimeValPair fl
      → ℤ
      → MetricsTopic
      → Option (TimeSeriesContainer fl)
  put_point resolution tsc pod p interval topic =
      insert_with_user_cfg fl resolution tsc pod p.time (p.value ∷ fl.of_int (pos 0) ∷ []) interval
        topic
      >>= λ r. some r.0

  -- The inner loop of RangeQueryCpu: the points since the pod was assigned.
  unfoldable pub put_values :
      ℤ
      → String
      → ℤ
      → ℤ
      → List (TimeValPair fl)
      → TimeSeriesContainer fl
      → Option (TimeSeriesContainer fl)
  put_values resolution pod stime interval [] tsc = some tsc
  put_values resolution pod stime interval (p ∷ ps) tsc =
      (if ltb_ℤ p.time stime then some tsc else put_point resolution tsc pod p interval cpu)
      >>= put_values resolution pod stime interval ps

  -- RangeQueryCpu, which counts points only for the log.
  unfoldable pub range_query_cpu :
      ℤ
      → AutoScaleMeta
      → List (SampleStream fl)
      → TimeSeriesContainer fl
      → Option (TimeSeriesContainer fl)
  unfolding put_values
  range_query_cpu resolution c [] tsc = some tsc
  range_query_cpu resolution c (s ∷ ss) tsc =
      let (tenant, stime) = get_tenant_info_of_pod s.pod c in
      let (interval, has_err) = get_tenant_scale_interval_sec tenant c in
      (if str_eq tenant ""
        then some tsc
        else if has_err
        then some tsc
        else if eq_ℤ stime (pos 0)
        then some tsc
        else put_values resolution s.pod stime interval s.values tsc)
      >>= range_query_cpu resolution c ss

  -- A point of a pod in collectMetricsLoop, where its tenant is known.
  unfoldable pub collect_point :
      ℤ
      → MetricsTopic
      → String
      → TimeValPair fl
      → ℤ
      → ℤ
      → TimeSeriesContainer fl
      → Option (TimeSeriesContainer fl)
  collect_point resolution cpu pod p scale_interval auto_pause_interval tsc =
      put_point resolution tsc pod p scale_interval cpu
  collect_point resolution task_cnt pod p scale_interval auto_pause_interval tsc =
      if eq_ℤ auto_pause_interval (pos 0)
      then some tsc
      else put_point resolution tsc pod p auto_pause_interval task_cnt
  collect_point resolution (unknown n) pod p scale_interval auto_pause_interval tsc = none

  -- The loop over the pods of a round; the snapshot is read for the log.
  unfoldable pub collect_metrics :
      ℤ
      → MetricsTopic
      → AutoScaleMeta
      → Dict (TimeValPair fl)
      → TimeSeriesContainer fl
      → Option (TimeSeriesContainer fl)
  unfolding collect_point
  collect_metrics resolution topic c [] tsc = some tsc
  collect_metrics resolution topic c ((pod, p) ∷ m) tsc =
      (let tenant = (get_tenant_info_of_pod pod c).0 in
        if str_eq tenant "" then some tsc else elim (get_tenant_desc tenant c) [
          | none ↦ some tsc
          | some t ↦
              collect_point resolution topic pod p t.conf.window_seconds
                t.conf.auto_pause_interval_seconds tsc
              >>= λ tsc'. get_snapshot_of_time_series fl tsc' pod topic >>= λ _. some tsc'
        ])
      >>= collect_metrics resolution topic c m
