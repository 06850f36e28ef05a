-- ===== src/Statistics.antt =====
-- autoscale/meta.go: ComputeStatisticsOfTenant, the load of a tenant over the series of its pods.
pub mod Covers
pub mod Total
use tiflash_autoscale.Prelude.{
  ℕ, ℤ, pos, ◌+ℤ◌, eq_ℤ, String, Bool, true, false, Option, none, some, List, [], ◌∷◌, map,
  if◌then◌else◌,
}
use tiflash_autoscale.Dict
use tiflash_autoscale.Dict.{Dict}
use tiflash_autoscale.Float.{Float64}
use tiflash_autoscale.Tenant.{TenantDesc, get_pod_names}
use tiflash_autoscale.Meta.{AutoScaleMeta}
use tiflash_autoscale.Series.Stats.{AvgSigma, ◌>>=◌, avg, merge, new_statistics}
use tiflash_autoscale.Series.Container.{
  MetricsTopic, cpu, task_cnt, unknown, TimeSeriesContainer, DescOfPodTimeSeries,
  DescOfTenantTimeSeries, init_desc, agg_desc, get_statistics_of_pod,
}

-- The zero value that the loop starts from.
unfoldable pub no_desc : DescOfTenantTimeSeries
no_desc = record {
  max_of_pod_max_time = pos 0;
  min_of_pod_max_time = pos 0;
  max_of_pod_min_time = pos 0;
  min_of_pod_min_time = pos 0;
  max_of_pod_timeseries_size = pos 0;
  min_of_pod_timeseries_size = pos 0;
  sum_of_pod_timeseries_size = pos 0;
  pod_cnt = pos 0;
}

-- Init for the first pod, Agg for the others.
unfoldable pub add_desc : DescOfTenantTimeSeries → DescOfPodTimeSeries → DescOfTenantTimeSeries
add_desc d o = if eq_ℤ d.pod_cnt (pos 0) then init_desc o else agg_desc d o

module _ (fl : Float64) where
  -- What the function returns for a tenant that is known.
  pub record Statistics : Type 0 where
    pub ret : List (AvgSigma fl)
    pub pod_cpu_map : Dict fl.Float
    pub pod_point_cnt_map : Dict ℤ
    pub desc_of_time_series_map : Dict DescOfPodTimeSeries
    pub metric_desc_of_tenant : DescOfTenantTimeSeries

  -- The statistics of a pod; a pod without a series counts as one without points, a day ahead.
  unfoldable pub statistics_or_dummy :
      ℤ
      → TimeSeriesContainer fl
      → MetricsTopic
      → String
      → Option (List (AvgSigma fl) × DescOfPodTimeSeries)
  statistics_or_dummy now tsc topic pod_name = get_statistics_of_pod fl tsc pod_name topic >>= λ o.
      elim o [
        | none ↦ some (
          new_statistics fl,
          record { max_time = now +ℤ pos 86400; min_time = now +ℤ pos 86400; size = pos 0 },
        )
        | some r ↦ some r
      ]

  -- For the use of processors every pod has the same weight.
  abbrev pub weighted : MetricsTopic → List (AvgSigma fl) → List (AvgSigma fl)
  weighted cpu stats = map (λ (s : AvgSigma fl). record { sum = avg fl s; cnt = pos 1 }) stats
  weighted _ stats = stats

  -- The entries of the maps for a pod.
  abbrev pub note_pod : String → List (AvgSigma fl) → DescOfPodTimeSeries → Statistics → Statistics
  note_pod pod_name [] d s = s
  note_pod pod_name (x ∷ xs) d s = record s {
    pod_cpu_map = Dict.insert pod_name (avg fl x) s.pod_cpu_map;
    pod_point_cnt_map = Dict.insert pod_name x.cnt s.pod_point_cnt_map;
    desc_of_time_series_map = Dict.insert pod_name d s.desc_of_time_series_map;
  }

  -- The loop over the names of the tenant's pods.
  unfoldable pub statistics_loop :
      ℤ → TimeSeriesContainer fl → MetricsTopic → List String → Statistics → Option Statistics
  unfolding statistics_or_dummy add_desc
  statistics_loop now tsc topic [] s = some s
  statistics_loop now tsc topic (name ∷ names) s = statistics_or_dummy now tsc topic name >>= λ r.
      merge fl s.ret (weighted topic r.0) >>= λ ret.
      statistics_loop now tsc topic names (record (note_pod name (weighted topic r.0) r.1 s) {
        ret = ret;
        metric_desc_of_tenant = add_desc s.metric_desc_of_tenant r.1;
      })

  -- What the loop starts from.
  abbrev pub no_statistics : Statistics
  no_statistics = record {
    ret = new_statistics fl;
    pod_cpu_map = [];
    pod_point_cnt_map = [];
    desc_of_time_series_map = [];
    metric_desc_of_tenant = no_desc;
  }

  -- Inside, none for a tenant that is not known; the names are read in one step, and the series after
  -- it.
  unfoldable pub compute_statistics_of_tenant :
      ℤ
      → String
      → TimeSeriesContainer fl
      → MetricsTopic
      → AutoScaleMeta
      → Option (Option Statistics)
  unfolding statistics_loop
  compute_statistics_of_tenant now tenant tsc topic c = elim (Dict.lookup tenant c.tenant_map) [
    | none ↦ some none
    | some t ↦
        statistics_loop now tsc topic (get_pod_names c.heap t) no_statistics >>= λ s. some (some s)
  ]
