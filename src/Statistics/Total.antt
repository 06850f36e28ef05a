-- ===== src/Statistics/Total.antt =====
-- autoscale/meta.go: ComputeStatisticsOfTenant, and the ends of its arrays.
use tiflash_autoscale.Prelude.{
  suc, ℤ, pos, ◌+ℤ◌, String, ◌≡◌, refl, ap, ◌∙◌, some, List, [], ◌∷◌, length, arith, Option-cases,
  inl, inr,
}
use tiflash_autoscale.Dict
use tiflash_autoscale.Dict.{Dict}
use tiflash_autoscale.Float.{Float64}
use tiflash_autoscale.Tenant.{TenantDesc, get_pod_names}
use tiflash_autoscale.Meta.{AutoScaleMeta}
use tiflash_autoscale.Series.Stats.{
  AvgSigma, ◌>>=◌, merge, merge_sigma, new_statistics, capacity_of_statics_avg_sigma,
}
use tiflash_autoscale.Series.Stats.Slots.{update_each_total, length-update_each}
use tiflash_autoscale.Series.Window.{SimpleTimeSeries, get_min_max_time}
use tiflash_autoscale.Series.Window.Invariant.{WellFormed}
use tiflash_autoscale.Series.Container.{
  MetricsTopic, cpu, task_cnt, unknown, TimeSeriesContainer, DescOfPodTimeSeries,
  get_statistics_of_pod, map_of_topic,
}
use tiflash_autoscale.Series.Container.Insert.{IsKnown, AllWellFormed}
use tiflash_autoscale.Statistics.{
  no_statistics, add_desc, Statistics, statistics_or_dummy, weighted, note_pod, statistics_loop,
  compute_statistics_of_tenant,
}

module _ (fl : Float64) where
  -- A loop over arrays of six.
  merge_total :
      (a b : List (AvgSigma fl))
      → length a ≡ capacity_of_statics_avg_sigma
      → length b ≡ capacity_of_statics_avg_sigma
      → (r : List (AvgSigma fl)) × (merge fl a b ≡ some r)
        × (length r ≡ capacity_of_statics_avg_sigma)
  unfolding merge
  merge_total a b m n =
      let (r, e) = update_each_total fl (merge_sigma fl) a b (omega (arith, m, n)) in
      (r, e, length-update_each fl (merge_sigma fl) a b r e ∙ m)

  length-weighted :
      (topic : MetricsTopic) (l : List (AvgSigma fl)) → length (weighted fl topic l) ≡ length l
  length-weighted cpu [] = refl
  length-weighted cpu (x ∷ xs) = ap suc (length-weighted cpu xs)
  length-weighted task_cnt l = refl
  length-weighted (unknown n) l = refl

  of_series :
      (v : SimpleTimeSeries fl)
      → WellFormed fl v
      → (r : List (AvgSigma fl)) × (merge fl (new_statistics fl) v.statistics ≡ some r)
        × (length r ≡ capacity_of_statics_avg_sigma)
  unfolding new_statistics
  of_series v w = merge_total (new_statistics fl) v.statistics refl w.slots

  module _ (tsc : TimeSeriesContainer fl) (topic : MetricsTopic) (known : IsKnown topic)
      (all : AllWellFormed fl tsc) where
    -- The map of the topic, all of whose series are well formed.
    pub topic_map :
        (m : Dict (SimpleTimeSeries fl)) × (map_of_topic fl tsc topic ≡ some m)
        × ((key : String) (v : SimpleTimeSeries fl) → Dict.lookup key m ≡ some v → WellFormed fl v)
    unfolding map_of_topic
    topic_map = by_topic topic known
      where
        by_topic :
            (o : MetricsTopic)
            → IsKnown o
            → (m : Dict (SimpleTimeSeries fl)) × (map_of_topic fl tsc o ≡ some m)
              × ((key : String) (v : SimpleTimeSeries fl)
                  → Dict.lookup key m ≡ some v
                  → WellFormed fl v)
        by_topic cpu k = (tsc.series_map, refl, λ key v e. all.at cpu key v e)
        by_topic task_cnt k = (tsc.task_cnt_series_map, refl, λ key v e. all.at task_cnt key v e)
        by_topic (unknown n) k = absurd k

  module _ (now : ℤ) (tsc : TimeSeriesContainer fl) (topic : MetricsTopic) (known : IsKnown topic)
      (all : AllWellFormed fl tsc) where
    statistics_or_dummy_total :
        (name : String)
        → (r : List (AvgSigma fl) × DescOfPodTimeSeries) × (statistics_or_dummy fl now tsc topic
              name
            ≡ some r)
          × (length r.0 ≡ capacity_of_statics_avg_sigma)
    unfolding statistics_or_dummy get_statistics_of_pod new_statistics
    statistics_or_dummy_total name =
        let (m, e, w) = topic_map tsc topic known all in
        elim (Option-cases (Dict.lookup name m)) [
          | inl n ↦ (
            (
              new_statistics fl,
              record { max_time = now +ℤ pos 86400; min_time = now +ℤ pos 86400; size = pos 0 },
            ),
            rw (e, ◌>>=◌, n) refl,
            refl,
          )
          | inr (v, n) ↦
              let (r, f, l) = of_series v (w name v n) in
              (
                (
                  r,
                  record {
                    max_time = (get_min_max_time fl v).1;
                    min_time = (get_min_max_time fl v).0;
                    size = pos (length v.series);
                  },
                ),
                rw (e, ◌>>=◌, n, f) refl,
                l,
              )
        ]

    loop_total :
        (names : List String) (s : Statistics fl)
        → length s.ret ≡ capacity_of_statics_avg_sigma
        → (r : Statistics fl) × (statistics_loop fl now tsc topic names s ≡ some r)
          × (length r.ret ≡ capacity_of_statics_avg_sigma)
    unfolding statistics_loop
    loop_total [] s n = (s, refl, n)
    loop_total (name ∷ names) s n =
        let (x, e, l) = statistics_or_dummy_total name in
        let (ret, f, k) =
          merge_total s.ret (weighted fl topic x.0) n (length-weighted topic x.0 ∙ l) in
        let (r, h, j) =
          loop_total names
            (record (note_pod fl name (weighted fl topic x.0) x.1 s) {
              ret = ret;
              metric_desc_of_tenant = add_desc s.metric_desc_of_tenant x.1;
            })
            k in
        (r, rw (e, f) h, j)

    -- Where all series are well formed and the topic is known, there are statistics for a tenant that is
    -- known, with an array of the full size.
    pub compute_statistics_known :
        (tenant : String) (c : AutoScaleMeta) (t : TenantDesc)
        → Dict.lookup tenant c.tenant_map ≡ some t
        → (r : Statistics fl) × (compute_statistics_of_tenant fl now tenant tsc topic c
            ≡ some (some r))
          × (length r.ret ≡ capacity_of_statics_avg_sigma)
    unfolding compute_statistics_of_tenant new_statistics
    compute_statistics_known tenant c t n =
        let (r, e, l) = loop_total (get_pod_names c.heap t) (no_statistics fl) refl in
        (r, rw (n, compute_statistics_of_tenant, e) refl, l)
