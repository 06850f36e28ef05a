-- ===== src/Metrics/Keeps.antt =====
-- autoscale/cluster.go: a round of collectMetricsLoop, and the series.
use tiflash_autoscale.Prelude.{
  ℤ, pos, eq_ℤ, String, str_eq, str_eq_iff, ◌≡◌, ◌≢◌, refl, sym, ◌∙◌, subst, false, ◌&&◌, Option,
  none, some, List, [], ◌∷◌, length, arith, Bool-cases, Option-cases, ◌⊎◌, inl, inr,
}
use tiflash_autoscale.Dict
use tiflash_autoscale.Dict.{Dict}
use tiflash_autoscale.Float.{Float64}
use tiflash_autoscale.Meta.{AutoScaleMeta, get_tenant_desc, get_tenant_info_of_pod}
use tiflash_autoscale.Series.Stats.{AvgSigma, ◌>>=◌, avg, capacity_of_statics_avg_sigma}
use tiflash_autoscale.Series.Window.{get_min_max_time}
use tiflash_autoscale.Series.Container.{
  MetricsTopic, cpu, task_cnt, unknown, TimeSeriesContainer, vals_of_metric,
  get_snapshot_of_time_series, StatsOfTimeSeries,
}
use tiflash_autoscale.Series.Container.Insert.{IsKnown, series_of, AllWellFormed}
use tiflash_autoscale.Series.Container.Window.{insert-AllWellFormed, insert_elsewhere}
use tiflash_autoscale.Statistics.Total.{topic_map}
use tiflash_autoscale.Metrics.{TimeValPair, put_point, collect_point, collect_metrics}

module _ (fl : Float64) (resolution : ℤ) (other : MetricsTopic) (k : String) where
  -- Well formed series, and the same series as before at one place.
  abbrev Kept : TimeSeriesContainer fl → Option (TimeSeriesContainer fl) → Type 0
  Kept c o =
      (c' : TimeSeriesContainer fl) × (o ≡ some c')
      × AllWellFormed fl c'
      × (series_of fl c' other k ≡ series_of fl c other k)

  Kept-refl : (c : TimeSeriesContainer fl) → AllWellFormed fl c → Kept c (some c)
  Kept-refl c all = (c, refl, all, refl)

  Kept-bind :
      (c : TimeSeriesContainer fl) (o : Option (TimeSeriesContainer fl))
      (f : TimeSeriesContainer fl → Option (TimeSeriesContainer fl))
      → Kept c o
      → ((c' : TimeSeriesContainer fl) → AllWellFormed fl c' → Kept c' (f c'))
      → Kept c (o >>= f)
  Kept-bind c o f (c1, e, all, s) next =
      let (c2, e2, all2, s2) = next c1 all in (c2, rw e e2, all2, s2 ∙ s)

  put_point-Kept :
      (c : TimeSeriesContainer fl) (pod : String) (p : TimeValPair fl) (interval : ℤ)
      (topic : MetricsTopic)
      → IsKnown topic
      → AllWellFormed fl c
      → (other ≢ topic) ⊎ (k ≢ pod)
      → Kept c (put_point fl resolution c pod p interval topic)
  put_point-Kept c pod p interval topic known all apart =
      let values = p.value ∷ fl.of_int (pos 0) ∷ [] in
      let (after, accepted, e, w) =
        insert-AllWellFormed fl resolution c pod p.time values interval topic known all
          (omega arith) in
      (
        after,
        rw e refl,
        w,
        insert_elsewhere fl resolution c pod p.time values interval topic known all (omega arith) e
            other k apart,
      )

  snapshot-Kept :
      (c : TimeSeriesContainer fl) (pod : String) (topic : MetricsTopic)
      → IsKnown topic
      → AllWellFormed fl c
      → Kept c (get_snapshot_of_time_series fl c pod topic >>= λ _. some c)
  unfolding get_snapshot_of_time_series vals_of_metric
  snapshot-Kept c pod topic known all =
      let (m, e, w) = topic_map fl c topic known all in
      let found : (o : Option (StatsOfTimeSeries fl)) × (get_snapshot_of_time_series fl c pod topic
            ≡ some o) =
        elim (Option-cases (Dict.lookup pod m)) [
          | inl n ↦ (none, rw (e, ◌>>=◌, n) refl)
          | inr (v, n) ↦
              elim (Bool-cases (
                eq_ℤ (get_min_max_time fl v).1 (pos 0) && eq_ℤ (get_min_max_time fl v).0 (pos 0))) [
                  | inl b ↦ (none, rw (e, ◌>>=◌, n, b) refl)
                  | inr b ↦
                      let (x, f) = first_vals v.statistics (w pod v n).slots in
                      (
                        some (record {
                          avg_of_vals = avg fl x;
                          sample_cnt_of_vals = x.cnt;
                          min_time = (get_min_max_time fl v).0;
                          max_time = (get_min_max_time fl v).1;
                        }),
                        rw (e, ◌>>=◌, n, b, f) refl,
                      )
                ]
        ] in
      (c, rw found.1 refl, all, refl)
    where
      first_vals :
          (l : List (AvgSigma fl))
          → length l ≡ capacity_of_statics_avg_sigma
          → (x : AvgSigma fl) × (let o : Option (AvgSigma fl) = elim l [
            | [] ↦ none
            | x ∷ xs ↦ some x
          ] in
              o ≡ some x)
      first_vals [] n = absurd (omega (arith, n))
      first_vals (x ∷ xs) n = (x, refl)

  collect_point-Kept :
      (topic : MetricsTopic) (pod : String) (p : TimeValPair fl) (scale pause : ℤ)
      (c : TimeSeriesContainer fl)
      → IsKnown topic
      → AllWellFormed fl c
      → (other ≢ topic) ⊎ (k ≢ pod)
      → Kept c (collect_point fl resolution topic pod p scale pause c)
  unfolding collect_point
  collect_point-Kept cpu pod p scale pause c known all apart =
      put_point-Kept c pod p scale cpu known all apart
  collect_point-Kept task_cnt pod p scale pause c known all apart =
      elim (Bool-cases (eq_ℤ pause (pos 0))) [
        | inl b ↦ rw b (Kept-refl c all)
        | inr b ↦ rw b (put_point-Kept c pod p pause task_cnt known all apart)
      ]
  collect_point-Kept (unknown n) pod p scale pause c known all apart = absurd known

  -- The series is of another topic, or of a pod that names no tenant.
  abbrev Untouched : MetricsTopic → AutoScaleMeta → Type 0
  Untouched topic meta = (other ≢ topic) ⊎ ((get_tenant_info_of_pod k meta).0 ≡ "")

  untouched_lem :
      (topic : MetricsTopic) (meta : AutoScaleMeta) (pod : String)
      → Untouched topic meta
      → str_eq (get_tenant_info_of_pod pod meta).0 "" ≡ false
      → (other ≢ topic) ⊎ (k ≢ pod)
  untouched_lem topic meta pod (inl a) b = inl a
  untouched_lem topic meta pod (inr a) b = inr (λ e.
      let named : str_eq (get_tenant_info_of_pod k meta).0 "" ≡ false =
        subst (λ (j : String). str_eq (get_tenant_info_of_pod j meta).0 "" ≡ false) (sym e) b in
      cc (named, (str_eq_iff (get_tenant_info_of_pod k meta).0 "").1 a))

  collect_metrics-Kept :
      (topic : MetricsTopic) (meta : AutoScaleMeta) (m : Dict (TimeValPair fl))
      (c : TimeSeriesContainer fl)
      → IsKnown topic
      → AllWellFormed fl c
      → Untouched topic meta
      → Kept c (collect_metrics fl resolution topic meta m c)
  unfolding collect_metrics
  collect_metrics-Kept topic meta [] c known all apart = Kept-refl c all
  collect_metrics-Kept topic meta ((pod, p) ∷ m) c known all apart =
      Kept-bind c _ (collect_metrics fl resolution topic meta m)
        (elim (Bool-cases (str_eq (get_tenant_info_of_pod pod meta).0 "")) [
          | inl b ↦ rw b (Kept-refl c all)
          | inr b ↦ elim (Option-cases (get_tenant_desc (get_tenant_info_of_pod pod meta).0 meta)) [
            | inl n ↦ rw (b, n) (Kept-refl c all)
            | inr (t, n) ↦
                rw (b, n)
                  (Kept-bind c
                    (collect_point fl resolution topic pod p t.conf.window_seconds
                      t.conf.auto_pause_interval_seconds c)
                    (λ c'. get_snapshot_of_time_series fl c' pod topic >>= λ _. some c')
                    (collect_point-Kept topic pod p t.conf.window_seconds
                      t.conf.auto_pause_interval_seconds c known all
                      (untouched_lem topic meta pod apart b))
                    (λ c' all'. snapshot-Kept c' pod topic known all'))
          ]
        ])
        (λ c' all'. collect_metrics-Kept topic meta m c' known all' apart)

-- For a topic that is known and well formed series: a round of collectMetricsLoop comes to its end and
-- leaves all series well formed, and it leaves the series of every other topic, and of every pod that
-- names no tenant, as they were.
pub collect_metrics_lem :
    (fl : Float64) (resolution : ℤ) (topic : MetricsTopic) (meta : AutoScaleMeta)
    (m : Dict (TimeValPair fl)) (c : TimeSeriesContainer fl) (other : MetricsTopic) (k : String)
    → IsKnown topic
    → AllWellFormed fl c
    → (other ≢ topic) ⊎ ((get_tenant_info_of_pod k meta).0 ≡ "")
    → (c' : TimeSeriesContainer fl) × (collect_metrics fl resolution topic meta m c ≡ some c')
      × AllWellFormed fl c'
      × (series_of fl c' other k ≡ series_of fl c other k)
collect_metrics_lem fl resolution topic meta m c other k =
    collect_metrics-Kept fl resolution other k topic meta m c
