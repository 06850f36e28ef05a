-- ===== src/Metrics/Since.antt =====
-- autoscale/timeseries.go: RangeQueryCpu, and when the pods were assigned to their tenants.
use tiflash_autoscale.Prelude.{
  ℤ, pos, ◌≤ℤ◌, ◌≤◌, ltb_ℤ, leb_ℤ, eq_ℤ, String, str_eq, str_eq_iff, ◌≡◌, refl, sym, ap, ◌∙◌, subst,
  ◌&&◌, Option, none, some, some_inj, List, [], ◌∷◌, length, All, All-append, arith, Bool-cases,
  inl, inr,
}
use tiflash_autoscale.Float.{Float64}
use tiflash_autoscale.Meta.{AutoScaleMeta, get_tenant_info_of_pod, get_tenant_scale_interval_sec}
use tiflash_autoscale.Series.Stats.{◌>>=◌}
use tiflash_autoscale.Series.Window.{TimeValues, SimpleTimeSeries, new_series, reload_cfg}
use tiflash_autoscale.Series.Window.Evict.{surviving}
use tiflash_autoscale.Series.Container.{cpu, task_cnt, TimeSeriesContainer, series_for_insert}
use tiflash_autoscale.Series.Container.Insert.{series_of, AllWellFormed, outcome}
use tiflash_autoscale.Series.Container.Window.{insert-AllWellFormed}
use tiflash_autoscale.Metrics.{TimeValPair, SampleStream, put_point, put_values, range_query_cpu}

module _ (fl : Float64) where
  surviving-All :
      (P : TimeValues fl → Type 0) (limit lo : ℤ) (xs : List (TimeValues fl))
      → All P xs
      → All P (surviving fl limit lo xs)
  unfolding surviving
  surviving-All P limit lo [] a = tt
  surviving-All P limit lo (x ∷ xs) (h, a) =
      elim (Bool-cases (ltb_ℤ lo x.time && leb_ℤ (pos (length (x ∷ xs))) limit)) [
        | inl b ↦ rw b (h, surviving-All P limit lo xs a)
        | inr b ↦ rw b (surviving-All P limit lo xs a)
      ]

  -- The points of a series are kept when its configuration is reloaded; a new one has none.
  series_for_insert-All :
      (P : TimeValues fl → Type 0) (resolution interval : ℤ) (o : Option (SimpleTimeSeries fl))
      → ((s : SimpleTimeSeries fl) → o ≡ some s → All P s.series)
      → All P (series_for_insert fl resolution interval o).series
  unfolding series_for_insert reload_cfg new_series
  series_for_insert-All P resolution interval none h = tt
  series_for_insert-All P resolution interval (some s) h =
      elim (Bool-cases (eq_ℤ s.interval_sec interval)) [
        | inl b ↦ rw b (h s refl)
        | inr b ↦ rw b (h s refl)
      ]

module _ (fl : Float64) (resolution : ℤ) (meta : AutoScaleMeta) where
  -- No series of the use of processors goes back to before its pod was assigned.
  abbrev pub Since : TimeSeriesContainer fl → Type 0
  Since c =
      (k : String) (s : SimpleTimeSeries fl)
      → series_of fl c cpu k ≡ some s
      → All (λ (y : TimeValues fl). (get_tenant_info_of_pod k meta).1 ≤ℤ y.time) s.series

  -- How one part of the query goes on from a state of the series.
  abbrev Goes : TimeSeriesContainer fl → Option (TimeSeriesContainer fl) → Type 0
  Goes c o =
      (c' : TimeSeriesContainer fl) × (o ≡ some c')
      × AllWellFormed fl c'
      × Since c'
      × ((k : String) → series_of fl c' task_cnt k ≡ series_of fl c task_cnt k)

  Goes-bind :
      (c : TimeSeriesContainer fl) (o : Option (TimeSeriesContainer fl))
      (f : TimeSeriesContainer fl → Option (TimeSeriesContainer fl))
      → Goes c o
      → ((c' : TimeSeriesContainer fl) → AllWellFormed fl c' → Since c' → Goes c' (f c'))
      → Goes c (o >>= f)
  Goes-bind c o f (c1, e, all, s, t) next =
      let (c2, e2, all2, s2, t2) = next c1 all s in (c2, rw e e2, all2, s2, λ k. t2 k ∙ t k)

  stored-Since :
      (c : TimeSeriesContainer fl) (pod : String) (p : TimeValPair fl) (values : List fl.Float)
      (interval : ℤ) (all : AllWellFormed fl c) (fit : length values ≤ 6)
      → Since c
      → (get_tenant_info_of_pod pod meta).1 ≤ℤ p.time
      → All
          (λ (y : TimeValues fl). (get_tenant_info_of_pod pod meta).1 ≤ℤ y.time)
          (outcome fl resolution c pod p.time values interval cpu tt all fit).stored.series
  stored-Since c pod p values interval all fit since late =
      let P = λ (y : TimeValues fl). (get_tenant_info_of_pod pod meta).1 ≤ℤ y.time in
      let o = outcome fl resolution c pod p.time values interval cpu tt all fit in
      let before =
        series_for_insert-All fl P resolution interval (series_of fl c cpu pod) (since pod) in
      elim o.decided [
        | inl (_, _, _, points) ↦
            subst (All P) (sym points)
              (surviving-All fl P _ _ _ (All-append P _ _ before (late, tt)))
        | inr (_, _, same) ↦ subst (λ (s : SimpleTimeSeries fl). All P s.series) (sym same) before
      ]

  put_point-Goes :
      (c : TimeSeriesContainer fl) (pod : String) (p : TimeValPair fl) (interval : ℤ)
      → AllWellFormed fl c
      → Since c
      → (get_tenant_info_of_pod pod meta).1 ≤ℤ p.time
      → Goes c (put_point fl resolution c pod p interval cpu)
  put_point-Goes c pod p interval all since late =
      let values = p.value ∷ fl.of_int (pos 0) ∷ [] in
      let o = outcome fl resolution c pod p.time values interval cpu tt all (omega arith) in
      let (_, _, e, w) =
        insert-AllWellFormed fl resolution c pod p.time values interval cpu tt all (omega arith) in
      let stored = stored-Since c pod p values interval all (omega arith) since late in
      (
        o.after,
        rw o.returns refl,
        subst (AllWellFormed fl) (ap (λ r. r.0) (some_inj (sym e ∙ o.returns))) w,
        λ k s f. elim (Bool-cases (str_eq pod k)) [
          | inr miss ↦ since k s (sym (rw (o.at cpu k, miss) refl) ∙ f)
          | inl hit ↦
              let own : o.stored ≡ s = some_inj (sym (rw (o.at cpu k, hit) refl) ∙ f) in
              subst
                (λ (j : String).
                  All (λ (y : TimeValues fl). (get_tenant_info_of_pod j meta).1 ≤ℤ y.time) s.series)
                ((str_eq_iff pod k).0 hit)
                (subst
                  (λ (r : SimpleTimeSeries fl).
                    All (λ (y : TimeValues fl). (get_tenant_info_of_pod pod meta).1 ≤ℤ y.time)
                      r.series)
                  own stored)
        ],
        λ k. o.at task_cnt k,
      )

  put_values-Goes :
      (pod : String) (interval : ℤ) (ps : List (TimeValPair fl)) (c : TimeSeriesContainer fl)
      → AllWellFormed fl c
      → Since c
      → Goes c (put_values fl resolution pod (get_tenant_info_of_pod pod meta).1 interval ps c)
  unfolding put_values
  put_values-Goes pod interval [] c all since = (c, refl, all, since, λ k. refl)
  put_values-Goes pod interval (p ∷ ps) c all since =
      Goes-bind c _ (put_values fl resolution pod (get_tenant_info_of_pod pod meta).1 interval ps)
        (elim (Bool-cases (ltb_ℤ p.time (get_tenant_info_of_pod pod meta).1)) [
          | inl b ↦ rw b (c, refl, all, since, λ k. refl)
          | inr b ↦ rw b (put_point-Goes c pod p interval all since (ground (arith, b)))
        ])
        (put_values-Goes pod interval ps)

  range_query_cpu-Goes :
      (ss : List (SampleStream fl)) (c : TimeSeriesContainer fl)
      → AllWellFormed fl c
      → Since c
      → Goes c (range_query_cpu fl resolution meta ss c)
  unfolding range_query_cpu
  range_query_cpu-Goes [] c all since = (c, refl, all, since, λ k. refl)
  range_query_cpu-Goes (s ∷ ss) c all since =
      let (tenant, stime) = get_tenant_info_of_pod s.pod meta in
      let (interval, has_err) = get_tenant_scale_interval_sec tenant meta in
      let skipped : Goes c (some c) = (c, refl, all, since, λ k. refl) in
      Goes-bind c _ (range_query_cpu fl resolution meta ss)
        (elim (Bool-cases (str_eq tenant "")) [
          | inl b ↦ rw b skipped
          | inr b ↦ elim (Bool-cases has_err) [
            | inl h ↦ rw (b, h) skipped
            | inr h ↦ elim (Bool-cases (eq_ℤ stime (pos 0))) [
              | inl z ↦ rw (b, h, z) skipped
              | inr z ↦ rw (b, h, z) (put_values-Goes s.pod interval s.values c all since)
            ]
          ]
        ])
        (range_query_cpu-Goes ss)

-- For well formed series of which none goes back to before its pod was assigned: whatever Prometheus
-- has answered, RangeQueryCpu comes to its end and leaves such series, so that no point is from a
-- tenant that the pod served before; and it leaves the series of tasks as they were.
pub range_query_cpu-Since :
    (fl : Float64) (resolution : ℤ) (meta : AutoScaleMeta) (ss : List (SampleStream fl))
    (c : TimeSeriesContainer fl)
    → AllWellFormed fl c
    → Since fl resolution meta c
    → (c' : TimeSeriesContainer fl) × (range_query_cpu fl resolution meta ss c ≡ some c')
      × AllWellFormed fl c'
      × Since fl resolution meta c'
      × ((k : String) → series_of fl c' task_cnt k ≡ series_of fl c task_cnt k)
range_query_cpu-Since fl resolution meta ss c = range_query_cpu-Goes fl resolution meta ss c
