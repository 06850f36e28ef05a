-- ===== src/Statistics/Covers.antt =====
-- autoscale/meta.go: the description of a tenant's series, and those of its pods.
use mathlib.Core.List.{append-nil, append_assoc}
use tiflash_autoscale.Prelude.{
  ℕ, suc, ℤ, pos, ◌+ℤ◌, ◌≤ℤ◌, max_ℤ, min_ℤ, String, ◌≡◌, refl, sym, ap, ◌∙◌, subst, Option, some,
  some_inj, List, [], ◌∷◌, ◌++◌, length, length-append, map, All, All-append, All-map, arith,
}
use tiflash_autoscale.Dict
use tiflash_autoscale.Float.{Float64}
use tiflash_autoscale.Pod.{PodHeap}
use tiflash_autoscale.Tenant.{TenantDesc, get_pod_names}
use tiflash_autoscale.Meta.{AutoScaleMeta}
use tiflash_autoscale.Series.Stats.{AvgSigma, ◌>>=◌, >>=-eq-some, merge, new_statistics}
use tiflash_autoscale.Series.Container.{
  MetricsTopic, TimeSeriesContainer, DescOfPodTimeSeries, DescOfTenantTimeSeries, init_desc,
  agg_desc,
}
use tiflash_autoscale.Statistics.{
  no_desc, no_statistics, add_desc, Statistics, statistics_or_dummy, weighted, statistics_loop,
  compute_statistics_of_tenant,
}

-- What the tenant's description says of one pod.
pub record Within (d : DescOfTenantTimeSeries) (o : DescOfPodTimeSeries) : Type 0 where
  pub min_time_low : d.min_of_pod_min_time ≤ℤ o.min_time
  pub min_time_high : o.min_time ≤ℤ d.max_of_pod_min_time
  pub max_time_low : d.min_of_pod_max_time ≤ℤ o.max_time
  pub max_time_high : o.max_time ≤ℤ d.max_of_pod_max_time
  pub size_low : d.min_of_pod_timeseries_size ≤ℤ o.size
  pub size_high : o.size ≤ℤ d.max_of_pod_timeseries_size

abbrev pub Covers : DescOfTenantTimeSeries → List DescOfPodTimeSeries → Type 0
Covers d os = All (Within d) os × (d.pod_cnt ≡ pos (length os))

agg-Within :
    (d : DescOfTenantTimeSeries) (o x : DescOfPodTimeSeries) → Within d x → Within (agg_desc d o) x
unfolding agg_desc max_ℤ min_ℤ
agg-Within d o x w = record {
  min_time_low = ground (arith, w.min_time_low);
  min_time_high = ground (arith, w.min_time_high);
  max_time_low = ground (arith, w.max_time_low);
  max_time_high = ground (arith, w.max_time_high);
  size_low = ground (arith, w.size_low);
  size_high = ground (arith, w.size_high);
}

agg_own-Within : (d : DescOfTenantTimeSeries) (o : DescOfPodTimeSeries) → Within (agg_desc d o) o
unfolding agg_desc max_ℤ min_ℤ
agg_own-Within d o = record {
  min_time_low = ground arith;
  min_time_high = ground arith;
  max_time_low = ground arith;
  max_time_high = ground arith;
  size_low = ground arith;
  size_high = ground arith;
}

add_desc_first :
    (d : DescOfTenantTimeSeries) (o : DescOfPodTimeSeries)
    → d.pod_cnt ≡ pos 0
    → add_desc d o ≡ init_desc o
unfolding add_desc
add_desc_first d o n = ground (arith, n)

add_desc_later :
    (d : DescOfTenantTimeSeries) (o : DescOfPodTimeSeries) (k : ℕ)
    → d.pod_cnt ≡ pos (suc k)
    → add_desc d o ≡ agg_desc d o
unfolding add_desc
add_desc_later d o k n = ground (arith, n)

init_own-Within : (o : DescOfPodTimeSeries) → Within (init_desc o) o
unfolding init_desc
init_own-Within o = record {
  min_time_low = omega arith;
  min_time_high = omega arith;
  max_time_low = omega arith;
  max_time_high = omega arith;
  size_low = omega arith;
  size_high = omega arith;
}

one_more : (n : ℕ) (c : ℤ) → c ≡ pos n → c +ℤ pos 1 ≡ pos (suc n)
unfolding ◌+ℤ◌
one_more n c e = ground (arith, e)

add_desc-Covers :
    (d : DescOfTenantTimeSeries) (os : List DescOfPodTimeSeries) (o : DescOfPodTimeSeries)
    → Covers d os
    → Covers (add_desc d o) (os ++ o ∷ [])
add_desc-Covers d [] o (w, n) =
    subst (λ (e : DescOfTenantTimeSeries). Covers e (o ∷ [])) (sym (add_desc_first d o n))
      ((init_own-Within o, tt), unfold init_desc in refl)
add_desc-Covers d (x ∷ xs) o (w, n) =
    subst (λ (e : DescOfTenantTimeSeries). Covers e (x ∷ xs ++ o ∷ []))
      (sym (add_desc_later d o (length xs) n))
      (
        All-append (Within (agg_desc d o)) (x ∷ xs) (o ∷ [])
            (All-map (Within d) (Within (agg_desc d o)) (x ∷ xs) (λ y h. agg-Within d o y h) w)
            (agg_own-Within d o, tt),
        unfold agg_desc in
            one_more (suc (length xs)) d.pod_cnt n
            ∙ ap pos (omega (arith, length-append xs (o ∷ []))),
      )

module _ (fl : Float64) where
  -- The descriptions that the loop meets.
  unfoldable pub descs_of :
      ℤ → TimeSeriesContainer fl → MetricsTopic → List String → Option (List DescOfPodTimeSeries)
  descs_of now tsc topic [] = some []
  descs_of now tsc topic (name ∷ names) = statistics_or_dummy fl now tsc topic name >>= λ r.
      descs_of now tsc topic names >>= λ os. some (r.1 ∷ os)

  descs_of_cons :
      (now : ℤ) (tsc : TimeSeriesContainer fl) (topic : MetricsTopic) (name : String)
      (names : List String) (x : List (AvgSigma fl) × DescOfPodTimeSeries)
      (more : List DescOfPodTimeSeries)
      → statistics_or_dummy fl now tsc topic name ≡ some x
      → descs_of now tsc topic names ≡ some more
      → descs_of now tsc topic (name ∷ names) ≡ some (x.1 ∷ more)
  unfolding descs_of
  descs_of_cons now tsc topic name names x more e f = rw (e, f) refl

  loop-Covers :
      (now : ℤ) (tsc : TimeSeriesContainer fl) (topic : MetricsTopic) (names : List String)
      (os : List DescOfPodTimeSeries) (s r : Statistics fl)
      → Covers s.metric_desc_of_tenant os
      → statistics_loop fl now tsc topic names s ≡ some r
      → (more : List DescOfPodTimeSeries) × (descs_of now tsc topic names ≡ some more)
        × Covers r.metric_desc_of_tenant (os ++ more)
        × (length more ≡ length names)
  unfolding statistics_loop descs_of
  loop-Covers now tsc topic [] os s r w e = (
    [],
    refl,
    subst (λ (l : List DescOfPodTimeSeries). Covers r.metric_desc_of_tenant l) (sym (append-nil os))
        (subst (λ (x : Statistics fl). Covers x.metric_desc_of_tenant os) (some_inj e) w),
    refl,
  )
  loop-Covers now tsc topic (name ∷ names) os s r w e =
      let (x, e1, e2) = >>=-eq-some (statistics_or_dummy fl now tsc topic name) _ e in
      let (ret, e3, e4) = >>=-eq-some (merge fl s.ret (weighted fl topic x.0)) _ e2 in
      let (more, f, v, n) =
        loop-Covers now tsc topic names (os ++ x.1 ∷ []) _ r
          (add_desc-Covers s.metric_desc_of_tenant os x.1 w) e4 in
      (
        x.1 ∷ more,
        descs_of_cons now tsc topic name names x more e1 f,
        subst (λ (l : List DescOfPodTimeSeries). Covers r.metric_desc_of_tenant l)
            (append_assoc os (x.1 ∷ []) more) v,
        omega (arith, n),
      )

  length-map : (h : PodHeap) (ps : List ℕ) → length (map (λ p. (h p).name) ps) ≡ length ps
  length-map h [] = refl
  length-map h (p ∷ ps) = omega (arith, length-map h ps)

  found_lem :
      (now : ℤ) (tenant : String) (tsc : TimeSeriesContainer fl) (topic : MetricsTopic)
      (c : AutoScaleMeta) (t : TenantDesc) {o : Option (Statistics fl)}
      → Dict.lookup tenant c.tenant_map ≡ some t
      → compute_statistics_of_tenant fl now tenant tsc topic c ≡ some o
      → (statistics_loop fl now tsc topic (get_pod_names c.heap t) (no_statistics fl) >>= λ s.
          some (some s))
        ≡ some o
  unfolding compute_statistics_of_tenant
  found_lem now tenant tsc topic c t e f = rw (e, compute_statistics_of_tenant) at f

  -- When ComputeStatisticsOfTenant returns statistics for a tenant, its description of the tenant
  -- bounds the times and the sizes of the series of every pod of the tenant's list, with those
  -- that stand in for a missing series, and counts as many pods as there are in the list.
  pub tenant_desc-Covers :
      (now : ℤ) (tenant : String) (tsc : TimeSeriesContainer fl) (topic : MetricsTopic)
      (c : AutoScaleMeta) (t : TenantDesc) (r : Statistics fl)
      → Dict.lookup tenant c.tenant_map ≡ some t
      → compute_statistics_of_tenant fl now tenant tsc topic c ≡ some (some r)
      → (os : List DescOfPodTimeSeries) × (descs_of now tsc topic (get_pod_names c.heap t)
          ≡ some os)
        × All (Within r.metric_desc_of_tenant) os
        × (r.metric_desc_of_tenant.pod_cnt ≡ pos (length t.pod_list))
  unfolding compute_statistics_of_tenant no_desc
  tenant_desc-Covers now tenant tsc topic c t r e f =
      let (x, e1, e2) =
        >>=-eq-some
          (statistics_loop fl now tsc topic (get_pod_names c.heap t) (record {
            ret = new_statistics fl;
            pod_cpu_map = [];
            pod_point_cnt_map = [];
            desc_of_time_series_map = [];
            metric_desc_of_tenant = no_desc;
          }))
          (λ s. some (some s)) (found_lem now tenant tsc topic c t e f) in
      let (os, g, (w, n), k) =
        loop-Covers now tsc topic (get_pod_names c.heap t) [] _ x (tt, refl) e1 in
      let same : x ≡ r = some_inj (some_inj e2) in
      (
        os,
        g,
        subst (λ (y : Statistics fl). All (Within y.metric_desc_of_tenant) os) same w,
        ap (λ (y : Statistics fl). y.metric_desc_of_tenant.pod_cnt) (sym same)
            ∙ n
            ∙ ap pos (k ∙ (unfold get_pod_names in length-map c.heap t.pod_list)),
      )
