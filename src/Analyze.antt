-- ===== src/Analyze.antt =====
-- autoscale/cluster.go: a round of analyzeTaskLoop, which corrects a tenant's state, pauses a tenant
-- without load, and resizes one by the load of its pods. What the program does while the round waits
-- for a call of addPodIntoTenant or removePodFromTenant, the call itself included, is an argument, with
-- the number that the call returns.
pub mod Bounds
pub mod Round
use tiflash_autoscale.Prelude.{
  ℕ, ℤ, pos, negsuc, ◌+ℤ◌, ◌-ℤ◌, ltb_ℤ, leb_ℤ, eq_ℤ, String, Bool, false, not, ◌&&◌, Option, none,
  some, List, [], ◌∷◌, if◌then◌else◌,
}
use tiflash_autoscale.Float.{Float64}
use tiflash_autoscale.Config.{
  Settings, get_init_cnt_of_pod, get_min_cnt_of_pod, get_lower_and_upper_cpu_scale_threshold,
}
use tiflash_autoscale.Tenant.{
  TenantDesc, resumed, paused, state_eq, get_cnt_of_pods, is_state_correct, try_to_reload_conf,
}
use tiflash_autoscale.Series.Stats.{AvgSigma, ◌>>=◌, avg}
use tiflash_autoscale.Series.Container.{cpu, task_cnt, DescOfTenantTimeSeries}
use tiflash_autoscale.Statistics.{Statistics, compute_statistics_of_tenant}
use tiflash_autoscale.ScaleRule.{compute_best_pods_in_rule_of_compute}
use tiflash_autoscale.Meta.{get_tenant_desc, on_tenant}
use tiflash_autoscale.Resize.World.{World, async_pause, resize_pods_of_tenant}
use tiflash_autoscale.Server.{resume}

-- Each pod has two points at least, and the first of them is old enough for the interval.
abbrev pub enough_points : ℤ → ℤ → DescOfTenantTimeSeries → Bool
enough_points now interval d =
    leb_ℤ (pos 2) d.min_of_pod_timeseries_size
    && ltb_ℤ d.max_of_pod_min_time (now -ℤ interval +ℤ pos 30)

module _ (fl : Float64) (g : Settings fl) where
  -- The first slot of the statistics, whose absence is a panic.
  abbrev pub first_slot : Statistics fl → Option (AvgSigma fl)
  first_slot s = elim s.ret [ [] ↦ none | x ∷ xs ↦ some x ]

  -- The answer to the statistics of the tenant's tasks.
  unfoldable pub pause_by : ℤ → TenantDesc → World fl → Option (Statistics fl) → Option (World fl)
  pause_by now t w none = some w
  pause_by now t w (some s) =
      if enough_points now t.conf.auto_pause_interval_seconds s.metric_desc_of_tenant
      then (first_slot s >>= λ x.
          some (if fl.lt x.sum (fl.of_int (pos 1)) then (async_pause fl g t.name w).0 else w))
      else some w

  -- The part on pausing; an interval of 0 turns it off.
  unfoldable pub analyze_auto_pause : ℤ → TenantDesc → World fl → Option (World fl)
  analyze_auto_pause now t w =
      if eq_ℤ t.conf.auto_pause_interval_seconds (pos 0)
      then some w
      else (compute_statistics_of_tenant fl now t.name w.ts_container task_cnt w.meta
          >>= pause_by now t w)

  -- The number of pods by the rule, and the call that brings the tenant there.
  unfoldable pub scale_to :
      (World fl → World fl × Option ℕ) → TenantDesc → World fl → fl.Float → World fl
  scale_to answer t w usage =
      let (lower, upper) = get_lower_and_upper_cpu_scale_threshold fl g t.conf in
      let best = (compute_best_pods_in_rule_of_compute fl g (some t) usage lower upper).0 in
      let cnt = pos (get_cnt_of_pods t) in
      if not (eq_ℤ best (negsuc 0)) && not (eq_ℤ cnt best)
      then (answer (resize_pods_of_tenant fl g cnt best t.name w)).0
      else w

  -- The answer to the statistics of the tenant's load. Without statistics there is no description of
  -- their series either, which is read first.
  unfoldable pub scale_by :
      (World fl → World fl × Option ℕ)
      → ℤ
      → TenantDesc
      → World fl
      → Option (Statistics fl)
      → Option (World fl)
  scale_by answer now t w none = none
  scale_by answer now t w (some s) =
      if enough_points now t.conf.window_seconds s.metric_desc_of_tenant
      then (first_slot s >>= λ x. some (scale_to answer t w (avg fl x)))
      else some w

  -- The part on scaling.
  unfoldable pub analyze_auto_scale :
      (World fl → World fl × Option ℕ) → ℤ → TenantDesc → World fl → Option (World fl)
  analyze_auto_scale answer now t w =
      let cnt = get_cnt_of_pods t in
      if ltb_ℤ (pos cnt) (get_min_cnt_of_pod fl g t.conf)
      then some
          (answer
            (resize_pods_of_tenant fl g (pos cnt) (get_init_cnt_of_pod fl g t.conf) t.name w)).0
      else (compute_statistics_of_tenant fl now t.name w.ts_container cpu w.meta
          >>= scale_by answer now t w)

  -- What a round does with the tenant, whose configuration it has reloaded.
  unfoldable pub correct_state :
      (World fl → World fl × Option ℕ) → String → TenantDesc → World fl → World fl
  correct_state answer tenant t w =
      if state_eq (is_state_correct t).1 resumed
      then (resume fl g answer tenant w).0
      else if state_eq (is_state_correct t).1 paused
      then (async_pause fl g tenant w).0
      else w

  -- The scaling part reads the tenant again.
  unfoldable pub scale_again :
      (World fl → World fl × Option ℕ) → ℤ → String → World fl → Option (World fl)
  scale_again answer now tenant w = elim (get_tenant_desc tenant w.meta) [
    | none ↦ some w
    | some t ↦ analyze_auto_scale answer now t w
  ]

  unfoldable pub analyze_tenant :
      (World fl → World fl × Option ℕ) → ℤ → String → TenantDesc → World fl → Option (World fl)
  analyze_tenant answer now tenant t w =
      if t.conf.disabled
      then some (async_pause fl g tenant w).0
      else if not (is_state_correct t).0
      then some (correct_state answer tenant t w)
      else if not (state_eq t.state resumed)
      then some w
      else (analyze_auto_pause now t w >>= scale_again answer now tenant)

  abbrev pub reload : String → World fl → World fl
  reload tenant w = record w {
    meta = on_tenant tenant (λ h t. (h, (try_to_reload_conf false t).0)) w.meta;
  }

  -- A round. The task holds the tenant, so that it is known.
  unfoldable pub analyze_round :
      (World fl → World fl × Option ℕ) → ℤ → String → World fl → Option (World fl)
  analyze_round answer now tenant w =
      let w1 = reload tenant w in
      elim (get_tenant_desc tenant w1.meta) [
        | none ↦ some w1
        | some t ↦ analyze_tenant answer now tenant t w1
      ]
