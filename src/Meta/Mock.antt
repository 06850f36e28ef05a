-- ===== src/Meta/Mock.antt =====
-- autoscale/meta.go: the tenants that NewAutoScaleMeta sets up, for the fixed pool and for tests. The
-- clock's reading, in nanoseconds, is an argument.
use tiflash_autoscale.Prelude.{
  ℤ, pos, ◌*ℤ◌, leb_ℤ, String, Bool, true, false, Option, none, if◌then◌else◌,
}
use tiflash_autoscale.Float.{Float64}
use tiflash_autoscale.Config.{
  Settings, RunMode, local, ConfigOfComputeCluster, CustomScaleRule, new_cpu_scale_rule,
}
use tiflash_autoscale.Tenant.{TenantState, resumed, paused}
use tiflash_autoscale.Meta.{AutoScaleMeta}
use tiflash_autoscale.Meta.Setup.{
  setup_tenant_with_config, setup_auto_pause_tenant_with_state, new_auto_scale_meta,
}

abbrev pub is_local : RunMode → Bool
is_local local = true
is_local _ = false

module _ (fl : Float64) (g : Settings fl) where
  -- The configuration that both kinds of tenants have; what names the TiDB cluster is not read.
  unfoldable pub mock_config :
      ℤ → ℤ → ℤ → Bool → ℤ → ℤ → Option CustomScaleRule → ConfigOfComputeCluster
  mock_config now min_pods max_pods disabled auto_pause_interval_seconds window_seconds
        cpu_scale_rule =
      record {
        disabled = disabled;
        auto_pause_interval_seconds = auto_pause_interval_seconds;
        min_cores = min_pods *ℤ pos g.default_core_of_pod;
        max_cores = max_pods *ℤ pos g.default_core_of_pod;
        init_cores = min_pods *ℤ pos g.default_core_of_pod;
        window_seconds = window_seconds;
        cpu_scale_rules = cpu_scale_rule;
        last_modified_ts = now;
      }

  unfoldable pub setup_manual_pause_mock_tenant :
      ℤ → String → ℤ → ℤ → Bool → ℤ → Option CustomScaleRule → AutoScaleMeta → AutoScaleMeta
  setup_manual_pause_mock_tenant now name min_pods max_pods disabled window_seconds cpu_scale_rule
        c =
      (setup_tenant_with_config name
        (mock_config now min_pods max_pods disabled (pos 0) window_seconds cpu_scale_rule) resumed
        c).0

  -- The second part says whether an error is returned.
  unfoldable pub setup_auto_pause_mock_tenant :
      ℤ
      → String
      → ℤ
      → ℤ
      → Bool
      → ℤ
      → ℤ
      → Option CustomScaleRule
      → TenantState
      → AutoScaleMeta
      → AutoScaleMeta × Bool
  setup_auto_pause_mock_tenant now name min_pods max_pods disabled auto_pause_interval_seconds
        window_seconds cpu_scale_rule state c =
      if leb_ℤ auto_pause_interval_seconds (pos 0) then (c, true) else (
        (setup_tenant_with_config name
            (mock_config now min_pods max_pods disabled auto_pause_interval_seconds window_seconds
              cpu_scale_rule)
            state c).0,
        false,
      )

  -- loadTenants4Test.
  unfoldable pub load_tenants_4_test : ℤ → AutoScaleMeta → AutoScaleMeta
  unfolding setup_auto_pause_mock_tenant
  load_tenants_4_test now c =
      let c1 = (setup_auto_pause_tenant_with_state fl g "t1" (pos 1) (pos 4) paused c).0 in
      let manual = λ (name : String) (disabled : Bool) (window : ℤ) (rule : Option CustomScaleRule).
        setup_manual_pause_mock_tenant now name (pos 1) (pos 4) disabled window rule in
      let auto = λ (name : String) (interval window : ℤ) (state : TenantState) (c : AutoScaleMeta).
        (setup_auto_pause_mock_tenant now name (pos 1) (pos 4) false interval window
          (new_cpu_scale_rule (pos 40) (pos 80)) state c).0 in
      let c2 = manual "t2" false (pos 60) none c1 in
      let c3 = manual "t3" true (pos 60) none c2 in
      let c4 = manual "t4" false (pos 120) (new_cpu_scale_rule (pos 60) (pos 80)) c3 in
      let c5 = manual "t5" false (pos 60) (new_cpu_scale_rule (pos 99) (pos 100)) c4 in
      let c6 = manual "t6" false (pos 60) (new_cpu_scale_rule (pos 99) (pos 100)) c5 in
      let c7 = manual "t7" false (pos 60) (new_cpu_scale_rule (pos 20) (pos 80)) c6 in
      let c8 = auto "t8" (pos 60) (pos 120) paused c7 in
      let c9 = auto "t9" (pos 60) (pos 60) resumed c8 in
      let c10 = auto "t10" (pos 1800) (pos 60) paused c9 in
      auto "t11" (pos 300) (pos 120) resumed c10

  -- All of NewAutoScaleMeta; the first argument is UseSpecialTenantAsFixPool.
  unfoldable pub prepare_auto_scale_meta : Bool → ℤ → AutoScaleMeta
  unfolding load_tenants_4_test
  prepare_auto_scale_meta use_special_tenant_as_fix_pool now =
      let c =
        if use_special_tenant_as_fix_pool
        then setup_manual_pause_mock_tenant now "fixpool" (pos 1) (pos 1) false (pos 300) none
            (new_auto_scale_meta fl g)
        else new_auto_scale_meta fl g in
      if is_local g.option_run_mode then load_tenants_4_test now c else c
