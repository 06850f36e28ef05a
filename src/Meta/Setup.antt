-- ===== src/Meta/Setup.antt =====
-- autoscale/meta.go: AutoScaleMeta: its first state, the registration of tenants, and
-- UpdateLocalMetaPodOfTenant.
use tiflash_autoscale.Prelude.{
  ℕ, ℤ, pos, String, str_eq, Bool, true, false, not, ◌&&◌, none, some, [], if◌then◌else◌,
}
use tiflash_autoscale.Dict
use tiflash_autoscale.Dict.{Dict}
use tiflash_autoscale.Float.{Float64}
use tiflash_autoscale.Config.{Settings, RunMode, serverless, local, ConfigOfComputeCluster}
use tiflash_autoscale.Tenant.{
  TenantState, resumed, state_eq, set_pod_with_tenant_info, set_state,
  new_auto_pause_tenant_desc_with_state, new_tenant_desc_with_config_and_state,
}
use tiflash_autoscale.Pool.{new_prewarm_pool}
use tiflash_autoscale.Meta.{AutoScaleMeta, on_tenant, drop_pod, new_pod}

abbrev pub auto_registers : RunMode → Bool
auto_registers local = true
auto_registers serverless = true
auto_registers _ = false

module _ (fl : Float64) (g : Settings fl) where
  -- setupAutoPauseTenantWithStateExtraArgs.
  unfoldable pub setup_auto_pause_tenant_with_state :
      String → ℤ → ℤ → TenantState → AutoScaleMeta → AutoScaleMeta × Bool
  setup_auto_pause_tenant_with_state tenant min_pods max_pods state c =
      if Dict.has tenant c.tenant_map then (c, false) else (
        record c {
          tenant_map =
              Dict.insert tenant
                (new_auto_pause_tenant_desc_with_state fl g tenant min_pods max_pods state)
                c.tenant_map;
        },
        true,
      )

  -- The descriptor that UpdateLocalMetaPodOfTenant gives the pod to, in its new state; the pool
  -- where no tenant is named, and none where the tenant is unknown and may not be registered.
  unfoldable pub find_or_register : String → AutoScaleMeta → AutoScaleMeta × Bool
  unfolding setup_auto_pause_tenant_with_state
  find_or_register tenant c =
      if str_eq tenant "" then (c, true) else elim (Dict.lookup tenant c.tenant_map) [
        | none ↦
            if auto_registers g.option_run_mode
            then (
              (setup_auto_pause_tenant_with_state tenant g.default_min_cnt_of_pod
                  g.default_max_cnt_of_pod resumed c).0,
              true,
            )
            else (c, false)
        | some t ↦
            if auto_registers g.option_run_mode && not c.is_runtime_ready
            then (
              record c { tenant_map = Dict.insert tenant (set_state resumed t) c.tenant_map },
              true,
            )
            else if state_eq t.state resumed
            then (c, true)
            else (
              record c { tenant_map = Dict.insert tenant (set_state resumed t) c.tenant_map },
              true,
            )
      ]

  unfoldable pub update_local_meta_pod_of_tenant :
      ℤ → ℕ → String → ℤ → AutoScaleMeta → AutoScaleMeta
  unfolding on_tenant find_or_register
  update_local_meta_pod_of_tenant now p tenant start_time c =
      let pod_name = (c.heap p).name in
      let old_tenant = (c.heap p).tenant_name in
      let c1 =
        if str_eq old_tenant tenant then c else on_tenant old_tenant (drop_pod now pod_name) c in
      let (c2, found) = find_or_register tenant c1 in
      if found then on_tenant tenant (set_pod_with_tenant_info pod_name p start_time) c2 else c2

  -- What NewAutoScaleMeta makes before it adds tenants for tests, if it does; it adds them by
  -- SetupTenantWithConfig and SetupAutoPauseTenantWithPausedState.
  unfoldable pub new_auto_scale_meta : AutoScaleMeta
  new_auto_scale_meta = record {
    heap = λ p. new_pod "" "";
    next_pod = 0;
    tenant_map = [];
    pod_desc_map = [];
    prewarm_pool =
        new_prewarm_pool fl g
          (new_auto_pause_tenant_desc_with_state fl g "" (pos 0) g.prewarm_pool_cap resumed);
    is_runtime_ready = false;
  }

unfoldable pub setup_tenant_with_config :
    String → ConfigOfComputeCluster → TenantState → AutoScaleMeta → AutoScaleMeta × Bool
setup_tenant_with_config tenant holder state c =
    if Dict.has tenant c.tenant_map then (c, false) else (
      record c {
        tenant_map =
            Dict.insert tenant (new_tenant_desc_with_config_and_state tenant holder state)
              c.tenant_map;
      },
      true,
    )
