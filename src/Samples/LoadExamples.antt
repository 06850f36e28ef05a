-- ===== src/Samples/LoadExamples.antt =====
-- The theorem on a tenant's statistics, at the tenant of the sample run.
use tiflash_autoscale.Prelude.{
  pos, ◌+ℤ◌, ◌-ℤ◌, ◌*ℤ◌, ◌/ℤ◌, max_ℤ, min_ℤ, int32, without, All, ◌≡◌, refl, none, some, List, [],
  ◌∷◌,
}
use tiflash_autoscale.Dict
use tiflash_autoscale.Config.{
  get_max_cnt_of_pod, get_min_cnt_of_pod, get_init_cnt_of_pod, auto_pause_config,
}
use tiflash_autoscale.Pod.{set_tenant_info, set_tenant_info_and_stime_of_assign, clear_tenant_info}
use tiflash_autoscale.Tenant.{
  get_cnt_of_pods, set_pod, set_pod_with_tenant_info, remove_pod, pop_one_pod, pop_pods,
  get_pod_names, switch_state, sync_state_pausing, sync_state_paused, sync_state_resuming,
  sync_state_resumed, new_auto_pause_tenant_desc_with_state,
}
use tiflash_autoscale.Pool.{new_prewarm_pool, take_pods, get_warmed_pods, put_warmed_pod}
use tiflash_autoscale.Meta.{get_tenant_desc, on_tenant, put_back, add_pod, refresh_pod, update_pod}
use tiflash_autoscale.Meta.Setup.{setup_auto_pause_tenant_with_state, new_auto_scale_meta}
use tiflash_autoscale.Meta.Desc.{get_tenant_desc_or_warmed_pool}
use tiflash_autoscale.Watch.{handle_event}
use tiflash_autoscale.Series.Container.{new_container, reset_metrics_of_pod}
use tiflash_autoscale.Resize.{
  store_is_state_changing, expected_state, add_begin, remove_begin, begin_call, undo_add,
  undo_remove, finish_call,
}
use tiflash_autoscale.Resize.World.{async_pause, resize_pods_of_tenant, on_success, reply}
use tiflash_autoscale.Tenant.{TenantDesc}
use tiflash_autoscale.Series.Stats.{
  zero_sigma, merge_sigma, merge, update_each, avg, new_statistics, add_value, add_values,
  sub_value, sub_values,
}
use tiflash_autoscale.Series.Window.{
  new_series, append, evict, must_evict, compute_series_cap_based_on_interval_sec, get_min_max_time,
}
use tiflash_autoscale.Series.Container.{
  cpu, TimeSeriesContainer, DescOfPodTimeSeries, map_of_topic, set_map_of_topic, series_for_insert,
  insert_with_user_cfg, get_statistics_of_pod, init_desc,
}
use tiflash_autoscale.Statistics.{
  Statistics, no_desc, add_desc, statistics_or_dummy, statistics_loop, compute_statistics_of_tenant,
}
use tiflash_autoscale.Statistics.Covers.{Within, descs_of, tenant_desc-Covers}
use tiflash_autoscale.Samples.{whole}
use tiflash_autoscale.Samples.Run.{w6}

abbrev tenant : TenantDesc
tenant = elim (Dict.lookup "t1" w6.meta.tenant_map) [
  | none ↦ w6.meta.prewarm_pool.warmed_pods
  | some t ↦ t
]

abbrev samples : TimeSeriesContainer whole
samples =
    elim (insert_with_user_cfg whole (pos 15) (new_container whole) "readnode-0" (pos 110)
      (pos 3 ∷ []) (pos 60) cpu) [ none ↦ new_container whole | some r ↦ r.0 ]

abbrev nothing : Statistics whole
nothing = record {
  ret = [];
  pod_cpu_map = [];
  pod_point_cnt_map = [];
  desc_of_time_series_map = [];
  metric_desc_of_tenant = no_desc;
}

abbrev load : Statistics whole
load = elim (compute_statistics_of_tenant whole (pos 120) "t1" samples cpu w6.meta) [
  | none ↦ nothing
  | some o ↦ elim o [ none ↦ nothing | some s ↦ s ]
]

tenant_desc-Covers_example :
    (os : List DescOfPodTimeSeries) × (descs_of whole
        (pos 120)
        samples
        cpu
        (get_pod_names w6.meta.heap tenant)
      ≡ some os)
    × All (Within load.metric_desc_of_tenant) os
    × (load.metric_desc_of_tenant.pod_cnt ≡ pos 1)
unfolding Dict.lookup Dict.insert Dict.remove get_max_cnt_of_pod get_min_cnt_of_pod
    get_init_cnt_of_pod auto_pause_config set_tenant_info set_tenant_info_and_stime_of_assign
    clear_tenant_info get_cnt_of_pods set_pod set_pod_with_tenant_info remove_pod pop_one_pod
    pop_pods get_pod_names switch_state sync_state_pausing sync_state_paused sync_state_resuming
    sync_state_resumed new_auto_pause_tenant_desc_with_state new_prewarm_pool take_pods
    get_warmed_pods put_warmed_pod get_tenant_desc on_tenant put_back add_pod refresh_pod update_pod
    setup_auto_pause_tenant_with_state new_auto_scale_meta get_tenant_desc_or_warmed_pool
    handle_event new_container reset_metrics_of_pod store_is_state_changing expected_state add_begin
    remove_begin begin_call undo_add undo_remove finish_call async_pause resize_pods_of_tenant
    on_success reply without zero_sigma merge_sigma merge update_each avg new_statistics add_value
    add_values sub_value sub_values new_series append evict must_evict
    compute_series_cap_based_on_interval_sec get_min_max_time map_of_topic set_map_of_topic
    series_for_insert insert_with_user_cfg get_statistics_of_pod init_desc no_desc add_desc
    statistics_or_dummy statistics_loop compute_statistics_of_tenant ◌+ℤ◌ ◌-ℤ◌ ◌*ℤ◌ ◌/ℤ◌ max_ℤ min_ℤ
    int32
tenant_desc-Covers_example =
    tenant_desc-Covers whole (pos 120) "t1" samples cpu w6.meta tenant load refl refl
