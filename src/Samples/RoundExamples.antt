-- ===== src/Samples/RoundExamples.antt =====
-- The theorems on a round, and on its scaling part, at the tenant of the sample run with two points of load.
use tiflash_autoscale.Prelude.{
  ◌⊎◌, pos, ◌+ℤ◌, ◌-ℤ◌, ◌*ℤ◌, ◌/ℤ◌, max_ℤ, min_ℤ, int32, without, ◌≡◌, refl, none, some, [], ◌∷◌,
}
use tiflash_autoscale.Dict
use tiflash_autoscale.Config.{
  get_max_cnt_of_pod, get_min_cnt_of_pod, get_init_cnt_of_pod, auto_pause_config,
}
use tiflash_autoscale.Pod.{set_tenant_info, set_tenant_info_and_stime_of_assign, clear_tenant_info}
use tiflash_autoscale.Tenant.{
  get_cnt_of_pods, set_pod, set_pod_with_tenant_info, remove_pod, pop_one_pod, pop_pods,
  get_pod_names, switch_state, sync_state_pausing, sync_state_paused, sync_state_resuming,
  sync_state_resumed, new_auto_pause_tenant_desc_with_state,
}
use tiflash_autoscale.Pool.{new_prewarm_pool, take_pods, get_warmed_pods, put_warmed_pod}
use tiflash_autoscale.Meta.{get_tenant_desc, on_tenant, put_back, add_pod, refresh_pod, update_pod}
use tiflash_autoscale.Meta.Setup.{setup_auto_pause_tenant_with_state, new_auto_scale_meta}
use tiflash_autoscale.Meta.Desc.{get_tenant_desc_or_warmed_pool}
use tiflash_autoscale.Watch.{handle_event}
use tiflash_autoscale.Series.Container.{new_container, reset_metrics_of_pod}
use tiflash_autoscale.Resize.{
  store_is_state_changing, expected_state, add_begin, remove_begin, begin_call, undo_add,
  undo_remove, finish_call,
}
use tiflash_autoscale.Resize.World.{World, async_pause, resize_pods_of_tenant, on_success, reply}
use tiflash_autoscale.Tenant.{TenantDesc}
use tiflash_autoscale.Series.Stats.{
  zero_sigma, merge_sigma, merge, update_each, avg, new_statistics, add_value, add_values,
  sub_value, sub_values,
}
use tiflash_autoscale.Series.Window.{
  new_series, append, evict, must_evict, compute_series_cap_based_on_interval_sec, get_min_max_time,
}
use tiflash_autoscale.Series.Container.{
  cpu, TimeSeriesContainer, map_of_topic, set_map_of_topic, series_for_insert, insert_with_user_cfg,
  get_statistics_of_pod, init_desc,
}
use tiflash_autoscale.Statistics.{
  no_desc, add_desc, statistics_or_dummy, statistics_loop, compute_statistics_of_tenant,
}
use tiflash_autoscale.Samples.{whole, settings}
use tiflash_autoscale.Samples.Run.{w6}
use tiflash_autoscale.Prelude.{ℤ, arith}
use tiflash_autoscale.Config.{get_lower_and_upper_cpu_scale_threshold}
use tiflash_autoscale.ScaleRule.{
  compute_best_pods_in_rule_of_compute, target_cnt_of_pod, scale_out, scale_in,
}
use tiflash_autoscale.Analyze.{analyze_auto_scale, scale_by, scale_to}
use tiflash_autoscale.Analyze.{analyze_round}
use tiflash_autoscale.Analyze.Round.{round_ends}
use tiflash_autoscale.Series.Container.Insert.{AllWellFormed}
use tiflash_autoscale.Resize.Steps.{Reachable}
use tiflash_autoscale.Samples.Run.{r6}
use tiflash_autoscale.Analyze.Bounds.{Asks, auto_scale_bounds}
use tiflash_autoscale.Prelude.{ℕ, Option}

abbrev idle : World whole → World whole × Option ℕ
idle w = (w, some 0)

abbrev tenant : TenantDesc
tenant = elim (Dict.lookup "t1" w6.meta.tenant_map) [
  | none ↦ w6.meta.prewarm_pool.warmed_pods
  | some t ↦ t
]

abbrev put : ℤ → TimeSeriesContainer whole → TimeSeriesContainer whole
put time c =
    elim (insert_with_user_cfg whole (pos 15) c "readnode-0" time (pos 100 ∷ []) (pos 60) cpu) [
      | none ↦ c
      | some r ↦ r.0
    ]

abbrev before : World whole
before = record w6 { ts_container = put (pos 115) (put (pos 100) (new_container whole)) }

abbrev after : World whole
after = elim (analyze_auto_scale whole settings idle (pos 150) tenant before) [
  | none ↦ before
  | some w ↦ w
]

auto_scale_bounds_example : (after ≡ before) ⊎ Asks whole settings idle tenant before after
unfolding Dict.lookup Dict.insert Dict.remove get_max_cnt_of_pod get_min_cnt_of_pod
    get_init_cnt_of_pod auto_pause_config set_tenant_info set_tenant_info_and_stime_of_assign
    clear_tenant_info get_cnt_of_pods set_pod set_pod_with_tenant_info remove_pod pop_one_pod
    pop_pods get_pod_names switch_state sync_state_pausing sync_state_paused sync_state_resuming
    sync_state_resumed new_auto_pause_tenant_desc_with_state new_prewarm_pool take_pods
    get_warmed_pods put_warmed_pod get_tenant_desc on_tenant put_back add_pod refresh_pod update_pod
    setup_auto_pause_tenant_with_state new_auto_scale_meta get_tenant_desc_or_warmed_pool
    handle_event new_container reset_metrics_of_pod store_is_state_changing expected_state add_begin
    remove_begin begin_call undo_add undo_remove finish_call async_pause resize_pods_of_tenant
    on_success reply without zero_sigma merge_sigma merge update_each avg new_statistics add_value
    add_values sub_value sub_values new_series append evict must_evict
    compute_series_cap_based_on_interval_sec get_min_max_time map_of_topic set_map_of_topic
    series_for_insert insert_with_user_cfg get_statistics_of_pod init_desc no_desc add_desc
    statistics_or_dummy statistics_loop compute_statistics_of_tenant ◌+ℤ◌ ◌-ℤ◌ ◌*ℤ◌ ◌/ℤ◌ max_ℤ min_ℤ
    int32 analyze_auto_scale scale_by scale_to get_lower_and_upper_cpu_scale_threshold
    compute_best_pods_in_rule_of_compute target_cnt_of_pod scale_out scale_in
auto_scale_bounds_example =
    auto_scale_bounds whole settings idle (pos 150) tenant before after (omega arith) (omega arith)
      refl

empty-AllWellFormed : AllWellFormed whole (new_container whole)
unfolding new_container Dict.lookup
empty-AllWellFormed = record { at = λ topic key s e. absurd (ground arith) }

w6_samples-AllWellFormed : AllWellFormed whole w6.ts_container
unfolding Dict.lookup Dict.insert Dict.remove get_max_cnt_of_pod get_min_cnt_of_pod
    get_init_cnt_of_pod auto_pause_config set_tenant_info set_tenant_info_and_stime_of_assign
    clear_tenant_info get_cnt_of_pods set_pod set_pod_with_tenant_info remove_pod pop_one_pod
    pop_pods get_pod_names switch_state sync_state_pausing sync_state_paused sync_state_resuming
    sync_state_resumed new_auto_pause_tenant_desc_with_state new_prewarm_pool take_pods
    get_warmed_pods put_warmed_pod get_tenant_desc on_tenant put_back add_pod refresh_pod update_pod
    setup_auto_pause_tenant_with_state new_auto_scale_meta get_tenant_desc_or_warmed_pool
    handle_event new_container reset_metrics_of_pod store_is_state_changing expected_state add_begin
    remove_begin begin_call undo_add undo_remove finish_call async_pause resize_pods_of_tenant
    on_success reply without zero_sigma merge_sigma merge update_each avg new_statistics add_value
    add_values sub_value sub_values new_series append evict must_evict
    compute_series_cap_based_on_interval_sec get_min_max_time map_of_topic set_map_of_topic
    series_for_insert insert_with_user_cfg get_statistics_of_pod init_desc no_desc add_desc
    statistics_or_dummy statistics_loop compute_statistics_of_tenant ◌+ℤ◌ ◌-ℤ◌ ◌*ℤ◌ ◌/ℤ◌ max_ℤ min_ℤ
    int32 analyze_auto_scale scale_by scale_to get_lower_and_upper_cpu_scale_threshold
    compute_best_pods_in_rule_of_compute target_cnt_of_pod scale_out scale_in
w6_samples-AllWellFormed = empty-AllWellFormed

round_ends_example :
    (w' : World whole) × (analyze_round whole settings idle (pos 150) "t1" w6 ≡ some w')
    × Reachable whole settings w'
unfolding Dict.lookup Dict.insert Dict.remove get_max_cnt_of_pod get_min_cnt_of_pod
    get_init_cnt_of_pod auto_pause_config set_tenant_info set_tenant_info_and_stime_of_assign
    clear_tenant_info get_cnt_of_pods set_pod set_pod_with_tenant_info remove_pod pop_one_pod
    pop_pods get_pod_names switch_state sync_state_pausing sync_state_paused sync_state_resuming
    sync_state_resumed new_auto_pause_tenant_desc_with_state new_prewarm_pool take_pods
    get_warmed_pods put_warmed_pod get_tenant_desc on_tenant put_back add_pod refresh_pod update_pod
    setup_auto_pause_tenant_with_state new_auto_scale_meta get_tenant_desc_or_warmed_pool
    handle_event new_container reset_metrics_of_pod store_is_state_changing expected_state add_begin
    remove_begin begin_call undo_add undo_remove finish_call async_pause resize_pods_of_tenant
    on_success reply without zero_sigma merge_sigma merge update_each avg new_statistics add_value
    add_values sub_value sub_values new_series append evict must_evict
    compute_series_cap_based_on_interval_sec get_min_max_time map_of_topic set_map_of_topic
    series_for_insert insert_with_user_cfg get_statistics_of_pod init_desc no_desc add_desc
    statistics_or_dummy statistics_loop compute_statistics_of_tenant ◌+ℤ◌ ◌-ℤ◌ ◌*ℤ◌ ◌/ℤ◌ max_ℤ min_ℤ
    int32 analyze_auto_scale scale_by scale_to get_lower_and_upper_cpu_scale_threshold
    compute_best_pods_in_rule_of_compute target_cnt_of_pod scale_out scale_in
round_ends_example =
    round_ends whole settings "t1" refl idle (λ w r. r) (pos 150) w6 tenant r6
      w6_samples-AllWellFormed refl
