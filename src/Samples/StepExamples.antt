-- ===== src/Samples/StepExamples.antt =====
-- The theorems on the states of a tenant, where the tenant of the sample run is paused.
use tiflash_autoscale.Prelude.{
  pos, ◌+ℤ◌, ◌-ℤ◌, ◌*ℤ◌, ◌/ℤ◌, max_ℤ, min_ℤ, int32, without, ◌≡◌, refl, none, some,
}
use tiflash_autoscale.Dict
use tiflash_autoscale.Config.{
  get_max_cnt_of_pod, get_min_cnt_of_pod, get_init_cnt_of_pod, auto_pause_config,
}
use tiflash_autoscale.Pod.{set_tenant_info, set_tenant_info_and_stime_of_assign, clear_tenant_info}
use tiflash_autoscale.Tenant.{
  get_cnt_of_pods, set_pod, set_pod_with_tenant_info, remove_pod, pop_one_pod, pop_pods,
  get_pod_names, switch_state, sync_state_pausing, sync_state_paused, sync_state_resuming,
  sync_state_resumed, new_auto_pause_tenant_desc_with_state,
}
use tiflash_autoscale.Pool.{new_prewarm_pool, take_pods, get_warmed_pods, put_warmed_pod}
use tiflash_autoscale.Meta.{
  AutoScaleMeta, get_tenant_desc, on_tenant, put_back, add_pod, refresh_pod, update_pod,
}
use tiflash_autoscale.Meta.Setup.{setup_auto_pause_tenant_with_state, new_auto_scale_meta}
use tiflash_autoscale.Meta.Desc.{get_tenant_desc_or_warmed_pool}
use tiflash_autoscale.Watch.{handle_event}
use tiflash_autoscale.Series.Container.{new_container, reset_metrics_of_pod}
use tiflash_autoscale.Resize.{
  store_is_state_changing, expected_state, add_begin, remove_begin, begin_call, undo_add,
  undo_remove, finish_call,
}
use tiflash_autoscale.Resize.World.{async_pause, resize_pods_of_tenant, on_success, reply}
use tiflash_autoscale.Tenant.{TenantDesc}
use tiflash_autoscale.Series.Stats.{
  zero_sigma, merge_sigma, merge, update_each, avg, new_statistics, add_value, add_values,
  sub_value, sub_values,
}
use tiflash_autoscale.Series.Window.{
  new_series, append, evict, must_evict, compute_series_cap_based_on_interval_sec, get_min_max_time,
}
use tiflash_autoscale.Series.Container.{
  map_of_topic, set_map_of_topic, series_for_insert, insert_with_user_cfg, get_statistics_of_pod,
  init_desc,
}
use tiflash_autoscale.Statistics.{
  no_desc, add_desc, statistics_or_dummy, statistics_loop, compute_statistics_of_tenant,
}
use tiflash_autoscale.Samples.{whole, settings}
use tiflash_autoscale.Samples.Run.{w6}
use tiflash_autoscale.Config.{get_lower_and_upper_cpu_scale_threshold}
use tiflash_autoscale.ScaleRule.{
  compute_best_pods_in_rule_of_compute, target_cnt_of_pod, scale_out, scale_in,
}
use tiflash_autoscale.Analyze.{analyze_auto_scale, scale_by, scale_to}
use tiflash_autoscale.Resize.Steps.{pause}
use tiflash_autoscale.Resize.Machine.{Move}
use tiflash_autoscale.Resize.Lifecycle.{occasion_of, step_refines_machine}
use tiflash_autoscale.Prelude.{ℕ, String, List, ◌++◌, false}
use tiflash_autoscale.Resize.Counts.{answer_all}
use tiflash_autoscale.Resize.Returns.{pods_of, failed_call_returns}
use tiflash_autoscale.Resize.{Call}
use tiflash_autoscale.Resize.Count.{count}
use tiflash_autoscale.Resize.Counts.{Answer}
use tiflash_autoscale.Resize.Steps.{Reachable, and_then, answer, answered}
use tiflash_autoscale.Samples.Run.{w4, r4}
use tiflash_autoscale.Meta.{AutoScaleMeta}
use tiflash_autoscale.Prelude.{[], ◌∷◌}
use tiflash_autoscale.Resize.World.{World}
use tiflash_autoscale.Samples.Run.{w3, r3, b4, meta_of, call_of, w7}

abbrev tenant : TenantDesc
tenant = elim (Dict.lookup "t1" w6.meta.tenant_map) [
  | none ↦ w6.meta.prewarm_pool.warmed_pods
  | some t ↦ t
]

step_refines_machine_example :
    (t : TenantDesc) × (Dict.lookup "t1" w7.meta.tenant_map ≡ some t)
    × Move (occasion_of whole settings {w = w6} (pause "t1")) tenant.state t.state
unfolding Dict.lookup Dict.insert Dict.remove get_max_cnt_of_pod get_min_cnt_of_pod
    get_init_cnt_of_pod auto_pause_config set_tenant_info set_tenant_info_and_stime_of_assign
    clear_tenant_info get_cnt_of_pods set_pod set_pod_with_tenant_info remove_pod pop_one_pod
    pop_pods get_pod_names switch_state sync_state_pausing sync_state_paused sync_state_resuming
    sync_state_resumed new_auto_pause_tenant_desc_with_state new_prewarm_pool take_pods
    get_warmed_pods put_warmed_pod get_tenant_desc on_tenant put_back add_pod refresh_pod update_pod
    setup_auto_pause_tenant_with_state new_auto_scale_meta get_tenant_desc_or_warmed_pool
    handle_event new_container reset_metrics_of_pod store_is_state_changing expected_state add_begin
    remove_begin begin_call undo_add undo_remove finish_call async_pause resize_pods_of_tenant
    on_success reply without zero_sigma merge_sigma merge update_each avg new_statistics add_value
    add_values sub_value sub_values new_series append evict must_evict
    compute_series_cap_based_on_interval_sec get_min_max_time map_of_topic set_map_of_topic
    series_for_insert insert_with_user_cfg get_statistics_of_pod init_desc no_desc add_desc
    statistics_or_dummy statistics_loop compute_statistics_of_tenant ◌+ℤ◌ ◌-ℤ◌ ◌*ℤ◌ ◌/ℤ◌ max_ℤ min_ℤ
    int32 analyze_auto_scale scale_by scale_to get_lower_and_upper_cpu_scale_threshold
    compute_best_pods_in_rule_of_compute target_cnt_of_pod scale_out scale_in
step_refines_machine_example =
    step_refines_machine whole settings {w = w6} {w' = w7} (pause "t1") "t1" tenant refl

-- The pod of the call cannot be asked.
abbrev failure : List (Answer whole)
failure = (pos 120, 0, none, record w4 { calls = [] }) ∷ []

abbrev unanswered : World whole
unanswered = answered whole settings (pos 120) 0 none (call_of b4) (record w4 { calls = [] })

unanswered-Reachable : Reachable whole settings unanswered
unfolding Dict.lookup Dict.insert Dict.remove get_max_cnt_of_pod get_min_cnt_of_pod
    get_init_cnt_of_pod auto_pause_config set_tenant_info set_tenant_info_and_stime_of_assign
    clear_tenant_info get_cnt_of_pods set_pod set_pod_with_tenant_info remove_pod pop_one_pod
    pop_pods get_pod_names switch_state sync_state_pausing sync_state_paused sync_state_resuming
    sync_state_resumed new_auto_pause_tenant_desc_with_state new_prewarm_pool take_pods
    get_warmed_pods put_warmed_pod get_tenant_desc on_tenant put_back add_pod refresh_pod update_pod
    setup_auto_pause_tenant_with_state new_auto_scale_meta get_tenant_desc_or_warmed_pool
    handle_event new_container reset_metrics_of_pod store_is_state_changing expected_state add_begin
    remove_begin begin_call undo_add undo_remove finish_call async_pause resize_pods_of_tenant
    on_success reply without zero_sigma merge_sigma merge update_each avg new_statistics add_value
    add_values sub_value sub_values new_series append evict must_evict
    compute_series_cap_based_on_interval_sec get_min_max_time map_of_topic set_map_of_topic
    series_for_insert insert_with_user_cfg get_statistics_of_pod init_desc no_desc add_desc
    statistics_or_dummy statistics_loop compute_statistics_of_tenant ◌+ℤ◌ ◌-ℤ◌ ◌*ℤ◌ ◌/ℤ◌ max_ℤ min_ℤ
    int32 analyze_auto_scale scale_by scale_to get_lower_and_upper_cpu_scale_threshold
    compute_best_pods_in_rule_of_compute target_cnt_of_pod scale_out scale_in
unanswered-Reachable =
    and_then w4 unanswered r4 (answer (pos 120) [] [] (call_of b4) 0 none refl refl) tt

abbrev failed : Call
failed = answer_all whole settings failure (call_of b4)

abbrev ended : AutoScaleMeta
ended = (finish_call (pos 130) failed unanswered.meta).0

failed_call_returns_example :
    (kept : List ℕ) × (w3.meta.prewarm_pool.warmed_pods.pod_list ≡ (call_of b4).todo ++ kept)
    × ((q : ℕ) → count q failed.undo_list ≡ count q (call_of b4).todo)
    × (ended.prewarm_pool.warmed_pods.pod_list
        ≡ unanswered.meta.prewarm_pool.warmed_pods.pod_list ++ failed.undo_list)
    × ((j : String) → pods_of j ended ≡ pods_of j unanswered.meta)
unfolding Dict.lookup Dict.insert Dict.remove get_max_cnt_of_pod get_min_cnt_of_pod
    get_init_cnt_of_pod auto_pause_config set_tenant_info set_tenant_info_and_stime_of_assign
    clear_tenant_info get_cnt_of_pods set_pod set_pod_with_tenant_info remove_pod pop_one_pod
    pop_pods get_pod_names switch_state sync_state_pausing sync_state_paused sync_state_resuming
    sync_state_resumed new_auto_pause_tenant_desc_with_state new_prewarm_pool take_pods
    get_warmed_pods put_warmed_pod get_tenant_desc on_tenant put_back add_pod refresh_pod update_pod
    setup_auto_pause_tenant_with_state new_auto_scale_meta get_tenant_desc_or_warmed_pool
    handle_event new_container reset_metrics_of_pod store_is_state_changing expected_state add_begin
    remove_begin begin_call undo_add undo_remove finish_call async_pause resize_pods_of_tenant
    on_success reply without zero_sigma merge_sigma merge update_each avg new_statistics add_value
    add_values sub_value sub_values new_series append evict must_evict
    compute_series_cap_based_on_interval_sec get_min_max_time map_of_topic set_map_of_topic
    series_for_insert insert_with_user_cfg get_statistics_of_pod init_desc no_desc add_desc
    statistics_or_dummy statistics_loop compute_statistics_of_tenant ◌+ℤ◌ ◌-ℤ◌ ◌*ℤ◌ ◌/ℤ◌ max_ℤ min_ℤ
    int32 analyze_auto_scale scale_by scale_to get_lower_and_upper_cpu_scale_threshold
    compute_best_pods_in_rule_of_compute target_cnt_of_pod scale_out scale_in answer_all
failed_call_returns_example =
    failed_call_returns whole settings w3 r3 (pos 101) "t1" false 1 (meta_of b4) (call_of b4) refl
      refl failure (refl, refl, refl) unanswered unanswered-Reachable [] [] refl (refl, tt)
      (pos 130)
