-- ===== src/Samples/StartExamples.antt =====
-- The theorems on the start and on the tasks, for the pod and the tenant of the sample run.
use tiflash_autoscale.Prelude.{
  ◌⊎◌, pos, ◌+ℤ◌, ◌-ℤ◌, ◌*ℤ◌, ◌/ℤ◌, max_ℤ, min_ℤ, int32, without, ◌≡◌, refl, none, some, [], ◌∷◌,
}
use tiflash_autoscale.Dict
use tiflash_autoscale.Dict.{Dict}
use tiflash_autoscale.Config.{
  get_max_cnt_of_pod, get_min_cnt_of_pod, get_init_cnt_of_pod, auto_pause_config,
}
use tiflash_autoscale.Pod.{set_tenant_info, set_tenant_info_and_stime_of_assign, clear_tenant_info}
use tiflash_autoscale.Tenant.{
  get_cnt_of_pods, set_pod, set_pod_with_tenant_info, remove_pod, pop_one_pod, pop_pods,
  get_pod_names, switch_state, sync_state_pausing, sync_state_paused, sync_state_resuming,
  sync_state_resumed, new_auto_pause_tenant_desc_with_state,
}
use tiflash_autoscale.Pool.{new_prewarm_pool, take_pods, get_warmed_pods, put_warmed_pod}
use tiflash_autoscale.Meta.{get_tenant_desc, on_tenant, put_back, add_pod, refresh_pod, update_pod}
use tiflash_autoscale.Meta.Setup.{setup_auto_pause_tenant_with_state, new_auto_scale_meta}
use tiflash_autoscale.Meta.Desc.{get_tenant_desc_or_warmed_pool}
use tiflash_autoscale.Watch.{handle_event}
use tiflash_autoscale.Series.Container.{new_container, reset_metrics_of_pod}
use tiflash_autoscale.Resize.{
  store_is_state_changing, expected_state, add_begin, remove_begin, begin_call, undo_add,
  undo_remove, finish_call,
}
use tiflash_autoscale.Resize.World.{async_pause, resize_pods_of_tenant, on_success, reply}
use tiflash_autoscale.Tenant.{TenantDesc}
use tiflash_autoscale.Series.Stats.{
  zero_sigma, merge_sigma, merge, update_each, avg, new_statistics, add_value, add_values,
  sub_value, sub_values,
}
use tiflash_autoscale.Series.Window.{
  new_series, append, evict, must_evict, compute_series_cap_based_on_interval_sec, get_min_max_time,
}
use tiflash_autoscale.Series.Container.{
  map_of_topic, set_map_of_topic, series_for_insert, insert_with_user_cfg, get_statistics_of_pod,
  init_desc,
}
use tiflash_autoscale.Statistics.{
  no_desc, add_desc, statistics_or_dummy, statistics_loop, compute_statistics_of_tenant,
}
use tiflash_autoscale.Samples.{whole, settings}
use tiflash_autoscale.Samples.Run.{w6}
use tiflash_autoscale.Prelude.{arith}
use tiflash_autoscale.Config.{get_lower_and_upper_cpu_scale_threshold}
use tiflash_autoscale.ScaleRule.{
  compute_best_pods_in_rule_of_compute, target_cnt_of_pod, scale_out, scale_in,
}
use tiflash_autoscale.Analyze.{analyze_auto_scale, scale_by, scale_to}
use mathlib.Core.List.{Perm, reverse}
use tiflash_autoscale.Prelude.{ℕ, ◌++◌, true, false, Option, All, if◌then◌else◌}
use tiflash_autoscale.Meta.{AutoScaleMeta}
use tiflash_autoscale.Meta.Setup.{update_local_meta_pod_of_tenant, find_or_register}
use tiflash_autoscale.Watch.{GetTenantResponse, api_get_current_tenant_and_correct}
use tiflash_autoscale.Prelude.{◌&&◌, ◌⊎◌, ◌==◌, not, str_eq}
use tiflash_autoscale.Cluster.{warm_delta}
use tiflash_autoscale.Pool.{PrewarmPool}
use tiflash_autoscale.Bootstrap.{
  InstalledCloneSet, StartApi, annotation_key, desired_clone_set, found_clone_set,
  init_k8s_components,
}
use tiflash_autoscale.Bootstrap.Created.{is_current, init_k8s_components_lem}
use tiflash_autoscale.Samples.Run.{w0}
use tiflash_autoscale.Startup.{
  insert_by_start, sort_by_start, sort_pods_at_start_up, sort_tenants, scan_pods,
  scan_state_of_pods,
}
use tiflash_autoscale.Startup.Sorted.{NoLater, ByStart, scan_pops_latest}
use tiflash_autoscale.Tasks.{AnalyzeTask, new_analyze_task, manage_analyze_tasks}
use tiflash_autoscale.Tasks.Managed.{or_new, manage_analyze_tasks_lem}

abbrev tenant : TenantDesc
tenant = elim (Dict.lookup "t1" w6.meta.tenant_map) [
  | none ↦ w6.meta.prewarm_pool.warmed_pods
  | some t ↦ t
]

abbrev answer : ℕ → Option GetTenantResponse
answer p = some (record { tenant_id = "t1"; start_time = pos 90; is_unassigning = false })

abbrev scanned : AutoScaleMeta
scanned = scan_state_of_pods whole settings (λ p. true) (pos 200) true answer w6.meta

abbrev sorted : TenantDesc
sorted = elim (Dict.lookup "t1" scanned.tenant_map) [ none ↦ tenant | some t ↦ t ]

scan_pops_latest_example :
    (given : TenantDesc) × (Dict.lookup "t1"
        (scan_pods whole settings
          (λ p. true)
          (pos 200)
          true
          answer
          w6.meta.pod_desc_map
          w6.meta).tenant_map
      ≡ some given)
    × Perm sorted.pod_list given.pod_list
    × ByStart scanned.heap sorted.pod_list
    × (sorted.pod_list
        ≡ (pop_pods (pos 201) 1 [] scanned.heap sorted).1.pod_list
          ++ reverse (pop_pods (pos 201) 1 [] scanned.heap sorted).3)
    × All
        (λ (p : ℕ).
          All
            (λ (q : ℕ). NoLater scanned.heap q p)
            (pop_pods (pos 201) 1 [] scanned.heap sorted).1.pod_list)
        (pop_pods (pos 201) 1 [] scanned.heap sorted).3
unfolding Dict.lookup Dict.insert Dict.remove get_max_cnt_of_pod get_min_cnt_of_pod
    get_init_cnt_of_pod auto_pause_config set_tenant_info set_tenant_info_and_stime_of_assign
    clear_tenant_info get_cnt_of_pods set_pod set_pod_with_tenant_info remove_pod pop_one_pod
    pop_pods get_pod_names switch_state sync_state_pausing sync_state_paused sync_state_resuming
    sync_state_resumed new_auto_pause_tenant_desc_with_state new_prewarm_pool take_pods
    get_warmed_pods put_warmed_pod get_tenant_desc on_tenant put_back add_pod refresh_pod update_pod
    setup_auto_pause_tenant_with_state new_auto_scale_meta get_tenant_desc_or_warmed_pool
    handle_event new_container reset_metrics_of_pod store_is_state_changing expected_state add_begin
    remove_begin begin_call undo_add undo_remove finish_call async_pause resize_pods_of_tenant
    on_success reply without zero_sigma merge_sigma merge update_each avg new_statistics add_value
    add_values sub_value sub_values new_series append evict must_evict
    compute_series_cap_based_on_interval_sec get_min_max_time map_of_topic set_map_of_topic
    series_for_insert insert_with_user_cfg get_statistics_of_pod init_desc no_desc add_desc
    statistics_or_dummy statistics_loop compute_statistics_of_tenant ◌+ℤ◌ ◌-ℤ◌ ◌*ℤ◌ ◌/ℤ◌ max_ℤ min_ℤ
    int32 analyze_auto_scale scale_by scale_to get_lower_and_upper_cpu_scale_threshold
    compute_best_pods_in_rule_of_compute target_cnt_of_pod scale_out scale_in insert_by_start
    sort_by_start sort_pods_at_start_up sort_tenants scan_pods scan_state_of_pods
    api_get_current_tenant_and_correct update_local_meta_pod_of_tenant find_or_register
scan_pops_latest_example =
    scan_pops_latest whole settings (λ p. true) (pos 200) answer w6.meta (pos 201) 1 "t1" sorted
      refl

abbrev tasks : Dict AnalyzeTask
tasks = ("t9", new_analyze_task "t9") ∷ []

manage_analyze_tasks_lem_example :
    Dict.lookup "t1" (manage_analyze_tasks false (tenant ∷ []) tasks) ≡ or_new "t1" true none
unfolding Dict.lookup Dict.insert Dict.remove get_max_cnt_of_pod get_min_cnt_of_pod
    get_init_cnt_of_pod auto_pause_config set_tenant_info set_tenant_info_and_stime_of_assign
    clear_tenant_info get_cnt_of_pods set_pod set_pod_with_tenant_info remove_pod pop_one_pod
    pop_pods get_pod_names switch_state sync_state_pausing sync_state_paused sync_state_resuming
    sync_state_resumed new_auto_pause_tenant_desc_with_state new_prewarm_pool take_pods
    get_warmed_pods put_warmed_pod get_tenant_desc on_tenant put_back add_pod refresh_pod update_pod
    setup_auto_pause_tenant_with_state new_auto_scale_meta get_tenant_desc_or_warmed_pool
    handle_event new_container reset_metrics_of_pod store_is_state_changing expected_state add_begin
    remove_begin begin_call undo_add undo_remove finish_call async_pause resize_pods_of_tenant
    on_success reply without zero_sigma merge_sigma merge update_each avg new_statistics add_value
    add_values sub_value sub_values new_series append evict must_evict
    compute_series_cap_based_on_interval_sec get_min_max_time map_of_topic set_map_of_topic
    series_for_insert insert_with_user_cfg get_statistics_of_pod init_desc no_desc add_desc
    statistics_or_dummy statistics_loop compute_statistics_of_tenant ◌+ℤ◌ ◌-ℤ◌ ◌*ℤ◌ ◌/ℤ◌ max_ℤ min_ℤ
    int32 analyze_auto_scale scale_by scale_to get_lower_and_upper_cpu_scale_threshold
    compute_best_pods_in_rule_of_compute target_cnt_of_pod scale_out scale_in
manage_analyze_tasks_lem_example = manage_analyze_tasks_lem false (tenant ∷ []) tasks "t1"

abbrev installed : InstalledCloneSet
installed = record {
  name = "readnode";
  annotations = some ((annotation_key, "0") ∷ []);
  replicas = pos 4;
  image = some "supervisor:1";
}

-- The first Delete fails.
abbrev api : StartApi
api = record {
  list = some (installed ∷ []);
  get = some installed;
  get_again = some installed;
  create = λ c. some c;
  patch_image = λ image. true;
  delete = λ i. not (i == 100);
}

abbrev pool : PrewarmPool
pool = w0.meta.prewarm_pool

init_k8s_components_lem_example :
    (p' : PrewarmPool) × (c : InstalledCloneSet) × (init_k8s_components api "readnode"
        "supervisor:1" pool
      ≡ some (p', c))
    × (((found_clone_set "readnode" (installed ∷ []) && is_current installed.annotations ≡ false)
          × (c ≡ desired_clone_set "readnode" "supervisor:1" pool.soft_limit)
          × (p'.warmed_pods ≡ pool.warmed_pods)
          × ((warm_delta (pos 100) p').1 ≡ pos 0))
        ⊎ ((found_clone_set "readnode" (installed ∷ []) && is_current installed.annotations ≡ true)
            × (p' ≡ pool)
            × (c ≡ (if str_eq "supervisor:1" "supervisor:1" then installed else installed))))
unfolding Dict.lookup Dict.insert Dict.remove get_max_cnt_of_pod get_min_cnt_of_pod
    get_init_cnt_of_pod auto_pause_config set_tenant_info set_tenant_info_and_stime_of_assign
    clear_tenant_info get_cnt_of_pods set_pod set_pod_with_tenant_info remove_pod pop_one_pod
    pop_pods get_pod_names switch_state sync_state_pausing sync_state_paused sync_state_resuming
    sync_state_resumed new_auto_pause_tenant_desc_with_state new_prewarm_pool take_pods
    get_warmed_pods put_warmed_pod get_tenant_desc on_tenant put_back add_pod refresh_pod update_pod
    setup_auto_pause_tenant_with_state new_auto_scale_meta get_tenant_desc_or_warmed_pool
    handle_event new_container reset_metrics_of_pod store_is_state_changing expected_state add_begin
    remove_begin begin_call undo_add undo_remove finish_call async_pause resize_pods_of_tenant
    on_success reply without zero_sigma merge_sigma merge update_each avg new_statistics add_value
    add_values sub_value sub_values new_series append evict must_evict
    compute_series_cap_based_on_interval_sec get_min_max_time map_of_topic set_map_of_topic
    series_for_insert insert_with_user_cfg get_statistics_of_pod init_desc no_desc add_desc
    statistics_or_dummy statistics_loop compute_statistics_of_tenant ◌+ℤ◌ ◌-ℤ◌ ◌*ℤ◌ ◌/ℤ◌ max_ℤ min_ℤ
    int32 analyze_auto_scale scale_by scale_to get_lower_and_upper_cpu_scale_threshold
    compute_best_pods_in_rule_of_compute target_cnt_of_pod scale_out scale_in
init_k8s_components_lem_example =
    init_k8s_components_lem api "readnode" "supervisor:1" (pos 100) pool (installed ∷ []) installed
      installed (desired_clone_set "readnode" "supervisor:1" pool.soft_limit) "supervisor:1" 99 refl
      refl refl refl refl (omega arith) refl refl (omega arith) refl refl refl
