-- ===== src/Samples/Examples.antt =====
-- Each theorem at a point of the sample run, or at data of its own.
use mathlib.Core.List.{reverse}
use tiflash_autoscale.Prelude.{
  pos, ◌+ℤ◌, ◌-ℤ◌, ◌*ℤ◌, ◌/ℤ◌, ◌+◌, max_ℤ, min_ℤ, int32, without, contains, length, String, str_eq,
  ◌≡◌, ◌⊎◌, refl, true, false, none, some, [], ◌∷◌, ◌++◌,
}
use tiflash_autoscale.Meta.{
  AutoScaleMeta, handle_k8s_del_pod_event, get_topology, get_tenant_info_of_pod,
  remove_pod_from_cluster_without_lock,
}
use tiflash_autoscale.Tenant.{TenantDesc, paused}
use tiflash_autoscale.Resize.{Call, begun}
use tiflash_autoscale.Resize.Count.{count}
use tiflash_autoscale.Resize.Reply.{moving}
use tiflash_autoscale.Resize.Ownership.{
  one_owner, moving_unlisted, listed_lem, mapped_lem, topology_lem, deleted_pod_gone,
}
use tiflash_autoscale.Resize.Pausing.{pausing_empties}
use tiflash_autoscale.Resize.Counts.{add_begin_takes, returned_count, answer_all}
use tiflash_autoscale.Resize.Safety.{Reachable-Safe}
use tiflash_autoscale.Tenant.Pop.{pop_one_pod-eq-remove_pod}
use tiflash_autoscale.Samples.{whole, settings}
use tiflash_autoscale.Samples.Run.{w3, w4, w6, w7, r3, r4, r6, r7, b4, meta_of, call_of}
use tiflash_autoscale.Dict
use tiflash_autoscale.Config.{
  get_max_cnt_of_pod, get_min_cnt_of_pod, get_init_cnt_of_pod, auto_pause_config,
}
use tiflash_autoscale.Pod.{set_tenant_info, set_tenant_info_and_stime_of_assign, clear_tenant_info}
use tiflash_autoscale.Tenant.{
  get_cnt_of_pods, set_pod, set_pod_with_tenant_info, remove_pod, pop_one_pod, pop_pods,
  get_pod_names, switch_state, sync_state_pausing, sync_state_paused, sync_state_resuming,
  sync_state_resumed, new_auto_pause_tenant_desc_with_state,
}
use tiflash_autoscale.Pool.{new_prewarm_pool, take_pods, get_warmed_pods, put_warmed_pod}
use tiflash_autoscale.Meta.{get_tenant_desc, on_tenant, put_back, add_pod, refresh_pod, update_pod}
use tiflash_autoscale.Meta.Setup.{setup_auto_pause_tenant_with_state, new_auto_scale_meta}
use tiflash_autoscale.Meta.Desc.{get_tenant_desc_or_warmed_pool}
use tiflash_autoscale.Watch.{handle_event}
use tiflash_autoscale.Series.Container.{new_container, reset_metrics_of_pod}
use tiflash_autoscale.Resize.{
  store_is_state_changing, expected_state, add_begin, remove_begin, begin_call, undo_add,
  undo_remove, finish_call,
}
use tiflash_autoscale.Resize.World.{async_pause, resize_pods_of_tenant, on_success, reply}

abbrev t1_of : AutoScaleMeta → TenantDesc
t1_of c = elim (Dict.lookup "t1" c.tenant_map) [ none ↦ c.prewarm_pool.warmed_pods | some t ↦ t ]

abbrev t1 : String
t1 = "t1"

one_owner_example : t1 ≡ t1
unfolding Dict.lookup Dict.insert Dict.remove get_max_cnt_of_pod get_min_cnt_of_pod
    get_init_cnt_of_pod auto_pause_config set_tenant_info set_tenant_info_and_stime_of_assign
    clear_tenant_info get_cnt_of_pods set_pod set_pod_with_tenant_info remove_pod pop_one_pod
    pop_pods get_pod_names switch_state sync_state_pausing sync_state_paused sync_state_resuming
    sync_state_resumed new_auto_pause_tenant_desc_with_state new_prewarm_pool take_pods
    get_warmed_pods put_warmed_pod get_tenant_desc on_tenant put_back add_pod refresh_pod update_pod
    setup_auto_pause_tenant_with_state new_auto_scale_meta get_tenant_desc_or_warmed_pool
    handle_event new_container reset_metrics_of_pod store_is_state_changing expected_state add_begin
    remove_begin begin_call undo_add undo_remove finish_call async_pause resize_pods_of_tenant
    on_success reply without ◌+ℤ◌ ◌-ℤ◌ ◌*ℤ◌ ◌/ℤ◌ max_ℤ min_ℤ int32
one_owner_example =
    one_owner whole settings w6 r6 t1 t1 (t1_of w6.meta) (t1_of w6.meta) 0 refl refl refl refl

moving_unlisted_example :
    (count 0 (moving w4) ≡ 1)
    × ((w4.meta.heap 0).tenant_name ≡ "")
    × (contains 0 (t1_of w4.meta).pod_list ≡ false)
unfolding Dict.lookup Dict.insert Dict.remove get_max_cnt_of_pod get_min_cnt_of_pod
    get_init_cnt_of_pod auto_pause_config set_tenant_info set_tenant_info_and_stime_of_assign
    clear_tenant_info get_cnt_of_pods set_pod set_pod_with_tenant_info remove_pod pop_one_pod
    pop_pods get_pod_names switch_state sync_state_pausing sync_state_paused sync_state_resuming
    sync_state_resumed new_auto_pause_tenant_desc_with_state new_prewarm_pool take_pods
    get_warmed_pods put_warmed_pod get_tenant_desc on_tenant put_back add_pod refresh_pod update_pod
    setup_auto_pause_tenant_with_state new_auto_scale_meta get_tenant_desc_or_warmed_pool
    handle_event new_container reset_metrics_of_pod store_is_state_changing expected_state add_begin
    remove_begin begin_call undo_add undo_remove finish_call async_pause resize_pods_of_tenant
    on_success reply without ◌+ℤ◌ ◌-ℤ◌ ◌*ℤ◌ ◌/ℤ◌ max_ℤ min_ℤ int32
moving_unlisted_example = moving_unlisted whole settings w4 r4 0 "t1" (t1_of w4.meta) refl refl

listed_lem_example :
    ((w6.meta.heap 0).tenant_name ≡ "t1")
    × (Dict.lookup (w6.meta.heap 0).name (t1_of w6.meta).pod_map ≡ some 0)
    × (str_eq (w6.meta.heap 0).ip "" ≡ false)
unfolding Dict.lookup Dict.insert Dict.remove get_max_cnt_of_pod get_min_cnt_of_pod
    get_init_cnt_of_pod auto_pause_config set_tenant_info set_tenant_info_and_stime_of_assign
    clear_tenant_info get_cnt_of_pods set_pod set_pod_with_tenant_info remove_pod pop_one_pod
    pop_pods get_pod_names switch_state sync_state_pausing sync_state_paused sync_state_resuming
    sync_state_resumed new_auto_pause_tenant_desc_with_state new_prewarm_pool take_pods
    get_warmed_pods put_warmed_pod get_tenant_desc on_tenant put_back add_pod refresh_pod update_pod
    setup_auto_pause_tenant_with_state new_auto_scale_meta get_tenant_desc_or_warmed_pool
    handle_event new_container reset_metrics_of_pod store_is_state_changing expected_state add_begin
    remove_begin begin_call undo_add undo_remove finish_call async_pause resize_pods_of_tenant
    on_success reply without ◌+ℤ◌ ◌-ℤ◌ ◌*ℤ◌ ◌/ℤ◌ max_ℤ min_ℤ int32
listed_lem_example = listed_lem whole settings w6 r6 "t1" (t1_of w6.meta) 0 refl refl

mapped_lem_example :
    ((w6.meta.heap 0).name ≡ "readnode-0") × (contains 0 (t1_of w6.meta).pod_list ≡ true)
unfolding Dict.lookup Dict.insert Dict.remove get_max_cnt_of_pod get_min_cnt_of_pod
    get_init_cnt_of_pod auto_pause_config set_tenant_info set_tenant_info_and_stime_of_assign
    clear_tenant_info get_cnt_of_pods set_pod set_pod_with_tenant_info remove_pod pop_one_pod
    pop_pods get_pod_names switch_state sync_state_pausing sync_state_paused sync_state_resuming
    sync_state_resumed new_auto_pause_tenant_desc_with_state new_prewarm_pool take_pods
    get_warmed_pods put_warmed_pod get_tenant_desc on_tenant put_back add_pod refresh_pod update_pod
    setup_auto_pause_tenant_with_state new_auto_scale_meta get_tenant_desc_or_warmed_pool
    handle_event new_container reset_metrics_of_pod store_is_state_changing expected_state add_begin
    remove_begin begin_call undo_add undo_remove finish_call async_pause resize_pods_of_tenant
    on_success reply without ◌+ℤ◌ ◌-ℤ◌ ◌*ℤ◌ ◌/ℤ◌ max_ℤ min_ℤ int32
mapped_lem_example = mapped_lem whole settings w6 r6 "t1" (t1_of w6.meta) "readnode-0" 0 refl refl

topology_lem_example :
    (get_topology "t1" w6.meta ≡ "10.0.0.1:3930" ∷ []) × (length (get_topology "t1" w6.meta) ≡ 1)
unfolding Dict.lookup Dict.insert Dict.remove get_max_cnt_of_pod get_min_cnt_of_pod
    get_init_cnt_of_pod auto_pause_config set_tenant_info set_tenant_info_and_stime_of_assign
    clear_tenant_info get_cnt_of_pods set_pod set_pod_with_tenant_info remove_pod pop_one_pod
    pop_pods get_pod_names switch_state sync_state_pausing sync_state_paused sync_state_resuming
    sync_state_resumed new_auto_pause_tenant_desc_with_state new_prewarm_pool take_pods
    get_warmed_pods put_warmed_pod get_tenant_desc on_tenant put_back add_pod refresh_pod update_pod
    setup_auto_pause_tenant_with_state new_auto_scale_meta get_tenant_desc_or_warmed_pool
    handle_event new_container reset_metrics_of_pod store_is_state_changing expected_state add_begin
    remove_begin begin_call undo_add undo_remove finish_call async_pause resize_pods_of_tenant
    on_success reply without ◌+ℤ◌ ◌-ℤ◌ ◌*ℤ◌ ◌/ℤ◌ max_ℤ min_ℤ int32
topology_lem_example = topology_lem whole settings w6 r6 "t1" (t1_of w6.meta) refl refl

abbrev deleted : AutoScaleMeta
deleted = (handle_k8s_del_pod_event (pos 200) "readnode-0" w6.meta).0

deleted_pod_gone_example :
    (contains 0 (t1_of deleted).pod_list ≡ false)
    × (get_tenant_info_of_pod "readnode-0" deleted ≡ ("", pos 0))
unfolding Dict.lookup Dict.insert Dict.remove get_max_cnt_of_pod get_min_cnt_of_pod
    get_init_cnt_of_pod auto_pause_config set_tenant_info set_tenant_info_and_stime_of_assign
    clear_tenant_info get_cnt_of_pods set_pod set_pod_with_tenant_info remove_pod pop_one_pod
    pop_pods get_pod_names switch_state sync_state_pausing sync_state_paused sync_state_resuming
    sync_state_resumed new_auto_pause_tenant_desc_with_state new_prewarm_pool take_pods
    get_warmed_pods put_warmed_pod get_tenant_desc on_tenant put_back add_pod refresh_pod update_pod
    setup_auto_pause_tenant_with_state new_auto_scale_meta get_tenant_desc_or_warmed_pool
    handle_event new_container reset_metrics_of_pod store_is_state_changing expected_state add_begin
    remove_begin begin_call undo_add undo_remove finish_call async_pause resize_pods_of_tenant
    on_success reply without ◌+ℤ◌ ◌-ℤ◌ ◌*ℤ◌ ◌/ℤ◌ max_ℤ min_ℤ int32 handle_k8s_del_pod_event
    remove_pod_from_cluster_without_lock
deleted_pod_gone_example =
    deleted_pod_gone whole settings w6 r6 (pos 200) "readnode-0" 0 "t1" (t1_of deleted) refl refl

pausing_empties_example :
    (c : AutoScaleMeta) × (call : Call) × (t' : TenantDesc) × (remove_begin
        (pos 300)
        "t1"
        true
        (pos 1)
        w7.meta
      ≡ begun c call)
    × (Dict.lookup "t1" c.tenant_map ≡ some t')
    × (t'.state ≡ paused)
    × (t'.pod_list ≡ [])
    × (call.todo ≡ reverse (0 ∷ []))
    × (call.cnt ≡ 0)
unfolding Dict.lookup Dict.insert Dict.remove get_max_cnt_of_pod get_min_cnt_of_pod
    get_init_cnt_of_pod auto_pause_config set_tenant_info set_tenant_info_and_stime_of_assign
    clear_tenant_info get_cnt_of_pods set_pod set_pod_with_tenant_info remove_pod pop_one_pod
    pop_pods get_pod_names switch_state sync_state_pausing sync_state_paused sync_state_resuming
    sync_state_resumed new_auto_pause_tenant_desc_with_state new_prewarm_pool take_pods
    get_warmed_pods put_warmed_pod get_tenant_desc on_tenant put_back add_pod refresh_pod update_pod
    setup_auto_pause_tenant_with_state new_auto_scale_meta get_tenant_desc_or_warmed_pool
    handle_event new_container reset_metrics_of_pod store_is_state_changing expected_state add_begin
    remove_begin begin_call undo_add undo_remove finish_call async_pause resize_pods_of_tenant
    on_success reply without ◌+ℤ◌ ◌-ℤ◌ ◌*ℤ◌ ◌/ℤ◌ max_ℤ min_ℤ int32
pausing_empties_example =
    pausing_empties whole settings w7 r7 (pos 300) (pos 1) "t1" (t1_of w7.meta) refl refl refl

add_begin_takes_example :
    ((call_of b4).cnt + length (call_of b4).todo ≡ 1)
    × (w3.meta.prewarm_pool.warmed_pods.pod_list
        ≡ (call_of b4).todo ++ (meta_of b4).prewarm_pool.warmed_pods.pod_list)
    × (((call_of b4).cnt ≡ 0) ⊎ ((meta_of b4).prewarm_pool.warmed_pods.pod_list ≡ []))
unfolding Dict.lookup Dict.insert Dict.remove get_max_cnt_of_pod get_min_cnt_of_pod
    get_init_cnt_of_pod auto_pause_config set_tenant_info set_tenant_info_and_stime_of_assign
    clear_tenant_info get_cnt_of_pods set_pod set_pod_with_tenant_info remove_pod pop_one_pod
    pop_pods get_pod_names switch_state sync_state_pausing sync_state_paused sync_state_resuming
    sync_state_resumed new_auto_pause_tenant_desc_with_state new_prewarm_pool take_pods
    get_warmed_pods put_warmed_pod get_tenant_desc on_tenant put_back add_pod refresh_pod update_pod
    setup_auto_pause_tenant_with_state new_auto_scale_meta get_tenant_desc_or_warmed_pool
    handle_event new_container reset_metrics_of_pod store_is_state_changing expected_state add_begin
    remove_begin begin_call undo_add undo_remove finish_call async_pause resize_pods_of_tenant
    on_success reply without ◌+ℤ◌ ◌-ℤ◌ ◌*ℤ◌ ◌/ℤ◌ max_ℤ min_ℤ int32
add_begin_takes_example =
    add_begin_takes whole settings w3 r3 (pos 101) "t1" false 1 (meta_of b4) (call_of b4) refl

returned_count_example :
    (finish_call
      (pos 103)
      (answer_all whole settings ((pos 102, 0, none, w4) ∷ []) (call_of b4))
      w4.meta).1
    ≡ (call_of b4).cnt + 1
unfolding Dict.lookup Dict.insert Dict.remove get_max_cnt_of_pod get_min_cnt_of_pod
    get_init_cnt_of_pod auto_pause_config set_tenant_info set_tenant_info_and_stime_of_assign
    clear_tenant_info get_cnt_of_pods set_pod set_pod_with_tenant_info remove_pod pop_one_pod
    pop_pods get_pod_names switch_state sync_state_pausing sync_state_paused sync_state_resuming
    sync_state_resumed new_auto_pause_tenant_desc_with_state new_prewarm_pool take_pods
    get_warmed_pods put_warmed_pod get_tenant_desc on_tenant put_back add_pod refresh_pod update_pod
    setup_auto_pause_tenant_with_state new_auto_scale_meta get_tenant_desc_or_warmed_pool
    handle_event new_container reset_metrics_of_pod store_is_state_changing expected_state add_begin
    remove_begin begin_call undo_add undo_remove finish_call async_pause resize_pods_of_tenant
    on_success reply without ◌+ℤ◌ ◌-ℤ◌ ◌*ℤ◌ ◌/ℤ◌ max_ℤ min_ℤ int32
returned_count_example =
    returned_count whole settings (pos 103) ((pos 102, 0, none, w4) ∷ []) (call_of b4) w4.meta refl

pop_one_pod-eq-remove_pod_example :
    pop_one_pod (pos 9) w6.meta.heap (t1_of w6.meta)
    ≡ remove_pod (pos 9) "readnode-0" w6.meta.heap (t1_of w6.meta)
unfolding Dict.lookup Dict.insert Dict.remove get_max_cnt_of_pod get_min_cnt_of_pod
    get_init_cnt_of_pod auto_pause_config set_tenant_info set_tenant_info_and_stime_of_assign
    clear_tenant_info get_cnt_of_pods set_pod set_pod_with_tenant_info remove_pod pop_one_pod
    pop_pods get_pod_names switch_state sync_state_pausing sync_state_paused sync_state_resuming
    sync_state_resumed new_auto_pause_tenant_desc_with_state new_prewarm_pool take_pods
    get_warmed_pods put_warmed_pod get_tenant_desc on_tenant put_back add_pod refresh_pod update_pod
    setup_auto_pause_tenant_with_state new_auto_scale_meta get_tenant_desc_or_warmed_pool
    handle_event new_container reset_metrics_of_pod store_is_state_changing expected_state add_begin
    remove_begin begin_call undo_add undo_remove finish_call async_pause resize_pods_of_tenant
    on_success reply without ◌+ℤ◌ ◌-ℤ◌ ◌*ℤ◌ ◌/ℤ◌ max_ℤ min_ℤ int32
pop_one_pod-eq-remove_pod_example =
    pop_one_pod-eq-remove_pod (pos 9) w6.meta.heap (t1_of w6.meta) [] 0
      ((Reachable-Safe whole settings w6 r6).good.owned t1 (t1_of w6.meta) refl).0 refl
