-- ===== src/Samples/RaceExamples.antt =====
-- A correction of a pod that waits while a call takes the pod, after the sample run.
use tiflash_autoscale.Prelude.{
  pos, ◌+ℤ◌, ◌-ℤ◌, ◌*ℤ◌, ◌/ℤ◌, max_ℤ, int32, without, refl, ◌≡◌, true, false, some, [], ◌∷◌,
  contains, none,
}
use tiflash_autoscale.Tenant.{TenantDesc}
use tiflash_autoscale.Watch.{GetTenantResponse, correction}
use tiflash_autoscale.Resize.{Request, removing, Result, Begun}
use tiflash_autoscale.Resize.World.{Asked, Correction}
use tiflash_autoscale.Resize.Undo.{pool_list}
use tiflash_autoscale.Resize.Race.{stale_correction_two_owners}
use tiflash_autoscale.Resize.Steps.{
  ask_tenant, told_tenant, resize, begin, Step, Reachable, and_then,
}
use tiflash_autoscale.Samples.{whole, settings}
use tiflash_autoscale.Samples.Run.{w6, r6, meta_of, call_of}
use tiflash_autoscale.Samples.Run.{W}
use tiflash_autoscale.Dict
use tiflash_autoscale.Config.{
  get_max_cnt_of_pod, get_min_cnt_of_pod, get_init_cnt_of_pod, auto_pause_config,
}
use tiflash_autoscale.Pod.{set_tenant_info, set_tenant_info_and_stime_of_assign, clear_tenant_info}
use tiflash_autoscale.Tenant.{
  get_cnt_of_pods, set_pod, set_pod_with_tenant_info, remove_pod, pop_one_pod, pop_pods,
  get_pod_names, switch_state, sync_state_pausing, sync_state_paused, sync_state_resuming,
  sync_state_resumed, new_auto_pause_tenant_desc_with_state,
}
use tiflash_autoscale.Pool.{new_prewarm_pool, take_pods, get_warmed_pods, put_warmed_pod}
use tiflash_autoscale.Meta.{get_tenant_desc, on_tenant, put_back, add_pod, refresh_pod, update_pod}
use tiflash_autoscale.Meta.Setup.{setup_auto_pause_tenant_with_state, new_auto_scale_meta}
use tiflash_autoscale.Meta.Desc.{get_tenant_desc_or_warmed_pool}
use tiflash_autoscale.Watch.{handle_event}
use tiflash_autoscale.Series.Container.{new_container, reset_metrics_of_pod}
use tiflash_autoscale.Resize.{
  store_is_state_changing, expected_state, add_begin, remove_begin, begin_call, undo_add,
  undo_remove, finish_call,
}
use tiflash_autoscale.Resize.World.{async_pause, resize_pods_of_tenant, on_success, reply}

abbrev asking : Asked
asking = record { pod = 0; at_startup = false }

abbrev w_asked : W
w_asked = record w6 { asked = asking ∷ [] }

r_asked : Reachable whole settings w_asked
unfolding Dict.lookup Dict.insert Dict.remove get_max_cnt_of_pod get_min_cnt_of_pod
    get_init_cnt_of_pod auto_pause_config set_tenant_info set_tenant_info_and_stime_of_assign
    clear_tenant_info get_cnt_of_pods set_pod set_pod_with_tenant_info remove_pod pop_one_pod
    pop_pods get_pod_names switch_state sync_state_pausing sync_state_paused sync_state_resuming
    sync_state_resumed new_auto_pause_tenant_desc_with_state new_prewarm_pool take_pods
    get_warmed_pods put_warmed_pod get_tenant_desc on_tenant put_back add_pod refresh_pod update_pod
    setup_auto_pause_tenant_with_state new_auto_scale_meta get_tenant_desc_or_warmed_pool
    handle_event new_container reset_metrics_of_pod store_is_state_changing expected_state add_begin
    remove_begin begin_call undo_add undo_remove finish_call async_pause resize_pods_of_tenant
    on_success reply without ◌+ℤ◌ ◌-ℤ◌ ◌*ℤ◌ ◌/ℤ◌ max_ℤ int32 correction
r_asked = and_then w6 w_asked r6 (ask_tenant true 0 false refl) tt

abbrev told : GetTenantResponse
told = record { tenant_id = "t1"; start_time = pos 101; is_unassigning = false }

abbrev late : Correction
late = record { pod = 0; tenant = "t1"; start_time = pos 101 }

abbrev w_told : W
w_told = record w6 { corrections = late ∷ [] }

r_told : Reachable whole settings w_told
unfolding Dict.lookup Dict.insert Dict.remove get_max_cnt_of_pod get_min_cnt_of_pod
    get_init_cnt_of_pod auto_pause_config set_tenant_info set_tenant_info_and_stime_of_assign
    clear_tenant_info get_cnt_of_pods set_pod set_pod_with_tenant_info remove_pod pop_one_pod
    pop_pods get_pod_names switch_state sync_state_pausing sync_state_paused sync_state_resuming
    sync_state_resumed new_auto_pause_tenant_desc_with_state new_prewarm_pool take_pods
    get_warmed_pods put_warmed_pod get_tenant_desc on_tenant put_back add_pod refresh_pod update_pod
    setup_auto_pause_tenant_with_state new_auto_scale_meta get_tenant_desc_or_warmed_pool
    handle_event new_container reset_metrics_of_pod store_is_state_changing expected_state add_begin
    remove_begin begin_call undo_add undo_remove finish_call async_pause resize_pods_of_tenant
    on_success reply without ◌+ℤ◌ ◌-ℤ◌ ◌*ℤ◌ ◌/ℤ◌ max_ℤ int32 correction
r_told = and_then w_asked w_told r_asked (told_tenant [] [] asking (some told) refl) tt

abbrev w_resized : W
w_resized = resize_pods_of_tenant whole settings (pos 1) (pos 0) "t1" w_told

r_resized : Reachable whole settings w_resized
r_resized = and_then w_told w_resized r_told (resize (pos 1) (pos 0) "t1") tt

abbrev asked : Request
asked = record { direction = removing; tenant = "t1"; changes_state = false; cnt = pos 1 }

abbrev begun_call : Begun
begun_call = begin_call (pos 110) asked w_resized.meta

abbrev w_taken : W
w_taken = record w_resized {
  meta = meta_of begun_call;
  requests = [];
  calls = call_of begun_call ∷ [];
}

r_taken : Reachable whole settings w_taken
unfolding Dict.lookup Dict.insert Dict.remove get_max_cnt_of_pod get_min_cnt_of_pod
    get_init_cnt_of_pod auto_pause_config set_tenant_info set_tenant_info_and_stime_of_assign
    clear_tenant_info get_cnt_of_pods set_pod set_pod_with_tenant_info remove_pod pop_one_pod
    pop_pods get_pod_names switch_state sync_state_pausing sync_state_paused sync_state_resuming
    sync_state_resumed new_auto_pause_tenant_desc_with_state new_prewarm_pool take_pods
    get_warmed_pods put_warmed_pod get_tenant_desc on_tenant put_back add_pod refresh_pod update_pod
    setup_auto_pause_tenant_with_state new_auto_scale_meta get_tenant_desc_or_warmed_pool
    handle_event new_container reset_metrics_of_pod store_is_state_changing expected_state add_begin
    remove_begin begin_call undo_add undo_remove finish_call async_pause resize_pods_of_tenant
    on_success reply without ◌+ℤ◌ ◌-ℤ◌ ◌*ℤ◌ ◌/ℤ◌ max_ℤ int32 correction
r_taken =
    and_then w_resized w_taken r_resized
      (begin (pos 110) [] [] asked (meta_of begun_call) (call_of begun_call) refl refl refl) tt

abbrev tenant : TenantDesc
tenant = elim (Dict.lookup "t1" w_taken.meta.tenant_map) [
  | none ↦ w_taken.meta.prewarm_pool.warmed_pods
  | some t ↦ t
]

abbrev unassigned : Result
unassigned = record {
  has_err = false;
  tenant_id = "t1";
  start_time = pos 101;
  is_unassigning = false;
}

stale_correction_two_owners_example :
    (w1 w2 : W) × Step whole settings w_taken w1
    × Step whole settings w1 w2
    × (s : TenantDesc) × (Dict.lookup "t1" w2.meta.tenant_map ≡ some s)
    × (contains 0 s.pod_list ≡ true)
    × (contains 0 (pool_list w2.meta) ≡ true)
unfolding Dict.lookup Dict.insert Dict.remove get_max_cnt_of_pod get_min_cnt_of_pod
    get_init_cnt_of_pod auto_pause_config set_tenant_info set_tenant_info_and_stime_of_assign
    clear_tenant_info get_cnt_of_pods set_pod set_pod_with_tenant_info remove_pod pop_one_pod
    pop_pods get_pod_names switch_state sync_state_pausing sync_state_paused sync_state_resuming
    sync_state_resumed new_auto_pause_tenant_desc_with_state new_prewarm_pool take_pods
    get_warmed_pods put_warmed_pod get_tenant_desc on_tenant put_back add_pod refresh_pod update_pod
    setup_auto_pause_tenant_with_state new_auto_scale_meta get_tenant_desc_or_warmed_pool
    handle_event new_container reset_metrics_of_pod store_is_state_changing expected_state add_begin
    remove_begin begin_call undo_add undo_remove finish_call async_pause resize_pods_of_tenant
    on_success reply without ◌+ℤ◌ ◌-ℤ◌ ◌*ℤ◌ ◌/ℤ◌ max_ℤ int32 correction
stale_correction_two_owners_example =
    stale_correction_two_owners whole settings w_taken r_taken [] [] (call_of begun_call) [] [] late
      refl refl refl refl refl tenant refl (pos 111) (pos 112) unassigned refl
