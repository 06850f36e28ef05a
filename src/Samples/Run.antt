-- ===== src/Samples/Run.antt =====
-- A run: a pod arrives, a tenant is registered and gets it, and the tenant is paused.
use tiflash_autoscale.Prelude.{
  pos, ◌+ℤ◌, ◌-ℤ◌, ◌*ℤ◌, ◌/ℤ◌, max_ℤ, int32, without, refl, false, some, [], ◌∷◌, arith,
}
use tiflash_autoscale.Meta.{AutoScaleMeta}
use tiflash_autoscale.Tenant.{resumed}
use tiflash_autoscale.Watch.{added}
use tiflash_autoscale.Resize.{Call, Request, adding, Result, Begun, refused, panics, begun}
use tiflash_autoscale.Resize.World.{World}
use tiflash_autoscale.Resize.Steps.{
  k8s_event, new_auto_pause_tenant, pause, resize, begin, answer, finish, Reachable, start,
  and_then, answered,
}
use tiflash_autoscale.Samples.{whole, settings}
use tiflash_autoscale.Dict
use tiflash_autoscale.Config.{
  get_max_cnt_of_pod, get_min_cnt_of_pod, get_init_cnt_of_pod, auto_pause_config,
}
use tiflash_autoscale.Pod.{set_tenant_info, set_tenant_info_and_stime_of_assign, clear_tenant_info}
use tiflash_autoscale.Tenant.{
  get_cnt_of_pods, set_pod, set_pod_with_tenant_info, remove_pod, pop_one_pod, pop_pods,
  get_pod_names, switch_state, sync_state_pausing, sync_state_paused, sync_state_resuming,
  sync_state_resumed, new_auto_pause_tenant_desc_with_state,
}
use tiflash_autoscale.Pool.{new_prewarm_pool, take_pods, get_warmed_pods, put_warmed_pod}
use tiflash_autoscale.Meta.{get_tenant_desc, on_tenant, put_back, add_pod, refresh_pod, update_pod}
use tiflash_autoscale.Meta.Setup.{setup_auto_pause_tenant_with_state, new_auto_scale_meta}
use tiflash_autoscale.Meta.Desc.{get_tenant_desc_or_warmed_pool}
use tiflash_autoscale.Watch.{handle_event}
use tiflash_autoscale.Series.Container.{new_container, reset_metrics_of_pod}
use tiflash_autoscale.Resize.{
  store_is_state_changing, expected_state, add_begin, remove_begin, begin_call, undo_add,
  undo_remove, finish_call,
}
use tiflash_autoscale.Resize.World.{async_pause, resize_pods_of_tenant, on_success, reply}

abbrev pub W : Type 0
W = World whole

abbrev pub w0 : W
w0 = record {
  meta = new_auto_scale_meta whole settings;
  ts_container = new_container whole;
  requests = [];
  calls = [];
  waits = [];
  asked = [];
  corrections = [];
}

r0 : Reachable whole settings w0
r0 = start w0 refl refl refl refl refl

abbrev pub w1 : W
w1 = record w0 {
  meta = handle_event (pos 100) added (record { name = "readnode-0"; ip = "10.0.0.1" }) w0.meta;
}

r1 : Reachable whole settings w1
unfolding Dict.lookup Dict.insert Dict.remove get_max_cnt_of_pod get_min_cnt_of_pod
    get_init_cnt_of_pod auto_pause_config set_tenant_info set_tenant_info_and_stime_of_assign
    clear_tenant_info get_cnt_of_pods set_pod set_pod_with_tenant_info remove_pod pop_one_pod
    pop_pods get_pod_names switch_state sync_state_pausing sync_state_paused sync_state_resuming
    sync_state_resumed new_auto_pause_tenant_desc_with_state new_prewarm_pool take_pods
    get_warmed_pods put_warmed_pod get_tenant_desc on_tenant put_back add_pod refresh_pod update_pod
    setup_auto_pause_tenant_with_state new_auto_scale_meta get_tenant_desc_or_warmed_pool
    handle_event new_container reset_metrics_of_pod store_is_state_changing expected_state add_begin
    remove_begin begin_call undo_add undo_remove finish_call async_pause resize_pods_of_tenant
    on_success reply without ◌+ℤ◌ ◌-ℤ◌ ◌*ℤ◌ ◌/ℤ◌ max_ℤ int32
r1 =
    and_then w0 w1 r0
      (k8s_event (pos 100) added (record { name = "readnode-0"; ip = "10.0.0.1" })
        (λ e p h. absurd (omega (arith, h))))
      tt

abbrev pub w2 : W
w2 = record w1 {
  meta = (setup_auto_pause_tenant_with_state whole settings "t1" (pos 1) (pos 4) resumed w1.meta).0;
}

r2 : Reachable whole settings w2
r2 = and_then w1 w2 r1 (new_auto_pause_tenant "t1" (pos 1) (pos 4) resumed refl) tt

abbrev pub w3 : W
w3 = resize_pods_of_tenant whole settings (pos 0) (pos 1) "t1" w2

pub r3 : Reachable whole settings w3
r3 = and_then w2 w3 r2 (resize (pos 0) (pos 1) "t1") tt

abbrev pub asked : Request
asked = record { direction = adding; tenant = "t1"; changes_state = false; cnt = pos 1 }

abbrev pub no_call : Call
no_call = record {
  direction = adding;
  tenant = "";
  changes_state = false;
  started = [];
  todo = [];
  undo_list = [];
  cnt = 0;
}

abbrev pub meta_of : Begun → AutoScaleMeta
meta_of (begun c k) = c
meta_of refused = w0.meta
meta_of panics = w0.meta

abbrev pub call_of : Begun → Call
call_of (begun c k) = k
call_of refused = no_call
call_of panics = no_call

abbrev pub b4 : Begun
b4 = begin_call (pos 101) asked w3.meta

abbrev pub w4 : W
w4 = record w3 { meta = meta_of b4; requests = []; calls = call_of b4 ∷ [] }

pub r4 : Reachable whole settings w4
unfolding Dict.lookup Dict.insert Dict.remove get_max_cnt_of_pod get_min_cnt_of_pod
    get_init_cnt_of_pod auto_pause_config set_tenant_info set_tenant_info_and_stime_of_assign
    clear_tenant_info get_cnt_of_pods set_pod set_pod_with_tenant_info remove_pod pop_one_pod
    pop_pods get_pod_names switch_state sync_state_pausing sync_state_paused sync_state_resuming
    sync_state_resumed new_auto_pause_tenant_desc_with_state new_prewarm_pool take_pods
    get_warmed_pods put_warmed_pod get_tenant_desc on_tenant put_back add_pod refresh_pod update_pod
    setup_auto_pause_tenant_with_state new_auto_scale_meta get_tenant_desc_or_warmed_pool
    handle_event new_container reset_metrics_of_pod store_is_state_changing expected_state add_begin
    remove_begin begin_call undo_add undo_remove finish_call async_pause resize_pods_of_tenant
    on_success reply without ◌+ℤ◌ ◌-ℤ◌ ◌*ℤ◌ ◌/ℤ◌ max_ℤ int32
r4 = and_then w3 w4 r3 (begin (pos 101) [] [] asked (meta_of b4) (call_of b4) refl refl refl) tt

abbrev pub assigned : Result
assigned = record {
  has_err = false;
  tenant_id = "t1";
  start_time = pos 102;
  is_unassigning = false;
}

abbrev pub w5 : W
w5 = answered whole settings (pos 102) 0 (some assigned) (call_of b4) (record w4 { calls = [] })

pub r5 : Reachable whole settings w5
unfolding Dict.lookup Dict.insert Dict.remove get_max_cnt_of_pod get_min_cnt_of_pod
    get_init_cnt_of_pod auto_pause_config set_tenant_info set_tenant_info_and_stime_of_assign
    clear_tenant_info get_cnt_of_pods set_pod set_pod_with_tenant_info remove_pod pop_one_pod
    pop_pods get_pod_names switch_state sync_state_pausing sync_state_paused sync_state_resuming
    sync_state_resumed new_auto_pause_tenant_desc_with_state new_prewarm_pool take_pods
    get_warmed_pods put_warmed_pod get_tenant_desc on_tenant put_back add_pod refresh_pod update_pod
    setup_auto_pause_tenant_with_state new_auto_scale_meta get_tenant_desc_or_warmed_pool
    handle_event new_container reset_metrics_of_pod store_is_state_changing expected_state add_begin
    remove_begin begin_call undo_add undo_remove finish_call async_pause resize_pods_of_tenant
    on_success reply without ◌+ℤ◌ ◌-ℤ◌ ◌*ℤ◌ ◌/ℤ◌ max_ℤ int32
r5 = and_then w4 w5 r4 (answer (pos 102) [] [] (call_of b4) 0 (some assigned) refl refl) tt

abbrev pub k5 : Call
k5 = (reply whole settings (pos 102) 0 (some assigned) (record w4 { calls = [] }) (call_of b4)).1

-- The tenant has the pod.
abbrev pub w6 : W
w6 = record w5 { meta = (finish_call (pos 103) k5 w5.meta).0; calls = [] }

pub r6 : Reachable whole settings w6
unfolding Dict.lookup Dict.insert Dict.remove get_max_cnt_of_pod get_min_cnt_of_pod
    get_init_cnt_of_pod auto_pause_config set_tenant_info set_tenant_info_and_stime_of_assign
    clear_tenant_info get_cnt_of_pods set_pod set_pod_with_tenant_info remove_pod pop_one_pod
    pop_pods get_pod_names switch_state sync_state_pausing sync_state_paused sync_state_resuming
    sync_state_resumed new_auto_pause_tenant_desc_with_state new_prewarm_pool take_pods
    get_warmed_pods put_warmed_pod get_tenant_desc on_tenant put_back add_pod refresh_pod update_pod
    setup_auto_pause_tenant_with_state new_auto_scale_meta get_tenant_desc_or_warmed_pool
    handle_event new_container reset_metrics_of_pod store_is_state_changing expected_state add_begin
    remove_begin begin_call undo_add undo_remove finish_call async_pause resize_pods_of_tenant
    on_success reply without ◌+ℤ◌ ◌-ℤ◌ ◌*ℤ◌ ◌/ℤ◌ max_ℤ int32
r6 = and_then w5 w6 r5 (finish (pos 103) [] [] k5 refl refl) tt

-- The tenant is pausing.
abbrev pub w7 : W
w7 = (async_pause whole settings "t1" w6).0

pub r7 : Reachable whole settings w7
r7 = and_then w6 w7 r6 (pause "t1") tt
