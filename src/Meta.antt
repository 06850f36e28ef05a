-- ===== src/Meta.antt =====
-- autoscale/meta.go: AutoScaleMeta. Each function here is what the program does while it holds the
-- mutex of AutoScaleMeta, so it is one step. A tenant's descriptor is never dropped or replaced,
-- so a pointer to it is its name; the pool's has the empty name.
pub mod Desc
pub mod Good
pub mod Events
pub mod Update
pub mod Register
pub mod Local
pub mod Setup
pub mod Mock
pub mod States
pub mod Joined
use tiflash_autoscale.Prelude.{
  ℕ, zero, suc, ℤ, pos, ◌+◌, String, str_eq, Bool, true, false, not, ◌&&◌, ◌||◌, Option, none, some,
  List, [], ◌∷◌, ◌++◌, map, is_some, if◌then◌else◌,
}
use tiflash_autoscale.Dict
use tiflash_autoscale.Dict.{Dict}
use tiflash_autoscale.Float.{Float64}
use tiflash_autoscale.Config.{
  Settings, RunMode, serverless, local, dedicated, custom, ConfigOfComputeCluster,
}
use tiflash_autoscale.Pod.{PodDesc, PodHeap, update, clear_tenant_info}
use tiflash_autoscale.Tenant.{
  TenantState, resumed, resuming, paused, pausing, unknown, TenantDesc, state_eq, remove_pod,
  set_pod_with_tenant_info, set_pod, set_state, get_cnt_of_pods, get_pod_addrs, sync_state_pausing,
  sync_state_resuming, new_auto_pause_tenant_desc_with_state, new_tenant_desc_with_config_and_state,
}
use tiflash_autoscale.Pool.{PrewarmPool, new_prewarm_pool, put_warmed_pod}

pub record AutoScaleMeta : Type 0 where
  pub heap : PodHeap
  pub next_pod : ℕ
  pub tenant_map : Dict TenantDesc
  pub pod_desc_map : Dict ℕ
  pub prewarm_pool : PrewarmPool
  pub is_runtime_ready : Bool

unfoldable pub get_tenant_desc : String → AutoScaleMeta → Option TenantDesc
get_tenant_desc tenant c = Dict.lookup tenant c.tenant_map

unfoldable pub get_tenant_info_of_pod : String → AutoScaleMeta → String × ℤ
get_tenant_info_of_pod pod_name c = elim (Dict.lookup pod_name c.pod_desc_map) [
  | none ↦ ("", pos 0)
  | some p ↦ ((c.heap p).tenant_name, (c.heap p).start_time_of_assign)
]

-- The second part says whether there is no such tenant.
unfoldable pub get_tenant_scale_interval_sec : String → AutoScaleMeta → ℤ × Bool
get_tenant_scale_interval_sec tenant c = elim (Dict.lookup tenant c.tenant_map) [
  | none ↦ (pos 0, true)
  | some t ↦ (t.conf.window_seconds, false)
]

unfoldable pub get_tenant_auto_pause_interval_sec : String → AutoScaleMeta → ℤ × Bool
get_tenant_auto_pause_interval_sec tenant c = elim (Dict.lookup tenant c.tenant_map) [
  | none ↦ (pos 0, true)
  | some t ↦ (t.conf.window_seconds, false)
]

unfoldable pub get_topology : String → AutoScaleMeta → List String
get_topology tenant c = elim (Dict.lookup tenant c.tenant_map) [
  | none ↦ []
  | some t ↦ get_pod_addrs c.heap t
]

unfoldable pub get_tenant_state : String → AutoScaleMeta → Bool × TenantState × ℕ
get_tenant_state tenant c = elim (Dict.lookup tenant c.tenant_map) [
  | none ↦ (false, unknown, 0)
  | some t ↦ (true, t.state, get_cnt_of_pods t)
]

-- A method of a tenant's descriptor, run on the one that getTenantDescOrWarmedPool finds.
unfoldable pub on_tenant :
    String → (PodHeap → TenantDesc → PodHeap × TenantDesc) → AutoScaleMeta → AutoScaleMeta
on_tenant tenant f c =
    if str_eq tenant ""
    then (let (h, t) = f c.heap c.prewarm_pool.warmed_pods in
        record c { heap = h; prewarm_pool = record c.prewarm_pool { warmed_pods = t } })
    else elim (Dict.lookup tenant c.tenant_map) [
      | none ↦ c
      | some t ↦
          let (h, t') = f c.heap t in
          record c { heap = h; tenant_map = Dict.insert tenant t' c.tenant_map }
    ]

-- RemovePod, for a caller that drops the pod it returns.
abbrev pub drop_pod : ℤ → String → PodHeap → TenantDesc → PodHeap × TenantDesc
drop_pod now k h t = let (h', t', v) = remove_pod now k h t in (h', t')

-- putWarmedPod on the pool of the meta data.
unfoldable pub put_back : ℤ → String → ℕ → Bool → AutoScaleMeta → AutoScaleMeta
put_back now from_tenant p is_new c =
    let (h, pool) = put_warmed_pod now from_tenant p is_new c.heap c.prewarm_pool in
    record c { heap = h; prewarm_pool = pool }

abbrev new_pod : String → String → PodDesc
new_pod name ip = record {
  name = name;
  ip = ip;
  tenant_name = "";
  start_time_of_assign = pos 0;
  is_state_changing = false;
}

-- UpdatePod at a name that is not known yet.
unfoldable pub add_pod : ℤ → String → String → AutoScaleMeta → AutoScaleMeta
unfolding put_back
add_pod now name ip c =
    let p = c.next_pod in
    let c' : AutoScaleMeta = record c {
      heap = update c.heap p (new_pod name ip);
      next_pod = suc p;
      pod_desc_map = Dict.insert name p c.pod_desc_map;
    } in
    if str_eq ip "" then c' else put_back now "" p true c'

abbrev set_ip : ℕ → String → AutoScaleMeta → AutoScaleMeta
set_ip p ip c = record c { heap = update c.heap p (record (c.heap p) { ip = ip }) }

-- UpdatePod at a pod that is known.
unfoldable pub refresh_pod : ℤ → ℕ → String → AutoScaleMeta → AutoScaleMeta
unfolding put_back
refresh_pod now p ip c =
    if str_eq (c.heap p).name ""
    then c
    else if str_eq (c.heap p).ip ""
    then (if str_eq ip "" then c else put_back now "" p true (set_ip p ip c))
    else if str_eq ip ""
    then c
    else if str_eq (c.heap p).ip ip
    then c
    else set_ip p ip c

unfoldable pub update_pod : ℤ → String → String → AutoScaleMeta → AutoScaleMeta
unfolding add_pod refresh_pod
update_pod now name ip c = elim (Dict.lookup name c.pod_desc_map) [
  | none ↦ add_pod now name ip c
  | some p ↦ refresh_pod now p ip c
]

unfoldable pub remove_pod_from_cluster_without_lock : ℤ → ℕ → AutoScaleMeta → AutoScaleMeta
unfolding on_tenant
remove_pod_from_cluster_without_lock now p c =
    let pod_name = (c.heap p).name in
    let c' = on_tenant (c.heap p).tenant_name (drop_pod now pod_name) c in
    record c' {
      heap = clear_tenant_info now p c'.heap;
      pod_desc_map = Dict.remove pod_name c'.pod_desc_map;
    }

-- The second part is the Boolean that the program returns.
unfoldable pub handle_k8s_del_pod_event : ℤ → String → AutoScaleMeta → AutoScaleMeta × Bool
unfolding remove_pod_from_cluster_without_lock
handle_k8s_del_pod_event now name c = elim (Dict.lookup name c.pod_desc_map) [
  | none ↦ (c, true)
  | some p ↦ (remove_pod_from_cluster_without_lock now p c, false)
]

unfoldable pub handle_all : ℤ → List String → AutoScaleMeta → AutoScaleMeta
unfolding handle_k8s_del_pod_event
handle_all now [] c = c
handle_all now (k ∷ ks) c = handle_all now ks (handle_k8s_del_pod_event now k c).0

unfoldable pub expired_pods : Dict Bool → Dict ℕ → List String
expired_pods pod_set [] = []
expired_pods pod_set ((k, p) ∷ m) =
    let rest = expired_pods pod_set m in if Dict.has k pod_set then rest else k ∷ rest

-- Between the scan of the map and the deletions the program lets go of the mutex; here no other
-- step comes between.
unfoldable pub try_to_remove_expired_pod : ℤ → Dict Bool → AutoScaleMeta → AutoScaleMeta
unfolding expired_pods handle_all
try_to_remove_expired_pod now pod_set c = handle_all now (expired_pods pod_set c.pod_desc_map) c
