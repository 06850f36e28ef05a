-- ===== src/Tenant.antt =====
-- autoscale/meta.go: TenantDesc. Its mutex makes each method one step. A method that also writes
-- to pods returns the heap.
pub mod Consistent
pub mod Pop
pub mod Shrinks
use tiflash_autoscale.Prelude.{
  ℕ, zero, suc, ℤ, pos, ◌<ℤ◌, ltb, String, str_eq, str_append, Bool, true, false, not, ◌&&◌, Option,
  none, some, List, [], ◌∷◌, ◌++◌, map, length, without, unsnoc, is_some, if◌then◌else◌,
}
use tiflash_autoscale.Dict
use tiflash_autoscale.Dict.{Dict}
use tiflash_autoscale.Float.{Float64}
use tiflash_autoscale.Config.{Settings, ConfigOfComputeCluster, has_changed, auto_pause_config}
use tiflash_autoscale.Pod.{
  PodDesc, PodHeap, set_tenant_info, set_tenant_info_and_stime_of_assign, clear_tenant_info,
}

-- The constants TenantStateResumed to TenantStateUnknown.
pub data TenantState : Type 0 where
  resumed resuming paused pausing unknown : TenantState

unfoldable pub tenant_state_to_string : TenantState → String
tenant_state_to_string resumed = "resumed"
tenant_state_to_string resuming = "resuming"
tenant_state_to_string paused = "paused"
tenant_state_to_string unknown = "unknown"
tenant_state_to_string pausing = "pausing"

abbrev pub state_eq : TenantState → TenantState → Bool
state_eq resumed resumed = true
state_eq resuming resuming = true
state_eq paused paused = true
state_eq pausing pausing = true
state_eq unknown unknown = true
state_eq _ _ = false

pub record TenantDesc : Type 0 where
  pub name : String
  pub pod_map : Dict ℕ
  pub pod_list : List ℕ
  pub state : TenantState
  pub conf : ConfigOfComputeCluster
  pub ref_of_latest_conf : Option ConfigOfComputeCluster

-- The holder is shared with whoever changes the configuration: what a change of it is to a descriptor.
abbrev pub hold :
    ConfigOfComputeCluster → Option ConfigOfComputeCluster → Option ConfigOfComputeCluster
hold latest none = none
hold latest (some old) = some latest

abbrev pub change_holder : ConfigOfComputeCluster → TenantDesc → TenantDesc
change_holder latest t = record t { ref_of_latest_conf = hold latest t.ref_of_latest_conf }

unfoldable pub try_to_reload_conf : Bool → TenantDesc → TenantDesc × Bool
try_to_reload_conf force_update c = elim c.ref_of_latest_conf [
  | none ↦ (c, false)
  | some latest ↦
      if (if force_update then true else has_changed latest c.conf.last_modified_ts)
      then (record c { conf = latest }, true)
      else (c, false)
]

unfoldable pub get_cnt_of_pods : TenantDesc → ℕ
get_cnt_of_pods c = Dict.size c.pod_map

-- The part that SetPod and SetPodWithTenantInfo share.
abbrev put_pod : String → ℕ → TenantDesc → TenantDesc
put_pod k v c = record c {
  pod_list = if Dict.has k c.pod_map then c.pod_list else c.pod_list ++ v ∷ [];
  pod_map = Dict.insert k v c.pod_map;
}

unfoldable pub set_pod : String → ℕ → PodHeap → TenantDesc → PodHeap × TenantDesc
set_pod k v h c = (set_tenant_info c.name v h, put_pod k v c)

unfoldable pub set_pod_with_tenant_info :
    String → ℕ → ℤ → PodHeap → TenantDesc → PodHeap × TenantDesc
set_pod_with_tenant_info k v start_time h c =
    (set_tenant_info_and_stime_of_assign c.name start_time v h, put_pod k v c)

unfoldable pub remove_pod : ℤ → String → PodHeap → TenantDesc → PodHeap × TenantDesc × Option ℕ
remove_pod now k h c = elim (Dict.lookup k c.pod_map) [
  | none ↦ (h, c, none)
  | some v ↦ (
    clear_tenant_info now v h,
    record c { pod_list = without v c.pod_list; pod_map = Dict.remove k c.pod_map },
    some v,
  )
]

unfoldable pub pop_one_pod : ℤ → PodHeap → TenantDesc → PodHeap × TenantDesc × Option ℕ
pop_one_pod now h c = elim (unsnoc c.pod_list) [
  | none ↦ (h, c, none)
  | some (rest, cur_pod) ↦ (
    clear_tenant_info now cur_pod h,
    record c { pod_list = rest; pod_map = Dict.remove (h cur_pod).name c.pod_map },
    some cur_pod,
  )
]

-- The pods that are popped come behind `ret`; the number is what is left to pop.
unfoldable pub pop_pods : ℤ → ℕ → List ℕ → PodHeap → TenantDesc → PodHeap × TenantDesc × ℕ × List ℕ
pop_pods now zero ret h c = (h, c, zero, ret)
pop_pods now (suc cnt) ret h c =
    let (h', c', v) = pop_one_pod now h c in
    elim v [ none ↦ (h', c', suc cnt, ret) | some p ↦ pop_pods now cnt (ret ++ p ∷ []) h' c' ]

unfoldable pub get_pod_names : PodHeap → TenantDesc → List String
get_pod_names h c = map (λ p. (h p).name) c.pod_list

unfoldable pub pod_addrs : PodHeap → List ℕ → List String
pod_addrs h [] = []
pod_addrs h (p ∷ ps) =
    let rest = pod_addrs h ps in
    if str_eq (h p).ip "" then rest else str_append (h p).ip ":3930" ∷ rest

unfoldable pub get_pod_addrs : PodHeap → TenantDesc → List String
unfolding pod_addrs
get_pod_addrs h c = pod_addrs h c.pod_list

-- CompareAndSwap on the state.
unfoldable pub switch_state : TenantState → TenantState → TenantDesc → TenantDesc × Bool
switch_state from to c =
    if state_eq c.state from then (record c { state = to }, true) else (c, false)

unfoldable pub sync_state_pausing : TenantDesc → TenantDesc × Bool
unfolding switch_state
sync_state_pausing = switch_state resumed pausing

unfoldable pub sync_state_paused : TenantDesc → TenantDesc × Bool
unfolding switch_state
sync_state_paused = switch_state pausing paused

unfoldable pub sync_state_resuming : TenantDesc → TenantDesc × Bool
unfolding switch_state
sync_state_resuming = switch_state paused resuming

unfoldable pub sync_state_resumed : TenantDesc → TenantDesc × Bool
unfolding switch_state
sync_state_resumed = switch_state resuming resumed

unfoldable pub set_state : TenantState → TenantDesc → TenantDesc
set_state s c = record c { state = s }

unfoldable pub is_state_correct : TenantDesc → Bool × TenantState
is_state_correct c =
    if state_eq c.state paused && ltb 0 (Dict.size c.pod_map)
    then (false, resumed)
    else (true, c.state)

module _ (fl : Float64) (g : Settings fl) where
  unfoldable pub new_auto_pause_tenant_desc_with_state : String → ℤ → ℤ → TenantState → TenantDesc
  new_auto_pause_tenant_desc_with_state name min_pods max_pods state = record {
    name = name;
    pod_map = [];
    pod_list = [];
    state = state;
    conf = auto_pause_config fl g min_pods max_pods;
    ref_of_latest_conf = none;
  }

-- The holder is a pointer that is shared; `change_holder` says what a change of it does.
unfoldable pub new_tenant_desc_with_config_and_state :
    String → ConfigOfComputeCluster → TenantState → TenantDesc
new_tenant_desc_with_config_and_state name holder state = record {
  name = name;
  pod_map = [];
  pod_list = [];
  state = state;
  conf = holder;
  ref_of_latest_conf = some holder;
}
