-- ===== src/Resize.antt =====
-- autoscale/meta.go: AsyncPause, AsyncResume, ResizePodsOfTenant, addPodIntoTenant and
-- removePodFromTenant. A call of the last two takes pods while it holds the mutex of the meta data,
-- asks each pod over grpc, and puts back the pods that could not be asked. Between these the mutex
-- is free, so a call is a value that the steps carry on: its beginning, one reply at a time, its end.
-- The names of tenants are not empty.
pub mod Count
pub mod Moving
pub mod Begin
pub mod Finish
pub mod Reply
pub mod Steps
pub mod Keeps
pub mod Warming
pub mod Safety
pub mod Ownership
pub mod Counts
pub mod Pausing
pub mod Machine
pub mod Prepared
pub mod Reload
pub mod Undo
pub mod Race
pub mod Returns
pub mod Drives
pub mod Lifecycle
pub mod Blocked
pub mod World
pub mod BeginRemove
use tiflash_autoscale.Prelude.{
  ℕ, zero, suc, ℤ, pos, negsuc, ◌-ℤ◌, ◌+ℤ◌, ltb_ℤ, ◌+◌, String, str_eq, Bool, true, false, not,
  ◌&&◌, Option, none, some, List, [], ◌∷◌, ◌++◌, without, length, if◌then◌else◌,
}
use tiflash_autoscale.Dict
use tiflash_autoscale.Float.{Float64}
use tiflash_autoscale.Config.{Settings, get_init_cnt_of_pod}
use tiflash_autoscale.Series.Container.{TimeSeriesContainer, reset_metrics_of_pod}
use tiflash_autoscale.Pod.{PodDesc, PodHeap, update}
use tiflash_autoscale.Tenant.{
  TenantState, resumed, resuming, pausing, TenantDesc, state_eq, get_cnt_of_pods, set_pod,
  set_pod_with_tenant_info, pop_pods, sync_state_pausing, sync_state_paused, sync_state_resuming,
  sync_state_resumed,
}
use tiflash_autoscale.Pool.{PrewarmPool, get_warmed_pods}
use tiflash_autoscale.Meta.{AutoScaleMeta, get_tenant_desc, on_tenant, put_back}
use tiflash_autoscale.Meta.Setup.{update_local_meta_pod_of_tenant}

-- supervisor.Result, what a pod answers to AssignTenant and UnassignTenant. A call that fails in
-- grpc has none.
pub record Result : Type 0 where
  pub has_err : Bool
  pub tenant_id : String
  pub start_time : ℤ
  pub is_unassigning : Bool

pub data Direction : Type 0 where
  adding removing : Direction

-- A call of addPodIntoTenant or removePodFromTenant that waits for its pods: whether it resumes or
-- pauses the tenant, the pods it took, those among them that have not answered, those that it will
-- put back, and its count of failures.
pub record Call : Type 0 where
  pub direction : Direction
  pub tenant : String
  pub changes_state : Bool
  pub started : List ℕ
  pub todo : List ℕ
  pub undo_list : List ℕ
  pub cnt : ℕ

-- A call that has been asked for. The program starts it as a goroutine, or calls it at once.
pub record Request : Type 0 where
  pub direction : Direction
  pub tenant : String
  pub changes_state : Bool
  pub cnt : ℤ

-- What a beginning comes to: -1 is returned, the program panics, or pods are asked.
pub data Begun : Type 0 where
  refused panics : Begun
  begun : AutoScaleMeta → Call → Begun

unfoldable pub store_is_state_changing : Bool → List ℕ → PodHeap → PodHeap
store_is_state_changing b [] h = h
store_is_state_changing b (p ∷ ps) h =
    store_is_state_changing b ps (update h p (record (h p) { is_state_changing = b }))

abbrev pub mark : Bool → List ℕ → AutoScaleMeta → AutoScaleMeta
mark b ps c = record c { heap = store_is_state_changing b ps c.heap }

-- The state that a call expects of its tenant.
unfoldable pub expected_state : Direction → Bool → TenantState
expected_state adding true = resuming
expected_state removing true = pausing
expected_state _ false = resumed

abbrev pub begin_add : ℤ → String → Bool → ℕ → AutoScaleMeta → Begun
begin_add now tenant is_resume add_cnt c =
    let (h, pool, fail_cnt, pods) = get_warmed_pods now tenant add_cnt c.heap c.prewarm_pool in
    begun (mark true pods (record c { heap = h; prewarm_pool = pool })) (record {
      direction = adding;
      tenant = tenant;
      changes_state = is_resume;
      started = pods;
      todo = pods;
      undo_list = [];
      cnt = fail_cnt;
    })

unfoldable pub add_begin : ℤ → String → Bool → ℤ → AutoScaleMeta → Begun
unfolding expected_state
add_begin now tenant is_resume add_cnt c = elim (get_tenant_desc tenant c) [
  | none ↦ refused
  | some t ↦
      if state_eq t.state (expected_state adding is_resume)
      then elim add_cnt [ pos n ↦ begin_add now tenant is_resume n c | negsuc n ↦ panics ]
      else refused
]

-- PopPods and, where the tenant is paused, SyncStatePaused, on one descriptor.
abbrev pub pop_and_pause : ℤ → Bool → ℕ → PodHeap → TenantDesc → PodHeap × TenantDesc
pop_and_pause now is_pause cnt h t =
    let (h', t', left, pods) = pop_pods now cnt [] h t in
    (h', if is_pause then (sync_state_paused t').0 else t')

abbrev pub begin_remove : ℤ → String → Bool → ℕ → TenantDesc → AutoScaleMeta → Begun
begin_remove now tenant is_pause remove_cnt t c =
    let (h', t', left, pods) = pop_pods now remove_cnt [] c.heap t in
    begun (mark true pods (on_tenant tenant (pop_and_pause now is_pause remove_cnt) c)) (record {
      direction = removing;
      tenant = tenant;
      changes_state = is_pause;
      started = pods;
      todo = pods;
      undo_list = [];
      cnt = left;
    })

unfoldable pub remove_begin : ℤ → String → Bool → ℤ → AutoScaleMeta → Begun
unfolding expected_state
remove_begin now tenant is_pause remove_cnt c = elim (get_tenant_desc tenant c) [
  | none ↦ refused
  | some t ↦
      if state_eq t.state (expected_state removing is_pause)
      then (if is_pause
          then begin_remove now tenant is_pause (get_cnt_of_pods t) t c
          else elim remove_cnt [
            | pos n ↦ begin_remove now tenant is_pause n t c
            | negsuc n ↦ panics
          ])
      else refused
]

unfoldable pub begin_call : ℤ → Request → AutoScaleMeta → Begun
begin_call now r c = elim r.direction [
  | adding ↦ add_begin now r.tenant r.changes_state r.cnt c
  | removing ↦ remove_begin now r.tenant r.changes_state r.cnt c
]

-- The loop over the undo list of addPodIntoTenant.
unfoldable pub undo_add : ℤ → String → List ℕ → AutoScaleMeta → AutoScaleMeta
undo_add now tenant [] c = c
undo_add now tenant (p ∷ ps) c =
    undo_add now tenant ps
      (if Dict.has (c.heap p).name c.pod_desc_map then put_back now tenant p false c else c)

-- The loop over the undo list of removePodFromTenant.
unfoldable pub undo_remove : String → List ℕ → AutoScaleMeta → AutoScaleMeta
undo_remove tenant [] c = c
undo_remove tenant (p ∷ ps) c = undo_remove tenant ps (
    if Dict.has (c.heap p).name c.pod_desc_map
    then on_tenant tenant (set_pod (c.heap p).name p) c
    else c)

-- The end of a call: the meta data, and the number that is returned.
unfoldable pub finish_call : ℤ → Call → AutoScaleMeta → AutoScaleMeta × ℕ
unfolding undo_add undo_remove
finish_call now k c = elim k.direction [
  | adding ↦
      let c1 = undo_add now k.tenant k.undo_list c in
      let c2 =
        if k.changes_state
        then on_tenant k.tenant (λ h t. (h, (sync_state_resumed t).0)) c1
        else c1 in
      (mark false k.started c2, k.cnt + length k.undo_list)
  | removing ↦
      (mark false k.started (undo_remove k.tenant k.undo_list c), k.cnt + length k.undo_list)
]
