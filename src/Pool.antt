-- ===== src/Pool.antt =====
-- autoscale/meta.go: PrewarmPool, whose pods wait for a tenant. Its mutex makes getWarmedPods and
-- putWarmedPod one step each. The numbers of pods that are asked for are not negative: the
-- program panics when it reserves room for fewer than none.
pub mod Take
use tiflash_autoscale.Prelude.{
  ℕ, zero, suc, ℤ, pos, ◌-ℤ◌, ◌<ℤ◌, ltb_ℤ, int32, String, str_eq, Bool, true, false, ◌&&◌, Option,
  none, some, List, [], ◌∷◌, ◌++◌, ◌+◌, if◌then◌else◌,
}
use tiflash_autoscale.Dict
use tiflash_autoscale.Dict.{Dict}
use tiflash_autoscale.Float.{Float64}
use tiflash_autoscale.Config.{Settings}
use tiflash_autoscale.Config.{get_max_cnt_of_pod}
use tiflash_autoscale.Pod.{PodDesc, PodHeap}
use tiflash_autoscale.Tenant.{TenantDesc, get_pod_names, remove_pod, set_pod}

pub record PrewarmPoolOpResult : Type 0 where
  pub fail_cnt : ℕ
  pub last_ts : ℤ

pub record PrewarmPool : Type 0 where
  pub warmed_pods : TenantDesc
  pub cnt_of_pending : ℤ
  pub tenant_last_op_result_map : Dict PrewarmPoolOpResult
  pub soft_limit : ℤ

unfoldable pub new_prewarm_pool : (fl : Float64) → Settings fl → TenantDesc → PrewarmPool
new_prewarm_pool fl g warmed_pods = record {
  warmed_pods = warmed_pods;
  cnt_of_pending = pos 0;
  tenant_last_op_result_map = [];
  soft_limit = get_max_cnt_of_pod fl g warmed_pods.conf;
}

-- The loop of getWarmedPods over the names.
unfoldable pub take_pods :
    ℤ → List String → ℕ → List ℕ → PodHeap → TenantDesc → PodHeap × TenantDesc × ℕ × List ℕ
take_pods now [] cnt acc h c = (h, c, cnt, acc)
take_pods now (k ∷ ks) zero acc h c = (h, c, zero, acc)
take_pods now (k ∷ ks) (suc cnt) acc h c =
    let (h', c', v) = remove_pod now k h c in
    elim v [
      | none ↦ take_pods now ks (suc cnt) acc h' c'
      | some p ↦ take_pods now ks cnt (acc ++ p ∷ []) h' c'
    ]

-- The note of a tenant's last call, which a call for no tenant leaves out.
abbrev pub note_op_result : ℤ → String → ℕ → PrewarmPool → PrewarmPool
note_op_result now tenant_name fail_cnt p = if str_eq tenant_name "" then p else record p {
  tenant_last_op_result_map =
      Dict.insert tenant_name (record { fail_cnt = fail_cnt; last_ts = now })
        p.tenant_last_op_result_map;
}

-- The heap, the pool, how many pods are missing, and the pods.
unfoldable pub get_warmed_pods :
    ℤ → String → ℕ → PodHeap → PrewarmPool → PodHeap × PrewarmPool × ℕ × List ℕ
unfolding take_pods
get_warmed_pods now tenant_name cnt h p =
    let (h', c', left, pods) =
      take_pods now (get_pod_names h p.warmed_pods) cnt [] h p.warmed_pods in
    (h', note_op_result now tenant_name left (record p { warmed_pods = c' }), left, pods)

-- A pod that was waited for is no longer pending.
abbrev arrive : Bool → ℤ → ℤ
arrive is_new_pod pending =
    if is_new_pod && ltb_ℤ (pos 0) pending then int32 (pending -ℤ pos 1) else pending

unfoldable pub put_warmed_pod :
    ℤ → String → ℕ → Bool → PodHeap → PrewarmPool → PodHeap × PrewarmPool
put_warmed_pod now from_tenant_name pod is_new_pod h p =
    let (h', c') = set_pod (h pod).name pod h p.warmed_pods in
    (
      h',
      note_op_result now from_tenant_name 0
          (record p { warmed_pods = c'; cnt_of_pending = arrive is_new_pod p.cnt_of_pending }),
    )
