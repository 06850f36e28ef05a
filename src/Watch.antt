-- ===== src/Watch.antt =====
-- autoscale/cluster.go: watchPodsLoop and loadPods, what Kubernetes tells of pods; and
-- autoscale/meta.go: ApiGetCurrentTenantAndCorrect, what a pod tells of its tenant. The watch, the
-- list of pods and the pod's answer are arguments.
use tiflash_autoscale.Prelude.{
  ℕ, ℤ, eq_ℤ, String, str_eq, Bool, true, not, ◌&&◌, ◌||◌, Option, none, some, List, [], ◌∷◌,
  if◌then◌else◌,
}
use tiflash_autoscale.Dict
use tiflash_autoscale.Dict.{Dict}
use tiflash_autoscale.Float.{Float64}
use tiflash_autoscale.Config.{Settings}
use tiflash_autoscale.Meta.{
  AutoScaleMeta, update_pod, handle_k8s_del_pod_event, try_to_remove_expired_pod,
}
use tiflash_autoscale.Meta.Setup.{update_local_meta_pod_of_tenant}

-- What the program reads of a pod: its name and its address.
pub record Pod : Type 0 where
  pub name : String
  pub ip : String

-- watch.EventType.
pub data EventType : Type 0 where
  added modified deleted error bookmark : EventType

-- The switch of watchPodsLoop.
unfoldable pub handle_event : ℤ → EventType → Pod → AutoScaleMeta → AutoScaleMeta
handle_event now added pod c = update_pod now pod.name pod.ip c
handle_event now modified pod c = update_pod now pod.name pod.ip c
handle_event now deleted pod c = (handle_k8s_del_pod_event now pod.name c).0
handle_event now error pod c = c
handle_event now bookmark pod c = c

unfoldable pub update_all : ℤ → List Pod → AutoScaleMeta → AutoScaleMeta
update_all now [] c = c
update_all now (pod ∷ pods) c = update_all now pods (update_pod now pod.name pod.ip c)

unfoldable pub pod_set : List Pod → Dict Bool → Dict Bool
pod_set [] set = set
pod_set (pod ∷ pods) set = pod_set pods (Dict.insert pod.name true set)

-- loadPods, of the pods that the list call gives.
unfoldable pub load_pods : ℤ → List Pod → AutoScaleMeta → AutoScaleMeta
unfolding update_all pod_set
load_pods now items c = try_to_remove_expired_pod now (pod_set items []) (update_all now items c)

-- supervisor.GetTenantResponse.
pub record GetTenantResponse : Type 0 where
  pub tenant_id : String
  pub start_time : ℤ
  pub is_unassigning : Bool

-- Whether a pod is asked for its tenant: TryLock has the pod's mutex, and no call is changing the pod.
abbrev pub may_ask : Bool → ℕ → AutoScaleMeta → Bool
may_ask try_lock p c = try_lock && not (c.heap p).is_state_changing

-- The tenant and the time that the answer of a pod would give it, if they are to be written: what the
-- pod names is read without the mutex of the meta data. Without an answer the call failed.
unfoldable pub correction :
    ℕ → Bool → Option GetTenantResponse → AutoScaleMeta → Option (String × ℤ)
correction p at_startup none c = none
correction p at_startup (some resp) c =
    let pod = c.heap p in
    if (at_startup || not (str_eq pod.tenant_name ""))
      && (not resp.is_unassigning
          && (not (str_eq pod.tenant_name resp.tenant_id)
              || not (eq_ℤ pod.start_time_of_assign resp.start_time)))
    then some (resp.tenant_id, resp.start_time)
    else none

-- The whole of it, where nothing comes between its parts.
unfoldable pub api_get_current_tenant_and_correct :
    (fl : Float64)
    → Settings fl
    → Bool
    → ℤ
    → ℕ
    → Bool
    → Option GetTenantResponse
    → AutoScaleMeta
    → AutoScaleMeta
unfolding correction
api_get_current_tenant_and_correct fl g try_lock now p at_startup answer c =
    if not (may_ask try_lock p c) then c else elim (correction p at_startup answer c) [
      | none ↦ c
      | some (tenant, start_time) ↦ update_local_meta_pod_of_tenant fl g now p tenant start_time c
    ]
