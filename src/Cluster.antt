-- ===== src/Cluster.antt =====
-- autoscale/cluster.go: addNewPods and removePods, and autoscale/meta.go: DoPodsWarm, which keeps the
-- pool of free pods at its limit. The Kubernetes API is an argument: what it answers at each attempt.
pub mod Retry
pub mod Warm
pub mod Limit
use tiflash_autoscale.Prelude.{
  ℕ, zero, suc, ℤ, pos, ◌+ℤ◌, ◌-ℤ◌, ltb_ℤ, min_ℤ, pos_part, int32, String, Bool, true, false,
  Option, none, some, is_some, List, [], ◌∷◌, ◌+◌, map, length, if◌then◌else◌,
}
use tiflash_autoscale.Dict
use tiflash_autoscale.Dict.{Dict}
use tiflash_autoscale.Pod.{PodHeap}
use tiflash_autoscale.Tenant.{get_cnt_of_pods}
use tiflash_autoscale.Pool.{PrewarmPool, PrewarmPoolOpResult, get_warmed_pods, put_warmed_pod}

-- What the program reads and writes of a CloneSet: Spec.Replicas and
-- Spec.ScaleStrategy.PodsToDelete.
pub record CloneSet : Type 0 where
  pub replicas : ℤ
  pub pods_to_delete : List String

-- What the API does with an Update and with the Get that follows a failed one; none is an error.
pub record Api : Type 0 where
  pub update : CloneSet → Option CloneSet
  pub get : Option CloneSet

-- handleCloneSetApiError: the CloneSet to go on with, and whether it is a fresh one.
unfoldable pub handle_clone_set_api_error : Option CloneSet → CloneSet → CloneSet × Bool
handle_clone_set_api_error got c = elim got [ none ↦ (c, false) | some latest ↦ (latest, true) ]

-- The API is given by the number of retries that are left. The result is the manager's CloneSet,
-- and the one that the call returns, if it does not fail.
unfoldable pub add_new_pods : (ℕ → Api) → ℤ → ℕ → CloneSet → CloneSet × Option CloneSet
unfolding handle_clone_set_api_error
add_new_pods api delta zero c =
    elim ((api 0).update (record c { replicas = int32 (c.replicas +ℤ delta) })) [
      | none ↦ ((handle_clone_set_api_error (api 0).get c).0, none)
      | some ret ↦ (ret, some ret)
    ]
add_new_pods api delta (suc retry_cnt) c =
    let (latest, handled) = handle_clone_set_api_error (api (suc retry_cnt)).get c in
    let again = add_new_pods api delta retry_cnt latest in
    elim ((api (suc retry_cnt)).update (record c { replicas = int32 (c.replicas +ℤ delta) })) [
      | none ↦ if handled then again else (latest, none)
      | some ret ↦ (ret, some ret)
    ]

-- The update that asks for some pods to be deleted.
abbrev pub deletion : List String → CloneSet → CloneSet
deletion pods2del c = record {
  replicas = int32 (c.replicas -ℤ int32 (pos (length pods2del)));
  pods_to_delete = pods2del;
}

unfoldable pub remove_pods : (ℕ → Api) → List String → ℕ → CloneSet → CloneSet × Option CloneSet
unfolding handle_clone_set_api_error
remove_pods api pods2del zero c =
    let reset : CloneSet = record c { pods_to_delete = [] } in
    elim ((api 0).update (deletion pods2del c)) [
      | none ↦ ((handle_clone_set_api_error (api 0).get reset).0, none)
      | some ret ↦ (ret, some (record ret { pods_to_delete = [] }))
    ]
remove_pods api pods2del (suc retry_cnt) c =
    let reset : CloneSet = record c { pods_to_delete = [] } in
    let (latest, handled) = handle_clone_set_api_error (api (suc retry_cnt)).get reset in
    let again = remove_pods api pods2del retry_cnt latest in
    elim ((api (suc retry_cnt)).update (deletion pods2del c)) [
      | none ↦ if handled then again else (latest, none)
      | some ret ↦ (ret, some (record ret { pods_to_delete = [] }))
    ]

abbrev pub fail_cnt_check_time_window : ℕ
fail_cnt_check_time_window = 300

-- The loop over the tenants' last results: the failures of the window, and the map without the
-- results before it.
unfoldable pub recent_fail_cnt : ℤ → Dict PrewarmPoolOpResult → ℕ × Dict PrewarmPoolOpResult
recent_fail_cnt now [] = (0, [])
recent_fail_cnt now ((k, v) ∷ m) =
    let (total, rest) = recent_fail_cnt now m in
    if ltb_ℤ (now -ℤ pos fail_cnt_check_time_window) v.last_ts
    then (v.fail_cnt + total, (k, v) ∷ rest)
    else (total, rest)

-- The first half of DoPodsWarm: by how many pods the pool is short.
unfoldable pub warm_delta : ℤ → PrewarmPool → PrewarmPool × ℤ
unfolding recent_fail_cnt
warm_delta now p =
    let (fail_cnt_total, kept) = recent_fail_cnt now p.tenant_last_op_result_map in
    (
      record p { tenant_last_op_result_map = kept },
      pos fail_cnt_total
          +ℤ p.soft_limit
          -ℤ (p.cnt_of_pending +ℤ pos (get_cnt_of_pods p.warmed_pods)),
    )

-- The loop that gives pods back to the pool.
unfoldable pub put_all : ℤ → List ℕ → PodHeap → PrewarmPool → PodHeap × PrewarmPool
put_all now [] h p = (h, p)
put_all now (q ∷ qs) h p = let (h', p') = put_warmed_pod now "" q false h p in put_all now qs h' p'

-- The two branches of the second half.
unfoldable pub warm_add : (ℕ → Api) → ℤ → PrewarmPool → CloneSet → PrewarmPool × CloneSet
unfolding add_new_pods
warm_add api delta p cs =
    let pending = int32 (p.cnt_of_pending +ℤ int32 delta) in
    let (cs', ret) = add_new_pods api (int32 delta) 2 cs in
    (
      record p {
        cnt_of_pending = if is_some ret then pending else int32 (pending +ℤ int32 (pos 0 -ℤ delta));
      },
      cs',
    )

unfoldable pub warm_remove :
    (ℕ → Api) → ℤ → ℤ → PodHeap → PrewarmPool → CloneSet → PodHeap × PrewarmPool × CloneSet
unfolding remove_pods put_all
warm_remove api now delta h p cs =
    let over_cnt = pos (get_cnt_of_pods p.warmed_pods) -ℤ p.soft_limit in
    if ltb_ℤ (pos 0) over_cnt
    then (let remove_cnt = pos_part (min_ℤ (pos 0 -ℤ delta) over_cnt) in
        let (h', p', missing, pods) = get_warmed_pods now "" remove_cnt h p in
        let (cs', ret) = remove_pods api (map (λ q. (h' q).name) pods) 2 cs in
        let (h2, p2) = put_all now pods h' p' in
        if is_some ret then (h', p', cs') else (h2, p2, cs'))
    else (h, p, cs)

-- DoPodsWarm, with no other step between its parts.
unfoldable pub do_pods_warm :
    (ℕ → Api) → ℤ → PodHeap → PrewarmPool → CloneSet → PodHeap × PrewarmPool × CloneSet
unfolding warm_delta warm_add warm_remove
do_pods_warm api now h p cs =
    let (p', delta) = warm_delta now p in
    if ltb_ℤ (pos 0) delta
    then (let (p2, cs') = warm_add api delta p' cs in (h, p2, cs'))
    else if ltb_ℤ delta (pos 0)
    then warm_remove api now delta h p' cs
    else (h, p', cs)
