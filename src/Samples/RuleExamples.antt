-- ===== src/Samples/RuleExamples.antt =====
-- The theorems on configurations, on the rule, on the Kubernetes API and on lists of pods, at small
-- inputs.
use mathlib.Core.List.{reverse}
use tiflash_autoscale.Prelude.{
  ℕ, pos, negsuc, ◌+ℤ◌, ◌-ℤ◌, ◌*ℤ◌, ◌/ℤ◌, ◌≤ℤ◌, ◌+◌, max_ℤ, int32, length, ◌==◌, zero, suc,
  if◌then◌else◌, ◌≡◌, ◌⊎◌, refl, true, false, none, some, List, [], ◌∷◌, ◌++◌, arith,
}
use tiflash_autoscale.Dict
use tiflash_autoscale.Config.{
  ConfigOfComputeCluster, get_init_cnt_of_pod, get_min_cnt_of_pod, get_max_cnt_of_pod,
  auto_pause_config,
}
use tiflash_autoscale.Config.Bounds.{init_in_range}
use tiflash_autoscale.Pod.{PodHeap}
use tiflash_autoscale.Tenant.{
  TenantDesc, resumed, get_cnt_of_pods, pop_pods, new_auto_pause_tenant_desc_with_state,
}
use tiflash_autoscale.Tenant.Pop.{pop_pods_lem}
use tiflash_autoscale.Pool.{PrewarmPool, new_prewarm_pool, put_warmed_pod}
use tiflash_autoscale.Meta.{AutoScaleMeta}
use tiflash_autoscale.ScaleRule.{compute_best_pods_in_rule_of_compute}
use tiflash_autoscale.ScaleRule.Bounds.{limit_usage, rule_bounds}
use tiflash_autoscale.Cluster.{
  warm_remove, CloneSet, Api, add_new_pods, remove_pods, deletion, recent_fail_cnt, warm_delta,
  warm_add, handle_clone_set_api_error,
}
use tiflash_autoscale.Cluster.Retry.{Base, grown, add_new_pods_once, remove_pods_once}
use tiflash_autoscale.Tenant.Consistent.{Consistent}
use tiflash_autoscale.Resize.Safety.{Reachable-Safe}
use tiflash_autoscale.Meta.Desc.{get_tenant_desc_or_warmed_pool}
use tiflash_autoscale.Cluster.Limit.{warm_remove_keeps_limit}
use tiflash_autoscale.Cluster.Warm.{warm_settles, warm_reverts, arrival_keeps_delta}
use tiflash_autoscale.Samples.{whole, settings}
use tiflash_autoscale.Samples.Run.{w3, r3}

abbrev config : ConfigOfComputeCluster
config = auto_pause_config whole settings (pos 2) (pos 4)

init_in_range_example :
    (get_min_cnt_of_pod whole settings config ≤ℤ get_init_cnt_of_pod whole settings config)
    × (get_init_cnt_of_pod whole settings config ≤ℤ get_max_cnt_of_pod whole settings config)
init_in_range_example =
    init_in_range whole settings config (unfold auto_pause_config ◌*ℤ◌ in omega arith) (omega arith)
      (unfold auto_pause_config ◌*ℤ◌ in omega arith)

-- A tenant with two pods, of the default bounds 2 and 4.
abbrev two_pods : TenantDesc
two_pods = record {
  name = "t1";
  pod_map = ("a", 0) ∷ ("b", 1) ∷ [];
  pod_list = 0 ∷ 1 ∷ [];
  state = resumed;
  conf = config;
  ref_of_latest_conf = none;
}

abbrev pods : PodHeap
pods p = record {
  name = elim p [ zero ↦ "a" | suc n ↦ "b" ];
  ip = "10.0.0.1";
  tenant_name = "t1";
  start_time_of_assign = pos 0;
  is_state_changing = false;
}

-- The use of 40 cores is above the limit of 4 times 8 cores.
rule_bounds_example :
    let r =
      compute_best_pods_in_rule_of_compute whole settings
        (some two_pods)
        (pos 40)
        (pos 2)
        (pos 4) in
    (r ≡ (negsuc 0, pos 0))
    ⊎ ((r.1 ≡ r.0 -ℤ pos (get_cnt_of_pods two_pods))
        × (get_min_cnt_of_pod whole settings config ≤ℤ r.0)
        × (r.0 ≤ℤ get_max_cnt_of_pod whole settings config)
        × (((whole.lt (limit_usage whole settings (pos 4)) (pos 40) ≡ true)
              × (pos (get_cnt_of_pods two_pods) ≤ℤ r.0))
            ⊎ ((whole.lt (pos 40) (limit_usage whole settings (pos 2)) ≡ true)
                × (r.0 ≤ℤ pos (get_cnt_of_pods two_pods)))))
rule_bounds_example =
    rule_bounds whole settings two_pods (pos 40) (pos 2) (pos 4)
      (unfold auto_pause_config get_min_cnt_of_pod get_cnt_of_pods ◌*ℤ◌ ◌/ℤ◌ max_ℤ in omega arith)
      (unfold auto_pause_config get_max_cnt_of_pod get_cnt_of_pods ◌*ℤ◌ ◌/ℤ◌ max_ℤ in omega arith)

pop_pods_lem_example :
    let r = pop_pods (pos 9) 1 [] pods two_pods in
    (popped : List ℕ) × (r.3 ≡ [] ++ popped)
    × (two_pods.pod_list ≡ r.1.pod_list ++ reverse popped)
    × (r.2 + length popped ≡ 1)
    × ((r.2 ≡ 0) ⊎ (r.1.pod_list ≡ []))
pop_pods_lem_example = pop_pods_lem (pos 9) 1 [] pods two_pods

abbrev t1_of : AutoScaleMeta → TenantDesc
t1_of c = elim (Dict.lookup "t1" c.tenant_map) [ none ↦ c.prewarm_pool.warmed_pods | some t ↦ t ]

-- An API that refuses the first update and then agrees.
abbrev api : ℕ → Api
api n = record {
  update = λ c. if n == 1 then some c else none;
  get = some (record { replicas = pos 3; pods_to_delete = [] });
}

abbrev agreeing : ℕ → Api
agreeing n = record { update = λ c. some c; get = none }

abbrev refusing : ℕ → Api
refusing n = record { update = λ c. none; get = none }

abbrev known_set : CloneSet
known_set = record { replicas = pos 2; pods_to_delete = [] }

abbrev five : CloneSet
five = record { replicas = pos 5; pods_to_delete = [] }

add_new_pods_once_example :
    (base : CloneSet) × (i : ℕ) × Base api known_set base
    × ((api i).update (grown (pos 2) base) ≡ some five)
    × (five ≡ five)
unfolding add_new_pods handle_clone_set_api_error int32 ◌+ℤ◌
add_new_pods_once_example = add_new_pods_once api (pos 2) 2 known_set five five refl

abbrev without_a : CloneSet
without_a = record { replicas = pos 2; pods_to_delete = "a" ∷ [] }

remove_pods_once_example :
    (base : CloneSet) × (i : ℕ) × Base api known_set base
    × ((api i).update (deletion ("a" ∷ []) base) ≡ some without_a)
    × (known_set ≡ record without_a { pods_to_delete = [] })
unfolding remove_pods handle_clone_set_api_error int32 ◌-ℤ◌
remove_pods_once_example = remove_pods_once api ("a" ∷ []) 2 known_set without_a known_set refl

-- An empty pool with room for two pods.
abbrev pool : PrewarmPool
pool =
    new_prewarm_pool whole settings
      (new_auto_pause_tenant_desc_with_state whole settings "" (pos 0) (pos 2) resumed)

abbrev four : CloneSet
four = record { replicas = pos 4; pods_to_delete = [] }

warm_settles_example :
    (warm_delta
      (pos 9)
      (warm_add agreeing (warm_delta (pos 9) pool).1 (warm_delta (pos 9) pool).0 known_set).0).1
    ≡ pos 0
unfolding new_prewarm_pool new_auto_pause_tenant_desc_with_state auto_pause_config
    get_max_cnt_of_pod get_cnt_of_pods recent_fail_cnt warm_delta add_new_pods
    handle_clone_set_api_error int32 Dict.lookup ◌+ℤ◌ ◌-ℤ◌ ◌*ℤ◌ ◌/ℤ◌ max_ℤ
warm_settles_example =
    warm_settles agreeing (pos 9) pool known_set four four (omega arith, omega arith)
      (omega arith, omega arith) refl

warm_reverts_example : warm_add refusing (pos 2) pool known_set ≡ (pool, known_set)
unfolding new_prewarm_pool new_auto_pause_tenant_desc_with_state auto_pause_config
    get_max_cnt_of_pod get_cnt_of_pods recent_fail_cnt warm_delta add_new_pods
    handle_clone_set_api_error int32 Dict.lookup ◌+ℤ◌ ◌-ℤ◌ ◌*ℤ◌ ◌/ℤ◌ max_ℤ
warm_reverts_example =
    warm_reverts refusing (pos 2) pool known_set known_set (omega arith, omega arith)
      (omega arith, omega arith) (omega arith, omega arith) (omega arith, omega arith) refl

abbrev waiting_pool : PrewarmPool
waiting_pool = record pool { cnt_of_pending = pos 2 }

arrival_keeps_delta_example :
    (warm_delta (pos 9) (put_warmed_pod (pos 9) "" 0 true pods waiting_pool).1).1
    ≡ (warm_delta (pos 9) waiting_pool).1
unfolding new_prewarm_pool new_auto_pause_tenant_desc_with_state auto_pause_config
    get_max_cnt_of_pod get_cnt_of_pods recent_fail_cnt warm_delta add_new_pods
    handle_clone_set_api_error int32 Dict.lookup ◌+ℤ◌ ◌-ℤ◌ ◌*ℤ◌ ◌/ℤ◌ max_ℤ
arrival_keeps_delta_example =
    arrival_keeps_delta (pos 9) 0 pods waiting_pool refl (omega arith) (omega arith, omega arith)

-- The pool of the sample run with one pod, under a limit of none.
abbrev full_pool : PrewarmPool
full_pool = record w3.meta.prewarm_pool { soft_limit = pos 0 }

full_pool-Consistent : Consistent w3.meta.heap full_pool.warmed_pods
unfolding get_tenant_desc_or_warmed_pool
full_pool-Consistent =
    ((Reachable-Safe whole settings w3 r3).good.owned "" w3.meta.prewarm_pool.warmed_pods refl).0

warm_remove_keeps_limit_example :
    pos 0
    ≤ℤ pos (
        get_cnt_of_pods
          (warm_remove agreeing (pos 9) (negsuc 0) w3.meta.heap full_pool known_set).1.warmed_pods)
warm_remove_keeps_limit_example =
    warm_remove_keeps_limit agreeing (pos 9) (negsuc 0) w3.meta.heap full_pool known_set
      full_pool-Consistent (omega arith)
