-- ===== src/Startup.antt =====
-- autoscale/meta.go: ScanStateOfPods, which asks the pods for their tenants, and SortPodsAtStartUp. The
-- pods' answers are an argument, and so is whether TryLock succeeds; the goroutines, one for each pod,
-- come one after the other. sort.Slice may leave pods of the same time in any order: here they stay as
-- they were.
pub mod Sorted
pub mod Kept
use tiflash_autoscale.Prelude.{
  ℕ, ℤ, leb_ℤ, String, str_eq, Bool, true, false, Option, none, some, List, [], ◌∷◌, if◌then◌else◌,
}
use tiflash_autoscale.Dict.{Dict}
use tiflash_autoscale.Float.{Float64}
use tiflash_autoscale.Config.{Settings}
use tiflash_autoscale.Pod.{PodHeap}
use tiflash_autoscale.Tenant.{TenantDesc}
use tiflash_autoscale.Meta.{AutoScaleMeta}
use tiflash_autoscale.Watch.{GetTenantResponse, api_get_current_tenant_and_correct}

-- The comparison of the sort, on the heap.
abbrev pub starts_by : PodHeap → ℕ → ℕ → Bool
starts_by h p q = leb_ℤ (h p).start_time_of_assign (h q).start_time_of_assign

unfoldable pub insert_by_start : PodHeap → ℕ → List ℕ → List ℕ
insert_by_start h p [] = p ∷ []
insert_by_start h p (q ∷ qs) =
    let rest = insert_by_start h p qs in if starts_by h p q then p ∷ q ∷ qs else q ∷ rest

unfoldable pub sort_by_start : PodHeap → List ℕ → List ℕ
sort_by_start h [] = []
sort_by_start h (p ∷ ps) = insert_by_start h p (sort_by_start h ps)

unfoldable pub sort_pods_at_start_up : PodHeap → TenantDesc → TenantDesc
sort_pods_at_start_up h t = record t { pod_list = sort_by_start h t.pod_list }

-- The loop over GetTenants.
unfoldable pub sort_tenants : PodHeap → Dict TenantDesc → Dict TenantDesc
sort_tenants h [] = []
sort_tenants h ((k, t) ∷ m) = (k, sort_pods_at_start_up h t) ∷ sort_tenants h m

module _ (fl : Float64) (g : Settings fl) where
  -- The loop over a copy of PodDescMap; a pod without an address is not asked.
  unfoldable pub scan_pods :
      (ℕ → Bool)
      → ℤ
      → Bool
      → (ℕ → Option GetTenantResponse)
      → Dict ℕ
      → AutoScaleMeta
      → AutoScaleMeta
  scan_pods try_lock now at_start_up answer [] c = c
  scan_pods try_lock now at_start_up answer ((k, p) ∷ m) c =
      scan_pods try_lock now at_start_up answer m (
        if str_eq (c.heap p).ip ""
        then c
        else api_get_current_tenant_and_correct fl g (try_lock p) now p at_start_up (answer p) c)

  unfoldable pub scan_state_of_pods :
      (ℕ → Bool) → ℤ → Bool → (ℕ → Option GetTenantResponse) → AutoScaleMeta → AutoScaleMeta
  scan_state_of_pods try_lock now at_start_up answer c =
      let c' = scan_pods try_lock now at_start_up answer c.pod_desc_map c in
      if at_start_up then record c' { tenant_map = sort_tenants c'.heap c'.tenant_map } else c'
