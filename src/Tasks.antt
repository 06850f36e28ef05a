-- ===== src/Tasks.antt =====
-- autoscale/cluster.go: manageAnalyzeTasks, which keeps a task for every tenant in analyzeTaskMap. A task
-- is a goroutine that runs analyzeTaskLoop until it is told to end; it then takes itself out of the map.
pub mod Managed
use tiflash_autoscale.Prelude.{
  ℕ, zero, suc, String, Bool, true, false, not, List, [], ◌∷◌, if◌then◌else◌,
}
use tiflash_autoscale.Dict
use tiflash_autoscale.Dict.{Dict}
use tiflash_autoscale.Tenant.{TenantDesc}

-- The tenant is the name of its descriptor; the map that a task refers to is the one it stands in.
pub record AnalyzeTask : Type 0 where
  pub tenant : String
  pub end_syn : Bool
  pub end_fin : Bool

abbrev pub new_analyze_task : String → AnalyzeTask
new_analyze_task tenant = record { tenant = tenant; end_syn = false; end_fin = false }

-- The second part says whether the task had not been told before.
unfoldable pub shutdown_task : AnalyzeTask → AnalyzeTask × Bool
shutdown_task t = if t.end_syn then (t, false) else (record t { end_syn = true }, true)

-- tenantSet.
unfoldable pub tenant_set : List TenantDesc → Dict Bool → Dict Bool
tenant_set [] s = s
tenant_set (t ∷ ts) s = tenant_set ts (Dict.insert t.name true s)

-- Tasks for new tenants.
unfoldable pub create_tasks : List TenantDesc → Dict AnalyzeTask → Dict AnalyzeTask
create_tasks [] m = m
create_tasks (t ∷ ts) m =
    create_tasks ts
      (if Dict.has t.name m then m else Dict.insert t.name (new_analyze_task t.name) m)

-- A loop over analyzeTaskMap that shuts down the tasks of which a test on their keys holds.
unfoldable pub shutdown_where : (String → Bool) → Dict AnalyzeTask → Dict AnalyzeTask
shutdown_where test [] = []
shutdown_where test ((k, t) ∷ m) =
    (k, if test k then (shutdown_task t).0 else t) ∷ shutdown_where test m

-- A round, of which `shutdown` is the last one.
unfoldable pub manage_analyze_tasks : Bool → List TenantDesc → Dict AnalyzeTask → Dict AnalyzeTask
manage_analyze_tasks shutdown tenants m =
    if shutdown
    then shutdown_where (λ k. true) m
    else (let set = tenant_set tenants [] in
        shutdown_where (λ k. not (Dict.has k set)) (create_tasks tenants m))

-- What the task of a name does at its loop's test, if it is told to end.
unfoldable pub finish_task : String → Dict AnalyzeTask → Dict AnalyzeTask
finish_task k m = Dict.remove k m
