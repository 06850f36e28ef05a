-- ===== src/Samples/ServerExamples.antt =====
-- The theorems on the servers' answers, for the tenant of the sample run: it has a pod, and then it is
-- paused.
use tiflash_autoscale.Prelude.{◌⊎◌, ◌≡◌, refl, none, some}
use tiflash_autoscale.Dict
use tiflash_autoscale.Resize.World.{World}
use tiflash_autoscale.Tenant.{TenantDesc}
use tiflash_autoscale.Samples.{whole, settings}
use tiflash_autoscale.Samples.Run.{w6}
use tiflash_autoscale.Prelude.{arith}
use tiflash_autoscale.Prelude.{ℕ, ◌*◌, true, false}
use tiflash_autoscale.Meta.{get_topology}
use tiflash_autoscale.Server.{
  Turn, ResumeAndGetTopologyResult, ResumeAndGetTopologyResponse, is_empty,
  http_resume_and_get_topology, rpc_resume_and_get_topology,
}
use tiflash_autoscale.Server.Polling.{
  pause_ns, after_sleeps, after_turns, Lacks, in_time, rpc_in_time, EndsAt,
}
use tiflash_autoscale.Server.{resume, register_if_new}
use tiflash_autoscale.Prelude.{◌≤◌, ◌<◌, not, Bool, if◌then◌else◌}
use tiflash_autoscale.Meta.{get_tenant_state}
use tiflash_autoscale.Tenant.{tenant_state_to_string}
use tiflash_autoscale.Server.Answers.{http_answers, rpc_answers}
use tiflash_autoscale.Samples.Run.{w7}
use tiflash_autoscale.Prelude.{Option}

abbrev idle : World whole → World whole × Option ℕ
idle w = (w, some 0)

abbrev turns : ℕ → Turn whole
turns i = record { time = i * pause_ns; others = λ w. w; answer = idle }

abbrev tenant : TenantDesc
tenant = elim (Dict.lookup "t1" w6.meta.tenant_map) [
  | none ↦ w6.meta.prewarm_pool.warmed_pods
  | some t ↦ t
]

abbrev first : World whole × Bool
first = resume whole settings idle "t1" (register_if_new whole settings "t1" w7)

abbrev at : ℕ → World whole × Bool
at = after_sleeps whole settings turns "t1" first

http_answers_example :
    (n : ℕ) × (r : ResumeAndGetTopologyResult) × (n ≤ 150)
    × (http_resume_and_get_topology whole settings idle turns 151 0 9 "t1" w7 ≡ some ((at n).0, r))
    × EndsAt whole settings turns "t1" (λ i. (at i).0) (in_time whole settings turns "t1" 0) n
    × (r.topology ≡ get_topology "t1" (at n).0.meta)
    × (r.state ≡ tenant_state_to_string (get_tenant_state "t1" first.0.meta).1)
    × (r.has_error ≡ (if (at n).1 then 0 else 1))
    × (r.error_info ≡ (if (at n).1 then "" else "resume failed"))
http_answers_example =
    http_answers whole settings idle turns "t1" w7 (λ i. omega arith) 0 9 refl refl (omega arith)

abbrev rpc_first : World whole × Bool
rpc_first = resume whole settings idle "t1" w7

abbrev rpc_at : ℕ → World whole
rpc_at = after_turns turns rpc_first.0

rpc_answers_example :
    let result = rpc_resume_and_get_topology whole settings idle turns 611 0 "t1" w7 in
    (r : ResumeAndGetTopologyResponse) × ((((get_tenant_state "t1" rpc_first.0.meta).0 ≡ false)
        × (result ≡ some (rpc_first.0, r))
        × (r.topology ≡ none)
        × (r.has_err ≡ true)
        × (r.err_info ≡ "no such tidb-cluster"))
      ⊎ (((get_tenant_state "t1" rpc_first.0.meta).0 ≡ true)
          × (n : ℕ) × (n ≤ 610)
          × (result ≡ some (rpc_at n, r))
          × ((j : ℕ)
              → j < n
              → Lacks whole settings turns "t1" (rpc_at j)
                × (rpc_in_time whole settings turns "t1" 0 j ≡ true))
          × (((rpc_in_time whole settings turns "t1" 0 n ≡ true)
                × (r.topology ≡ some (get_topology "t1" (rpc_at n).meta))
                × (is_empty (get_topology "t1" (rpc_at n).meta) ≡ false)
                × (r.has_err ≡ not rpc_first.1)
                × (r.err_info ≡ (if rpc_first.1 then "" else "resume failed")))
              ⊎ ((rpc_in_time whole settings turns "t1" 0 n ≡ false)
                  × (r.topology ≡ none)
                  × (r.has_err ≡ true)
                  × (r.err_info ≡ "timeout")))))
rpc_answers_example =
    rpc_answers whole settings idle turns "t1" w7 (λ i. omega arith) 0 (omega arith)
