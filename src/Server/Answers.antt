-- ===== src/Server/Answers.antt =====
-- autoscale/http_server.go and autoscale/rpc_server.go: the answers to ResumeAndGetTopology.
use tiflash_autoscale.Prelude.{
  ℕ, ◌≤◌, ◌<◌, String, str_eq, str_eq_iff, ◌≡◌, refl, ap, true, false, not, Option, none, some,
  if◌then◌else◌, arith, Bool-cases, Option-cases, ◌⊎◌, inl, inr,
}
use tiflash_autoscale.Dict
use tiflash_autoscale.Dict.Laws.{lookup-insert}
use tiflash_autoscale.Float.{Float64}
use tiflash_autoscale.Config.{Settings}
use tiflash_autoscale.Tenant.{paused, tenant_state_to_string, new_auto_pause_tenant_desc_with_state}
use tiflash_autoscale.Meta.{get_tenant_state, get_topology}
use tiflash_autoscale.Meta.Setup.{auto_registers, setup_auto_pause_tenant_with_state}
use tiflash_autoscale.Resize.World.{World}
use tiflash_autoscale.Server.{
  Turn, is_empty, write_resp, ResumeAndGetTopologyResult, ResumeAndGetTopologyResponse, resume,
  register_if_new, http_resume_and_get_topology, rpc_resume_and_get_topology,
}
use tiflash_autoscale.Server.Polling.{
  Ticks, after_sleeps, after_turns, Lacks, in_time, rpc_in_time, EndsAt, wait_topology-EndsAt,
  rpc_wait_topology-EndsAt,
}

module _ (fl : Float64) (g : Settings fl) where
  -- A run mode that registers tenants leaves none unknown.
  register_known :
      (tenant : String) (w : World fl)
      → auto_registers g.option_run_mode ≡ true
      → (get_tenant_state tenant (register_if_new fl g tenant w).meta).0 ≡ true
  unfolding register_if_new get_tenant_state setup_auto_pause_tenant_with_state
  register_known tenant w a = elim (Option-cases (Dict.lookup tenant w.meta.tenant_map)) [
    | inr (t, n) ↦ ground (arith, n)
    | inl n ↦ ground (
      arith,
      n,
      a,
      str_eq_iff tenant tenant,
      lookup-insert tenant tenant
          (new_auto_pause_tenant_desc_with_state fl g tenant g.default_min_cnt_of_pod
            g.default_max_cnt_of_pod paused)
          w.meta.tenant_map,
    )
  ]

  module _ (answer : World fl → World fl × Option ℕ) (turns : ℕ → Turn fl) (tenant : String)
      (w : World fl) (ticks : Ticks turns) where
    -- Where new tenants are registered, and the loop's clock goes on with each sleep: a request for a
    -- named tenant is answered after n sleeps, 150 at most, whatever the other goroutines do. In each
    -- turn before the last the tenant has no topology and the 15 seconds are not over; in the last it
    -- has one or they are over. The answer has the topology of the last turn and the state that the
    -- first resume left; it is free of errors if the last resume succeeded, and else says that it
    -- failed.
    pub http_answers :
        (wait_st now : ℕ)
        → auto_registers g.option_run_mode ≡ true
        → str_eq tenant "" ≡ false
        → wait_st ≤ (turns 0).time
        → let first = resume fl g answer tenant (register_if_new fl g tenant w) in
          let at = after_sleeps fl g turns tenant first in
          (n : ℕ) × (r : ResumeAndGetTopologyResult) × (n ≤ 150)
          × (http_resume_and_get_topology fl g answer turns 151 wait_st now tenant w
              ≡ some ((at n).0, r))
          × EndsAt fl g turns tenant (λ i. (at i).0) (in_time fl g turns tenant wait_st) n
          × (r.topology ≡ get_topology tenant (at n).0.meta)
          × (r.state ≡ tenant_state_to_string (get_tenant_state tenant first.0.meta).1)
          × (r.has_error ≡ (if (at n).1 then 0 else 1))
          × (r.error_info ≡ (if (at n).1 then "" else "resume failed"))
    unfolding http_resume_and_get_topology
    http_answers wait_st now a named t =
        let w1 = register_if_new fl g tenant w in
        let first = resume fl g answer tenant w1 in
        let at = after_sleeps fl g turns tenant first in
        let current = tenant_state_to_string (get_tenant_state tenant first.0.meta).1 in
        let (n, few, e, q) =
          wait_topology-EndsAt fl g turns tenant ticks wait_st first 151 0 (omega arith)
            (omega arith) (omega (arith, t)) (λ j h. absurd (omega (arith, h))) in
        elim (Bool-cases (at n).1) [
          | inl b ↦ (
            n,
            write_resp 0 current "" (get_topology tenant (at n).0.meta) now,
            few,
            rw (named, register_known tenant w a, e, b) refl,
            q,
            refl,
            refl,
            rw b refl,
            rw b refl,
          )
          | inr b ↦ (
            n,
            write_resp 1 current "resume failed" (get_topology tenant (at n).0.meta) now,
            few,
            rw (named, register_known tenant w a, e, b) refl,
            q,
            refl,
            refl,
            rw b refl,
            rw b refl,
          )
        ]

    -- Where the loop's clock goes on with each sleep: the grpc request for a tenant that is not known
    -- after the resume is answered at once, with the error that there is no such tenant. For a known
    -- one it is answered after n sleeps, 610 at most, whatever the other goroutines do: in each turn
    -- before the last the tenant has no topology and the 60 seconds are not over. In the last either
    -- they are not over, and the answer has the tenant's topology, which is not empty, and no error
    -- but that the resume failed if it did; or they are over, and the answer is the error of a timeout.
    pub rpc_answers :
        (st : ℕ)
        → st ≤ (turns 0).time
        → let first = resume fl g answer tenant w in
          let at = after_turns turns first.0 in
          let result = rpc_resume_and_get_topology fl g answer turns 611 st tenant w in
          (r : ResumeAndGetTopologyResponse) × ((((get_tenant_state tenant first.0.meta).0 ≡ false)
              × (result ≡ some (first.0, r))
              × (r.topology ≡ none)
              × (r.has_err ≡ true)
              × (r.err_info ≡ "no such tidb-cluster"))
            ⊎ (((get_tenant_state tenant first.0.meta).0 ≡ true)
                × (n : ℕ) × (n ≤ 610)
                × (result ≡ some (at n, r))
                × ((j : ℕ)
                    → j < n
                    → Lacks fl g turns tenant (at j) × (rpc_in_time fl g turns tenant st j ≡ true))
                × (((rpc_in_time fl g turns tenant st n ≡ true)
                      × (r.topology ≡ some (get_topology tenant (at n).meta))
                      × (is_empty (get_topology tenant (at n).meta) ≡ false)
                      × (r.has_err ≡ not first.1)
                      × (r.err_info ≡ (if first.1 then "" else "resume failed")))
                    ⊎ ((rpc_in_time fl g turns tenant st n ≡ false)
                        × (r.topology ≡ none)
                        × (r.has_err ≡ true)
                        × (r.err_info ≡ "timeout")))))
    unfolding rpc_resume_and_get_topology
    rpc_answers st t =
        let (w1, flag) = resume fl g answer tenant w in
        let (known, state, cnt) = get_tenant_state tenant w1.meta in
        elim (Bool-cases known) [
          | inr k ↦ (
            record {
              has_err = true;
              err_info = "no such tidb-cluster";
              cur_state = "";
              topology = none;
            },
            inl (k, rw k refl, refl, refl, refl),
          )
          | inl k ↦
              let (n, few, topo, e, waited, q) =
                rpc_wait_topology-EndsAt fl g turns tenant ticks st w1 611 0 (omega arith)
                  (omega arith) (omega (arith, t)) (λ j h. absurd (omega (arith, h))) in
              elim q [
                | inl (l, a, b) ↦ (
                  record {
                    has_err = not flag;
                    err_info = if flag then "" else "resume failed";
                    cur_state = tenant_state_to_string state;
                    topology = some topo;
                  },
                  inr (
                    k,
                    n,
                    few,
                    rw (k, e, a) refl,
                    waited,
                    inl (l, ap some b, rw (← b) a, refl, refl),
                  ),
                )
                | inr (l, a) ↦ (
                  record {
                    has_err = true;
                    err_info = "timeout";
                    cur_state = tenant_state_to_string state;
                    topology = none;
                  },
                  inr (k, n, few, rw (k, e, a) refl, waited, inr (l, refl, refl, refl)),
                )
              ]
        ]
