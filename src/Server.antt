-- ===== src/Server.antt =====
-- autoscale/http_server.go and autoscale/rpc_server.go: the requests of TiDB clusters; and
-- autoscale/cluster.go: Resume. What is written to the client as JSON or by grpc is a record. What the
-- other goroutines do while a request sleeps or waits is an argument, and so is the clock, in
-- nanoseconds. Loops that wait run on fuel, and are none if it runs out.
pub mod Polling
pub mod Answers
use tiflash_autoscale.Prelude.{
  ℕ, zero, suc, ◌+◌, ◌-◌, ◌*◌, ◌/◌, ltb, leb, ℤ, pos, String, str_eq, Bool, true, false, not, ◌&&◌,
  Option, none, some, is_some, List, [], ◌∷◌, if◌then◌else◌,
}
use tiflash_autoscale.Float.{Float64}
use tiflash_autoscale.Config.{Settings, RunMode, local, serverless}
use tiflash_autoscale.Tenant.{TenantState, paused, tenant_state_to_string}
use tiflash_autoscale.Meta.{AutoScaleMeta, get_tenant_state, get_topology}
use tiflash_autoscale.Meta.Setup.{auto_registers, setup_auto_pause_tenant_with_state}
use tiflash_autoscale.Resize.World.{World, async_pause, async_resume}
use tiflash_autoscale.Series.Stats.{◌>>=◌}

-- The number of nanoseconds in a second.
abbrev pub second : ℕ
second = 1000000000

-- HttpResumeWaitTimoueSec and HttpResumeCheckIntervalMs.
abbrev pub http_resume_wait_timeout_sec : ℕ
http_resume_wait_timeout_sec = 15

abbrev pub http_resume_check_interval_ms : ℕ
http_resume_check_interval_ms = 100

-- The variable TimeOutSec of the grpc server.
abbrev pub rpc_timeout_sec : ℕ
rpc_timeout_sec = 60

pub record ResumeAndGetTopologyResult : Type 0 where
  pub has_error : ℕ
  pub error_info : String
  pub state : String
  pub topology : List String
  pub timestamp : ℕ

pub record GetStateResult : Type 0 where
  pub has_error : ℕ
  pub error_info : String
  pub state : String
  pub num_of_rns : ℕ

-- pb.ResumeAndGetTopologyResponse, whose topology is a pointer.
pub record ResumeAndGetTopologyResponse : Type 0 where
  pub has_err : Bool
  pub err_info : String
  pub cur_state : String
  pub topology : Option (List String)

-- The rest of the program around one turn of a waiting loop: the clock at the loop's test, what the
-- other goroutines do during the sleep, and what they do until a call that resumes a tenant has
-- returned, with the number that it returns; none is -1.
pub record Turn (fl : Float64) : Type 0 where
  pub time : ℕ
  pub others : World fl → World fl
  pub answer : World fl → World fl × Option ℕ

-- The method WriteResp of each result.
abbrev pub write_resp : ℕ → String → String → List String → ℕ → ResumeAndGetTopologyResult
write_resp has_err state err_info topo now = record {
  has_error = has_err;
  error_info = err_info;
  state = state;
  topology = topo;
  timestamp = now;
}

abbrev pub write_state_resp : ℕ → String → String → ℕ → GetStateResult
write_state_resp has_err err_info state num_of_rns = record {
  has_error = has_err;
  error_info = err_info;
  state = state;
  num_of_rns = num_of_rns;
}

abbrev pub is_empty : List String → Bool
is_empty [] = true
is_empty (x ∷ xs) = false

module _ (fl : Float64) (g : Settings fl) where
  -- ClusterManager.Resume: it waits for the call that AsyncResume starts.
  unfoldable pub resume : (World fl → World fl × Option ℕ) → String → World fl → World fl × Bool
  resume answer tenant w =
      let (w1, ret) = async_resume fl g tenant w in
      if ret then (let (w2, res) = answer w1 in (w2, is_some res)) else (w1, false)

  -- The loop of ResumeAndGetTopology that waits for a topology, from the clock's reading at its start.
  unfoldable pub wait_topology :
      (ℕ → Turn fl) → ℕ → String → ℕ → ℕ → World fl → Bool → Option (World fl × Bool)
  unfolding resume
  wait_topology turns wait_st tenant zero i w flag = none
  wait_topology turns wait_st tenant (suc fuel) i w flag =
      let (w', flag') = resume (turns i).answer tenant ((turns i).others w) in
      let rest = wait_topology turns wait_st tenant fuel (suc i) w' flag' in
      if is_empty (get_topology tenant w.meta)
        && ltb ((turns i).time - wait_st) (http_resume_wait_timeout_sec * second)
      then rest
      else some (w, flag)

  -- The tenant of a request is registered where the run mode allows it.
  unfoldable pub register_if_new : String → World fl → World fl
  register_if_new tenant w =
      if (get_tenant_state tenant w.meta).0
      then w
      else if auto_registers g.option_run_mode
      then record w {
        meta =
            (setup_auto_pause_tenant_with_state fl g tenant g.default_min_cnt_of_pod
              g.default_max_cnt_of_pod paused w.meta).0;
      }
      else w

  -- ResumeAndGetTopology of the HTTP server; the first argument is what goes on while the first Resume
  -- waits. The last number is the time of the answer.
  unfoldable pub http_resume_and_get_topology :
      (World fl → World fl × Option ℕ)
      → (ℕ → Turn fl)
      → ℕ
      → ℕ
      → ℕ
      → String
      → World fl
      → Option (World fl × ResumeAndGetTopologyResult)
  unfolding register_if_new resume wait_topology
  http_resume_and_get_topology answer turns fuel wait_st now tenant w =
      if str_eq tenant ""
      then some (w, write_resp 1 "unknown" "invalid tidbclusterid" [] now)
      else (let w1 = register_if_new tenant w in
          let (known, state, cnt) = get_tenant_state tenant w1.meta in
          if not known
          then some (
            w1,
            write_resp 1 (tenant_state_to_string state) "get state failed, tenant does not exist" []
                now,
          )
          else (let (w2, flag) = resume answer tenant w1 in
              let current = tenant_state_to_string (get_tenant_state tenant w2.meta).1 in
              wait_topology turns wait_st tenant fuel 0 w2 flag >>= λ r. some (
                r.0,
                if r.1
                    then write_resp 0 current "" (get_topology tenant r.0.meta) now
                    else write_resp 1 current "resume failed" (get_topology tenant r.0.meta) now,
              )))

  -- HttpHandlePauseForTest.
  unfoldable pub http_pause_for_test : ℕ → String → World fl → World fl × ResumeAndGetTopologyResult
  http_pause_for_test now tenant w =
      if str_eq tenant ""
      then (w, write_resp 1 "unknown" "invalid tidbclusterid" [] now)
      else (let (w', flag) = async_pause fl g tenant w in
          let current = tenant_state_to_string (get_tenant_state tenant w'.meta).1 in
          (
            w',
            if flag
                then write_resp 0 current "" [] now
                else write_resp 1 current "pause failed" [] now,
          ))

  -- The loop of the grpc server.
  unfoldable pub rpc_wait_topology :
      (ℕ → Turn fl) → ℕ → String → ℕ → ℕ → World fl → Option (World fl × List String)
  rpc_wait_topology turns st tenant zero i w = none
  rpc_wait_topology turns st tenant (suc fuel) i w =
      let rest = rpc_wait_topology turns st tenant fuel (suc i) ((turns i).others w) in
      if leb ((turns i).time / second - st / second) rpc_timeout_sec
      then (if is_empty (get_topology tenant w.meta)
          then rest
          else some (w, get_topology tenant w.meta))
      else some (w, [])

  -- ResumeAndGetTopology of the grpc server. An empty list from the loop is a timeout.
  unfoldable pub rpc_resume_and_get_topology :
      (World fl → World fl × Option ℕ)
      → (ℕ → Turn fl)
      → ℕ
      → ℕ
      → String
      → World fl
      → Option (World fl × ResumeAndGetTopologyResponse)
  unfolding resume rpc_wait_topology
  rpc_resume_and_get_topology answer turns fuel st tenant w =
      let (w1, flag) = resume answer tenant w in
      let (known, state, cnt) = get_tenant_state tenant w1.meta in
      if not known
      then some (
        w1,
        record {
          has_err = true;
          err_info = "no such tidb-cluster";
          cur_state = "";
          topology = none;
        },
      )
      else (rpc_wait_topology turns st tenant fuel 0 w1 >>= λ r. some (
        r.0,
        if is_empty r.1
            then record {
              has_err = true;
              err_info = "timeout";
              cur_state = tenant_state_to_string state;
              topology = none;
            }
            else record {
              has_err = not flag;
              err_info = if flag then "" else "resume failed";
              cur_state = tenant_state_to_string state;
              topology = some r.1;
            },
      ))

-- GetStateServer, of the form value tenantName.
unfoldable pub get_state_server : String → AutoScaleMeta → GetStateResult
get_state_server tenant_name c =
    let tenant = if str_eq tenant_name "" then "t1" else tenant_name in
    let (flag, state, num_of_rns) = get_tenant_state tenant c in
    if flag
    then write_state_resp 0 "" (tenant_state_to_string state) num_of_rns
    else write_state_resp 1 "get state failed" (tenant_state_to_string state) num_of_rns
