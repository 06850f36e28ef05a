-- ===== src/Resize/World.antt =====
-- autoscale/meta.go: AsyncPause, AsyncResume, ResizePodsOfTenant and HandleUnassingCase, and what a
-- running call does with a reply.
use tiflash_autoscale.Prelude.{
  ℕ, ℤ, pos, ◌-ℤ◌, ltb_ℤ, String, Bool, true, false, not, Option, none, some, List, [], ◌∷◌, ◌++◌,
  without, if◌then◌else◌,
}
use tiflash_autoscale.Float.{Float64}
use tiflash_autoscale.Config.{Settings, get_init_cnt_of_pod}
use tiflash_autoscale.Series.Container.{TimeSeriesContainer, reset_metrics_of_pod}
use tiflash_autoscale.Tenant.{
  get_cnt_of_pods, set_pod_with_tenant_info, sync_state_pausing, sync_state_resuming,
}
use tiflash_autoscale.Meta.{AutoScaleMeta, get_tenant_desc, on_tenant, put_back}
use tiflash_autoscale.Meta.Setup.{update_local_meta_pod_of_tenant}
use tiflash_autoscale.Resize.{Result, adding, removing, Call, Request}

-- A pod that ApiGetCurrentTenantAndCorrect asks for its tenant, and one that it will write to a tenant.
pub record Asked : Type 0 where
  pub pod : ℕ
  pub at_startup : Bool

pub record Correction : Type 0 where
  pub pod : ℕ
  pub tenant : String
  pub start_time : ℤ

-- The meta data, the samples, the calls that are asked for, those that wait for pods, the pods that
-- HandleUnassingCase waits for, with the tenant that it was told, the pods that are asked for their
-- tenants, and the corrections that wait for the mutex of the meta data.
pub record World (fl : Float64) : Type 0 where
  pub meta : AutoScaleMeta
  pub ts_container : TimeSeriesContainer fl
  pub requests : List Request
  pub calls : List Call
  pub waits : List (String × ℕ)
  pub asked : List Asked
  pub corrections : List Correction

module _ (fl : Float64) (g : Settings fl) where
  unfoldable pub async_pause : String → World fl → World fl × Bool
  async_pause tenant w = elim (get_tenant_desc tenant w.meta) [
    | none ↦ (w, false)
    | some t ↦
        if (sync_state_pausing t).1
        then (
          record w {
            meta = on_tenant tenant (λ h t. (h, (sync_state_pausing t).0)) w.meta;
            requests =
                record {
                  direction = removing;
                  tenant = tenant;
                  changes_state = true;
                  cnt = pos (get_cnt_of_pods t);
                }
                ∷ w.requests;
          },
          true,
        )
        else (w, false)
  ]

  unfoldable pub async_resume : String → World fl → World fl × Bool
  async_resume tenant w = elim (get_tenant_desc tenant w.meta) [
    | none ↦ (w, false)
    | some t ↦
        if (sync_state_resuming t).1
        then (
          record w {
            meta = on_tenant tenant (λ h t. (h, (sync_state_resuming t).0)) w.meta;
            requests =
                record {
                  direction = adding;
                  tenant = tenant;
                  changes_state = true;
                  cnt = get_init_cnt_of_pod fl g t.conf;
                }
                ∷ w.requests;
          },
          true,
        )
        else (w, false)
  ]

  unfoldable pub resize_pods_of_tenant : ℤ → ℤ → String → World fl → World fl
  resize_pods_of_tenant from target tenant w =
      if ltb_ℤ from target
      then record w {
        requests =
            record {
              direction = adding;
              tenant = tenant;
              changes_state = false;
              cnt = target -ℤ from;
            }
            ∷ w.requests;
      }
      else if ltb_ℤ target from
      then record w {
        requests =
            record {
              direction = removing;
              tenant = tenant;
              changes_state = false;
              cnt = from -ℤ target;
            }
            ∷ w.requests;
      }
      else w

  -- HandleUnassingCase starts to wait, and is done with waiting.
  unfoldable pub wait_unassigning : String → ℕ → World fl → World fl
  wait_unassigning tenant p w = record w { waits = (tenant, p) ∷ w.waits }

  unfoldable pub end_wait : ℤ → String → ℕ → World fl → World fl
  end_wait now tenant p w = record w {
    meta = put_back now tenant p false w.meta;
    ts_container = reset_metrics_of_pod fl (w.meta.heap p).name w.ts_container;
  }

  -- What a call does for a pod that has done as it was asked.
  unfoldable pub on_success : ℤ → ℕ → ℤ → Call → World fl → World fl
  on_success now p start_time k w = record w {
    ts_container = reset_metrics_of_pod fl (w.meta.heap p).name w.ts_container;
    meta = elim k.direction [
      | adding ↦
          on_tenant k.tenant (set_pod_with_tenant_info (w.meta.heap p).name p start_time) w.meta
      | removing ↦ put_back now k.tenant p false w.meta
    ];
  }

  -- A pod answers. The calling world is the one without the call.
  unfoldable pub reply : ℤ → ℕ → Option Result → World fl → Call → World fl × Call
  unfolding wait_unassigning on_success
  reply now p answer w k =
      let k' : Call = record k { todo = without p k.todo } in
      elim answer [
        | none ↦ (w, record k' { undo_list = k.undo_list ++ p ∷ [] })
        | some r ↦
            if not r.has_err
            then (on_success now p r.start_time k w, k')
            else if r.is_unassigning
            then (wait_unassigning r.tenant_id p w, k')
            else (
              record w {
                meta = update_local_meta_pod_of_tenant fl g now p r.tenant_id r.start_time w.meta;
              },
              k',
            )
      ]
