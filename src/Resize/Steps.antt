-- ===== src/Resize/Steps.antt =====
-- The program as steps: each is what one goroutine does while it holds the mutex of the meta data.
use tiflash_autoscale.Prelude.{
  ℕ, ℤ, ◌<◌, String, str_eq, ◌≡◌, Bool, true, false, Option, none, some, List, [], ◌∷◌, ◌++◌,
  contains,
}
use tiflash_autoscale.Dict
use tiflash_autoscale.Float.{Float64}
use tiflash_autoscale.Config.{Settings, ConfigOfComputeCluster}
use tiflash_autoscale.Tenant.{TenantState, try_to_reload_conf, change_holder}
use tiflash_autoscale.Meta.{AutoScaleMeta, on_tenant}
use tiflash_autoscale.Startup.{sort_pods_at_start_up}
use tiflash_autoscale.Meta.Setup.{
  update_local_meta_pod_of_tenant, new_auto_scale_meta, setup_tenant_with_config,
  setup_auto_pause_tenant_with_state,
}
use tiflash_autoscale.Meta.Update.{Fresh}
use tiflash_autoscale.Cluster.{Api, CloneSet, do_pods_warm}
use tiflash_autoscale.Resize.Reply.{moving}
use tiflash_autoscale.Watch.{Pod, EventType, handle_event, GetTenantResponse, may_ask, correction}
use tiflash_autoscale.Resize.{Call, Request, Result, refused, begun, begin_call, finish_call}
use tiflash_autoscale.Resize.World.{
  World, Asked, Correction, reply, end_wait, async_pause, async_resume, resize_pods_of_tenant,
}

module _ (fl : Float64) (g : Settings fl) where
  -- A call goes on after a reply.
  abbrev pub answered : ℤ → ℕ → Option Result → Call → World fl → World fl
  answered now p a k w =
      let (w', k') = reply fl g now p a w k in record w' { calls = k' ∷ w'.calls }

  -- The correction of a pod that an answer leads to, if it does.
  abbrev pub noted : ℕ → Option (String × ℤ) → List Correction → List Correction
  noted p none l = l
  noted p (some (tenant, start_time)) l =
      record { pod = p; tenant = tenant; start_time = start_time } ∷ l

  -- Pod names are not used again, tenants have names, and the pod of a correction has an
  -- address. What ApiGetCurrentTenantAndCorrect does is in three steps, and any others come between.
  pub data Step (w : World fl) : World fl → Type 0 where
    k8s_event :
        (now : ℤ) (e : EventType) (pod : Pod)
        → (Dict.lookup pod.name w.meta.pod_desc_map ≡ none → Fresh pod.name w.meta)
        → Step w (record w { meta = handle_event now e pod w.meta })
    new_tenant :
        (tenant : String) (holder : ConfigOfComputeCluster) (s : TenantState)
        → str_eq tenant "" ≡ false
        → Step w (record w { meta = (setup_tenant_with_config tenant holder s w.meta).0 })
    new_auto_pause_tenant :
        (tenant : String) (lo hi : ℤ) (s : TenantState)
        → str_eq tenant "" ≡ false
        → Step w
            (record w { meta = (setup_auto_pause_tenant_with_state fl g tenant lo hi s w.meta).0 })
    ask_tenant :
        (try_lock : Bool) (p : ℕ) (at_startup : Bool)
        → may_ask try_lock p w.meta ≡ true
        → Step w (record w { asked = record { pod = p; at_startup = at_startup } ∷ w.asked })
    told_tenant :
        (before after : List Asked) (a : Asked) (told : Option GetTenantResponse)
        → w.asked ≡ before ++ a ∷ after
        → Step w (record w {
          asked = before ++ after;
          corrections = noted a.pod (correction a.pod a.at_startup told w.meta) w.corrections;
        })
    correct :
        (now : ℤ) (before after : List Correction) (k : Correction)
        → w.corrections ≡ before ++ k ∷ after
        → k.pod < w.meta.next_pod
        → str_eq (w.meta.heap k.pod).ip "" ≡ false
        → Step w (record w {
          meta = update_local_meta_pod_of_tenant fl g now k.pod k.tenant k.start_time w.meta;
          corrections = before ++ after;
        })
    sort_at_startup :
        (k : String)
        → str_eq k "" ≡ false
        → w.calls ≡ []
        → w.waits ≡ []
        → Step w (record w { meta = on_tenant k (λ h t. (h, sort_pods_at_start_up h t)) w.meta })
    conf_changes :
        (k : String) (latest : ConfigOfComputeCluster)
        → Step w (record w { meta = on_tenant k (λ h t. (h, change_holder latest t)) w.meta })
    reload_conf :
        (k : String)
        → Step w
            (record w { meta = on_tenant k (λ h t. (h, (try_to_reload_conf false t).0)) w.meta })
    runtime_ready : Step w (record w { meta = record w.meta { is_runtime_ready = true } })
    warm :
        (api : ℕ → Api) (now : ℤ) (cs : CloneSet)
        → Step w (record w {
          meta = record w.meta {
            heap = (do_pods_warm api now w.meta.heap w.meta.prewarm_pool cs).0;
            prewarm_pool = (do_pods_warm api now w.meta.heap w.meta.prewarm_pool cs).1;
          };
        })
    pause : (tenant : String) → Step w (async_pause fl g tenant w).0
    resume : (tenant : String) → Step w (async_resume fl g tenant w).0
    resize :
        (from target : ℤ) (tenant : String)
        → Step w (resize_pods_of_tenant fl g from target tenant w)
    begin_refused :
        (now : ℤ) (before after : List Request) (r : Request)
        → w.requests ≡ before ++ r ∷ after
        → begin_call now r w.meta ≡ refused
        → Step w (record w { requests = before ++ after })
    begin :
        (now : ℤ) (before after : List Request) (r : Request) (c : AutoScaleMeta) (k : Call)
        → w.requests ≡ before ++ r ∷ after
        → str_eq r.tenant "" ≡ false
        → begin_call now r w.meta ≡ begun c k
        → Step w (record w { meta = c; requests = before ++ after; calls = k ∷ w.calls })
    answer :
        (now : ℤ) (before after : List Call) (k : Call) (p : ℕ) (a : Option Result)
        → w.calls ≡ before ++ k ∷ after
        → contains p k.todo ≡ true
        → Step w (answered now p a k (record w { calls = before ++ after }))
    finish :
        (now : ℤ) (before after : List Call) (k : Call)
        → w.calls ≡ before ++ k ∷ after
        → k.todo ≡ []
        → Step w (record w { meta = (finish_call now k w.meta).0; calls = before ++ after })
    wait_over :
        (now : ℤ) (before after : List (String × ℕ)) (tenant : String) (p : ℕ)
        → w.waits ≡ before ++ (tenant, p) ∷ after
        → Step w (end_wait fl g now tenant p (record w { waits = before ++ after }))

  -- A correction is undisturbed if no running call has taken its pod when it is written. Every other
  -- step is.
  abbrev pub Undisturbed : {w w' : World fl} → Step w w' → Type 0
  Undisturbed {w = w} (correct now before after k e known has_ip) =
      contains k.pod (moving w) ≡ false
  Undisturbed _ = Unit

  -- The states that undisturbed steps reach.
  pub data Reachable : World fl → Type 0 where
    start :
        (w : World fl)
        → w.meta ≡ new_auto_scale_meta fl g
        → w.calls ≡ []
        → w.waits ≡ []
        → w.asked ≡ []
        → w.corrections ≡ []
        → Reachable w
    and_then : (w w' : World fl) → Reachable w → (s : Step w w') → Undisturbed s → Reachable w'
