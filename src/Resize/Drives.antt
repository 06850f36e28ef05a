-- ===== src/Resize/Drives.antt =====
-- How events, corrections, answers and requests drive the states of tenants.
use tiflash_autoscale.Prelude.{
  ℕ, ℤ, String, refl, false, not, Option, none, some, inl, inr, arith, Bool-cases, Option-cases,
}
use tiflash_autoscale.Float.{Float64}
use tiflash_autoscale.Config.{Settings}
use tiflash_autoscale.Tenant.{
  resumed, resuming, paused, pausing, switch_state, sync_state_pausing, sync_state_resuming,
  set_pod_with_tenant_info,
}
use tiflash_autoscale.Meta.{AutoScaleMeta, get_tenant_desc, on_tenant, put_back}
use tiflash_autoscale.Meta.States.{
  Evolve, Same, OrResumed, Evolve-refl, Evolve-map, set_pod_with_tenant_info-Evolve,
  put_back-Evolve, update_pod-Evolve, handle_k8s_del_pod_event-Evolve,
}
use tiflash_autoscale.Meta.Joined.{update_local_meta_pod_of_tenant-Evolve}
use tiflash_autoscale.Watch.{
  EventType, Pod, added, modified, deleted, error, bookmark, handle_event,
}
use tiflash_autoscale.Resize.{Call, Result, Direction, adding, removing}
use tiflash_autoscale.Resize.World.{
  World, reply, on_success, wait_unassigning, async_pause, async_resume, resize_pods_of_tenant,
}
use tiflash_autoscale.Resize.Machine.{Switches, on_tenant-Switches}

module _ (fl : Float64) (g : Settings fl) where
  pub handle_event-Evolve :
      (now : ℤ) (e : EventType) (pod : Pod) (c : AutoScaleMeta)
      → Evolve Same c (handle_event now e pod c)
  unfolding handle_event
  handle_event-Evolve now added pod c = update_pod-Evolve now pod.name pod.ip c
  handle_event-Evolve now modified pod c = update_pod-Evolve now pod.name pod.ip c
  handle_event-Evolve now deleted pod c = handle_k8s_del_pod_event-Evolve now pod.name c
  handle_event-Evolve now error pod c = Evolve-refl Same c c (λ s. refl) refl
  handle_event-Evolve now bookmark pod c = Evolve-refl Same c c (λ s. refl) refl

  on_success-Evolve :
      (now : ℤ) (p : ℕ) (start : ℤ) (k : Call) (w : World fl)
      → Evolve Same w.meta (on_success fl g now p start k w).meta
  unfolding on_success
  on_success-Evolve now p start k w = by_direction k.direction
    where
      by_direction :
          (d : Direction)
          → Evolve Same w.meta (elim d [
            | adding ↦
                on_tenant k.tenant (set_pod_with_tenant_info (w.meta.heap p).name p start) w.meta
            | removing ↦ put_back now k.tenant p false w.meta
          ])
      by_direction adding =
          set_pod_with_tenant_info-Evolve k.tenant (w.meta.heap p).name p start w.meta
      by_direction removing = put_back-Evolve now k.tenant p false w.meta

  pub reply-Evolve :
      (now : ℤ) (p : ℕ) (a : Option Result) (w : World fl) (k : Call)
      → Evolve OrResumed w.meta (reply fl g now p a w k).0.meta
  unfolding reply wait_unassigning
  reply-Evolve now p none w k = Evolve-refl OrResumed w.meta w.meta (λ s. inl refl) refl
  reply-Evolve now p (some r) w k = elim (Bool-cases (not r.has_err)) [
    | inl b ↦ rw b (
        Evolve-map Same OrResumed w.meta (on_success fl g now p r.start_time k w).meta (λ s s'. inl)
          (on_success-Evolve now p r.start_time k w))
    | inr b ↦ elim (Bool-cases r.is_unassigning) [
      | inl d ↦ rw (b, d) (Evolve-refl OrResumed w.meta w.meta (λ s. inl refl) refl)
      | inr d ↦
          rw (b, d)
            (update_local_meta_pod_of_tenant-Evolve fl g now p r.tenant_id r.start_time w.meta)
    ]
  ]

  pub async_pause-Evolve :
      (k : String) (w : World fl)
      → Evolve (Switches resumed pausing) w.meta (async_pause fl g k w).0.meta
  unfolding async_pause sync_state_pausing
  async_pause-Evolve k w = elim (Option-cases (get_tenant_desc k w.meta)) [
    | inl n ↦ rw (n, async_pause) (Evolve-refl _ w.meta w.meta (λ s. inl refl) refl)
    | inr (t, n) ↦ elim (Bool-cases (switch_state resumed pausing t).1) [
      | inl b ↦ rw (n, b, async_pause) (on_tenant-Switches resumed pausing k w.meta)
      | inr b ↦ rw (n, b, async_pause) (Evolve-refl _ w.meta w.meta (λ s. inl refl) refl)
    ]
  ]

  pub async_resume-Evolve :
      (k : String) (w : World fl)
      → Evolve (Switches paused resuming) w.meta (async_resume fl g k w).0.meta
  unfolding async_resume sync_state_resuming
  async_resume-Evolve k w = elim (Option-cases (get_tenant_desc k w.meta)) [
    | inl n ↦ rw (n, async_resume) (Evolve-refl _ w.meta w.meta (λ s. inl refl) refl)
    | inr (t, n) ↦ elim (Bool-cases (switch_state paused resuming t).1) [
      | inl b ↦ rw (n, b, async_resume) (on_tenant-Switches paused resuming k w.meta)
      | inr b ↦ rw (n, b, async_resume) (Evolve-refl _ w.meta w.meta (λ s. inl refl) refl)
    ]
  ]

  pub resize-Evolve :
      (from target : ℤ) (k : String) (w : World fl)
      → Evolve Same w.meta (resize_pods_of_tenant fl g from target k w).meta
  unfolding resize_pods_of_tenant
  resize-Evolve from target k w =
      Evolve-refl Same w.meta (resize_pods_of_tenant fl g from target k w).meta (λ s. refl)
        (ground arith)
